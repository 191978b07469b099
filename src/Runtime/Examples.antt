-- ===== src/Runtime/Examples.antt =====
-- The theorems about the operations of the service at concrete inputs: a runtime with two slots and
-- one accepted task.
use execgo_runtime.Runtime.Service.{quiet, Service, Host, new_record, submit_task, admit, prepare}
use execgo_runtime.Runtime.Admission.{IsSubmitted, submit_task-IsSubmitted}
use execgo_runtime.Runtime.Recovery.{Restart, recover}
use execgo_runtime.Runtime.Restarted.{EndsSound, recover-EndsSound}
use execgo_runtime.Repo.Writes.{mark_recovered}
use execgo_runtime.Repo.Queries.{list_non_terminal}
use execgo_runtime.Base.{◌++◌, leb}
use execgo_runtime.Runtime.Gc.{Removal, gc_pass, find_row-gc_pass}
use execgo_runtime.Types.Request.{SubmitTaskResponse}
use execgo_runtime.Repo.Totality.{logged}
use execgo_runtime.Types.Control.{CapabilityMode}
use execgo_runtime.Types.Request
use execgo_runtime.Types.Execution
use execgo_runtime.Types.Limits
use execgo_runtime.Types.Sandbox
use execgo_runtime.Types.Sandbox.{resolve_workspace_dir}
use execgo_runtime.Runtime.Service.{script_path_of}
use execgo_runtime.Ledger.{ensure_within_capacity, ensure_within_tenant_quota}
use execgo_runtime.Base.Text.{trim}
use execgo_runtime.Repo.Writes.{insert_task, insert_events, insert_degraded}
use execgo_runtime.Policy.Examples.{bare_runtime, adaptive_request, fallen_back, adaptive_plan}
use execgo_runtime.Repo.Examples.{accepted_row}
use execgo_runtime.Base.{Bool, ◌≡◌, refl, ◌+◌, true, false, some, none, List, [], ◌∷◌, arith, map}
use execgo_runtime.Errors.{ok}
use execgo_runtime.Types.Status.{EventType, TaskStatus}
use execgo_runtime.Ledger.{ResourceLedger, can_reserve, reserved_capacity, can_reserve_for_tenant}
use execgo_runtime.Repo.Queries.{count_by_status, list_accepted, list_active_reservations}
use execgo_runtime.Repo.Writes.{
  new_row, reserve_resources, mark_dispatched, active_reservation, get_task,
}
use execgo_runtime.Repo.Finish.{complete_task, insert_released}
use execgo_runtime.Repo.Rows.{
  TaskRecord, EventData, empty, find_row, NewTaskRecord, insert_event_tx, update_row, Store,
  has_active_reservation,
}
use execgo_runtime.Repo.Examples.{accepted}
use execgo_runtime.Runtime.Dispatch.{System, Spawned, dispatch_once_sync}
use execgo_runtime.Runtime.Within.{IsWithin, dispatch_once_sync-IsWithin}

abbrev pub two_slots : ResourceLedger
two_slots = record {
  capacity = record { task_slots = 2; memory_bytes = some 1024; pids = none };
  tenant_quotas = [];
}

abbrev pub working : System
working = record {
  clock = λ id k. 10 + k;
  exe_error = λ id. none;
  spawn = λ id. Spawned.spawned 77;
  write_result = λ task. ok tt;
}

abbrev refusing : System
refusing = record working { spawn = λ id. Spawned.refused "no memory" }

abbrev pub summary : Store → List (TaskStatus × Bool)
summary s = map (λ row. (row.status, has_active_reservation row)) s.tasks

dispatch_starts :
    summary (dispatch_once_sync working two_slots 16 accepted).0 ≡ (TaskStatus.running, true) ∷ []
unfolding dispatch_once_sync list_accepted can_reserve reserved_capacity list_active_reservations
    can_reserve_for_tenant reserve_resources insert_event_tx update_row mark_dispatched
dispatch_starts = refl

dispatch_fails :
    summary (dispatch_once_sync refusing two_slots 16 accepted).0 ≡ (TaskStatus.failed, false) ∷ []
unfolding dispatch_once_sync list_accepted can_reserve reserved_capacity list_active_reservations
    can_reserve_for_tenant reserve_resources insert_event_tx update_row complete_task
    insert_released active_reservation get_task
dispatch_fails = refl

dispatch_once_sync-IsWithin_example :
    IsWithin two_slots.capacity (dispatch_once_sync working two_slots 16 accepted).0.tasks
dispatch_once_sync-IsWithin_example =
    dispatch_once_sync-IsWithin working two_slots 16 accepted (omega arith, omega arith, tt)
      (refl, tt) (omega arith, omega arith, tt)

abbrev pub service : Service
service = record {
  capabilities = bare_runtime;
  ledger = two_slots;
  default_capability_mode = CapabilityMode.adaptive;
  max_queued_tasks = 16;
  tasks_dir = "/data/tasks";
}

abbrev pub host : Host
host = record { generate_task_id = "t9"; clock = λ k. k; create_files = λ new. ok tt }

abbrev new_record_t9 : NewTaskRecord
new_record_t9 =
    new_record adaptive_request fallen_back "t9" "/data/tasks/t9" "/data/tasks/t9/workspace"

-- The tables after the insertion of a task.
abbrev pub inserted : NewTaskRecord → Store → Store
inserted new s =
    logged new.task_id EventType.degraded 4 (some "execution plan degraded")
      (some (EventData.degradation fallen_back.fallback_reasons fallen_back.effective_sandbox))
      (logged new.task_id EventType.planned 3 (some "execution plan resolved")
        (some (EventData.plan fallen_back))
        (logged new.task_id EventType.accepted 2 (some "task accepted") none (
          logged new.task_id EventType.submitted 1 (some "task submitted") none
            (record s { tasks = s.tasks ++ new_row new 0 ∷ [] }))))

abbrev pub queue : Store
queue = inserted new_record_t9 empty

abbrev pub receipt : SubmitTaskResponse
receipt = record { task_id = "t9"; handle_id = "t9"; status = TaskStatus.accepted }

pub submits : submit_task service host quiet adaptive_request empty ≡ ok (queue, receipt)
unfolding submit_task admit prepare Request.validate Execution.validate Limits.validate
    Sandbox.validate trim ensure_within_capacity ensure_within_tenant_quota resolve_workspace_dir
    script_path_of insert_task insert_events insert_degraded insert_event_tx count_by_status
submits = rw (submit_task, admit, adaptive_plan) refl

submit_task-IsSubmitted_example : IsSubmitted service quiet adaptive_request empty queue "t9"
submit_task-IsSubmitted_example =
    submit_task-IsSubmitted service host quiet adaptive_request empty queue receipt submits

abbrev pub restart : Restart
restart = record {
  clock = λ id k. 50 + k;
  process_exists = λ pid. leb pid 100;
  write_result = λ task. ok tt;
}

-- A task that was running when the service stopped, with a shim that is alive and no reservation.
abbrev stopped : Store
stopped = record accepted {
  tasks = record accepted_row { status = TaskStatus.running; shim_pid = some 42 } ∷ [];
}

recover_reserves : summary (recover restart stopped).0 ≡ (TaskStatus.running, true) ∷ []
unfolding recover list_non_terminal reserve_resources insert_event_tx update_row mark_recovered
recover_reserves = refl

recover-EndsSound_example : EndsSound restart (recover restart stopped)
recover-EndsSound_example = recover-EndsSound restart stopped (refl, tt)

-- A task that failed at time 5, and the removal of its directory.
abbrev old_row : TaskRecord
old_row = record accepted_row { status = TaskStatus.failed; finished_at = some 5 }

abbrev finished : Store
finished = record accepted { tasks = old_row ∷ [] }

old_found : find_row "t1" finished.tasks ≡ some old_row
unfolding find_row
old_found = refl

find_row-gc_pass_example : find_row "t1" (gc_pass (λ task. Removal.removed) 9 finished).tasks ≡ none
find_row-gc_pass_example =
    find_row-gc_pass (λ task. Removal.removed) 9 finished "t1" old_row (refl, tt) old_found
