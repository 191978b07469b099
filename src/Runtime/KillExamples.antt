-- ===== src/Runtime/KillExamples.antt =====
-- Submissions and kills between whose transactions others change the tables: two submissions to a
-- queue of one place, and the kill of a task that is dispatched meanwhile.
use execgo_runtime.Runtime.Service.{quiet, Service, Host, new_record, submit_task, admit, prepare}
use execgo_runtime.Runtime.Admission.{submit_task-overfills}
use execgo_runtime.Repo.Writes.{set_cancel_requested, cancel_requested}
use execgo_runtime.Repo.Queries.{count_accepted}
use execgo_runtime.Base.{◌<◌, map_option, ap, ◌∙◌, if◌then◌else◌, ℕ, leb}
use execgo_runtime.Runtime.Kill.{
  Killer, Others, nobody_else, check_owner, kill_owned, request_kill, stop_task, kill_task,
}
use execgo_runtime.Runtime.Stop.{Leaves, IsKilled, kill_task-IsKilled}
use execgo_runtime.Types.Request.{SubmitTaskResponse}
use execgo_runtime.Types.Control.{ControlContext}
use execgo_runtime.Repo.Lifecycle.{find_row-update_row_self}
use execgo_runtime.Types.Request
use execgo_runtime.Types.Execution
use execgo_runtime.Types.Limits
use execgo_runtime.Types.Sandbox
use execgo_runtime.Types.Sandbox.{resolve_workspace_dir}
use execgo_runtime.Runtime.Service.{script_path_of}
use execgo_runtime.Ledger.{ensure_within_capacity, ensure_within_tenant_quota}
use execgo_runtime.Base.Text.{trim}
use execgo_runtime.Repo.Writes.{insert_task, insert_events, insert_degraded}
use execgo_runtime.Policy.Examples.{adaptive_request, fallen_back, adaptive_plan}
use execgo_runtime.Repo.Examples.{accepted_row}
use execgo_runtime.Base.{◌≡◌, refl, ◌+◌, false, some, none, [], ◌∷◌, arith}
use execgo_runtime.Errors.{ok}
use execgo_runtime.Types.Status.{TaskStatus, is_terminal}
use execgo_runtime.Repo.Queries.{count_by_status}
use execgo_runtime.Repo.Writes.{active_reservation, get_task}
use execgo_runtime.Repo.Finish.{cancel_accepted_task, insert_released}
use execgo_runtime.Repo.Rows.{
  update, TaskRecord, empty, find_row, NewTaskRecord, insert_event_tx, update_row, Store,
}
use execgo_runtime.Runtime.Examples.{service, host, inserted, queue, receipt, summary}

-- A queue of one place, and the host of another submission.
abbrev one_place : Service
one_place = record service { max_queued_tasks = 1 }

abbrev host_t10 : Host
host_t10 = record host { generate_task_id = "t10" }

abbrev new_record_t10 : NewTaskRecord
new_record_t10 =
    new_record adaptive_request fallen_back "t10" "/data/tasks/t10" "/data/tasks/t10/workspace"

abbrev receipt_t10 : SubmitTaskResponse
receipt_t10 = record { task_id = "t10"; handle_id = "t10"; status = TaskStatus.accepted }

fills : submit_task one_place host quiet adaptive_request empty ≡ ok (queue, receipt)
unfolding submit_task admit prepare Request.validate Execution.validate Limits.validate
    Sandbox.validate trim ensure_within_capacity ensure_within_tenant_quota resolve_workspace_dir
    script_path_of insert_task insert_events insert_degraded insert_event_tx count_by_status
fills = rw (submit_task, admit, adaptive_plan) refl

overfills :
    submit_task one_place host_t10 (λ x. queue) adaptive_request empty
    ≡ ok (inserted new_record_t10 queue, receipt_t10)
unfolding submit_task admit prepare Request.validate Execution.validate Limits.validate
    Sandbox.validate trim ensure_within_capacity ensure_within_tenant_quota resolve_workspace_dir
    script_path_of insert_task insert_events insert_degraded insert_event_tx count_by_status
overfills = rw (submit_task, admit, adaptive_plan) refl

nobody_waits : count_accepted empty + 1 ≡ 1
unfolding count_by_status
nobody_waits = refl

submit_task-overfills_example : 1 < count_accepted (inserted new_record_t10 queue)
submit_task-overfills_example =
    submit_task-overfills one_place host host_t10 adaptive_request adaptive_request empty queue
      (inserted new_record_t10 queue) receipt receipt_t10 nobody_waits fills overfills

abbrev killer : Killer
killer = record { clock = λ k. k; signal = λ target. ok tt; read_output = λ task. ok tt }

abbrev alice : ControlContext
alice = record {
  control_plane_mode = none;
  tenant = none;
  owner = some "alice";
  expected_runtime_profile = none;
  requires_strict_sandbox = false;
  requires_resource_reservation = false;
  labels = [];
}

-- A task of alice that waits.
abbrev owned_row : TaskRecord
owned_row = record accepted_row { control_context = some alice }

abbrev owned : Store
owned = record empty { tasks = owned_row ∷ [] }

owned_found : find_row "t1" owned.tasks ≡ some owned_row
unfolding find_row
owned_found = refl

-- The dispatcher starts the task after a kill has stored its request.
abbrev dispatched : ℕ → TaskRecord → TaskRecord
dispatched k row =
    if leb 1 k then record row { status = TaskStatus.running; shim_pid = some 77 } else row

abbrev dispatcher : Others
dispatcher k s = update "t1" (dispatched k) s

dispatcher-Leaves : Leaves dispatcher "t1" dispatched
dispatcher-Leaves = record {
  kept = λ k s row found.
      find_row-update_row_self "t1" (dispatched k) (λ r. ground arith) s.tasks
      ∙ ap (map_option (dispatched k)) found;
  marked = λ k row marked. ground arith;
}

kill_task-IsKilled_example :
    IsKilled "t1"
      (some "alice")
      owned_row
      owned_row
      (dispatched 1 (cancel_requested 0 owned_row))
      owned
      (kill_task killer dispatcher "t1" (some "alice") owned)
kill_task-IsKilled_example =
    kill_task-IsKilled killer dispatcher dispatched "t1" (some "alice") owned owned_row owned_found
      dispatcher-Leaves

kill_cancels :
    summary (kill_task killer nobody_else "t1" (some "alice") owned).0
    ≡ (TaskStatus.cancelled, false) ∷ []
unfolding kill_task set_cancel_requested insert_event_tx update_row get_task find_row
    cancel_accepted_task insert_released active_reservation check_owner kill_owned request_kill
    stop_task is_terminal
kill_cancels = refl

kill_of_dispatched :
    summary (kill_task killer dispatcher "t1" (some "alice") owned).0
    ≡ (TaskStatus.running, false) ∷ []
unfolding kill_task set_cancel_requested insert_event_tx update_row get_task find_row
    cancel_accepted_task insert_released active_reservation check_owner kill_owned request_kill
    stop_task is_terminal
kill_of_dispatched = refl
