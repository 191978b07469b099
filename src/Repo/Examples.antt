-- ===== src/Repo/Examples.antt =====
-- The theorems about the repository at concrete inputs: one accepted task.
use execgo_runtime.Base.{arith, ◌≡◌, refl, arith, false, some, none, [], ◌∷◌}
use execgo_runtime.Types.Plan.{legacy}
use execgo_runtime.Repo.Finish.{insert_released, cancelled_row, cancel_accepted_task, delete_task}
use execgo_runtime.Errors.{ok, err, sqlite}
use execgo_runtime.Types.Status.{EventType, TaskStatus, ErrorCode, RuntimeErrorInfo}
use execgo_runtime.Types.Execution.{ExecutionKind}
use execgo_runtime.Types.Sandbox.{default_sandbox}
use execgo_runtime.Types.Limits.{default_limits}
use execgo_runtime.Types.Request.{SubmitTaskRequest}
use execgo_runtime.Repo.Rows.{
  EventData, update, TaskRecord, NewTaskRecord, Store, Clock, empty, find_row, update_row,
  insert_event_tx, has_active_reservation,
}
use execgo_runtime.Repo.Writes.{
  active_reservation, insert_degraded, insert_events, insert_task, new_row, mark_started,
}
use execgo_runtime.Repo.Effects.{Write, apply, apply-Touches}
use execgo_runtime.Repo.Touch.{Touches}
use execgo_runtime.Repo.Lifecycle.{apply-transition}
use execgo_runtime.Repo.Consistent.{IsConsistent, Reach, Step}
use execgo_runtime.Repo.Totality.{logged, apply_total, mark_started_revives}
use execgo_runtime.Repo.Missing.{apply_missing}

abbrev pub request : SubmitTaskRequest
request = record {
  task_id = some "t1";
  execution = record {
    kind = ExecutionKind.command;
    program = some "/bin/echo";
    args = [];
    script = none;
    interpreter = none;
    env = [];
  };
  limits = default_limits;
  sandbox = default_sandbox;
  policy = none;
  control_context = none;
  metadata = [];
}

abbrev pub new_task : NewTaskRecord
new_task = record {
  task_id = "t1";
  request = request;
  task_dir = "/data/tasks/t1";
  workspace_dir = "/data/tasks/t1/workspace";
  request_path = "/data/tasks/t1/request.json";
  result_path = "/data/tasks/t1/result.json";
  stdout_path = "/data/tasks/t1/stdout.log";
  stderr_path = "/data/tasks/t1/stderr.log";
  script_path = none;
  execution_plan = legacy default_sandbox default_limits;
  control_context = none;
}

abbrev pub clock : Clock
clock = λ k. k

abbrev pub accepted_row : TaskRecord
accepted_row = new_row new_task 0

abbrev pub accepted : Store
accepted = record empty { tasks = accepted_row ∷ [] }

abbrev pub killed_error : RuntimeErrorInfo
killed_error = record { code = ErrorCode.cancelled; message = "killed"; details = none }

found : find_row "t1" accepted.tasks ≡ some accepted_row
unfolding find_row
found = refl

abbrev cancelled : Store
cancelled =
    logged "t1" EventType.cancelled 2 (some "task cancelled") none
      (update "t1" (cancelled_row "t1" killed_error 0) accepted)

cancels : apply (Write.cancel killed_error) clock "t1" accepted ≡ ok cancelled
unfolding apply cancel_accepted_task active_reservation find_row update_row insert_event_tx
    insert_released
cancels = refl

apply-Touches_example : Touches "t1" accepted cancelled
apply-Touches_example =
    apply-Touches (Write.cancel killed_error) clock "t1" accepted cancelled cancels

apply-transition_example :
    (next : TaskRecord) × (find_row "t1" cancelled.tasks ≡ some next)
    × (next.status ≡ TaskStatus.cancelled)
    × (has_active_reservation next ≡ false)
apply-transition_example =
    apply-transition (Write.cancel killed_error) clock "t1" accepted cancelled accepted_row cancels
      found

pub empty-IsConsistent : IsConsistent empty
empty-IsConsistent = record { unique = tt; owned = tt; ordered = omega arith }

abbrev submitted : Store
submitted =
    logged "t1" EventType.planned 3 (some "execution plan resolved")
      (some (EventData.plan (legacy default_sandbox default_limits)))
      (logged "t1" EventType.accepted 2 (some "task accepted") none
        (logged "t1" EventType.submitted 1 (some "task submitted") none accepted))

inserts : insert_task clock new_task empty ≡ ok submitted
unfolding insert_task insert_events insert_degraded insert_event_tx legacy
inserts = refl

deletes : delete_task "t1" submitted ≡ ok (record empty { next_seq = 4 })
unfolding delete_task
deletes = refl

inserted_and_deleted : Reach empty (record empty { next_seq = 4 })
inserted_and_deleted =
    Reach.next (Reach.next Reach.here (Step.insert new_task clock inserts))
      (Step.delete "t1" deletes)

apply_total_example : (t : Store) × (apply (Write.cancel killed_error) clock "t1" accepted ≡ ok t)
apply_total_example = apply_total (Write.cancel killed_error) clock "t1" accepted refl refl

apply_missing_example :
    apply (Write.cancel killed_error) clock "t2" accepted
    ≡ err (sqlite "FOREIGN KEY constraint failed")
apply_missing_example = apply_missing (Write.cancel killed_error) clock "t2" accepted refl refl

cancelled_row_found :
    find_row "t1" cancelled.tasks ≡ some (cancelled_row "t1" killed_error 0 accepted_row)
unfolding find_row update_row
cancelled_row_found = refl

mark_started_revives_example :
    (t : Store) × (next : TaskRecord) × (mark_started clock "t1" 100 100 none cancelled ≡ ok t)
    × (find_row "t1" t.tasks ≡ some next)
    × (next.status ≡ TaskStatus.running)
    × (next.finished_at ≡ some 0)
    × (next.error ≡ some killed_error)
mark_started_revives_example =
    mark_started_revives clock "t1" 100 100 none cancelled
      (cancelled_row "t1" killed_error 0 accepted_row) cancelled_row_found
