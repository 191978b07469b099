-- ===== src/Repo/Finish.antt =====
-- src/repo.rs: the writes that end a task, and the deletion of its row.
use execgo_runtime.Base.{
  ℕ, ◌+◌, Bool, true, not, ◌&&◌, String, Option, none, some, is_some, is_none, leb, if◌then◌else◌,
  str_eq, i64_max, map_option, keep,
}
use execgo_runtime.Errors.{AppResult, ok, invalid_input, guard, ◌>>=◌, ◌>>◌}
use execgo_runtime.Types.Status.{TaskStatus, ErrorCode, RuntimeErrorInfo, EventType}
use execgo_runtime.Types.Limits.{TaskResourceReservation}
use execgo_runtime.Repo.Rows.{
  TaskRecord, CompletionUpdate, EventData, Store, Clock, update, insert_event_tx,
}
use execgo_runtime.Repo.Writes.{active_reservation, is_accepted}

-- `CASE WHEN released_at_ms IS NULL AND reservation_json IS NOT NULL THEN now ELSE released_at_ms END`
abbrev pub release_time : ℕ → TaskRecord → Option ℕ
release_time now task =
    if is_none task.released_at && is_some task.reservation then some now else task.released_at

-- The event of a reservation that the write releases.
unfoldable pub insert_released :
    String → ℕ → Option TaskResourceReservation → Store → AppResult Store
insert_released id time none s = ok s
insert_released id time (some r) s =
    insert_event_tx id EventType.resource_released time (some "task resources released")
      (some (EventData.reservation r)) s

abbrev pub cancelled_row : String → RuntimeErrorInfo → ℕ → TaskRecord → TaskRecord
cancelled_row id error now task =
    if is_accepted task
    then record task {
      status = TaskStatus.cancelled;
      updated_at = now;
      finished_at = some now;
      released_at = release_time now task;
      error_code = some error.code;
      error = some error;
      duration_ms = some 0;
      result_json = some (record {
        task_id = id;
        handle_id = id;
        status = TaskStatus.cancelled;
        finished_at = now;
        error = error;
      });
    }
    else task

-- `Repository::cancel_accepted_task`
unfoldable pub cancel_accepted_task : Clock → String → RuntimeErrorInfo → Store → AppResult Store
cancel_accepted_task clock id error s = do
  s₁ ←
      insert_released id (clock 1) (active_reservation id s)
        (update id (cancelled_row id error (clock 0)) s)
  insert_event_tx id EventType.cancelled (clock 2) (some "task cancelled") none s₁

abbrev pub completed_row : CompletionUpdate → TaskRecord → TaskRecord
completed_row u task = record task {
  status = u.status;
  updated_at = u.finished_at;
  finished_at = some u.finished_at;
  released_at = release_time u.finished_at task;
  duration_ms = u.duration_ms;
  exit_code = u.exit_code;
  exit_signal = u.exit_signal;
  error_code = map_option (λ (e : RuntimeErrorInfo). e.code) u.error;
  error = u.error;
  usage = u.usage;
  result_json = u.result_json;
}

abbrev pub fits_i64 : Option ℕ → Bool
fits_i64 none = true
fits_i64 (some n) = leb n i64_max

-- The event type and the message that a final status has.
abbrev pub final_event : TaskStatus → EventType
final_event TaskStatus.success = EventType.finished
final_event TaskStatus.failed = EventType.failed
final_event TaskStatus.cancelled = EventType.cancelled
final_event TaskStatus.accepted = EventType.finished
final_event TaskStatus.running = EventType.finished

abbrev pub final_message : TaskStatus → String
final_message TaskStatus.success = "task finished"
final_message TaskStatus.failed = "task failed"
final_message TaskStatus.cancelled = "task cancelled"
final_message TaskStatus.accepted = "task finished"
final_message TaskStatus.running = "task finished"

-- `Repository::complete_task`; the time of the row is that of the update.
unfoldable pub complete_task : Clock → String → CompletionUpdate → Store → AppResult Store
complete_task clock id u s = do
  guard (fits_i64 u.duration_ms) (invalid_input "duration_ms is too large to persist")
  s₁ ← insert_released id (clock 0) (active_reservation id s) (update id (completed_row u) s)
  insert_event_tx id (final_event u.status) (clock 1) (some (final_message u.status)) none s₁

-- The update of a task whose shim is gone.
abbrev pub recovery_lost : ℕ → CompletionUpdate
recovery_lost now = record {
  status = TaskStatus.failed;
  finished_at = now;
  duration_ms = some 0;
  exit_code = none;
  exit_signal = none;
  error = some (record { code = ErrorCode.internal; message = "recovery_lost"; details = none });
  usage = none;
  result_json = none;
}

-- `Repository::mark_recovery_lost`
unfoldable pub mark_recovery_lost : Clock → String → Store → AppResult Store
mark_recovery_lost clock id s = complete_task (λ k. clock (1 + k)) id (recovery_lost (clock 0)) s

-- `Repository::delete_task`, and the ON DELETE CASCADE of the events.
unfoldable pub delete_task : String → Store → AppResult Store
delete_task id s = ok (record s {
  tasks = keep (λ task. not (str_eq task.task_id id)) s.tasks;
  events = keep (λ event. not (str_eq event.task_id id)) s.events;
})
