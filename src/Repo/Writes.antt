-- ===== src/Repo/Writes.antt =====
-- src/repo.rs: the writes that insert a task, move it on, and keep its reservation.
use execgo_runtime.Base.{
  ℕ, Bool, true, false, not, String, Option, none, some, [], ◌∷◌, ◌++◌, leb, if◌then◌else◌,
  str_append, i64_max, and_then,
}
use execgo_runtime.Errors.{
  AppResult, ok, sqlite, invalid_input, conflict, not_found, guard, or_err, ◌>>=◌, ◌>>◌,
}
use execgo_runtime.Types.Status.{TaskStatus, EventType}
use execgo_runtime.Types.Limits.{TaskResourceReservation}
use execgo_runtime.Repo.Rows.{
  TaskRecord, NewTaskRecord, EventData, Store, Clock, has_active_reservation, find_row, has_row,
  update, insert_event_tx,
}

-- The row of `INSERT INTO tasks`; the columns that it does not name are NULL or their default.
abbrev pub new_row : NewTaskRecord → ℕ → TaskRecord
new_row new now = record {
  task_id = new.task_id;
  handle_id = new.task_id;
  status = TaskStatus.accepted;
  execution = new.request.execution;
  limits = new.request.limits;
  sandbox = new.request.sandbox;
  metadata = new.request.metadata;
  created_at = now;
  updated_at = now;
  started_at = none;
  finished_at = none;
  duration_ms = none;
  shim_pid = none;
  pid = none;
  pgid = none;
  exit_code = none;
  exit_signal = none;
  error_code = none;
  error = none;
  usage = none;
  task_dir = new.task_dir;
  workspace_dir = new.workspace_dir;
  request_path = new.request_path;
  result_path = new.result_path;
  stdout_path = new.stdout_path;
  stderr_path = new.stderr_path;
  script_path = new.script_path;
  stdout_max_bytes = new.request.limits.stdout_max_bytes;
  stderr_max_bytes = new.request.limits.stderr_max_bytes;
  kill_requested = false;
  kill_requested_at = none;
  timeout_triggered = false;
  result_json = none;
  execution_plan = some new.execution_plan;
  control_context = new.control_context;
  reservation = none;
  reserved_at = none;
  released_at = none;
}

-- The event that a degraded plan adds.
unfoldable pub insert_degraded : NewTaskRecord → ℕ → Store → AppResult Store
insert_degraded new time s =
    if new.execution_plan.degraded
    then insert_event_tx new.task_id EventType.degraded time (some "execution plan degraded")
        (some (
          EventData.degradation new.execution_plan.fallback_reasons
            new.execution_plan.effective_sandbox))
        s
    else ok s

-- The events of a new task.
unfoldable pub insert_events : NewTaskRecord → Clock → Store → AppResult Store
insert_events new clock s = do
  s₁ ← insert_event_tx new.task_id EventType.submitted (clock 1) (some "task submitted") none s
  s₂ ← insert_event_tx new.task_id EventType.accepted (clock 2) (some "task accepted") none s₁
  s₃ ←
      insert_event_tx new.task_id EventType.planned (clock 3) (some "execution plan resolved")
        (some (EventData.plan new.execution_plan)) s₂
  insert_degraded new (clock 4) s₃

-- `Repository::insert_task`
unfoldable pub insert_task : Clock → NewTaskRecord → Store → AppResult Store
insert_task clock new s = do
  guard (leb new.request.limits.stdout_max_bytes i64_max)
      (invalid_input "stdout_max_bytes is too large")
  guard (leb new.request.limits.stderr_max_bytes i64_max)
      (invalid_input "stderr_max_bytes is too large")
  guard (not (has_row new.task_id s.tasks))
      (conflict (str_append "task " (str_append new.task_id " already exists")))
  insert_events new clock (record s { tasks = s.tasks ++ new_row new (clock 0) ∷ [] })

-- `Repository::get_task`
unfoldable pub get_task : String → Store → AppResult TaskRecord
unfolding find_row
get_task id s = or_err (find_row id s.tasks) (not_found id)

-- `.. AND status = 'accepted'`
abbrev pub is_accepted : TaskRecord → Bool
is_accepted task = elim task.status [ TaskStatus.accepted ↦ true | _ ↦ false ]

abbrev pub is_running : TaskRecord → Bool
is_running task = elim task.status [ TaskStatus.running ↦ true | _ ↦ false ]

abbrev pub dispatched : ℕ → ℕ → TaskRecord → TaskRecord
dispatched shim_pid now task =
    if is_accepted task
    then record task { status = TaskStatus.running; shim_pid = some shim_pid; updated_at = now }
    else task

-- `Repository::mark_dispatched`
unfoldable pub mark_dispatched : Clock → String → ℕ → Store → AppResult Store
mark_dispatched clock id shim_pid s = ok (update id (dispatched shim_pid (clock 0)) s)

-- `COALESCE(a, b)`
abbrev pub coalesce {ℓ} : {A : Type ℓ} → Option A → Option A → Option A
coalesce none b = b
coalesce (some a) b = some a

abbrev pub started : ℕ → ℕ → Option String → ℕ → TaskRecord → TaskRecord
started pid pgid script_path now task = record task {
  status = TaskStatus.running;
  pid = some pid;
  pgid = some pgid;
  started_at = some now;
  updated_at = now;
  script_path = coalesce script_path task.script_path;
}

-- `Repository::mark_started`
unfoldable pub mark_started : Clock → String → ℕ → ℕ → Option String → Store → AppResult Store
mark_started clock id pid pgid script_path s =
    insert_event_tx id EventType.started (clock 1) (some "task started") none
      (update id (started pid pgid script_path (clock 0)) s)

abbrev pub reserved : TaskResourceReservation → ℕ → TaskRecord → TaskRecord
reserved r now task = record task {
  reservation = some r;
  reserved_at = some now;
  released_at = none;
  updated_at = now;
}

-- `Repository::reserve_resources`
unfoldable pub reserve_resources :
    Clock → String → TaskResourceReservation → String → Store → AppResult Store
reserve_resources clock id r message s =
    insert_event_tx id EventType.resource_reserved (clock 1) (some message)
      (some (EventData.reservation r)) (update id (reserved r (clock 0)) s)

-- `SELECT reservation_json .. WHERE task_id = ?1 AND reservation_json IS NOT NULL AND released_at_ms
-- IS NULL`
unfoldable pub active_reservation : String → Store → Option TaskResourceReservation
unfolding find_row
active_reservation id s =
    and_then (find_row id s.tasks)
      λ task. if has_active_reservation task then task.reservation else none

abbrev pub released : ℕ → TaskRecord → TaskRecord
released now task = record task { released_at = some now; updated_at = now }

-- `Repository::release_resources`
unfoldable pub release_resources : Clock → String → String → Store → AppResult Store
release_resources clock id message s = elim (active_reservation id s) [
  | none ↦ ok s
  | some r ↦
      insert_event_tx id EventType.resource_released (clock 1) (some message)
        (some (EventData.reservation r)) (update id (released (clock 0)) s)
]

abbrev pub cancel_requested : ℕ → TaskRecord → TaskRecord
cancel_requested now task = record task {
  kill_requested = true;
  kill_requested_at = some now;
  updated_at = now;
}

-- `Repository::set_cancel_requested`, which returns the record it reads after the commit.
unfoldable pub set_cancel_requested : Clock → String → Store → AppResult (TaskRecord × Store)
set_cancel_requested clock id s = do
  s' ←
      insert_event_tx id EventType.kill_requested (clock 1) (some "kill requested") none
        (update id (cancel_requested (clock 0)) s)
  task ← get_task id s'
  ok (task, s')

abbrev pub timed_out : ℕ → TaskRecord → TaskRecord
timed_out now task = record task { timeout_triggered = true; updated_at = now }

-- `Repository::mark_timeout_triggered`
unfoldable pub mark_timeout_triggered : Clock → String → Store → AppResult Store
mark_timeout_triggered clock id s =
    insert_event_tx id EventType.timeout_triggered (clock 1) (some "timeout triggered") none
      (update id (timed_out (clock 0)) s)

abbrev pub recovered : ℕ → TaskRecord → TaskRecord
recovered now task = if is_running task then record task { updated_at = now } else task

-- `Repository::mark_recovered`
unfoldable pub mark_recovered : Clock → String → Store → AppResult Store
mark_recovered clock id s =
    insert_event_tx id EventType.recovered (clock 1) (some "task recovered") none
      (update id (recovered (clock 0)) s)

-- `Repository::is_cancel_requested`; a missing row is the error QueryReturnedNoRows.
unfoldable pub is_cancel_requested : String → Store → AppResult Bool
unfolding find_row
is_cancel_requested id s = do
  task ← or_err (find_row id s.tasks) (sqlite "Query returned no rows")
  ok task.kill_requested
