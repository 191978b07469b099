-- ===== src/Repo/Columns/Statements.antt =====
-- src/repo.rs: the values that the INSERT of insert_task and the UPDATE of complete_task write to the
-- columns of a row.
use execgo_runtime.Base.{
  ℕ, i64_max, String, ◌&&◌, none, some, leb, map_option, is_none, is_some, if◌then◌else◌,
}
use execgo_runtime.Errors.{AppResult, ok, err, invalid_input, ◌>>=◌}
use execgo_runtime.Types.Status.{TaskStatus, RuntimeErrorInfo}
use execgo_runtime.Repo.Rows.{NewTaskRecord, CompletionUpdate}
use execgo_runtime.Repo.Codec.{encode_status, encode_error_code}
use execgo_runtime.Repo.Columns.{ℤ, pos, Codecs, Columns, transpose}

-- `i64::try_from(value).map_err(..)`
unfoldable pub try_i64 : String → ℕ → AppResult ℤ
try_i64 message value = if leb value i64_max then ok (pos value) else err (invalid_input message)

-- The row that the INSERT of `insert_task` writes; a column that it does not name has its default.
unfoldable pub insert_columns : Codecs → NewTaskRecord → ℕ → AppResult Columns
unfolding try_i64
insert_columns codecs new now = do
  stdout_max_bytes ← try_i64 "stdout_max_bytes is too large" new.request.limits.stdout_max_bytes
  stderr_max_bytes ← try_i64 "stderr_max_bytes is too large" new.request.limits.stderr_max_bytes
  ok (record {
    task_id = new.task_id;
    handle_id = new.task_id;
    status = encode_status TaskStatus.accepted;
    execution_json = codecs.execution.to_json new.request.execution;
    limits_json = codecs.limits.to_json new.request.limits;
    sandbox_json = codecs.sandbox.to_json new.request.sandbox;
    metadata_json = codecs.metadata.to_json new.request.metadata;
    created_at_ms = now;
    updated_at_ms = now;
    started_at_ms = none;
    finished_at_ms = none;
    duration_ms = none;
    shim_pid = none;
    pid = none;
    pgid = none;
    exit_code = none;
    exit_signal = none;
    error_code = none;
    error_json = none;
    usage_json = none;
    task_dir = new.task_dir;
    workspace_dir = new.workspace_dir;
    request_path = new.request_path;
    result_path = new.result_path;
    stdout_path = new.stdout_path;
    stderr_path = new.stderr_path;
    script_path = new.script_path;
    stdout_max_bytes = stdout_max_bytes;
    stderr_max_bytes = stderr_max_bytes;
    kill_requested = pos 0;
    kill_requested_at_ms = none;
    timeout_triggered = pos 0;
    result_json = none;
    execution_plan_json = some (codecs.plan.to_json new.execution_plan);
    control_context_json = map_option codecs.context.to_json new.control_context;
    reservation_json = none;
    reserved_at_ms = none;
    released_at_ms = none;
  })

-- The row that the UPDATE of `complete_task` leaves of a row.
unfoldable pub complete_columns : Codecs → CompletionUpdate → Columns → AppResult Columns
unfolding try_i64
complete_columns codecs update row = do
  duration_ms ← transpose (try_i64 "duration_ms is too large to persist") update.duration_ms
  ok (record row {
    status = encode_status update.status;
    updated_at_ms = update.finished_at;
    finished_at_ms = some update.finished_at;
    released_at_ms =
        if is_none row.released_at_ms && is_some row.reservation_json
        then some update.finished_at
        else row.released_at_ms;
    duration_ms = duration_ms;
    exit_code = update.exit_code;
    exit_signal = update.exit_signal;
    error_code = map_option (λ (e : RuntimeErrorInfo). encode_error_code e.code) update.error;
    error_json = map_option codecs.error.to_json update.error;
    usage_json = map_option codecs.usage.to_json update.usage;
    result_json = map_option codecs.result.to_json update.result_json;
  })
