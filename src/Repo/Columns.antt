-- ===== src/Repo/Columns.antt =====
-- src/repo.rs: the columns of the table of tasks, and row_to_task_record, which reads a row of them.
-- The JSON of a column is the text of serde_json, which is a parameter.
pub mod Statements
pub mod Represented
pub mod Stored
pub mod Written
mod Examples
use Prim.Native.Nat.{◌%◌}
use execgo_runtime.Base.{
  ℕ, ◌-◌, ◌+◌, String, Bool, true, false, not, ◌==◌, Option, none, some, List, leb, map_option,
  if◌then◌else◌,
}
use execgo_runtime.Errors.{AppResult, ok, err, sqlite, or_err, ◌>>=◌}
use execgo_runtime.Types.Status.{TaskStatus, ErrorCode, RuntimeErrorInfo}
use execgo_runtime.Types.Execution.{ExecutionSpec}
use execgo_runtime.Types.Control.{ControlContext}
use execgo_runtime.Types.Sandbox.{SandboxPolicy}
use execgo_runtime.Types.Limits.{ResourceLimits, TaskResourceReservation}
use execgo_runtime.Types.Plan.{ExecutionPlan}
use execgo_runtime.Repo.Rows.{
  TaskRecord, NewTaskRecord, CompletionUpdate, ResourceUsage, ResultJson,
}
use execgo_runtime.Repo.Codec.{encode_status, decode_status, encode_error_code, decode_error_code}

-- A signed number of a column: `negsuc n` is the number below 0 by n + 1.
pub data ℤ : Type 0 where
  pos negsuc : ℕ → ℤ

-- What serde_json does for one type: the text of a value, and the value of a text where it has one.
pub record Json (A : Type 0) : Type 0 where
  pub to_json : A → String
  pub parse : String → Option A

pub record Codecs : Type 0 where
  pub execution : Json ExecutionSpec
  pub limits : Json ResourceLimits
  pub sandbox : Json SandboxPolicy
  pub metadata : Json (List (String × String))
  pub error : Json RuntimeErrorInfo
  pub usage : Json ResourceUsage
  pub result : Json ResultJson
  pub plan : Json ExecutionPlan
  pub context : Json ControlContext
  pub reservation : Json TaskResourceReservation

-- A row of the table. The numbers that the program takes as they are, times, a process group, an exit
-- code and a signal, are not negative here.
pub record Columns : Type 0 where
  pub task_id : String
  pub handle_id : String
  pub status : String
  pub execution_json : String
  pub limits_json : String
  pub sandbox_json : String
  pub metadata_json : String
  pub created_at_ms : ℕ
  pub updated_at_ms : ℕ
  pub started_at_ms : Option ℕ
  pub finished_at_ms : Option ℕ
  pub duration_ms : Option ℤ
  pub shim_pid : Option ℤ
  pub pid : Option ℤ
  pub pgid : Option ℕ
  pub exit_code : Option ℕ
  pub exit_signal : Option ℕ
  pub error_code : Option String
  pub error_json : Option String
  pub usage_json : Option String
  pub task_dir : String
  pub workspace_dir : String
  pub request_path : String
  pub result_path : String
  pub stdout_path : String
  pub stderr_path : String
  pub script_path : Option String
  pub stdout_max_bytes : ℤ
  pub stderr_max_bytes : ℤ
  pub kill_requested : ℤ
  pub kill_requested_at_ms : Option ℕ
  pub timeout_triggered : ℤ
  pub result_json : Option String
  pub execution_plan_json : Option String
  pub control_context_json : Option String
  pub reservation_json : Option String
  pub reserved_at_ms : Option ℕ
  pub released_at_ms : Option ℕ

abbrev pub i32_max : ℕ
i32_max = 2147483647

abbrev pub u32_max : ℕ
u32_max = 4294967295

-- `value.max(0) as u64`
abbrev pub at_least_zero : ℤ → ℕ
at_least_zero (pos n) = n
at_least_zero (negsuc n) = 0

-- `value as u32`
abbrev pub as_u32 : ℤ → ℕ
as_u32 (pos n) = n % (u32_max + 1)
as_u32 (negsuc n) = u32_max - n % (u32_max + 1)

-- `value != 0`
abbrev pub is_set : ℤ → Bool
is_set (pos n) = not (n == 0)
is_set (negsuc n) = true

-- `from_json`
unfoldable pub from_json : {A : Type 0} → Json A → String → AppResult A
from_json json raw = or_err (json.parse raw) (sqlite "conversion error")

-- `option.map(read).transpose()`
abbrev pub transpose : {A B : Type 0} → (A → AppResult B) → Option A → AppResult (Option B)
transpose read none = ok none
transpose read (some a) = read a >>= λ b. ok (some b)

-- The `i32` of a column.
unfoldable pub get_i32 : ℕ → AppResult ℕ
get_i32 n = if leb n i32_max then ok n else err (sqlite "integer out of range")

-- What the reading of a row rests on: the JSON of serde_json, the last time that chrono has, and the
-- clock.
pub record Reader : Type 0 where
  pub codecs : Codecs
  pub max_timestamp : ℕ
  pub now : ℕ

-- `ts_millis_to_utc`
unfoldable pub ts_millis_to_utc : Reader → ℕ → ℕ
ts_millis_to_utc reader value = if leb value reader.max_timestamp then value else reader.now

-- `row_to_task_record`
unfoldable pub row_to_task_record : Reader → Columns → AppResult TaskRecord
unfolding from_json get_i32 ts_millis_to_utc
row_to_task_record reader row = do
  status ← or_err (decode_status row.status) (sqlite "invalid status")
  execution ← from_json reader.codecs.execution row.execution_json
  limits ← from_json reader.codecs.limits row.limits_json
  sandbox ← from_json reader.codecs.sandbox row.sandbox_json
  metadata ← from_json reader.codecs.metadata row.metadata_json
  pgid ← transpose get_i32 row.pgid
  exit_code ← transpose get_i32 row.exit_code
  exit_signal ← transpose get_i32 row.exit_signal
  error_code ←
      transpose (λ value. or_err (decode_error_code value) (sqlite "invalid error code"))
        row.error_code
  error ← transpose (from_json reader.codecs.error) row.error_json
  usage ← transpose (from_json reader.codecs.usage) row.usage_json
  result_json ← transpose (from_json reader.codecs.result) row.result_json
  execution_plan ← transpose (from_json reader.codecs.plan) row.execution_plan_json
  control_context ← transpose (from_json reader.codecs.context) row.control_context_json
  reservation ← transpose (from_json reader.codecs.reservation) row.reservation_json
  ok (record {
    task_id = row.task_id;
    handle_id = row.handle_id;
    status = status;
    execution = execution;
    limits = limits;
    sandbox = sandbox;
    metadata = metadata;
    created_at = ts_millis_to_utc reader row.created_at_ms;
    updated_at = ts_millis_to_utc reader row.updated_at_ms;
    started_at = map_option (ts_millis_to_utc reader) row.started_at_ms;
    finished_at = map_option (ts_millis_to_utc reader) row.finished_at_ms;
    duration_ms = map_option at_least_zero row.duration_ms;
    shim_pid = map_option as_u32 row.shim_pid;
    pid = map_option as_u32 row.pid;
    pgid = pgid;
    exit_code = exit_code;
    exit_signal = exit_signal;
    error_code = error_code;
    error = error;
    usage = usage;
    task_dir = row.task_dir;
    workspace_dir = row.workspace_dir;
    request_path = row.request_path;
    result_path = row.result_path;
    stdout_path = row.stdout_path;
    stderr_path = row.stderr_path;
    script_path = row.script_path;
    stdout_max_bytes = at_least_zero row.stdout_max_bytes;
    stderr_max_bytes = at_least_zero row.stderr_max_bytes;
    kill_requested = is_set row.kill_requested;
    kill_requested_at = map_option (ts_millis_to_utc reader) row.kill_requested_at_ms;
    timeout_triggered = is_set row.timeout_triggered;
    result_json = result_json;
    execution_plan = execution_plan;
    control_context = control_context;
    reservation = reservation;
    reserved_at = map_option (ts_millis_to_utc reader) row.reserved_at_ms;
    released_at = map_option (ts_millis_to_utc reader) row.released_at_ms;
  })
