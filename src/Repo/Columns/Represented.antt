-- ===== src/Repo/Columns/Represented.antt =====
-- The columns that stand for a task, and when they can be read back.
use execgo_runtime.Base.{ℕ, ◌≤◌, ◌≡◌, Bool, true, false, Option, none, some, map_option}
use execgo_runtime.Repo.Rows.{TaskRecord}
use execgo_runtime.Repo.Codec.{encode_status, encode_error_code}
use execgo_runtime.Repo.Columns.{ℤ, pos, Json, Codecs, Columns, Reader, i32_max, u32_max}

abbrev pub flag : Bool → ℤ
flag true = pos 1
flag false = pos 0

-- The columns that stand for a task.
abbrev pub columns_of : Codecs → TaskRecord → Columns
columns_of codecs task = record {
  task_id = task.task_id;
  handle_id = task.handle_id;
  status = encode_status task.status;
  execution_json = codecs.execution.to_json task.execution;
  limits_json = codecs.limits.to_json task.limits;
  sandbox_json = codecs.sandbox.to_json task.sandbox;
  metadata_json = codecs.metadata.to_json task.metadata;
  created_at_ms = task.created_at;
  updated_at_ms = task.updated_at;
  started_at_ms = task.started_at;
  finished_at_ms = task.finished_at;
  duration_ms = map_option pos task.duration_ms;
  shim_pid = map_option pos task.shim_pid;
  pid = map_option pos task.pid;
  pgid = task.pgid;
  exit_code = task.exit_code;
  exit_signal = task.exit_signal;
  error_code = map_option encode_error_code task.error_code;
  error_json = map_option codecs.error.to_json task.error;
  usage_json = map_option codecs.usage.to_json task.usage;
  task_dir = task.task_dir;
  workspace_dir = task.workspace_dir;
  request_path = task.request_path;
  result_path = task.result_path;
  stdout_path = task.stdout_path;
  stderr_path = task.stderr_path;
  script_path = task.script_path;
  stdout_max_bytes = pos task.stdout_max_bytes;
  stderr_max_bytes = pos task.stderr_max_bytes;
  kill_requested = flag task.kill_requested;
  kill_requested_at_ms = task.kill_requested_at;
  timeout_triggered = flag task.timeout_triggered;
  result_json = map_option codecs.result.to_json task.result_json;
  execution_plan_json = map_option codecs.plan.to_json task.execution_plan;
  control_context_json = map_option codecs.context.to_json task.control_context;
  reservation_json = map_option codecs.reservation.to_json task.reservation;
  reserved_at_ms = task.reserved_at;
  released_at_ms = task.released_at;
}

-- What serde_json documents, of a value and of one that may be missing: its text parses as the value.
abbrev pub ParsesBack : {A : Type 0} → Json A → A → Type 0
ParsesBack json a = json.parse (json.to_json a) ≡ some a

abbrev pub MayParseBack : {A : Type 0} → Json A → Option A → Type 0
MayParseBack json none = Unit
MayParseBack json (some a) = ParsesBack json a

-- The same of all the values that a task has in JSON columns.
pub record AllParseBack (codecs : Codecs) (task : TaskRecord) : Type 0 where
  pub execution : ParsesBack codecs.execution task.execution
  pub limits : ParsesBack codecs.limits task.limits
  pub sandbox : ParsesBack codecs.sandbox task.sandbox
  pub metadata : ParsesBack codecs.metadata task.metadata
  pub error : MayParseBack codecs.error task.error
  pub usage : MayParseBack codecs.usage task.usage
  pub result_json : MayParseBack codecs.result task.result_json
  pub execution_plan : MayParseBack codecs.plan task.execution_plan
  pub control_context : MayParseBack codecs.context task.control_context
  pub reservation : MayParseBack codecs.reservation task.reservation

-- A bound on a number that may be missing.
abbrev pub AtMost : ℕ → Option ℕ → Type 0
AtMost bound none = Unit
AtMost bound (some n) = n ≤ bound

-- The numbers of a task fit the types that its columns are read at.
pub record Fits (reader : Reader) (task : TaskRecord) : Type 0 where
  pub created_at : task.created_at ≤ reader.max_timestamp
  pub updated_at : task.updated_at ≤ reader.max_timestamp
  pub started_at : AtMost reader.max_timestamp task.started_at
  pub finished_at : AtMost reader.max_timestamp task.finished_at
  pub kill_requested_at : AtMost reader.max_timestamp task.kill_requested_at
  pub reserved_at : AtMost reader.max_timestamp task.reserved_at
  pub released_at : AtMost reader.max_timestamp task.released_at
  pub shim_pid : AtMost u32_max task.shim_pid
  pub pid : AtMost u32_max task.pid
  pub pgid : AtMost i32_max task.pgid
  pub exit_code : AtMost i32_max task.exit_code
  pub exit_signal : AtMost i32_max task.exit_signal
