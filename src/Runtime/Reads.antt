-- ===== src/Runtime/Reads.antt =====
-- src/runtime.rs: the reads of RuntimeService, and the response that shows a task.
use execgo_runtime.Base.{
  ℕ, ◌-◌, String, Bool, false, not, Option, none, some, List, ltb, map_option, str_append,
}
use execgo_runtime.Errors.{AppResult, ok, err, io, ◌>>=◌, to_string}
use execgo_runtime.Types.Status.{TaskStatus, RuntimeErrorInfo}
use execgo_runtime.Types.Limits.{TaskResourceReservation}
use execgo_runtime.Types.Plan.{ExecutionPlan, legacy}
use execgo_runtime.Types.Capability.{RuntimeCapabilities}
use execgo_runtime.Types.Views.{TaskArtifacts, RuntimeInfoResponse, RuntimeConfigResponse}
use execgo_runtime.Metrics.{render_prometheus}
use execgo_runtime.Repo.Rows.{TaskRecord, ResourceUsage, EventRecord, Store}
use execgo_runtime.Repo.Writes.{get_task}
use execgo_runtime.Repo.Queries.{MetricsSnapshot, list_events}
use execgo_runtime.Runtime.Settings.{Settings}

-- `TaskStatusResponse`
pub record TaskStatusResponse : Type 0 where
  pub task_id : String
  pub handle_id : String
  pub status : TaskStatus
  pub created_at : ℕ
  pub updated_at : ℕ
  pub started_at : Option ℕ
  pub finished_at : Option ℕ
  pub duration_ms : Option ℕ
  pub shim_pid : Option ℕ
  pub pid : Option ℕ
  pub pgid : Option ℕ
  pub exit_code : Option ℕ
  pub exit_signal : Option ℕ
  pub stdout : String
  pub stderr : String
  pub stdout_truncated : Bool
  pub stderr_truncated : Bool
  pub error : Option RuntimeErrorInfo
  pub usage : Option ResourceUsage
  pub execution_plan : Option ExecutionPlan
  pub reservation : Option TaskResourceReservation
  pub artifacts : TaskArtifacts
  pub metadata : List (String × String)

-- An output file: none, one that cannot be read, or one with a length and, for each bound, the text
-- of what one read of at most so many bytes yields.
pub data Output : Type 0 where
  missing : Output
  unreadable : String → Output
  contents : ℕ → (ℕ → String) → Output

-- `read_output_preview`
unfoldable pub read_output_preview : Output → ℕ → AppResult (String × Bool)
read_output_preview missing max_bytes = ok ("", false)
read_output_preview (unreadable e) max_bytes = err (io e)
read_output_preview (contents len read) max_bytes = ok (read max_bytes, ltb max_bytes len)

-- `option.or_else(other)`
abbrev pub or_else {ℓ} : {A : Type ℓ} → Option A → Option A → Option A
or_else none other = other
or_else (some a) other = some a

-- The usage of a task that has none of its own.
abbrev duration_usage : ℕ → ResourceUsage
duration_usage value = record {
  duration_ms = value;
  user_cpu_ms = none;
  system_cpu_ms = none;
  max_rss_bytes = none;
  memory_peak_bytes = none;
}

-- The response of a task, from the previews of its outputs, at a time.
abbrev pub response : TaskRecord → ℕ → String × Bool → String × Bool → TaskStatusResponse
response task now stdout stderr = record {
  task_id = task.task_id;
  handle_id = task.handle_id;
  status = task.status;
  created_at = task.created_at;
  updated_at = task.updated_at;
  started_at = task.started_at;
  finished_at = task.finished_at;
  duration_ms = duration_ms;
  shim_pid = task.shim_pid;
  pid = task.pid;
  pgid = task.pgid;
  exit_code = task.exit_code;
  exit_signal = task.exit_signal;
  stdout = stdout.0;
  stderr = stderr.0;
  stdout_truncated = stdout.1;
  stderr_truncated = stderr.1;
  error = task.error;
  usage = or_else task.usage (map_option duration_usage duration_ms);
  execution_plan = or_else task.execution_plan (some (legacy task.sandbox task.limits));
  reservation = task.reservation;
  artifacts = record {
    task_dir = task.task_dir;
    request_path = task.request_path;
    result_path = task.result_path;
    stdout_path = task.stdout_path;
    stderr_path = task.stderr_path;
    script_path = task.script_path;
  };
  metadata = task.metadata;
}
  where
    duration_ms : Option ℕ
    duration_ms =
        or_else task.duration_ms (map_option (λ started_at. now - started_at) task.started_at)

-- `build_status_response`, with the output files and the clock.
unfoldable pub build_status_response :
    (String → Output) → ℕ → TaskRecord → AppResult TaskStatusResponse
unfolding read_output_preview
build_status_response output now task = do
  stdout ← read_output_preview (output task.stdout_path) task.stdout_max_bytes
  stderr ← read_output_preview (output task.stderr_path) task.stderr_max_bytes
  ok (response task now stdout stderr)

-- `RuntimeService::get_task_status`
unfoldable pub get_task_status :
    (String → Output) → ℕ → String → Store → AppResult TaskStatusResponse
unfolding build_status_response
get_task_status output now id s = do task ← get_task id s; build_status_response output now task

-- `RuntimeService::get_events`
unfoldable pub get_events : String → Store → List EventRecord
get_events id s = list_events id s

-- `RuntimeService::runtime_info`
unfoldable pub runtime_info : Settings → RuntimeCapabilities → String → ℕ → RuntimeInfoResponse
runtime_info settings capabilities version started_at = record {
  runtime_id = settings.runtime_id;
  version = version;
  started_at = started_at;
  snapshot_version = capabilities.snapshot_version;
  platform = capabilities.platform;
}

-- `RuntimeService::runtime_config`
unfoldable pub runtime_config : Settings → RuntimeConfigResponse
runtime_config settings = record {
  runtime_id = settings.runtime_id;
  listen_addr = settings.listen_addr;
  data_dir = settings.data_dir;
  max_running_tasks = settings.max_running_tasks;
  max_queued_tasks = settings.max_queued_tasks;
  termination_grace_ms = settings.termination_grace_ms;
  result_retention_secs = settings.result_retention_secs;
  gc_interval_ms = settings.gc_interval_ms;
  dispatch_poll_interval_ms = settings.dispatch_poll_interval_ms;
  cgroup_root = settings.cgroup_root;
  default_capability_mode = settings.default_capability_mode;
  cgroup_enabled = not settings.disable_cgroup;
}

-- A response with a status and a text.
pub record TextResponse : Type 0 where
  pub status : ℕ
  pub content_type : String
  pub body : String

-- `RuntimeService::metrics`, from the answer of the repository.
unfoldable pub metrics : AppResult MetricsSnapshot → TextResponse
metrics (ok snapshot) = record {
  status = 200;
  content_type = "text/plain; version=0.0.4";
  body = render_prometheus snapshot;
}
metrics (err e) = record {
  status = 500;
  content_type = "text/plain";
  body = str_append "metrics_error " (str_append (to_string e) "\n");
}
