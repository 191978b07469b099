-- ===== src/Repo/Rows.antt =====
-- src/repo.rs: the rows of the two tables and the access to them. A column of JSON text is the
-- value that it encodes, an enumeration column is the constructor that Codec shows it to stand for,
-- and a time is its number of milliseconds. Rows stand in the order in which they were inserted.
-- Process ids, exit codes and signal numbers are those of the kernel, which are not negative.
use execgo_runtime.Base.{
  ℕ, suc, Bool, ◌&&◌, String, Option, none, some, List, [], ◌∷◌, ◌++◌, is_some, is_none,
  if◌then◌else◌, str_eq, any,
}
use execgo_runtime.Errors.{AppResult, ok, err, sqlite}
use execgo_runtime.Types.Status.{TaskStatus, ErrorCode, RuntimeErrorInfo, EventType}
use execgo_runtime.Types.Execution.{ExecutionSpec}
use execgo_runtime.Types.Control.{ControlContext}
use execgo_runtime.Types.Sandbox.{SandboxPolicy}
use execgo_runtime.Types.Limits.{ResourceLimits, TaskResourceReservation}
use execgo_runtime.Types.Plan.{ExecutionPlan}
use execgo_runtime.Types.Request.{SubmitTaskRequest}

pub record ResourceUsage : Type 0 where
  pub duration_ms : ℕ
  pub user_cpu_ms : Option ℕ
  pub system_cpu_ms : Option ℕ
  pub max_rss_bytes : Option ℕ
  pub memory_peak_bytes : Option ℕ

-- The JSON object that `cancel_accepted_task` stores as a result.
pub record ResultJson : Type 0 where
  pub task_id : String
  pub handle_id : String
  pub status : TaskStatus
  pub finished_at : ℕ
  pub error : RuntimeErrorInfo

pub record TaskRecord : Type 0 where
  pub task_id : String
  pub handle_id : String
  pub status : TaskStatus
  pub execution : ExecutionSpec
  pub limits : ResourceLimits
  pub sandbox : SandboxPolicy
  pub metadata : List (String × String)
  pub created_at : ℕ
  pub updated_at : ℕ
  pub started_at : Option ℕ
  pub finished_at : Option ℕ
  pub duration_ms : Option ℕ
  pub shim_pid : Option ℕ
  pub pid : Option ℕ
  pub pgid : Option ℕ
  pub exit_code : Option ℕ
  pub exit_signal : Option ℕ
  pub error_code : Option ErrorCode
  pub error : Option RuntimeErrorInfo
  pub usage : Option ResourceUsage
  pub task_dir : String
  pub workspace_dir : String
  pub request_path : String
  pub result_path : String
  pub stdout_path : String
  pub stderr_path : String
  pub script_path : Option String
  pub stdout_max_bytes : ℕ
  pub stderr_max_bytes : ℕ
  pub kill_requested : Bool
  pub kill_requested_at : Option ℕ
  pub timeout_triggered : Bool
  pub result_json : Option ResultJson
  pub execution_plan : Option ExecutionPlan
  pub control_context : Option ControlContext
  pub reservation : Option TaskResourceReservation
  pub reserved_at : Option ℕ
  pub released_at : Option ℕ

pub record NewTaskRecord : Type 0 where
  pub task_id : String
  pub request : SubmitTaskRequest
  pub task_dir : String
  pub workspace_dir : String
  pub request_path : String
  pub result_path : String
  pub stdout_path : String
  pub stderr_path : String
  pub script_path : Option String
  pub execution_plan : ExecutionPlan
  pub control_context : Option ControlContext

pub record CompletionUpdate : Type 0 where
  pub status : TaskStatus
  pub finished_at : ℕ
  pub duration_ms : Option ℕ
  pub exit_code : Option ℕ
  pub exit_signal : Option ℕ
  pub error : Option RuntimeErrorInfo
  pub usage : Option ResourceUsage
  pub result_json : Option ResultJson

-- `TaskRecord::has_active_reservation`
abbrev pub has_active_reservation : TaskRecord → Bool
has_active_reservation task = is_some task.reservation && is_none task.released_at

-- The JSON values that the events carry.
pub data EventData : Type 0 where
  plan : ExecutionPlan → EventData
  degradation : List String → SandboxPolicy → EventData
  reservation : TaskResourceReservation → EventData

pub record EventRecord : Type 0 where
  pub seq : ℕ
  pub task_id : String
  pub event_type : EventType
  pub timestamp : ℕ
  pub message : Option String
  pub payload : Option EventData

-- The two tables, and the number that AUTOINCREMENT gives to the next event.
pub record Store : Type 0 where
  pub tasks : List TaskRecord
  pub events : List EventRecord
  pub next_seq : ℕ

abbrev pub empty : Store
empty = record { tasks = []; events = []; next_seq = 1 }

-- The readings of `Utc::now()` in the order in which an operation takes them.
abbrev pub Clock : Type 0
Clock = ℕ → ℕ

-- `SELECT * FROM tasks WHERE task_id = ?1`
unfoldable pub find_row : String → List TaskRecord → Option TaskRecord
find_row id [] = none
find_row id (task ∷ rest) = if str_eq task.task_id id then some task else find_row id rest

abbrev pub has_row : String → List TaskRecord → Bool
has_row id = any λ task. str_eq task.task_id id

-- `UPDATE tasks SET .. WHERE task_id = ?1`
unfoldable pub update_row : String → (TaskRecord → TaskRecord) → List TaskRecord → List TaskRecord
update_row id f [] = []
update_row id f (task ∷ rest) =
    (if str_eq task.task_id id then f task else task) ∷ update_row id f rest

abbrev pub update : String → (TaskRecord → TaskRecord) → Store → Store
update id f s = record s { tasks = update_row id f s.tasks }

-- `insert_event_tx`; the foreign key refuses an event of a task that has no row.
unfoldable pub insert_event_tx :
    String → EventType → ℕ → Option String → Option EventData → Store → AppResult Store
insert_event_tx id event_type timestamp message payload s =
    if has_row id s.tasks
    then ok (record s {
      events =
          s.events
          ++ record {
            seq = s.next_seq;
            task_id = id;
            event_type = event_type;
            timestamp = timestamp;
            message = message;
            payload = payload;
          }
            ∷ [];
      next_seq = suc s.next_seq;
    })
    else err (sqlite "FOREIGN KEY constraint failed")
