-- ===== src/Runtime/Service.antt =====
-- src/runtime.rs: the requests that RuntimeService serves on the task table: submit_task.
use execgo_runtime.Base.{
  ℕ, not, String, Option, none, some, leb, if◌then◌else◌, and_then, unwrap_or, List, [], ◌∷◌,
}
use execgo_runtime.Base.Text.{contains}
use execgo_runtime.Errors.{AppResult, Checked, ok, guard, ◌>>=◌, ◌>>◌, queue_full}
use execgo_runtime.Types.Status.{TaskStatus}
use execgo_runtime.Types.Execution.{ExecutionKind, ExecutionSpec}
use execgo_runtime.Types.Control.{CapabilityMode, ControlContext}
use execgo_runtime.Types.Sandbox.{join, resolve_workspace_dir}
use execgo_runtime.Types.Limits.{from_limits}
use execgo_runtime.Types.Plan.{ExecutionPlan}
use execgo_runtime.Types.Capability.{RuntimeCapabilities}
use execgo_runtime.Types.Request
use execgo_runtime.Types.Request.{SubmitTaskRequest, SubmitTaskResponse}
use execgo_runtime.Policy.{resolve_execution_plan}
use execgo_runtime.Ledger.{ResourceLedger, ensure_within_capacity, ensure_within_tenant_quota}
use execgo_runtime.Repo.Rows.{NewTaskRecord, Store, Clock}
use execgo_runtime.Repo.Writes.{insert_task}
use execgo_runtime.Repo.Queries.{count_accepted}

-- What a service is started with.
pub record Service : Type 0 where
  pub capabilities : RuntimeCapabilities
  pub ledger : ResourceLedger
  pub default_capability_mode : CapabilityMode
  pub max_queued_tasks : ℕ
  pub tasks_dir : String

-- What a submission asks of the system: an identifier (a new UUID), the clock, and the files of the
-- task (its directories, the request as JSON, empty output files).
pub record Host : Type 0 where
  pub generate_task_id : String
  pub clock : Clock
  pub create_files : NewTaskRecord → Checked

-- `infer_script_name`
unfoldable pub infer_script_name : Option String → String
infer_script_name interpreter =
    if contains "python" name
    then "script.py"
    else if contains "bash" name
    then "script.sh"
    else if contains "zsh" name
    then "script.zsh"
    else if contains "node" name
    then "script.js"
    else "script.sh"
  where
    name : String
    name = unwrap_or "" interpreter

-- `items.first()`
abbrev pub first_of : List String → Option String
first_of [] = none
first_of (x ∷ xs) = some x

-- The path of the script of a script task.
unfoldable pub script_path_of : String → ExecutionSpec → Option String
unfolding infer_script_name
script_path_of task_dir spec = elim spec.kind [
  | ExecutionKind.command ↦ none
  | ExecutionKind.script ↦
      some (join task_dir (infer_script_name (and_then spec.interpreter first_of)))
]

-- The record of a new task.
abbrev pub new_record : SubmitTaskRequest → ExecutionPlan → String → String → String → NewTaskRecord
new_record request plan id task_dir workspace_dir = record {
  task_id = id;
  request = request;
  task_dir = task_dir;
  workspace_dir = workspace_dir;
  request_path = join task_dir "request.json";
  result_path = join task_dir "result.json";
  stdout_path = join task_dir "stdout.log";
  stderr_path = join task_dir "stderr.log";
  script_path = script_path_of task_dir request.execution;
  execution_plan = plan;
  control_context = request.control_context;
}

-- `request.control_context.as_ref().and_then(|c| c.tenant.as_deref())`
abbrev pub request_tenant : SubmitTaskRequest → Option String
request_tenant request = and_then request.control_context λ (c : ControlContext). c.tenant

-- The checks of a submission before its record is made, and the plan they yield.
unfoldable pub admit : Service → SubmitTaskRequest → Store → AppResult ExecutionPlan
admit service request s = do
  Request.validate request
  plan ← resolve_execution_plan request service.capabilities service.default_capability_mode
  ensure_within_capacity service.ledger (from_limits request.limits)
  ensure_within_tenant_quota service.ledger (request_tenant request) (from_limits request.limits)
  guard (not (leb service.max_queued_tasks (count_accepted s))) queue_full
  ok plan

-- The record of a submission, with its directories.
unfoldable pub prepare :
    Service → Host → SubmitTaskRequest → ExecutionPlan → AppResult NewTaskRecord
prepare service host request plan = do
  workspace_dir ← resolve_workspace_dir task_dir request.sandbox
  host.create_files (new_record request plan id task_dir workspace_dir)
  ok (new_record request plan id task_dir workspace_dir)
  where
    id : String
    id = unwrap_or host.generate_task_id request.task_id

    task_dir : String
    task_dir = join service.tasks_dir id

-- The others do nothing.
abbrev pub quiet : Store → Store
quiet s = s

-- `RuntimeService::submit_task`. It counts the queue in one transaction and inserts the row in a later
-- one; `between` is what the others do to the tables from the one to the other. Only the insertion
-- writes, so an error leaves the tables as the others made them.
unfoldable pub submit_task :
    Service
    → Host
    → (Store → Store)
    → SubmitTaskRequest
    → Store
    → AppResult (Store × SubmitTaskResponse)
submit_task service host between request s = do
  plan ← admit service request s
  new ← prepare service host request plan
  t ← insert_task host.clock new (between s)
  ok (t, record { task_id = new.task_id; handle_id = new.task_id; status = TaskStatus.accepted })
