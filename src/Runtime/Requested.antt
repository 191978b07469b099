-- ===== src/Runtime/Requested.antt =====
-- From a request to the process that runs it: the negotiation of src/policy.rs and the launch of
-- src/runtime.rs together.
use execgo_runtime.Base.{
  ℕ, String, ◌≡◌, ap, ◌∙◌, Bool, true, false, Bool-cases, inl, inr, Option, none, some, arith,
  is_some, unwrap_or, if◌then◌else◌,
}
use execgo_runtime.Errors.{ok, >>=-eq-ok}
use execgo_runtime.Types.Control.{CapabilityMode}
use execgo_runtime.Types.Sandbox.{SandboxPolicy, is_linux_sandbox, join, resolve_workspace_dir}
use execgo_runtime.Types.Plan.{ExecutionPlan, ResourceEnforcementPlan}
use execgo_runtime.Types.Capability.{RuntimeCapabilities}
use execgo_runtime.Types.Request.{SubmitTaskRequest}
use execgo_runtime.Runtime.Service.{Service, Host, prepare, new_record}
use execgo_runtime.Runtime.Admission.{prepare-request}
use execgo_runtime.Policy.{resolve_execution_plan}
use execgo_runtime.Policy.Effective.{limits_enforced}
use execgo_runtime.Policy.Undegraded.{spelled_out, effective-undegraded, limits-planned}
use execgo_runtime.Repo.Rows.{TaskRecord, NewTaskRecord}
use execgo_runtime.Runtime.Child.{Child}
use execgo_runtime.Runtime.Launched.{
  promised, namespaces_of, pid_for_children_of, root_of, directory_in,
}
use execgo_runtime.Runtime.Launch.{
  Command, World, untouched, Machine, minimal_env, spawn_task_process,
}
use execgo_runtime.Runtime.Started.{spawn_task_process-Refines}
use execgo_runtime.Runtime.Shim.{SpawnedProcess}

-- The process that a request asks for: every limit that it sets, and its sandbox.
abbrev pub asked_for : SubmitTaskRequest → String → Child
asked_for request directory = record {
  leads_group = true;
  cpu_time_sec = request.limits.cpu_time_sec;
  memory_bytes = request.limits.memory_bytes;
  namespaces = namespaces_of request.sandbox;
  pid_for_children = pid_for_children_of request.sandbox;
  root = root_of request.sandbox;
  directory = directory_in (root_of request.sandbox) directory;
}

if_enforced :
    (enforced : Bool) (planned limit : Option ℕ)
    → enforced ≡ is_some limit
    → planned ≡ limit
    → (if enforced then planned else none) ≡ limit
if_enforced enforced planned limit e p = ground arith

promised-spelled_out :
    (e : ResourceEnforcementPlan) (s : SandboxPolicy) (directory : String)
    → promised e (spelled_out s) directory ≡ promised e s directory
promised-spelled_out e s directory = elim (Bool-cases (is_linux_sandbox s.profile)) [
  | inl linux ↦ simp linux
  | inr plain ↦ simp plain
]

promised-undegraded :
    (request : SubmitTaskRequest) (capabilities : RuntimeCapabilities)
    (default_mode : CapabilityMode) (plan : ExecutionPlan) (directory : String)
    → resolve_execution_plan request capabilities default_mode ≡ ok plan
    → plan.degraded ≡ false
    → promised plan.resource_enforcement plan.effective_sandbox directory
      ≡ asked_for request directory
promised-undegraded request capabilities default_mode plan directory h d =
    let e = plan.resource_enforcement in
    let limits = limits-planned request capabilities default_mode plan h in
    let enforced = (limits_enforced request capabilities default_mode plan h).0 d in
    let cpu =
      if_enforced e.cpu_time_enforced e.cpu_time_sec request.limits.cpu_time_sec enforced.0
        limits.0 in
    let memory =
      if_enforced e.memory_enforced e.memory_bytes request.limits.memory_bytes enforced.1
        limits.1 in
    ap (λ s. promised e s directory)
      (effective-undegraded request capabilities default_mode plan h d)
    ∙ promised-spelled_out e request.sandbox directory
    ∙ simp (cpu, memory)

prepare-workspace :
    (service : Service) (host : Host) (request : SubmitTaskRequest) (plan : ExecutionPlan)
    (new : NewTaskRecord)
    → prepare service host request plan ≡ ok new
    → resolve_workspace_dir (join service.tasks_dir new.task_id) request.sandbox
      ≡ ok new.workspace_dir
unfolding prepare
prepare-workspace service host request plan new h =
    let id = unwrap_or host.generate_task_id request.task_id in
    let task_dir = join service.tasks_dir id in
    let (workspace, p, h₁) = >>=-eq-ok (resolve_workspace_dir task_dir request.sandbox) _ new h in
    let (x, q, h₂) = >>=-eq-ok (host.create_files _) _ new h₁ in
    let same : new_record request plan id task_dir workspace ≡ new = cc in rw (← same) p

-- The row of a task that a submission made: what dispatch and start leave of it as it was.
pub record IsTaskOf (new : NewTaskRecord) (task : TaskRecord) : Type 0 where
  pub task_id : task.task_id ≡ new.task_id
  pub workspace_dir : task.workspace_dir ≡ new.workspace_dir
  pub execution : task.execution ≡ new.request.execution

-- The process that is started for a request under an identifier, from the tasks of a service.
pub record Serves (service : Service) (request : SubmitTaskRequest) (machine : Machine)
    (id : String) (w : World) (p : SpawnedProcess) : Type 0 where
  pub workspace : String
  pub resolved : resolve_workspace_dir (join service.tasks_dir id) request.sandbox ≡ ok workspace
  pub command : Command
  pub process :
      w.process
      ≡ some (record { pid = p.pid; command = command; child = asked_for request workspace })
  pub directory : command.directory ≡ workspace
  pub env : command.env ≡ minimal_env machine.variable request.execution.env

-- Where a submission prepares a task under a plan without degradation, and the row of that task is
-- launched under that plan, the process that is started is the one that the request asks for: it has
-- exactly the limits on processor time and memory that the request sets, it is in the mount, UTS, IPC
-- and network namespaces and in the root of the requested sandbox, and stays in the pid namespace of
-- its parent, where only its children get the new one. Its command is set to the workspace that the
-- requested sandbox has in the directory of the task, with the environment of the request, and its
-- directory is that workspace, or "/" of the new root where the sandbox changes the root.
pub launched-asked_for :
    (service : Service) (host : Host) (request : SubmitTaskRequest) (plan : ExecutionPlan)
    (new : NewTaskRecord) (machine : Machine) (task : TaskRecord) (cgroup_root : String) (w : World)
    (p : SpawnedProcess)
    → resolve_execution_plan request service.capabilities service.default_capability_mode ≡ ok plan
    → plan.degraded ≡ false
    → prepare service host request plan ≡ ok new
    → IsTaskOf new task
    → spawn_task_process machine task plan cgroup_root untouched ≡ (w, ok p)
    → Serves service request machine task.task_id w p
launched-asked_for service host request plan new machine task cgroup_root w p h d made of s =
    let launched = spawn_task_process-Refines machine task plan cgroup_root w p s in
    let child =
      promised-undegraded request service.capabilities service.default_capability_mode plan
        task.workspace_dir h d in
    let (same_request, same_plan, same_id) = prepare-request service host request plan new made in
    let resolved = prepare-workspace service host request plan new made in
    let execution = of.execution ∙ ap (λ (q : SubmitTaskRequest). q.execution) same_request in
    record {
      workspace = task.workspace_dir;
      resolved = rw (of.task_id, of.workspace_dir) resolved;
      command = launched.command;
      process =
          launched.process
          ∙ ap (λ c. some (record { pid = p.pid; command = launched.command; child = c })) child;
      directory = launched.directory;
      env = launched.env ∙ ap (λ e. minimal_env machine.variable e.env) execution;
    }
