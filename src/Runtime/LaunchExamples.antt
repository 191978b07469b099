-- ===== src/Runtime/LaunchExamples.antt =====
-- The launch at concrete inputs: a task with every limit in the isolated profile, on a machine that
-- grants all, and on one that refuses the cgroup.
use execgo_runtime.Base.{◌≡◌, refl, String, Option, none, some, [], ◌∷◌, any, if◌then◌else◌, str_eq}
use execgo_runtime.Base.Dict
use execgo_runtime.Base.Text.{decimal}
use execgo_runtime.Errors.{ok, err, io, sandbox_setup, to_string}
use execgo_runtime.Types.Control.{CapabilityMode}
use execgo_runtime.Repo.Rows.{TaskRecord}
use execgo_runtime.Repo.Examples.{accepted_row}
use execgo_runtime.Policy.Examples.{full_runtime, full_request, full_plan, full_planned}
use execgo_runtime.Runtime.Dispatch.{Spawned}
use execgo_runtime.Runtime.Shim.{SpawnedProcess}
use execgo_runtime.Runtime.Launch.{World, Machine, untouched, minimal_env, spawn_task_process}
use execgo_runtime.Runtime.Outcome.{Refines}
use execgo_runtime.Runtime.Started.{spawn_task_process-Refines}
use execgo_runtime.Types.Sandbox.{resolve_workspace_dir}
use execgo_runtime.Repo.Rows.{NewTaskRecord}
use execgo_runtime.Repo.Writes.{new_row}
use execgo_runtime.Runtime.Service.{Service, Host, new_record, prepare, script_path_of}
use execgo_runtime.Runtime.Requested.{Serves, launched-asked_for}
use execgo_runtime.Runtime.Environment.{first_some, last_entry, get-minimal_env}

abbrev variable : String → Option String
variable name =
    if str_eq name "PATH" then some "/bin" else if str_eq name "TOKEN" then some "x" else none

abbrev granting : Machine
granting = record {
  open_output_file = λ path. ok tt;
  create_dir_all = λ path. ok tt;
  write_file = λ path text. ok tt;
  variable = variable;
  kernel = λ c. none;
  exec = λ command. Spawned.spawned 42;
}

-- No file can be written, and so no process joins a cgroup.
abbrev refusing : Machine
refusing = record granting { write_file = λ path text. err (io "read-only file system") }

abbrev task : TaskRecord
task = record accepted_row { limits = full_request.limits; sandbox = full_request.sandbox }

abbrev started : SpawnedProcess
started = record { pid = 42; pgid = 42; script_path = none; cgroup_dir = some "/sys/fs/cgroup/t1" }

abbrev left : World
left = (spawn_task_process granting task full_plan "/sys/fs/cgroup" untouched).0

launches :
    spawn_task_process granting task full_plan "/sys/fs/cgroup" untouched ≡ (left, ok started)
unfolding spawn_task_process
launches = refl

cgroup_written :
    left.files
    ≡ ("/sys/fs/cgroup/t1/memory.max", "4096")
      ∷ ("/sys/fs/cgroup/t1/pids.max", "8")
      ∷ ("/sys/fs/cgroup/t1/cgroup.procs", "42")
      ∷ []
unfolding spawn_task_process decimal
cgroup_written = refl

spawn_task_process-Refines_example : Refines granting task full_plan "/sys/fs/cgroup" left started
spawn_task_process-Refines_example =
    spawn_task_process-Refines granting task full_plan "/sys/fs/cgroup" left started launches

-- A service that prepares the task of the full request under the identifier of the row.
abbrev service : Service
service = record {
  capabilities = full_runtime;
  ledger = record {
    capacity = record { task_slots = 2; memory_bytes = none; pids = none };
    tenant_quotas = [];
  };
  default_capability_mode = CapabilityMode.adaptive;
  max_queued_tasks = 16;
  tasks_dir = "/data/tasks";
}

abbrev host : Host
host = record { generate_task_id = "t1"; clock = λ k. k; create_files = λ new. ok tt }

abbrev prepared : NewTaskRecord
prepared = new_record full_request full_plan "t1" "/data/tasks/t1" "/data/tasks/t1/workspace"

prepares : prepare service host full_request full_plan ≡ ok prepared
unfolding prepare resolve_workspace_dir script_path_of
prepares = refl

abbrev row : TaskRecord
row = new_row prepared 0

launches_row :
    spawn_task_process granting row full_plan "/sys/fs/cgroup" untouched
    ≡ ((spawn_task_process granting row full_plan "/sys/fs/cgroup" untouched).0, ok started)
unfolding spawn_task_process
launches_row = refl

launched-asked_for_example :
    Serves service full_request granting "t1"
      (spawn_task_process granting row full_plan "/sys/fs/cgroup" untouched).0
      started
launched-asked_for_example =
    launched-asked_for service host full_request full_plan prepared granting row "/sys/fs/cgroup"
      (spawn_task_process granting row full_plan "/sys/fs/cgroup" untouched).0 started full_planned
      refl prepares (record { task_id = refl; workspace_dir = refl; execution = refl }) launches_row

-- The launch fails, and its process is there.
leaves_a_process :
    (spawn_task_process refusing task full_plan "/sys/fs/cgroup" untouched).1
    ≡ err (sandbox_setup "configure cgroup: io error: read-only file system")
unfolding spawn_task_process to_string
leaves_a_process = refl

get-minimal_env_example :
    Dict.get (minimal_env variable (("LANG", "C") ∷ [])) "TOKEN"
    ≡ first_some (last_entry (("LANG", "C") ∷ []) "TOKEN") (
        if any (λ name. str_eq name "TOKEN") ("PATH" ∷ "HOME" ∷ "LANG" ∷ "TMPDIR" ∷ "USER" ∷ [])
        then variable "TOKEN"
        else none)
get-minimal_env_example = get-minimal_env variable (("LANG", "C") ∷ []) "TOKEN"
