-- ===== src/Runtime/Outcome.antt =====
-- What a launch of a task under a plan is to leave.
use execgo_runtime.Base.{
  ℕ, String, ◌≡◌, refl, Bool, true, false, Option, none, some, List, [], ◌∷◌, ◌++◌, if◌then◌else◌,
}
use execgo_runtime.Base.Text.{decimal}
use execgo_runtime.Errors.{AppResult, Checked, ok, err}
use execgo_runtime.Types.Execution.{ExecutionKind}
use execgo_runtime.Types.Sandbox.{join}
use execgo_runtime.Types.Plan.{ExecutionPlan, ResourceEnforcementPlan}
use execgo_runtime.Repo.Rows.{TaskRecord}
use execgo_runtime.Runtime.Shim.{SpawnedProcess}
use execgo_runtime.Runtime.Launched.{promised}
use execgo_runtime.Runtime.Launch.{
  Command, World, Machine, Launching, follow, ask, minimal_env, script_path_of,
}

-- The parts of a successful step of a launch.
pub follow-ok :
    {A B : Type 0} (x : World × AppResult A) (f : A → Launching B) (v : World) (b : B)
    → follow x f ≡ (v, ok b)
    → (w : World) × (a : A) × (x ≡ (w, ok a)) × (f a w ≡ (v, ok b))
follow-ok (w, ok a) f v b h = (w, a, refl, h)
follow-ok (w, err e) f v b h = cc

pub ask-ok : (answer : Checked) (w v : World) → ask answer w ≡ (v, ok tt) → w ≡ v
ask-ok answer w v h = cc

-- The files of a script task before its process starts.
abbrev pub script_files : ExecutionKind → Option String → String → List (String × String)
script_files ExecutionKind.command script path = []
script_files ExecutionKind.script none path = []
script_files ExecutionKind.script (some script) path = (path, script) ∷ []

abbrev pub limit_file : String → Bool → Option ℕ → List (String × String)
limit_file path true (some n) = (path, decimal n) ∷ []
limit_file path true none = []
limit_file path false limit = []

-- The files of the cgroup of a process.
abbrev pub cgroup_files : String → ℕ → ResourceEnforcementPlan → List (String × String)
cgroup_files dir pid e =
    limit_file (join dir "memory.max") e.memory_enforced e.memory_bytes
    ++ (limit_file (join dir "pids.max") e.pids_enforced e.pids_max
        ++ (join dir "cgroup.procs", decimal pid) ∷ [])

-- What an interpreter runs with a script file, or a shell with the script.
abbrev pub words_of : Option (List String) → String → String → List String
words_of none script path = "/bin/sh" ∷ "-c" ∷ script ∷ []
words_of (some interpreter) script path = interpreter ++ path ∷ []

abbrev pub map_words : (String → List String) → Option String → Option (List String)
map_words f none = none
map_words f (some text) = some (f text)

-- The words of the command of a task: a program and its arguments, or the words for a script.
abbrev pub argv : Machine → ExecutionKind → TaskRecord → Option (List String)
argv machine ExecutionKind.command task =
    map_words (λ program. program ∷ task.execution.args) task.execution.program
argv machine ExecutionKind.script task =
    map_words (λ script. words_of task.execution.interpreter script (script_path_of machine task))
      task.execution.script

-- What a launch of a task under a plan leaves.
pub record Refines (machine : Machine) (task : TaskRecord) (plan : ExecutionPlan)
    (cgroup_root : String) (w : World) (p : SpawnedProcess) : Type 0 where
  pub command : Command
  pub process :
      w.process
      ≡ some (record {
        pid = p.pid;
        command = command;
        child = promised plan.resource_enforcement plan.effective_sandbox task.workspace_dir;
      })
  pub directory : command.directory ≡ task.workspace_dir
  pub words : argv machine task.execution.kind task ≡ some (command.program ∷ command.args)
  pub env : command.env ≡ minimal_env machine.variable task.execution.env
  pub files :
      w.files
      ≡ script_files task.execution.kind task.execution.script (script_path_of machine task)
        ++ (if plan.resource_enforcement.cgroup_enforced
            then cgroup_files (join cgroup_root task.task_id) p.pid plan.resource_enforcement
            else [])
  pub group : p.pgid ≡ p.pid
