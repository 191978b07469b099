-- ===== src/Runtime/Launch.antt =====
-- src/runtime.rs: the launch of a workload, spawn_task_process with build_command, minimal_env and
-- setup_cgroup, on Linux. The file system, fork and exec are what the system answers; what the
-- launch leaves behind is a world of files and of a process.
use execgo_runtime.Base.{
  ℕ, String, Bool, true, false, Option, none, some, List, [], ◌∷◌, ◌++◌, if◌then◌else◌, str_append,
  unwrap_or,
}
use execgo_runtime.Base.Text.{decimal}
use execgo_runtime.Base.Dict
use execgo_runtime.Base.Dict.{Dict}
use execgo_runtime.Errors.{
  AppError, AppResult, Checked, ok, err, invalid_input, launch_failed, sandbox_setup, internal,
  to_string,
}
use execgo_runtime.Types.Execution.{ExecutionKind}
use execgo_runtime.Types.Sandbox.{join}
use execgo_runtime.Types.Plan.{ExecutionPlan, ResourceEnforcementPlan}
use execgo_runtime.Repo.Rows.{TaskRecord}
use execgo_runtime.Runtime.Dispatch.{Spawned, spawned, refused}
use execgo_runtime.Runtime.Shim.{SpawnedProcess}
use execgo_runtime.Runtime.Child
use execgo_runtime.Runtime.Child.{Call, Child, forked}

-- `StdCommand`, its environment cleared and then set.
pub record Command : Type 0 where
  pub program : String
  pub args : List String
  pub directory : String
  pub env : Dict String

-- A process that runs a command, after the calls of its `pre_exec`.
pub record Process : Type 0 where
  pub pid : ℕ
  pub command : Command
  pub child : Child

-- The files written, oldest first, and the process that was started.
pub record World : Type 0 where
  pub files : List (String × String)
  pub process : Option Process

abbrev pub untouched : World
untouched = record { files = []; process = none }

-- The answers of the system.
pub record Machine : Type 0 where
  pub open_output_file : String → Checked
  pub create_dir_all : String → Checked
  pub write_file : String → String → Checked
  pub variable : String → Option String
  pub kernel : Call → Option String
  pub exec : Command → Spawned

-- A step of the launch: the world that it leaves, and its result.
abbrev pub Launching : Type 0 → Type 0
Launching A = World → World × AppResult A

abbrev pub pure : {A : Type 0} → A → Launching A
pure a w = (w, ok a)

abbrev pub fail : {A : Type 0} → AppError → Launching A
fail e w = (w, err e)

abbrev pub follow : {A B : Type 0} → World × AppResult A → (A → Launching B) → World × AppResult B
follow (w, ok a) f = f a w
follow (w, err e) f = (w, err e)

infixl 5 ◌>>=◌ ◌>>◌
abbrev pub ◌>>=◌ : {A B : Type 0} → Launching A → (A → Launching B) → Launching B
◌>>=◌ m f w = follow (m w) f

abbrev pub ◌>>◌ : {B : Type 0} → Launching (Unit {0}) → Launching B → Launching B
m >> k = m >>= λ _. k

-- An answer that leaves no file behind which the launch relies on.
abbrev pub ask : Checked → Launching (Unit {0})
ask answer w = (w, answer)

-- `minimal_env`
abbrev pub kept_variables : List String
kept_variables = "PATH" ∷ "HOME" ∷ "LANG" ∷ "TMPDIR" ∷ "USER" ∷ []

abbrev pub put_variable : Dict String → String → Option String → Dict String
put_variable env key none = env
put_variable env key (some value) = Dict.put env key value

unfoldable pub inherit : (String → Option String) → List String → Dict String → Dict String
inherit variable [] env = env
inherit variable (key ∷ rest) env = inherit variable rest (put_variable env key (variable key))

unfoldable pub extend : Dict String → Dict String → Dict String
extend env [] = env
extend env ((key, value) ∷ rest) = extend (Dict.put env key value) rest

unfoldable pub minimal_env : (String → Option String) → Dict String → Dict String
unfolding inherit extend
minimal_env variable extra = extend (inherit variable kept_variables []) extra

module _ (machine : Machine) where
  -- A file that is written, or an error.
  abbrev pub write : String → String → Launching (Unit {0})
  write path text w = elim (machine.write_file path text) [
    | ok x ↦ (record w { files = w.files ++ (path, text) ∷ [] }, ok tt)
    | err e ↦ (w, err e)
  ]

  abbrev pub command_of : TaskRecord → String → List String → Command
  command_of task program args = record {
    program = program;
    args = args;
    directory = task.workspace_dir;
    env = minimal_env machine.variable task.execution.env;
  }

  -- The command of a script. The index of an empty interpreter panics in the source; the validation
  -- of a submission refuses one.
  abbrev pub script_command :
      TaskRecord → String → String → Option (List String) → AppResult Command
  script_command task script path none = ok (command_of task "/bin/sh" ("-c" ∷ script ∷ []))
  script_command task script path (some []) = err (internal "index out of bounds")
  script_command task script path (some (first ∷ rest)) =
      ok (command_of task first (rest ++ path ∷ []))

  abbrev pub answer : {A : Type 0} → AppResult A → Launching A
  answer result w = (w, result)

  abbrev pub script_path_of : TaskRecord → String
  script_path_of task = unwrap_or (join task.task_dir "script.sh") task.script_path

  -- The two kinds of a task in `build_command`.
  unfoldable pub build_kind : ExecutionKind → TaskRecord → Launching (Command × Option String)
  unfolding minimal_env
  build_kind ExecutionKind.command task = elim task.execution.program [
    | none ↦ fail (invalid_input "execution.program missing")
    | some program ↦ pure (command_of task program task.execution.args, none)
  ]
  build_kind ExecutionKind.script task = elim task.execution.script [
    | none ↦ fail (invalid_input "execution.script missing")
    | some script ↦ do
      write (script_path_of task) script
      command ← answer (script_command task script (script_path_of task) task.execution.interpreter)
      pure (command, some (script_path_of task))
  ]

  unfoldable pub build_command : TaskRecord → Launching (Command × Option String)
  unfolding build_kind
  build_command task = do
    ask (machine.create_dir_all task.workspace_dir)
    build_kind task.execution.kind task

  -- `if enforced { if let Some(limit) = limit { fs::write(dir.join(name), limit.to_string())?; } }`
  abbrev pub write_limit : String → String → Bool → Option ℕ → Launching (Unit {0})
  write_limit dir name false limit = pure tt
  write_limit dir name true none = pure tt
  write_limit dir name true (some n) = write (join dir name) (decimal n)

  unfoldable pub setup_cgroup : String → String → ℕ → ResourceEnforcementPlan → Launching String
  setup_cgroup cgroup_root id pid enforcement = do
    ask (machine.create_dir_all dir)
    write_limit dir "memory.max" enforcement.memory_enforced enforcement.memory_bytes
    write_limit dir "pids.max" enforcement.pids_enforced enforcement.pids_max
    write (join dir "cgroup.procs") (decimal pid)
    pure dir
    where
      dir : String
      dir = join cgroup_root id

  -- `StdCommand::spawn`: fork, the calls of `pre_exec` in the child, and exec.
  abbrev pub start : Command → Child × Option String → Launching ℕ
  start command (child, some e) w = (w, err (launch_failed (str_append "spawn process: " e)))
  start command (child, none) w = elim (machine.exec command) [
    | refused e ↦ (w, err (launch_failed (str_append "spawn process: " e)))
    | spawned pid ↦ (
      record w { process = some (record { pid = pid; command = command; child = child }) },
      ok pid,
    )
  ]

  unfoldable pub spawn : Command → ExecutionPlan → Launching ℕ
  unfolding Child.pre_exec
  spawn command plan = start command (
      Child.pre_exec machine.kernel plan.resource_enforcement plan.effective_sandbox
        (forked command.directory))

  -- `.map_err(|err| AppError::SandboxSetup(format!("configure cgroup: {err}")))`
  abbrev pub as_setup : World × AppResult String → World × AppResult (Option String)
  as_setup (w, ok dir) = (w, ok (some dir))
  as_setup (w, err e) = (w, err (sandbox_setup (str_append "configure cgroup: " (to_string e))))

  -- The cgroup of a process that was started.
  unfoldable pub join_cgroup :
      String → String → ℕ → ResourceEnforcementPlan → Launching (Option String)
  unfolding setup_cgroup
  join_cgroup cgroup_root id pid enforcement w =
      if enforcement.cgroup_enforced
      then as_setup (setup_cgroup cgroup_root id pid enforcement w)
      else (w, ok none)

  unfoldable pub spawn_task_process : TaskRecord → ExecutionPlan → String → Launching SpawnedProcess
  unfolding build_command spawn join_cgroup
  spawn_task_process task plan cgroup_root = do
    ask (machine.open_output_file task.stdout_path)
    ask (machine.open_output_file task.stderr_path)
    built ← build_command task
    pid ← spawn built.0 plan
    cgroup_dir ← join_cgroup cgroup_root task.task_id pid plan.resource_enforcement
    pure (record { pid = pid; pgid = pid; script_path = built.1; cgroup_dir = cgroup_dir })
