-- ===== src/Runtime/Started.antt =====
-- What spawn_task_process leaves: the process, its command, and the files of the script and of the
-- cgroup.
use execgo_runtime.Base.{
  ℕ, String, ◌≡◌, refl, sym, ap, ◌∙◌, Bool, true, false, Bool-cases, inl, inr, Option, none, some,
  [], ◌∷◌, ◌++◌, arith, if◌then◌else◌,
}
use execgo_runtime.Base.Text.{decimal}
use mathlib.Core.List.{append-nil, append_assoc}
use execgo_runtime.Errors.{AppResult, ok, err, ok_injective}
use execgo_runtime.Types.Execution.{ExecutionKind}
use execgo_runtime.Types.Sandbox.{join}
use execgo_runtime.Types.Plan.{ExecutionPlan, ResourceEnforcementPlan}
use execgo_runtime.Repo.Rows.{TaskRecord}
use execgo_runtime.Runtime.Shim.{SpawnedProcess}
use execgo_runtime.Runtime.Child
use execgo_runtime.Runtime.Child.{Call, Child, forked}
use execgo_runtime.Runtime.Launched.{promised, pre_exec_lem}
use execgo_runtime.Runtime.Launch.{
  Command, World, untouched, Machine, ask, minimal_env, write, script_path_of, build_kind,
  build_command, write_limit, setup_cgroup, start, spawn, as_setup, join_cgroup, spawn_task_process,
}
use execgo_runtime.Runtime.Outcome.{
  follow-ok, ask-ok, script_files, limit_file, cgroup_files, argv, Refines,
}

module _ (machine : Machine) where
  build_kind_lem :
      (kind : ExecutionKind) (task : TaskRecord) (w : World) (built : Command × Option String)
      → build_kind machine kind task untouched ≡ (w, ok built)
      → (w.process ≡ none)
        × (w.files ≡ script_files kind task.execution.script (script_path_of machine task))
        × (built.0.directory ≡ task.workspace_dir)
        × (built.0.env ≡ minimal_env machine.variable task.execution.env)
        × (argv machine kind task ≡ some (built.0.program ∷ built.0.args))
  unfolding build_kind
  build_kind_lem ExecutionKind.command task w built h = ground arith
  build_kind_lem ExecutionKind.script task w built h = ground arith

  write-ok :
      (path text : String) (w v : World)
      → write machine path text w ≡ (v, ok tt)
      → (v.process ≡ w.process) × (v.files ≡ w.files ++ (path, text) ∷ [])
  write-ok path text w v h = ground arith

  write_limit-ok :
      (dir name : String) (enforced : Bool) (limit : Option ℕ) (w v : World)
      → write_limit machine dir name enforced limit w ≡ (v, ok tt)
      → (v.process ≡ w.process) × (v.files ≡ w.files ++ limit_file (join dir name) enforced limit)
  write_limit-ok dir name false limit w v h =
      let same : w ≡ v = cc in rw same (refl, sym (append-nil v.files))
  write_limit-ok dir name true none w v h =
      let same : w ≡ v = cc in rw same (refl, sym (append-nil v.files))
  write_limit-ok dir name true (some n) w v h = write-ok (join dir name) (decimal n) w v h

  setup_cgroup_lem :
      (cgroup_root id : String) (pid : ℕ) (e : ResourceEnforcementPlan) (w v : World) (dir : String)
      → setup_cgroup machine cgroup_root id pid e w ≡ (v, ok dir)
      → (v.process ≡ w.process) × (v.files ≡ w.files ++ cgroup_files (join cgroup_root id) pid e)
  unfolding setup_cgroup
  setup_cgroup_lem cgroup_root id pid e w v dir h =
      let at = join cgroup_root id in
      let (w₁, x₁, e₁, h₁) = follow-ok (ask (machine.create_dir_all at) w) _ v dir h in
      let (w₂, x₂, e₂, h₂) =
        follow-ok (write_limit machine at "memory.max" e.memory_enforced e.memory_bytes w₁) _ v dir
          h₁ in
      let (w₃, x₃, e₃, h₃) =
        follow-ok (write_limit machine at "pids.max" e.pids_enforced e.pids_max w₂) _ v dir h₂ in
      let (w₄, x₄, e₄, h₄) =
        follow-ok (write machine (join at "cgroup.procs") (decimal pid) w₃) _ v dir h₃ in
      let made = ask-ok (machine.create_dir_all at) w w₁ e₁ in
      let memory = write_limit-ok at "memory.max" e.memory_enforced e.memory_bytes w₁ w₂ e₂ in
      let pids = write_limit-ok at "pids.max" e.pids_enforced e.pids_max w₂ w₃ e₃ in
      let procs = write-ok (join at "cgroup.procs") (decimal pid) w₃ w₄ e₄ in
      let last : w₄ ≡ v = ap (λ r. r.0) h₄ in
      (
        ap (λ x. x.process) (sym last)
            ∙ procs.0
            ∙ pids.0
            ∙ memory.0
            ∙ ap (λ x. x.process) (sym made),
        rw (← last) (rw (procs.1, pids.1, memory.1, ← made) (simp append_assoc)),
      )

  start-ok :
      (command : Command) (made : Child × Option String) (w v : World) (pid : ℕ)
      → start machine command made w ≡ (v, ok pid)
      → (made.1 ≡ none)
        × (v.files ≡ w.files)
        × (v.process ≡ some (record { pid = pid; command = command; child = made.0 }))
  start-ok command (child, some e) w v pid h = cc
  start-ok command (child, none) w v pid h = ground arith

  spawn_lem :
      (command : Command) (plan : ExecutionPlan) (w v : World) (pid : ℕ)
      → spawn machine command plan w ≡ (v, ok pid)
      → (v.files ≡ w.files)
        × (v.process
            ≡ some (record {
              pid = pid;
              command = command;
              child = promised plan.resource_enforcement plan.effective_sandbox command.directory;
            }))
  unfolding spawn
  spawn_lem command plan w v pid h =
      let made =
        Child.pre_exec machine.kernel plan.resource_enforcement plan.effective_sandbox
          (forked command.directory) in
      let (well, files, process) = start-ok command made w v pid h in
      let kept =
        pre_exec_lem machine.kernel plan.resource_enforcement plan.effective_sandbox
          command.directory made.0 (ap (λ e. (made.0, e)) well) in
      (
        files,
        process ∙ ap (λ child. some (record { pid = pid; command = command; child = child })) kept,
      )

  as_setup-ok :
      (x : World × AppResult String) (v : World) (d : Option String)
      → as_setup machine x ≡ (v, ok d)
      → (dir : String) × (x ≡ (v, ok dir))
  as_setup-ok (w, ok dir) v d h = (dir, ap (λ r. (r.0, ok dir)) h)
  as_setup-ok (w, err e) v d h = cc

  join_cgroup_lem :
      (cgroup_root id : String) (pid : ℕ) (e : ResourceEnforcementPlan) (w v : World)
      (d : Option String)
      → join_cgroup machine cgroup_root id pid e w ≡ (v, ok d)
      → (v.process ≡ w.process)
        × (v.files
            ≡ w.files
              ++ (if e.cgroup_enforced then cgroup_files (join cgroup_root id) pid e else []))
  unfolding join_cgroup
  join_cgroup_lem cgroup_root id pid e w v d h = elim (Bool-cases e.cgroup_enforced) [
    | inl on ↦
        let (dir, made) =
          as_setup-ok (setup_cgroup machine cgroup_root id pid e w) v d (simp on at h) in
        simp on (setup_cgroup_lem cgroup_root id pid e w v dir made)
    | inr off ↦
        let same : w ≡ v = ap (λ r. r.0) (simp off at h) in
        simp off
          (ap (λ x. x.process) (sym same), ap (λ x. x.files) (sym same) ∙ sym (append-nil w.files))
  ]

  built_lem :
      (task : TaskRecord) (w v : World) (built : Command × Option String)
      → w ≡ untouched
      → build_command machine task w ≡ (v, ok built)
      → (v.process ≡ none)
        × (v.files
            ≡ script_files task.execution.kind task.execution.script (script_path_of machine task))
        × (built.0.directory ≡ task.workspace_dir)
        × (built.0.env ≡ minimal_env machine.variable task.execution.env)
        × (argv machine task.execution.kind task ≡ some (built.0.program ∷ built.0.args))
  unfolding build_command
  built_lem task w v built fresh h =
      let (u, x, made, rest) =
        follow-ok (ask (machine.create_dir_all task.workspace_dir) w) _ v built h in
      let same : u ≡ untouched =
        sym (ask-ok (machine.create_dir_all task.workspace_dir) w u made) ∙ fresh in
      build_kind_lem task.execution.kind task v built (rw same at rest)

  -- The steps of a launch after the output files, one after the other.
  refines :
      (task : TaskRecord) (plan : ExecutionPlan) (cgroup_root : String) (w₂ w₃ w₄ w₅ : World)
      (built : Command × Option String) (pid : ℕ) (dir : Option String)
      → w₂ ≡ untouched
      → build_command machine task w₂ ≡ (w₃, ok built)
      → spawn machine built.0 plan w₃ ≡ (w₄, ok pid)
      → join_cgroup machine cgroup_root task.task_id pid plan.resource_enforcement w₄ ≡ (w₅, ok dir)
      → Refines machine task plan cgroup_root w₅
          (record { pid = pid; pgid = pid; script_path = built.1; cgroup_dir = dir })
  refines task plan cgroup_root w₂ w₃ w₄ w₅ built pid dir fresh b s c =
      let (no_process, script, directory, env, words) = built_lem task w₂ w₃ built fresh b in
      let (kept, process) = spawn_lem built.0 plan w₃ w₄ pid s in
      let (still, more) =
        join_cgroup_lem cgroup_root task.task_id pid plan.resource_enforcement w₄ w₅ dir c in
      record {
        command = built.0;
        process =
            still
            ∙ process
            ∙ ap
                (λ at. some (record {
                  pid = pid;
                  command = built.0;
                  child = promised plan.resource_enforcement plan.effective_sandbox at;
                }))
                directory;
        words = words;
        directory = directory;
        env = env;
        files = more ∙ rw (kept, script) refl;
        group = refl;
      }

-- A launch that succeeds has started one process, with the process id of the answer. Its command is
-- set to the workspace of the task, with the environment of `minimal_env` and the words of its command
-- or script, and it is what the plan promises: the leader of a group, with the limits that the plan
-- enforces, in the mount, UTS, IPC and network namespaces and in the root of the effective sandbox. It
-- stays in the pid namespace of its parent: of a pid namespace that the sandbox asks for, only the
-- children of the process are members. Its directory is the workspace, or "/" of the new root where
-- the sandbox changes the root. The files are the script of a script task and then, where the plan
-- enforces a cgroup, the limits of the cgroup and the process as its member.
pub spawn_task_process-Refines :
    (machine : Machine) (task : TaskRecord) (plan : ExecutionPlan) (cgroup_root : String)
    (w : World) (p : SpawnedProcess)
    → spawn_task_process machine task plan cgroup_root untouched ≡ (w, ok p)
    → Refines machine task plan cgroup_root w p
unfolding spawn_task_process
spawn_task_process-Refines machine task plan cgroup_root w p h =
    let e = plan.resource_enforcement in
    let (w₁, x₁, e₁, h₁) =
      follow-ok (ask (machine.open_output_file task.stdout_path) untouched) _ w p h in
    let (w₂, x₂, e₂, h₂) =
      follow-ok (ask (machine.open_output_file task.stderr_path) w₁) _ w p h₁ in
    let (w₃, built, e₃, h₃) = follow-ok (build_command machine task w₂) _ w p h₂ in
    let (w₄, pid, e₄, h₄) = follow-ok (spawn machine built.0 plan w₃) _ w p h₃ in
    let (w₅, dir, e₅, h₅) =
      follow-ok (join_cgroup machine cgroup_root task.task_id pid e w₄) _ w p h₄ in
    let fresh : w₂ ≡ untouched = sym (
      ask-ok (machine.open_output_file task.stdout_path) untouched w₁ e₁
      ∙ ask-ok (machine.open_output_file task.stderr_path) w₁ w₂ e₂) in
    let done = refines machine task plan cgroup_root w₂ w₃ w₄ w₅ built pid dir fresh e₃ e₄ e₅ in
    let last : w₅ ≡ w = ap (λ r. r.0) h₅ in
    let answered = ok_injective (ap (λ r. r.1) h₅) in rw (last, answered) at done
