-- ===== src/Runtime/Child.antt =====
-- src/runtime.rs: what the child process of a launch does between fork and exec, on Linux: its
-- process group, apply_resource_enforcement and apply_linux_sandbox. A system call changes what the
-- process is, or fails with an error, which ends the sequence.
use execgo_runtime.Base.{ℕ, String, Bool, true, false, ◌||◌, Option, none, some, if◌then◌else◌}
use execgo_runtime.Types.Sandbox.{
  SandboxPolicy, NamespaceConfig, is_linux_sandbox, effective_namespaces,
}
use execgo_runtime.Types.Limits.{ResourceLimits}
use execgo_runtime.Types.Plan.{ResourceEnforcementPlan}

pub data Call : Type 0 where
  setpgid : Call
  setrlimit_cpu : ℕ → Call
  setrlimit_as : ℕ → Call
  unshare : NamespaceConfig → Call
  chroot : String → Call
  chdir : String → Call

-- What the calls determine of a process: whether it leads a group of its own, its limits, the
-- namespaces that it does not share with its parent, whether its own children start in a new pid
-- namespace, its root and its directory.
pub record Child : Type 0 where
  pub leads_group : Bool
  pub cpu_time_sec : Option ℕ
  pub memory_bytes : Option ℕ
  pub namespaces : NamespaceConfig
  pub pid_for_children : Bool
  pub root : Option String
  pub directory : String

abbrev pub no_namespaces : NamespaceConfig
no_namespaces = record { mount = false; pid = false; uts = false; ipc = false; net = false }

-- A child as fork leaves it, in the directory of the command.
abbrev pub forked : String → Child
forked directory = record {
  leads_group = false;
  cpu_time_sec = none;
  memory_bytes = none;
  namespaces = no_namespaces;
  pid_for_children = false;
  root = none;
  directory = directory;
}

-- What `unshare` moves the caller into: with CLONE_NEWPID the caller stays in its pid namespace, and
-- only the children that it forks later are in the new one.
abbrev pub entered : NamespaceConfig → NamespaceConfig
entered flags = record flags { pid = false }

-- A call that succeeds.
abbrev pub perform : Call → Child → Child
perform Call.setpgid child = record child { leads_group = true }
perform (Call.setrlimit_cpu n) child = record child { cpu_time_sec = some n }
perform (Call.setrlimit_as n) child = record child { memory_bytes = some n }
perform (Call.unshare flags) child = record child {
  namespaces = entered flags;
  pid_for_children = flags.pid;
}
perform (Call.chroot path) child = record child { root = some path }
perform (Call.chdir path) child = record child { directory = path }

-- `nix::Result<()>` in the child: the process that is left, and the text of an error.
abbrev pub InChild : Type 0
InChild = Child → Child × Option String

abbrev pub done : InChild
done child = (child, none)

-- `first?; second`
abbrev pub and_also : Child × Option String → InChild → Child × Option String
and_also (child, none) second = second child
and_also (child, some e) second = (child, some e)

infixl 5 ◌>>◌
abbrev pub ◌>>◌ : InChild → InChild → InChild
◌>>◌ first second child = and_also (first child) second

-- `if let Some(value) = limit { setrlimit(..)?; }` under `if enforced`.
abbrev pub limit_if : Bool → Option ℕ → (ℕ → InChild) → InChild
limit_if false limit set = done
limit_if true none set = done
limit_if true (some n) set = set n

module _ (kernel : Call → Option String) where
  abbrev pub call : Call → InChild
  call c child = elim (kernel c) [ none ↦ (perform c child, none) | some e ↦ (child, some e) ]

  unfoldable pub apply_resource_enforcement : ResourceEnforcementPlan → InChild
  apply_resource_enforcement enforcement = do
    limit_if enforcement.cpu_time_enforced enforcement.cpu_time_sec
        (λ n. call (Call.setrlimit_cpu n))
    limit_if enforcement.memory_enforced enforcement.memory_bytes (λ n. call (Call.setrlimit_as n))

  -- The older path, without a plan.
  unfoldable pub apply_rlimits : ResourceLimits → InChild
  apply_rlimits limits = do
    limit_if true limits.cpu_time_sec (λ n. call (Call.setrlimit_cpu n))
    limit_if true limits.memory_bytes (λ n. call (Call.setrlimit_as n))

  -- `if !flags.is_empty() { unshare(flags)?; }`
  abbrev pub unshare_flags : NamespaceConfig → InChild
  unshare_flags flags =
      if flags.mount || flags.pid || flags.uts || flags.ipc || flags.net
      then call (Call.unshare flags)
      else done

  -- `if let Some(root) = rootfs { chroot(root)?; chdir("/")?; }`
  abbrev pub change_root : Option String → InChild
  change_root none = done
  change_root (some root) = do call (Call.chroot root); call (Call.chdir "/")

  unfoldable pub apply_linux_sandbox : SandboxPolicy → Option String → InChild
  apply_linux_sandbox sandbox rootfs =
      if is_linux_sandbox sandbox.profile
      then (do
        unshare_flags (effective_namespaces sandbox)
        if sandbox.chroot then change_root rootfs else done)
      else done

  -- The closure of `pre_exec`.
  unfoldable pub pre_exec : ResourceEnforcementPlan → SandboxPolicy → InChild
  unfolding apply_resource_enforcement apply_linux_sandbox
  pre_exec enforcement sandbox = do
    call Call.setpgid
    apply_resource_enforcement enforcement
    apply_linux_sandbox sandbox sandbox.rootfs
