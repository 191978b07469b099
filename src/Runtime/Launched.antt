-- ===== src/Runtime/Launched.antt =====
-- The process that a launch leaves, and what the plan of its task promises of it.
use execgo_runtime.Base.{
  String, ◌≡◌, refl, Bool, true, false, ◌&&◌, Option, none, some, arith, if◌then◌else◌,
}
use execgo_runtime.Types.Sandbox.{
  SandboxPolicy, NamespaceConfig, is_linux_sandbox, effective_namespaces,
}
use execgo_runtime.Types.Plan.{ResourceEnforcementPlan}
use execgo_runtime.Runtime.Child.{
  Call, Child, forked, no_namespaces, InChild, and_also, call, apply_resource_enforcement,
  apply_linux_sandbox, pre_exec,
}

-- The root that a sandbox asks for.
abbrev pub root_of : SandboxPolicy → Option String
root_of s = if is_linux_sandbox s.profile && s.chroot then s.rootfs else none

-- The namespaces that a process of a sandbox enters, and whether its children start in a new pid
-- namespace. The process itself stays in the pid namespace of its parent.
abbrev pub namespaces_of : SandboxPolicy → NamespaceConfig
namespaces_of s =
    if is_linux_sandbox s.profile
    then record (effective_namespaces s) { pid = false }
    else no_namespaces

abbrev pub pid_for_children_of : SandboxPolicy → Bool
pid_for_children_of s = is_linux_sandbox s.profile && (effective_namespaces s).pid

abbrev pub directory_in : Option String → String → String
directory_in none directory = directory
directory_in (some root) directory = "/"

-- The process that a plan promises, for a command in a directory.
abbrev pub promised : ResourceEnforcementPlan → SandboxPolicy → String → Child
promised e s directory = record {
  leads_group = true;
  cpu_time_sec = if e.cpu_time_enforced then e.cpu_time_sec else none;
  memory_bytes = if e.memory_enforced then e.memory_bytes else none;
  namespaces = namespaces_of s;
  pid_for_children = pid_for_children_of s;
  root = root_of s;
  directory = directory_in (root_of s) directory;
}

module _ (kernel : Call → Option String) where
  apply_resource_enforcement_lem :
      (e : ResourceEnforcementPlan) (before after : Child)
      → apply_resource_enforcement kernel e before ≡ (after, none)
      → before.cpu_time_sec ≡ none
      → before.memory_bytes ≡ none
      → after ≡ record before {
        cpu_time_sec = if e.cpu_time_enforced then e.cpu_time_sec else none;
        memory_bytes = if e.memory_enforced then e.memory_bytes else none;
      }
  unfolding apply_resource_enforcement
  apply_resource_enforcement_lem e before after h c m = ground arith

  apply_linux_sandbox_lem :
      (s : SandboxPolicy) (before after : Child)
      → apply_linux_sandbox kernel s s.rootfs before ≡ (after, none)
      → before.namespaces ≡ no_namespaces
      → before.pid_for_children ≡ false
      → before.root ≡ none
      → after ≡ record before {
        namespaces = namespaces_of s;
        pid_for_children = pid_for_children_of s;
        root = root_of s;
        directory = directory_in (root_of s) before.directory;
      }
  unfolding apply_linux_sandbox
  apply_linux_sandbox_lem s before after h n c r = ground arith

  and_also-done :
      (p : Child × Option String) (second : InChild) (after : Child)
      → and_also p second ≡ (after, none)
      → (between : Child) × (p ≡ (between, none)) × (second between ≡ (after, none))
  and_also-done (child, none) second after h = (child, refl, h)
  and_also-done (child, some e) second after h = cc

  -- The calls of a child that all succeed leave the process that the plan promises.
  pub pre_exec_lem :
      (e : ResourceEnforcementPlan) (s : SandboxPolicy) (directory : String) (child : Child)
      → pre_exec kernel e s (forked directory) ≡ (child, none)
      → child ≡ promised e s directory
  unfolding pre_exec
  pre_exec_lem e s directory child h =
      let (leading, group, more) =
        and_also-done (call kernel Call.setpgid (forked directory)) _ child h in
      let (limited, limits, last) =
        and_also-done (apply_resource_enforcement kernel e leading) _ child more in
      let led : leading ≡ record (forked directory) { leads_group = true } = ground arith in
      let bounded =
        apply_resource_enforcement_lem e leading limited limits (rw led refl) (rw led refl) in
      let enclosed =
        apply_linux_sandbox_lem s limited child last (rw (bounded, led) refl)
          (rw (bounded, led) refl) (rw (bounded, led) refl) in
      rw (enclosed, bounded, led) refl
