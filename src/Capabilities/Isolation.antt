-- ===== src/Capabilities/Isolation.antt =====
-- The probe and the negotiation together: which strict requests a host accepts.
use execgo_runtime.Base.{Bool, true, not, ◌&&◌, ◌||◌, ◌==◌, ◌≡◌, refl, ap, ◌∙◌, is_some, arith}
use execgo_runtime.Types.Control.{CapabilityMode}
use execgo_runtime.Types.Sandbox.{
  SandboxPolicy, is_linux_sandbox, effective_namespaces, NamespaceConfig,
}
use execgo_runtime.Types.Limits.{ResourceLimits}
use execgo_runtime.Types.Request.{SubmitTaskRequest}
use execgo_runtime.Policy.{is_strict, resolve_execution_plan}
use execgo_runtime.Policy.Strict.{is_ok, met, sandbox_met, limits_met, strict_accepts}
use execgo_runtime.Capabilities.{
  CapabilityProbeInput, Host, linux_sandbox, probe_runtime_capabilities, path_likely_writable,
  current_euid,
}

-- The host can isolate a task: a Linux host, with the service run by root, and not switched off.
abbrev pub isolates : Host → CapabilityProbeInput → Bool
isolates host input = host.linux && host.unix && host.euid == 0 && not input.disable_linux_sandbox

-- It has a cgroup for the task: version 2 on Linux, not switched off, under a writable root.
abbrev pub has_cgroup : Host → CapabilityProbeInput → Bool
has_cgroup host input =
    host.linux
    && host.exists "/sys/fs/cgroup/cgroup.controllers"
    && not input.disable_cgroup
    && path_likely_writable host input.cgroup_root

-- What a request needs of the host.
abbrev pub host_meets : Host → CapabilityProbeInput → SubmitTaskRequest → Bool
host_meets host input request =
    met (is_linux_sandbox request.sandbox.profile || request.sandbox.chroot) (isolates host input)
    && (met (is_some request.limits.cpu_time_sec || is_some request.limits.memory_bytes) host.unix
        && met (is_some request.limits.pids_max)
            (is_linux_sandbox request.sandbox.profile && has_cgroup host input))

linux_sandbox-isolates :
    (host : Host) (input : CapabilityProbeInput) → linux_sandbox host input ≡ isolates host input
unfolding current_euid
linux_sandbox-isolates host input = ground arith

all_or_none :
    (isolated chroot q : Bool) (n : NamespaceConfig)
    → (met isolated q
        && (met chroot q
            && met isolated
                (met n.mount q && (met n.pid q && (met n.uts q && (met n.ipc q && met n.net q))))))
      ≡ met (isolated || chroot) q
all_or_none isolated chroot q n = ground arith

sandbox_met-probe :
    (host : Host) (input : CapabilityProbeInput) (s : SandboxPolicy)
    → sandbox_met (probe_runtime_capabilities host input) s
      ≡ met (is_linux_sandbox s.profile || s.chroot) (isolates host input)
unfolding probe_runtime_capabilities
sandbox_met-probe host input s =
    all_or_none (is_linux_sandbox s.profile) s.chroot (linux_sandbox host input)
      (effective_namespaces s)
    ∙ ap (met (is_linux_sandbox s.profile || s.chroot)) (linux_sandbox-isolates host input)

limits_met-probe :
    (host : Host) (input : CapabilityProbeInput) (limits : ResourceLimits) (isolated : Bool)
    → limits_met (probe_runtime_capabilities host input) limits isolated ≡ (
        met (is_some limits.cpu_time_sec || is_some limits.memory_bytes) host.unix
        && met (is_some limits.pids_max) (isolated && has_cgroup host input))
unfolding probe_runtime_capabilities
limits_met-probe host input limits isolated = ground arith

-- On the capabilities that the probe finds, a strict request is accepted exactly when the host can
-- isolate the task where the request asks for the isolated profile or a root, is a Unix where it
-- limits processor time or memory, and, where it limits processes, the request asks for the
-- isolated profile and the host has a cgroup for the task.
pub probe_accepts :
    (host : Host) (input : CapabilityProbeInput) (request : SubmitTaskRequest)
    (default_mode : CapabilityMode)
    → is_strict request default_mode ≡ true
    → is_ok (resolve_execution_plan request (probe_runtime_capabilities host input) default_mode)
      ≡ host_meets host input request
probe_accepts host input request default_mode strict =
    let limits =
      limits_met-probe host input request.limits (is_linux_sandbox request.sandbox.profile) in
    let sandbox = sandbox_met-probe host input request.sandbox in
    strict_accepts request (probe_runtime_capabilities host input) default_mode strict
    ∙ rw (sandbox, limits) refl
