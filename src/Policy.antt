-- ===== src/Policy.antt =====
-- src/policy.rs: the negotiation of a request against the capabilities of the runtime. The locals
-- `degraded` and `fallback_reasons`, which the source passes as `&mut`, are the record Fallbacks.
pub mod Modes
pub mod Effective
pub mod Undegraded
pub mod Strict
pub mod Examples
use execgo_runtime.Base.{
  Bool, true, false, not, ◌&&◌, ◌||◌, String, none, some, List, [], ◌∷◌, ◌++◌, is_some, is_none,
  map_option, unwrap_or, if◌then◌else◌, str_append,
}
use execgo_runtime.Errors.{AppResult, ok, err, unsupported_capability, ◌>>=◌}
use execgo_runtime.Types.Control.{CapabilityMode, TaskPolicy, ControlContext}
use execgo_runtime.Types.Sandbox.{
  SandboxProfile, SandboxPolicy, NamespaceConfig, is_linux_sandbox, effective_namespaces,
}
use execgo_runtime.Types.Limits.{ResourceLimits}
use execgo_runtime.Types.Plan.{ExecutionPlan}
use execgo_runtime.Types.Capability.{RuntimeCapabilities, NamespaceCapabilities}
use execgo_runtime.Types.Request.{SubmitTaskRequest}

pub record Fallbacks : Type 0 where
  pub degraded : Bool
  pub reasons : List String

abbrev pub no_fallbacks : Fallbacks
no_fallbacks = record { degraded = false; reasons = [] }

-- `effective_capability_mode`
abbrev pub effective_capability_mode : SubmitTaskRequest → CapabilityMode → CapabilityMode
effective_capability_mode request default_mode =
    unwrap_or default_mode (map_option (λ (p : TaskPolicy). p.capability_mode) request.policy)

abbrev pub is_strict_mode : CapabilityMode → Bool
is_strict_mode CapabilityMode.adaptive = false
is_strict_mode CapabilityMode.strict = true

abbrev pub is_strict : SubmitTaskRequest → CapabilityMode → Bool
is_strict request default_mode =
    is_strict_mode (effective_capability_mode request default_mode)
    || unwrap_or false
        (map_option (λ (c : ControlContext). c.requires_strict_sandbox) request.control_context)

-- `if strict { return Err(..); } degraded = true; fallback_reasons.push(..);`
pub fall_back : Bool → String → String → Fallbacks → AppResult Fallbacks
fall_back true message reason f = err (unsupported_capability message)
fall_back false message reason f =
    ok (record { degraded = true; reasons = f.reasons ++ reason ∷ [] })

negotiate_profile :
    Bool → RuntimeCapabilities → SandboxPolicy → Fallbacks → AppResult (SandboxPolicy × Fallbacks)
negotiate_profile strict capabilities s f =
    if is_linux_sandbox s.profile && not capabilities.sandbox.linux_sandbox
    then (do
      f' ←
          fall_back strict "sandbox.profile=linux_sandbox is unavailable on this runtime"
            "linux_sandbox is unavailable; falling back to process sandbox" f
      ok (
        record s {
          profile = SandboxProfile.process;
          chroot = false;
          rootfs = none;
          namespaces = none;
        },
        f',
      ))
    else ok (s, f)

negotiate_chroot :
    Bool → RuntimeCapabilities → SandboxPolicy → Fallbacks → AppResult (SandboxPolicy × Fallbacks)
negotiate_chroot strict capabilities s f =
    if s.chroot && not capabilities.sandbox.chroot
    then (do
      f' ←
          fall_back strict "sandbox.chroot is unavailable on this runtime"
            "chroot is unavailable; running without chroot" f
      ok (record s { chroot = false; rootfs = none }, f'))
    else ok (s, f)

pub namespace_or_fallback : Bool → Bool → Bool → String → Fallbacks → AppResult (Bool × Fallbacks)
namespace_or_fallback requested supported strict name f =
    if not requested then ok (false, f) else if supported then ok (true, f) else (do
      f' ←
          fall_back strict (str_append name " namespace is unavailable on this runtime")
            (str_append name " namespace is unavailable; running without it") f
      ok (false, f'))

adjust_namespaces :
    Bool
    → NamespaceCapabilities
    → NamespaceConfig
    → Fallbacks
    → AppResult (NamespaceConfig × Fallbacks)
adjust_namespaces strict supported requested f = do
  (mount, f₁) ← namespace_or_fallback requested.mount supported.mount strict "mount" f
  (pid, f₂) ← namespace_or_fallback requested.pid supported.pid strict "pid" f₁
  (uts, f₃) ← namespace_or_fallback requested.uts supported.uts strict "uts" f₂
  (ipc, f₄) ← namespace_or_fallback requested.ipc supported.ipc strict "ipc" f₃
  (net, f₅) ← namespace_or_fallback requested.net supported.net strict "net" f₄
  ok (record { mount = mount; pid = pid; uts = uts; ipc = ipc; net = net }, f₅)

negotiate_namespaces :
    Bool → RuntimeCapabilities → SandboxPolicy → Fallbacks → AppResult (SandboxPolicy × Fallbacks)
negotiate_namespaces strict capabilities s f =
    if is_linux_sandbox s.profile
    then (do
      (adjusted, f') ←
          adjust_namespaces strict capabilities.sandbox.namespaces (effective_namespaces s) f
      ok (record s { namespaces = some adjusted }, f'))
    else ok (s, f)

abbrev pub cgroup_enforced : RuntimeCapabilities → SandboxPolicy → Bool
cgroup_enforced capabilities effective =
    is_linux_sandbox effective.profile && capabilities.resources.cgroup_writable

abbrev pub cpu_time_enforced : RuntimeCapabilities → ResourceLimits → Bool
cpu_time_enforced capabilities limits =
    is_none limits.cpu_time_sec || capabilities.resources.rlimit_cpu

abbrev pub memory_enforced : RuntimeCapabilities → ResourceLimits → Bool
memory_enforced capabilities limits =
    is_none limits.memory_bytes || capabilities.resources.rlimit_memory

abbrev pub pids_enforced : RuntimeCapabilities → ResourceLimits → SandboxPolicy → Bool
pids_enforced capabilities limits effective =
    is_none limits.pids_max
    || (cgroup_enforced capabilities effective && capabilities.resources.pids_limit)

-- `if limit.is_some() && !enforced { .. }`
pub require_enforced : Bool → Bool → Bool → String → String → Fallbacks → AppResult Fallbacks
require_enforced limited enforced strict message reason f =
    if limited && not enforced then fall_back strict message reason f else ok f

pub negotiate_limits :
    Bool → RuntimeCapabilities → ResourceLimits → SandboxPolicy → Fallbacks → AppResult Fallbacks
negotiate_limits strict capabilities limits effective f = do
  f₁ ←
      require_enforced (is_some limits.cpu_time_sec) (cpu_time_enforced capabilities limits) strict
        "cpu_time_sec enforcement is unavailable on this runtime"
        "cpu_time_sec enforcement is unavailable" f
  f₂ ←
      require_enforced (is_some limits.memory_bytes) (memory_enforced capabilities limits) strict
        "memory_bytes enforcement is unavailable on this runtime"
        "memory_bytes enforcement is unavailable" f₁
  require_enforced (is_some limits.pids_max) (pids_enforced capabilities limits effective) strict
      "pids_max enforcement requires writable cgroup support"
      "pids_max enforcement requires writable cgroup support" f₂

abbrev pub build_plan :
    SubmitTaskRequest
    → RuntimeCapabilities
    → CapabilityMode
    → SandboxPolicy
    → Fallbacks
    → ExecutionPlan
build_plan request capabilities mode effective f = record {
  capability_mode = mode;
  requested_sandbox = request.sandbox;
  effective_sandbox = effective;
  resource_enforcement = record {
    wall_time_ms = limits.wall_time_ms;
    cpu_time_sec = limits.cpu_time_sec;
    cpu_time_enforced = is_some limits.cpu_time_sec && cpu_time_enforced capabilities limits;
    memory_bytes = limits.memory_bytes;
    memory_enforced = is_some limits.memory_bytes && memory_enforced capabilities limits;
    pids_max = limits.pids_max;
    pids_enforced = is_some limits.pids_max && pids_enforced capabilities limits effective;
    cgroup_enforced = cgroup_enforced capabilities effective;
    oom_detection =
        is_some limits.memory_bytes
        && cgroup_enforced capabilities effective
        && capabilities.resources.oom_detection;
  };
  degraded = f.degraded;
  fallback_reasons = f.reasons;
  capability_warnings = capabilities.warnings;
}
  where
    open request use {limits}

-- The three steps on the sandbox.
pub negotiate_sandbox :
    Bool → RuntimeCapabilities → SandboxPolicy → AppResult (SandboxPolicy × Fallbacks)
negotiate_sandbox strict capabilities requested = do
  (s₁, f₁) ← negotiate_profile strict capabilities requested no_fallbacks
  (s₂, f₂) ← negotiate_chroot strict capabilities s₁ f₁
  negotiate_namespaces strict capabilities s₂ f₂

-- All that can fail in `resolve_execution_plan`, after its local `strict`.
negotiate : Bool → SubmitTaskRequest → RuntimeCapabilities → AppResult (SandboxPolicy × Fallbacks)
negotiate strict request capabilities = do
  (effective, f) ← negotiate_sandbox strict capabilities request.sandbox
  f' ← negotiate_limits strict capabilities request.limits effective f
  ok (effective, f')

pub resolve_execution_plan :
    SubmitTaskRequest → RuntimeCapabilities → CapabilityMode → AppResult ExecutionPlan
resolve_execution_plan request capabilities default_mode = do
  (effective, f) ← negotiate (is_strict request default_mode) request capabilities
  ok (build_plan request capabilities (effective_capability_mode request default_mode) effective f)
