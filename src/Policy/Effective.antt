-- ===== src/Policy/Effective.antt =====
-- The sandbox and the limits of a negotiated plan: what the runtime supports of what was asked for.
use execgo_runtime.Base.{
  Bool, true, false, not, ◌&&◌, ◌||◌, Bool-cases, String, ◌≡◌, refl, inl, inr, some, arith, is_some,
}
use execgo_runtime.Errors.{>>=-eq-ok, AppResult, ok}
use execgo_runtime.Types.Control.{CapabilityMode}
use execgo_runtime.Types.Sandbox.{
  SandboxPolicy, NamespaceConfig, is_linux_sandbox, effective_namespaces,
}
use execgo_runtime.Types.Limits.{ResourceLimits}
use execgo_runtime.Types.Plan.{ExecutionPlan}
use execgo_runtime.Types.Capability.{RuntimeCapabilities, NamespaceCapabilities}
use execgo_runtime.Types.Request.{SubmitTaskRequest}
use execgo_runtime.Policy.{
  Fallbacks, no_fallbacks, is_strict, fall_back, negotiate_profile, negotiate_chroot,
  namespace_or_fallback, adjust_namespaces, negotiate_namespaces, require_enforced,
  negotiate_limits, negotiate_sandbox, negotiate, effective_capability_mode, build_plan,
  cpu_time_enforced, memory_enforced, pids_enforced, resolve_execution_plan,
}

-- The namespaces that are both asked for and supported.
abbrev pub meet : NamespaceConfig → NamespaceCapabilities → NamespaceConfig
meet asked supported = record {
  mount = asked.mount && supported.mount;
  pid = asked.pid && supported.pid;
  uts = asked.uts && supported.uts;
  ipc = asked.ipc && supported.ipc;
  net = asked.net && supported.net;
}

-- `e` is the part of the sandbox `s` that the runtime supports.
pub record IsSupportedPart (c : RuntimeCapabilities) (s e : SandboxPolicy) : Type 0 where
  pub profile : is_linux_sandbox e.profile ≡ (is_linux_sandbox s.profile && c.sandbox.linux_sandbox)
  pub chroot : e.chroot ≡ (
      s.chroot && c.sandbox.chroot && (not (is_linux_sandbox s.profile) || c.sandbox.linux_sandbox))
  pub rootfs : e.chroot ≡ true → e.rootfs ≡ s.rootfs
  pub namespaces :
      is_linux_sandbox e.profile ≡ true
      → e.namespaces ≡ some (meet (effective_namespaces s) c.sandbox.namespaces)
  pub workspace : e.workspace_subdir ≡ s.workspace_subdir

namespace_or_fallback_lem :
    (requested supported strict : Bool) (name : String) (f g : Fallbacks) (b : Bool)
    → namespace_or_fallback requested supported strict name f ≡ ok (b, g)
    → b ≡ (requested && supported)
unfolding namespace_or_fallback fall_back
namespace_or_fallback_lem requested supported strict name f g b h = ground arith

adjust_namespaces_lem :
    (strict : Bool) (supported : NamespaceCapabilities) (asked n : NamespaceConfig)
    (f g : Fallbacks)
    → adjust_namespaces strict supported asked f ≡ ok (n, g)
    → n ≡ meet asked supported
unfolding adjust_namespaces
adjust_namespaces_lem strict supported asked n f g h =
    let (mount, e₁, h₁) =
      >>=-eq-ok (namespace_or_fallback asked.mount supported.mount strict "mount" (f)) _ (n, g) h in
    let (pid, e₂, h₂) =
      >>=-eq-ok (namespace_or_fallback asked.pid supported.pid strict "pid" (mount.1)) _ (n, g)
        h₁ in
    let (uts, e₃, h₃) =
      >>=-eq-ok (namespace_or_fallback asked.uts supported.uts strict "uts" (pid.1)) _ (n, g) h₂ in
    let (ipc, e₄, h₄) =
      >>=-eq-ok (namespace_or_fallback asked.ipc supported.ipc strict "ipc" (uts.1)) _ (n, g) h₃ in
    let (net, e₅, h₅) =
      >>=-eq-ok (namespace_or_fallback asked.net supported.net strict "net" (ipc.1)) _ (n, g) h₄ in
    ground (
      arith,
      namespace_or_fallback_lem asked.mount supported.mount strict "mount" f mount.1 mount.0 e₁,
      namespace_or_fallback_lem asked.pid supported.pid strict "pid" mount.1 pid.1 pid.0 e₂,
      namespace_or_fallback_lem asked.uts supported.uts strict "uts" pid.1 uts.1 uts.0 e₃,
      namespace_or_fallback_lem asked.ipc supported.ipc strict "ipc" uts.1 ipc.1 ipc.0 e₄,
      namespace_or_fallback_lem asked.net supported.net strict "net" ipc.1 net.1 net.0 e₅,
    )

module _ (strict : Bool) (c : RuntimeCapabilities) (s e : SandboxPolicy) (f g : Fallbacks) where
  negotiate_profile_lem :
      negotiate_profile strict c s f ≡ ok (e, g)
      → (is_linux_sandbox e.profile ≡ (is_linux_sandbox s.profile && c.sandbox.linux_sandbox))
        × (e.chroot ≡ (s.chroot && (not (is_linux_sandbox s.profile) || c.sandbox.linux_sandbox)))
        × (e.chroot ≡ true → e.rootfs ≡ s.rootfs)
        × (is_linux_sandbox e.profile ≡ true → e.namespaces ≡ s.namespaces)
        × (e.workspace_subdir ≡ s.workspace_subdir)
  unfolding negotiate_profile fall_back
  negotiate_profile_lem h = ground arith

  negotiate_chroot_lem :
      negotiate_chroot strict c s f ≡ ok (e, g)
      → (e.profile ≡ s.profile)
        × (e.chroot ≡ (s.chroot && c.sandbox.chroot))
        × (e.chroot ≡ true → e.rootfs ≡ s.rootfs)
        × (e.namespaces ≡ s.namespaces)
        × (e.workspace_subdir ≡ s.workspace_subdir)
  unfolding negotiate_chroot fall_back
  negotiate_chroot_lem h = ground arith

  negotiate_namespaces_lem :
      negotiate_namespaces strict c s f ≡ ok (e, g)
      → (e.profile ≡ s.profile)
        × (e.chroot ≡ s.chroot)
        × (e.rootfs ≡ s.rootfs)
        × (is_linux_sandbox e.profile ≡ true
            → e.namespaces ≡ some (meet (effective_namespaces s) c.sandbox.namespaces))
        × (e.workspace_subdir ≡ s.workspace_subdir)
  unfolding negotiate_namespaces
  negotiate_namespaces_lem h = elim (Bool-cases (is_linux_sandbox s.profile)) [
    | inr plain ↦ let h' = rw (plain, negotiate_namespaces) at h in ground arith
    | inl linux ↦
        let h' = rw (linux, negotiate_namespaces) at h in
        let (n, p, q) = >>=-eq-ok (adjusted) _ (e, g) h' in
        ground (
          arith,
          adjust_namespaces_lem strict c.sandbox.namespaces (effective_namespaces s) n.0 f n.1 p,
        )
  ]
    where
      adjusted : AppResult (NamespaceConfig × Fallbacks)
      adjusted = adjust_namespaces strict c.sandbox.namespaces (effective_namespaces s) f

-- The sandbox that a successful negotiation settles on is the supported part of the requested one.
negotiate_sandbox_lem :
    (strict : Bool) (c : RuntimeCapabilities) (s e : SandboxPolicy) (g : Fallbacks)
    → negotiate_sandbox strict c s ≡ ok (e, g)
    → IsSupportedPart c s e
unfolding negotiate_sandbox
negotiate_sandbox_lem strict c s e g h =
    let (x, p, h₁) = >>=-eq-ok _ _ _ h in
    let (y, q, h₂) = >>=-eq-ok _ _ _ h₁ in
    let a = negotiate_profile_lem strict c s x.0 no_fallbacks x.1 p in
    let b = negotiate_chroot_lem strict c x.0 y.0 x.1 y.1 q in
    let d = negotiate_namespaces_lem strict c y.0 e y.1 g h₂ in ground arith

-- The parts of a successful negotiation.
pub record IsPlanned (request : SubmitTaskRequest) (c : RuntimeCapabilities) (mode : CapabilityMode)
    (plan : ExecutionPlan) : Type 0 where
  pub sandbox : SandboxPolicy
  pub before : Fallbacks
  pub after : Fallbacks
  pub negotiated :
      negotiate_sandbox (is_strict request mode) c request.sandbox ≡ ok (sandbox, before)
  pub limited : negotiate_limits (is_strict request mode) c request.limits sandbox before ≡ ok after
  pub built : build_plan request c (effective_capability_mode request mode) sandbox after ≡ plan

pub resolve-IsPlanned :
    (request : SubmitTaskRequest) (c : RuntimeCapabilities) (mode : CapabilityMode)
    (plan : ExecutionPlan)
    → resolve_execution_plan request c mode ≡ ok plan
    → IsPlanned request c mode plan
unfolding resolve_execution_plan negotiate
resolve-IsPlanned request c mode plan h =
    let (x, p, h₁) = >>=-eq-ok (negotiate (is_strict request mode) request c) _ plan h in
    let (y, q, h₂) =
      >>=-eq-ok (negotiate_sandbox (is_strict request mode) c request.sandbox) _ x p in
    let (z, r, h₃) =
      >>=-eq-ok (negotiate_limits (is_strict request mode) c request.limits y.0 y.1) _ x h₂ in
    let e : (y.0 ≡ x.0) × (z ≡ x.1) = ground arith in
    record {
      sandbox = y.0;
      before = y.1;
      after = z;
      negotiated = q;
      limited = r;
      built = ground arith;
    }

-- A negotiated plan keeps the requested sandbox beside the effective one, and the effective one is
-- exactly the part of it that the runtime supports: the isolated profile only where both agree, a
-- chroot only in a supported profile and with the root that was asked for, under the isolated
-- profile the namespaces asked for and supported, and always the workspace that was asked for.
pub effective_sandbox-IsSupportedPart :
    (request : SubmitTaskRequest) (capabilities : RuntimeCapabilities)
    (default_mode : CapabilityMode) (plan : ExecutionPlan)
    → resolve_execution_plan request capabilities default_mode ≡ ok plan
    → (plan.requested_sandbox ≡ request.sandbox)
      × IsSupportedPart capabilities request.sandbox plan.effective_sandbox
effective_sandbox-IsSupportedPart request capabilities default_mode plan h =
    let p = resolve-IsPlanned request capabilities default_mode plan h in
    let part =
      negotiate_sandbox_lem (is_strict request default_mode) capabilities request.sandbox p.sandbox
        p.before p.negotiated in
    rw (← p.built) (refl, part)

negotiate_limits_lem :
    (strict : Bool) (c : RuntimeCapabilities) (limits : ResourceLimits) (e : SandboxPolicy)
    (f g : Fallbacks)
    → negotiate_limits strict c limits e f ≡ ok g
    → g.degraded ≡ false
    → (cpu_time_enforced c limits ≡ true)
      × (memory_enforced c limits ≡ true)
      × (pids_enforced c limits e ≡ true)
unfolding negotiate_limits require_enforced fall_back
negotiate_limits_lem strict c limits e f g h d = ground arith

-- A plan that is not degraded enforces every limit that the request sets and no other; whether or
-- not it is degraded, the limit on processes is enforced only under the isolated profile on a
-- runtime with a writable cgroup.
pub limits_enforced :
    (request : SubmitTaskRequest) (capabilities : RuntimeCapabilities)
    (default_mode : CapabilityMode) (plan : ExecutionPlan)
    → resolve_execution_plan request capabilities default_mode ≡ ok plan
    → let enforcement = plan.resource_enforcement in
      (plan.degraded ≡ false
        → (enforcement.cpu_time_enforced ≡ is_some request.limits.cpu_time_sec)
          × (enforcement.memory_enforced ≡ is_some request.limits.memory_bytes)
          × (enforcement.pids_enforced ≡ is_some request.limits.pids_max))
      × (enforcement.pids_enforced ≡ true
          → (is_linux_sandbox plan.effective_sandbox.profile ≡ true)
            × (capabilities.resources.cgroup_writable ≡ true))
limits_enforced request capabilities default_mode plan h =
    let p = resolve-IsPlanned request capabilities default_mode plan h in
    rw (← p.built) (
      λ d.
          let parts =
            negotiate_limits_lem (is_strict request default_mode) capabilities request.limits
              p.sandbox p.before p.after p.limited d in
          ground (arith, parts),
      λ d. ground arith,
    )
