-- ===== src/Policy/Undegraded.antt =====
-- What a plan that is not degraded keeps of the request: all of it.
use execgo_runtime.Base.{
  Bool, false, Bool-cases, String, ◌≡◌, refl, sym, ap, ◌∙◌, inl, inr, some, arith, if◌then◌else◌,
}
use execgo_runtime.Errors.{>>=-eq-ok, ok}
use execgo_runtime.Types.Control.{CapabilityMode}
use execgo_runtime.Types.Sandbox.{
  SandboxPolicy, NamespaceConfig, is_linux_sandbox, effective_namespaces,
}
use execgo_runtime.Types.Limits.{ResourceLimits}
use execgo_runtime.Types.Plan.{ExecutionPlan}
use execgo_runtime.Types.Capability.{RuntimeCapabilities, NamespaceCapabilities}
use execgo_runtime.Types.Request.{SubmitTaskRequest}
use execgo_runtime.Policy.{
  Fallbacks, no_fallbacks, is_strict, fall_back, negotiate_profile, negotiate_chroot,
  namespace_or_fallback, adjust_namespaces, negotiate_namespaces, require_enforced,
  negotiate_limits, negotiate_sandbox, resolve_execution_plan,
}
use execgo_runtime.Policy.Effective.{resolve-IsPlanned}

-- The sandbox with the namespaces written out that the isolated profile implies.
abbrev pub spelled_out : SandboxPolicy → SandboxPolicy
spelled_out s =
    if is_linux_sandbox s.profile
    then record s { namespaces = some (effective_namespaces s) }
    else s

module _ (strict : Bool) where
  namespace-undegraded :
      (requested supported : Bool) (name : String) (f g : Fallbacks) (b : Bool)
      → namespace_or_fallback requested supported strict name f ≡ ok (b, g)
      → g.degraded ≡ false
      → (b ≡ requested) × (f.degraded ≡ false)
  unfolding namespace_or_fallback fall_back
  namespace-undegraded requested supported name f g b h d = ground arith

  adjust_namespaces-undegraded :
      (supported : NamespaceCapabilities) (asked n : NamespaceConfig) (f g : Fallbacks)
      → adjust_namespaces strict supported asked f ≡ ok (n, g)
      → g.degraded ≡ false
      → (n ≡ asked) × (f.degraded ≡ false)
  unfolding adjust_namespaces
  adjust_namespaces-undegraded supported asked n f g h d =
      let (mount, e₁, h₁) =
        >>=-eq-ok (namespace_or_fallback asked.mount supported.mount strict "mount" (f)) _ (n, g)
          h in
      let (pid, e₂, h₂) =
        >>=-eq-ok (namespace_or_fallback asked.pid supported.pid strict "pid" (mount.1)) _ (n, g)
          h₁ in
      let (uts, e₃, h₃) =
        >>=-eq-ok (namespace_or_fallback asked.uts supported.uts strict "uts" (pid.1)) _ (n, g)
          h₂ in
      let (ipc, e₄, h₄) =
        >>=-eq-ok (namespace_or_fallback asked.ipc supported.ipc strict "ipc" (uts.1)) _ (n, g)
          h₃ in
      let (net, e₅, h₅) =
        >>=-eq-ok (namespace_or_fallback asked.net supported.net strict "net" (ipc.1)) _ (n, g)
          h₄ in
      ground (
        arith,
        namespace-undegraded asked.mount supported.mount "mount" f mount.1 mount.0 e₁,
        namespace-undegraded asked.pid supported.pid "pid" mount.1 pid.1 pid.0 e₂,
        namespace-undegraded asked.uts supported.uts "uts" pid.1 uts.1 uts.0 e₃,
        namespace-undegraded asked.ipc supported.ipc "ipc" uts.1 ipc.1 ipc.0 e₄,
        namespace-undegraded asked.net supported.net "net" ipc.1 net.1 net.0 e₅,
      )

  module _ (c : RuntimeCapabilities) (s e : SandboxPolicy) (f g : Fallbacks) where
    negotiate_profile-undegraded :
        negotiate_profile strict c s f ≡ ok (e, g)
        → g.degraded ≡ false
        → (e ≡ s) × (f.degraded ≡ false)
    unfolding negotiate_profile fall_back
    negotiate_profile-undegraded h d = ground arith

    negotiate_chroot-undegraded :
        negotiate_chroot strict c s f ≡ ok (e, g)
        → g.degraded ≡ false
        → (e ≡ s) × (f.degraded ≡ false)
    unfolding negotiate_chroot fall_back
    negotiate_chroot-undegraded h d = ground arith

    negotiate_namespaces-undegraded :
        negotiate_namespaces strict c s f ≡ ok (e, g)
        → g.degraded ≡ false
        → (e ≡ spelled_out s) × (f.degraded ≡ false)
    unfolding negotiate_namespaces
    negotiate_namespaces-undegraded h d = elim (Bool-cases (is_linux_sandbox s.profile)) [
      | inr plain ↦ let h' = rw (plain, negotiate_namespaces) at h in ground arith
      | inl linux ↦
          let h' = rw (linux, negotiate_namespaces) at h in
          let (n, p, q) =
            >>=-eq-ok (adjust_namespaces strict c.sandbox.namespaces (effective_namespaces s) f) _
              (e, g) h' in
          ground (
            arith,
            adjust_namespaces-undegraded c.sandbox.namespaces (effective_namespaces s) n.0 f n.1 p,
          )
    ]

  negotiate_sandbox-undegraded :
      (c : RuntimeCapabilities) (s e : SandboxPolicy) (g : Fallbacks)
      → negotiate_sandbox strict c s ≡ ok (e, g)
      → g.degraded ≡ false
      → e ≡ spelled_out s
  unfolding negotiate_sandbox
  negotiate_sandbox-undegraded c s e g h d =
      let (x, p, h₁) = >>=-eq-ok _ _ _ h in
      let (y, q, h₂) = >>=-eq-ok _ _ _ h₁ in
      let last = negotiate_namespaces-undegraded c y.0 e y.1 g h₂ d in
      let middle = negotiate_chroot-undegraded c x.0 y.0 x.1 y.1 q last.1 in
      let first = negotiate_profile-undegraded c s x.0 no_fallbacks x.1 p middle.1 in
      last.0 ∙ ap spelled_out (middle.0 ∙ first.0)

  negotiate_limits-undegraded :
      (c : RuntimeCapabilities) (limits : ResourceLimits) (e : SandboxPolicy) (f g : Fallbacks)
      → negotiate_limits strict c limits e f ≡ ok g
      → g.degraded ≡ false
      → f.degraded ≡ false
  unfolding negotiate_limits require_enforced fall_back
  negotiate_limits-undegraded c limits e f g h d = ground arith

-- The effective sandbox of a plan that is not degraded.
pub effective-undegraded :
    (request : SubmitTaskRequest) (capabilities : RuntimeCapabilities)
    (default_mode : CapabilityMode) (plan : ExecutionPlan)
    → resolve_execution_plan request capabilities default_mode ≡ ok plan
    → plan.degraded ≡ false
    → plan.effective_sandbox ≡ spelled_out request.sandbox
effective-undegraded request capabilities default_mode plan h d =
    let p = resolve-IsPlanned request capabilities default_mode plan h in
    let strict = is_strict request default_mode in
    let undegraded : p.after.degraded ≡ false = ap (λ x. x.degraded) p.built ∙ d in
    let before =
      negotiate_limits-undegraded strict capabilities request.limits p.sandbox p.before p.after
        p.limited undegraded in
    ap (λ x. x.effective_sandbox) (sym p.built)
    ∙ negotiate_sandbox-undegraded strict capabilities request.sandbox p.sandbox p.before
        p.negotiated before

-- The limits that a plan carries are those of the request.
pub limits-planned :
    (request : SubmitTaskRequest) (capabilities : RuntimeCapabilities)
    (default_mode : CapabilityMode) (plan : ExecutionPlan)
    → resolve_execution_plan request capabilities default_mode ≡ ok plan
    → (plan.resource_enforcement.cpu_time_sec ≡ request.limits.cpu_time_sec)
      × (plan.resource_enforcement.memory_bytes ≡ request.limits.memory_bytes)
limits-planned request capabilities default_mode plan h =
    let p = resolve-IsPlanned request capabilities default_mode plan h in
    rw (← p.built) (refl, refl)
