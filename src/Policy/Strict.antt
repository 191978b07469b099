-- ===== src/Policy/Strict.antt =====
-- When a strict negotiation accepts a request.
use execgo_runtime.Base.{
  Bool, true, false, not, ◌&&◌, ◌||◌, Bool-cases, String, ◌≡◌, refl, ap, ◌∙◌, inl, inr, arith,
  is_some,
}
use execgo_runtime.Errors.{>>=-eq-ok, AppResult, ok, err, ◌>>=◌}
use execgo_runtime.Types.Control.{CapabilityMode}
use execgo_runtime.Types.Sandbox.{
  SandboxPolicy, NamespaceConfig, is_linux_sandbox, effective_namespaces,
}
use execgo_runtime.Types.Limits.{ResourceLimits}
use execgo_runtime.Types.Capability.{RuntimeCapabilities, NamespaceCapabilities}
use execgo_runtime.Types.Request.{SubmitTaskRequest}
use execgo_runtime.Policy.{
  Fallbacks, no_fallbacks, is_strict, fall_back, negotiate_profile, negotiate_chroot,
  namespace_or_fallback, adjust_namespaces, negotiate_namespaces, require_enforced,
  negotiate_limits, negotiate_sandbox, negotiate, resolve_execution_plan,
}

abbrev pub is_ok : {A : Type 0} → AppResult A → Bool
is_ok (ok a) = true
is_ok (err e) = false

-- A need is met where it is not there, or where the runtime supports it.
abbrev pub met : Bool → Bool → Bool
met needed supported = not needed || supported

abbrev pub namespaces_met : NamespaceConfig → NamespaceCapabilities → Bool
namespaces_met asked supported =
    met asked.mount supported.mount
    && (met asked.pid supported.pid
        && (met asked.uts supported.uts
            && (met asked.ipc supported.ipc && met asked.net supported.net)))

-- The runtime supports the sandbox that is asked for, and can enforce every limit that is set.
abbrev pub sandbox_met : RuntimeCapabilities → SandboxPolicy → Bool
sandbox_met c s =
    met (is_linux_sandbox s.profile) c.sandbox.linux_sandbox
    && (met s.chroot c.sandbox.chroot
        && met (is_linux_sandbox s.profile)
            (namespaces_met (effective_namespaces s) c.sandbox.namespaces))

abbrev pub limits_met : RuntimeCapabilities → ResourceLimits → Bool → Bool
limits_met c limits isolated =
    met (is_some limits.cpu_time_sec) c.resources.rlimit_cpu
    && met (is_some limits.memory_bytes) c.resources.rlimit_memory
    && met (is_some limits.pids_max)
        (isolated && c.resources.cgroup_writable && c.resources.pids_limit)

is_ok-then :
    {A B : Type 0} (m : AppResult A) (k : A → AppResult B) (p q : Bool)
    → is_ok m ≡ p
    → ((a : A) → m ≡ ok a → is_ok (k a) ≡ q)
    → is_ok (m >>= k) ≡ (p && q)
is_ok-then (ok a) k p q e h = h a refl ∙ rw (← e) refl
is_ok-then (err x) k p q e h = rw (← e) refl

is_ok-bind :
    {A B : Type 0} (m : AppResult A) (k : A → AppResult B) (q : Bool)
    → ((a : A) → m ≡ ok a → is_ok (k a) ≡ q)
    → is_ok (m >>= k) ≡ (is_ok m && q)
is_ok-bind (ok a) k q h = h a refl
is_ok-bind (err e) k q h = refl

is_ok-namespace :
    (asked supported : Bool) (name : String) (f : Fallbacks)
    → is_ok (namespace_or_fallback asked supported true name f) ≡ met asked supported
unfolding namespace_or_fallback fall_back
is_ok-namespace asked supported name f = ground arith

is_ok-adjust_namespaces :
    (supported : NamespaceCapabilities) (asked : NamespaceConfig) (f : Fallbacks)
    → is_ok (adjust_namespaces true supported asked f) ≡ namespaces_met asked supported
unfolding adjust_namespaces
is_ok-adjust_namespaces supported asked f =
    is_ok-then _ _ _ _ (is_ok-namespace asked.mount supported.mount "mount" f) λ a₁ h₁.
      is_ok-then _ _ _ _ (is_ok-namespace asked.pid supported.pid "pid" a₁.1) λ a₂ h₂.
        is_ok-then _ _ _ _ (is_ok-namespace asked.uts supported.uts "uts" a₂.1) λ a₃ h₃.
          is_ok-then _ _ _ _ (is_ok-namespace asked.ipc supported.ipc "ipc" a₃.1) λ a₄ h₄.
            is_ok-bind (namespace_or_fallback asked.net supported.net true "net" a₄.1) _ true
              (λ a₅ h₅. refl)
            ∙ ground (arith, is_ok-namespace asked.net supported.net "net" a₄.1)

module _ (c : RuntimeCapabilities) (s : SandboxPolicy) (f : Fallbacks) where
  is_ok-profile :
      is_ok (negotiate_profile true c s f)
      ≡ met (is_linux_sandbox s.profile) c.sandbox.linux_sandbox
  unfolding negotiate_profile fall_back
  is_ok-profile = ground arith

  profile-same :
      (e : SandboxPolicy) (g : Fallbacks) → negotiate_profile true c s f ≡ ok (e, g) → e ≡ s
  unfolding negotiate_profile fall_back
  profile-same e g h = ground arith

  is_ok-chroot : is_ok (negotiate_chroot true c s f) ≡ met s.chroot c.sandbox.chroot
  unfolding negotiate_chroot fall_back
  is_ok-chroot = ground arith

  chroot-same :
      (e : SandboxPolicy) (g : Fallbacks) → negotiate_chroot true c s f ≡ ok (e, g) → e ≡ s
  unfolding negotiate_chroot fall_back
  chroot-same e g h = ground arith

  is_ok-namespaces :
      is_ok (negotiate_namespaces true c s f)
      ≡ met
          (is_linux_sandbox s.profile)
          (namespaces_met (effective_namespaces s) c.sandbox.namespaces)
  unfolding negotiate_namespaces
  is_ok-namespaces = elim (Bool-cases (is_linux_sandbox s.profile)) [
    | inl linux ↦
        rw (linux, negotiate_namespaces)
          (is_ok-bind (adjust_namespaces true c.sandbox.namespaces (effective_namespaces s) f) _
              true (λ a h. refl)
            ∙ ground
                (arith, is_ok-adjust_namespaces c.sandbox.namespaces (effective_namespaces s) f))
    | inr plain ↦ rw (plain, negotiate_namespaces) refl
  ]

  namespaces-profile :
      (e : SandboxPolicy) (g : Fallbacks)
      → negotiate_namespaces true c s f ≡ ok (e, g)
      → e.profile ≡ s.profile
  unfolding negotiate_namespaces
  namespaces-profile e g h = ground arith

is_ok-sandbox :
    (c : RuntimeCapabilities) (s : SandboxPolicy)
    → is_ok (negotiate_sandbox true c s) ≡ sandbox_met c s
unfolding negotiate_sandbox
is_ok-sandbox c s = is_ok-then _ _ _ _ (is_ok-profile c s no_fallbacks) λ a₁ h₁.
    let e₁ = profile-same c s no_fallbacks a₁.0 a₁.1 h₁ in
    is_ok-then _ _ _ _ (is_ok-chroot c a₁.0 a₁.1 ∙ ap (λ x. met x.chroot c.sandbox.chroot) e₁)
      λ a₂ h₂.
        let e₂ = chroot-same c a₁.0 a₁.1 a₂.0 a₂.1 h₂ ∙ e₁ in
        is_ok-namespaces c a₂.0 a₂.1
        ∙ ap
            (λ x.
              met (is_linux_sandbox x.profile)
                (namespaces_met (effective_namespaces x) c.sandbox.namespaces))
            e₂

sandbox-profile :
    (c : RuntimeCapabilities) (s e : SandboxPolicy) (g : Fallbacks)
    → negotiate_sandbox true c s ≡ ok (e, g)
    → e.profile ≡ s.profile
unfolding negotiate_sandbox
sandbox-profile c s e g h =
    let (x, p, h₁) = >>=-eq-ok _ _ _ h in
    let (y, q, h₂) = >>=-eq-ok _ _ _ h₁ in
    namespaces-profile c y.0 y.1 e g h₂
    ∙ ap (λ z. z.profile)
        (chroot-same c x.0 x.1 y.0 y.1 q ∙ profile-same c s no_fallbacks x.0 x.1 p)

is_ok-limits :
    (c : RuntimeCapabilities) (limits : ResourceLimits) (e : SandboxPolicy) (f : Fallbacks)
    → is_ok (negotiate_limits true c limits e f) ≡ limits_met c limits (is_linux_sandbox e.profile)
unfolding negotiate_limits require_enforced fall_back
is_ok-limits c limits e f = ground arith

and_true : (b : Bool) → (b && true) ≡ b
and_true b = ground arith

is_ok-negotiate :
    (request : SubmitTaskRequest) (c : RuntimeCapabilities)
    → is_ok (negotiate true request c) ≡ (
        sandbox_met c request.sandbox
        && limits_met c request.limits (is_linux_sandbox request.sandbox.profile))
unfolding negotiate
is_ok-negotiate request c = is_ok-then _ _ _ _ (is_ok-sandbox c request.sandbox) λ a h.
    is_ok-bind (negotiate_limits true c request.limits a.0 a.1) _ true (λ g k. refl)
    ∙ and_true (is_ok (negotiate_limits true c request.limits a.0 a.1))
    ∙ is_ok-limits c request.limits a.0 a.1
    ∙ ap (λ x. limits_met c request.limits (is_linux_sandbox x))
        (sandbox-profile c request.sandbox a.0 a.1 h)

-- A strict negotiation accepts a request exactly when the runtime supports all of its sandbox, the
-- profile, the root and every namespace, and can enforce every limit that it sets, the one on
-- processes only in the isolated profile.
pub strict_accepts :
    (request : SubmitTaskRequest) (capabilities : RuntimeCapabilities)
    (default_mode : CapabilityMode)
    → is_strict request default_mode ≡ true
    → is_ok (resolve_execution_plan request capabilities default_mode) ≡ (
        sandbox_met capabilities request.sandbox
        && limits_met capabilities request.limits (is_linux_sandbox request.sandbox.profile))
unfolding resolve_execution_plan
strict_accepts request c mode strict = rw strict (
    is_ok-bind (negotiate true request c) _ true (λ a h. refl)
    ∙ and_true (is_ok (negotiate true request c))
    ∙ is_ok-negotiate request c)
