-- ===== src/Policy/Modes.antt =====
-- The two modes of the negotiation side by side, step by step: a strict run stops with an error at
-- the first thing that is missing, an adaptive one goes on and records it.
use execgo_runtime.Base.{
  Bool, true, false, not, ◌&&◌, Bool-cases, String, ◌≡◌, ◌≢◌, refl, ap, ◌⊎◌, inl, inr, List, [],
  ◌∷◌, ◌++◌, Option,
}
use execgo_runtime.Errors.{AppResult, ok, err, unsupported_capability, ◌>>=◌}
use execgo_runtime.Types.Control.{CapabilityMode, TaskPolicy, ControlContext}
use execgo_runtime.Types.Sandbox.{SandboxPolicy, NamespaceConfig, is_linux_sandbox}
use execgo_runtime.Types.Limits.{ResourceLimits}
use execgo_runtime.Types.Plan.{ExecutionPlan}
use execgo_runtime.Types.Capability.{RuntimeCapabilities, NamespaceCapabilities}
use execgo_runtime.Types.Request.{SubmitTaskRequest}
use execgo_runtime.Policy.{
  Fallbacks, no_fallbacks, is_strict, fall_back, negotiate_profile, negotiate_chroot,
  namespace_or_fallback, adjust_namespaces, negotiate_namespaces, require_enforced,
  negotiate_limits, negotiate_sandbox, negotiate, effective_capability_mode, build_plan,
  resolve_execution_plan,
}

-- The strict and the adaptive result of a step that starts from the fallbacks `f`, where `view`
-- reads the fallbacks of a result.
data Forks {A : Type 0} (view : A → Fallbacks) (f : Fallbacks) (s a : AppResult A) : Type 0 where
  agree : (x : A) → s ≡ ok x → a ≡ ok x → view x ≡ f → Forks view f s a
  part :
      (m : String) (x : A)
      → s ≡ err (unsupported_capability m)
      → a ≡ ok x
      → (view x).degraded ≡ true
      → (view x).reasons ≢ []
      → Forks view f s a

append-ne-nil : {A : Type 0} (xs : List A) (y : A) → xs ++ y ∷ [] ≢ []
append-ne-nil [] y = λ e. cc
append-ne-nil (x ∷ xs) y = λ e. cc

-- What follows an adaptive step that fell back keeps the mark, and a strict run has ended.
part-bind :
    {A B : Type 0} {look : B → Fallbacks} (f g : Fallbacks)
    → (m : String) (x : A) (s a : AppResult A) (k l : A → AppResult B)
    → s ≡ err (unsupported_capability m)
    → a ≡ ok x
    → g.degraded ≡ true
    → g.reasons ≢ []
    → Forks look g (k x) (l x)
    → Forks look f (s >>= k) (a >>= l)
part-bind f g m x s a k l p q d n (agree y p' q' r) = part m y (rw p) (rw q q') (rw r d) (rw r n)
part-bind f g m x s a k l p q d n (part m' y p' q' d' n') = part m y (rw p) (rw q q') d' n'

Forks-bind :
    {A B : Type 0} {view : A → Fallbacks} {look : B → Fallbacks} (f : Fallbacks)
    → {s a : AppResult A} (k l : A → AppResult B) → Forks view f s a
    → ((x : A) → Forks look (view x) (k x) (l x))
    → Forks look f (s >>= k) (a >>= l)
Forks-bind f k l (agree x p q r) rest = rw (p, q) (rw r at (rest x))
Forks-bind {view} f {s} {a} k l (part m x p q d n) rest =
    part-bind f (view x) m x s a k l p q d n (rest x)

-- A result that is built from the outcome of a step, without a further step.
Forks-map :
    {A B : Type 0} {view : A → Fallbacks} {look : B → Fallbacks} (f : Fallbacks)
    → {s a : AppResult A} (h : A → B) → Forks view f s a
    → ((x : A) → look (h x) ≡ view x)
    → Forks look f (s >>= λ x. ok (h x)) (a >>= λ x. ok (h x))
Forks-map f h d e = Forks-bind f _ _ d λ x. agree (h x) refl refl (e x)

abbrev pair_view : {A : Type 0} → A × Fallbacks → Fallbacks
pair_view p = p.1

fall_back-Forks :
    (message reason : String) (f : Fallbacks)
    → Forks (λ g. g) f (fall_back true message reason f) (fall_back false message reason f)
unfolding fall_back
fall_back-Forks message reason f = part message _ refl refl refl (append-ne-nil f.reasons reason)

namespace_or_fallback-Forks :
    (requested supported : Bool) (name : String) (f : Fallbacks)
    → Forks pair_view f
        (namespace_or_fallback requested supported true name f)
        (namespace_or_fallback requested supported false name f)
unfolding namespace_or_fallback
namespace_or_fallback-Forks false supported name f = agree _ refl refl refl
namespace_or_fallback-Forks true true name f = agree _ refl refl refl
namespace_or_fallback-Forks true false name f =
    Forks-map f (λ f'. (false, f')) (fall_back-Forks _ _ f) (λ x. refl)

require_enforced-Forks :
    (limited enforced : Bool) (message reason : String) (f : Fallbacks)
    → Forks
        (λ g. g)
        f
        (require_enforced limited enforced true message reason f)
        (require_enforced limited enforced false message reason f)
unfolding require_enforced
require_enforced-Forks false enforced message reason f = agree f refl refl refl
require_enforced-Forks true true message reason f = agree f refl refl refl
require_enforced-Forks true false message reason f = fall_back-Forks message reason f

adjust_namespaces-Forks :
    (supported : NamespaceCapabilities) (requested : NamespaceConfig) (f : Fallbacks)
    → Forks pair_view f
        (adjust_namespaces true supported requested f)
        (adjust_namespaces false supported requested f)
unfolding adjust_namespaces
adjust_namespaces-Forks supported requested f =
    Forks-bind f _ _ (step requested.mount supported.mount "mount" f) λ (mount, f₁).
      Forks-bind f₁ _ _ (step requested.pid supported.pid "pid" f₁) λ (pid, f₂).
        Forks-bind f₂ _ _ (step requested.uts supported.uts "uts" f₂) λ (uts, f₃).
          Forks-bind f₃ _ _ (step requested.ipc supported.ipc "ipc" f₃)
            λ (ipc, f₄). Forks-map f₄ _ (step requested.net supported.net "net" f₄) λ x. refl
  where
    step :
        (requested supported : Bool) (name : String) (f : Fallbacks)
        → Forks pair_view f
            (namespace_or_fallback requested supported true name f)
            (namespace_or_fallback requested supported false name f)
    step = namespace_or_fallback-Forks

negotiate_limits-Forks :
    (capabilities : RuntimeCapabilities) (limits : ResourceLimits) (s : SandboxPolicy)
    (f : Fallbacks)
    → Forks
        (λ g. g)
        f
        (negotiate_limits true capabilities limits s f)
        (negotiate_limits false capabilities limits s f)
unfolding negotiate_limits
negotiate_limits-Forks capabilities limits s f =
    Forks-bind f _ _ (require_enforced-Forks _ _ _ _ f) λ f₁.
      Forks-bind f₁ _ _ (require_enforced-Forks _ _ _ _ f₁) λ f₂. require_enforced-Forks _ _ _ _ f₂

module _ (capabilities : RuntimeCapabilities) (s : SandboxPolicy) (f : Fallbacks) where
  negotiate_profile-Forks :
      Forks pair_view f
        (negotiate_profile true capabilities s f)
        (negotiate_profile false capabilities s f)
  unfolding negotiate_profile
  negotiate_profile-Forks =
      elim (Bool-cases (is_linux_sandbox s.profile && not capabilities.sandbox.linux_sandbox)) [
        | inl e ↦ rw e (Forks-map f _ (fall_back-Forks _ _ f) λ x. refl)
        | inr e ↦ rw e (agree _ refl refl refl)
      ]

  negotiate_chroot-Forks :
      Forks pair_view f
        (negotiate_chroot true capabilities s f)
        (negotiate_chroot false capabilities s f)
  unfolding negotiate_chroot
  negotiate_chroot-Forks = elim (Bool-cases (s.chroot && not capabilities.sandbox.chroot)) [
    | inl e ↦ rw e (Forks-map f _ (fall_back-Forks _ _ f) λ x. refl)
    | inr e ↦ rw e (agree _ refl refl refl)
  ]

  negotiate_namespaces-Forks :
      Forks pair_view f
        (negotiate_namespaces true capabilities s f)
        (negotiate_namespaces false capabilities s f)
  unfolding negotiate_namespaces
  negotiate_namespaces-Forks = elim (Bool-cases (is_linux_sandbox s.profile)) [
    | inl e ↦ rw e (Forks-map f _ (adjust_namespaces-Forks _ _ f) λ x. refl)
    | inr e ↦ rw e (agree _ refl refl refl)
  ]

negotiate_sandbox-Forks :
    (capabilities : RuntimeCapabilities) (s : SandboxPolicy)
    → Forks pair_view no_fallbacks
        (negotiate_sandbox true capabilities s)
        (negotiate_sandbox false capabilities s)
unfolding negotiate_sandbox
negotiate_sandbox-Forks capabilities s =
    Forks-bind no_fallbacks _ _ (negotiate_profile-Forks capabilities s no_fallbacks) λ (s₁, f₁).
      Forks-bind f₁ _ _ (negotiate_chroot-Forks capabilities s₁ f₁)
        λ (s₂, f₂). negotiate_namespaces-Forks capabilities s₂ f₂

negotiate-Forks :
    (request : SubmitTaskRequest) (capabilities : RuntimeCapabilities)
    → Forks pair_view no_fallbacks
        (negotiate true request capabilities)
        (negotiate false request capabilities)
unfolding negotiate
negotiate-Forks request capabilities =
    Forks-bind no_fallbacks _ _ (negotiate_sandbox-Forks capabilities request.sandbox)
      λ (s, f). Forks-map f _ (negotiate_limits-Forks capabilities request.limits s f) λ x. refl

-- What a strict run of the negotiation yields where an adaptive run yields `plan`.
abbrev pub StrictAgrees : ExecutionPlan → CapabilityMode → AppResult ExecutionPlan → Type 0
StrictAgrees plan mode strict =
    ((plan.degraded ≡ true)
      × (plan.fallback_reasons ≢ [])
      × ((m : String) × (strict ≡ err (unsupported_capability m))))
    ⊎ ((plan.degraded ≡ false)
        × (plan.fallback_reasons ≡ [])
        × (strict ≡ ok (record plan { capability_mode = mode })))

-- For one sandbox and limits, let `request` be negotiated strictly and `lax`, which differs from it
-- in its policy and control context, adaptively. The adaptive negotiation yields a plan. It is
-- degraded, with reasons, and the strict one is refused as an unsupported capability; or it is not
-- degraded, has no reasons, and the strict one yields the same plan but for its mode.
pub strict_adaptive :
    (request : SubmitTaskRequest) (policy : Option TaskPolicy) (context : Option ControlContext)
    (capabilities : RuntimeCapabilities) (default_mode : CapabilityMode)
    → let lax : SubmitTaskRequest = record request { policy = policy; control_context = context } in
      is_strict request default_mode ≡ true
      → is_strict lax default_mode ≡ false
      → (plan : ExecutionPlan) × (resolve_execution_plan lax capabilities default_mode ≡ ok plan)
        × StrictAgrees plan
            (effective_capability_mode request default_mode)
            (resolve_execution_plan request capabilities default_mode)
unfolding resolve_execution_plan negotiate
strict_adaptive request policy context capabilities default_mode strict lax =
    elim (negotiate-Forks request capabilities) [
      | agree (s, f) p q r ↦
          (plan s f, rw (lax, q), inr (ap degraded r, ap reasons r, rw (strict, p)))
      | part m (s, f) p q d n ↦ (plan s f, rw (lax, q), inl (d, n, (m, rw (strict, p))))
    ]
  where
    request' : SubmitTaskRequest
    request' = record request { policy = policy; control_context = context }

    plan : SandboxPolicy → Fallbacks → ExecutionPlan
    plan = build_plan request' capabilities (effective_capability_mode request' default_mode)

    degraded : Fallbacks → Bool
    degraded f = f.degraded

    reasons : Fallbacks → List String
    reasons f = f.reasons
