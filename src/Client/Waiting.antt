-- ===== src/Client/Waiting.antt =====
-- A wait with a timeout ends, and how it ends.
use native.Mathlib.Nat.{div-lt_iff_lt-mul}
use execgo_runtime.Base.{
  ℕ, zero, suc, ◌+◌, ◌*◌, ◌/◌, ◌≤◌, ◌<◌, ◌≡◌, refl, Bool-cases, ◌⊎◌, inl, inr, some, true, false,
  arith, leb, le→leb, leb→le, String,
}
use execgo_runtime.Errors.{Checked, ok, err, internal}
use execgo_runtime.Types.Status.{TaskStatus, is_terminal}
use execgo_runtime.Client.{Answer, broken, refusal, shown, refused, wait_remote}

-- Why a wait ends with a result: a success, since some poll showed a task that has ended; an error,
-- since a request failed with it, since a response was not a success, or since the time was up.
abbrev pub Explains : (ℕ → Answer) → (ℕ → ℕ) → ℕ → Checked → Type 0
Explains answer elapsed timeout (ok x) =
    (k : ℕ) × ((status : TaskStatus) × (answer k ≡ shown status) × (is_terminal status ≡ true))
Explains answer elapsed timeout (err e) =
    (k : ℕ) × ((answer k ≡ broken e)
      ⊎ (((status : String) × (answer k ≡ refusal status) × (err e ≡ refused status))
          ⊎ (timeout ≤ elapsed k)))

module _ (answer : ℕ → Answer) (elapsed : ℕ → ℕ) (timeout : ℕ) where
  -- The wait ends from a poll on with some fuel, with a result that the answers explain.
  abbrev pub Ends : ℕ → ℕ → Type 0
  Ends fuel k =
      (r : Checked) × (wait_remote answer elapsed (some timeout) fuel k ≡ some r)
      × Explains answer elapsed timeout r

  -- One poll, by its answer; `more` is the rest of the wait.
  poll :
      (fuel k : ℕ) (a : Answer)
      → answer k ≡ a
      → (leb timeout (elapsed k) ≡ false → Ends fuel (suc k))
      → Ends (suc fuel) k
  unfolding wait_remote
  poll fuel k (broken e) now more = (err e, rw (now, wait_remote) refl, (k, inl now))
  poll fuel k (refusal status) now more =
      (refused status, rw (now, wait_remote) refl, (k, inr (inl (status, now, refl))))
  poll fuel k (shown status) now more = elim (Bool-cases (is_terminal status)) [
    | inl ended ↦ (ok tt, rw (now, wait_remote, ended) refl, (k, (status, now, ended)))
    | inr running ↦ elim (Bool-cases (leb timeout (elapsed k))) [
      | inl late ↦ (
        err (internal "wait timeout exceeded"),
        rw (now, wait_remote, running, late) refl,
        (k, inr (inr (leb→le timeout (elapsed k) late))),
      )
      | inr early ↦
          let (r, ends, explains) = more early in
          (r, rw (now, wait_remote, running, early) ends, explains)
    ]
  ]

  wait_from :
      (fuel k : ℕ) → ((i : ℕ) → k + fuel ≤ suc i → timeout ≤ elapsed i) → 0 < fuel → Ends fuel k
  wait_from zero k late some_fuel = ground arith
  wait_from (suc zero) k late some_fuel =
      let over = le→leb timeout (elapsed k) (late k (omega arith)) in
      poll 0 k (answer k) refl (λ early. ground arith)
  wait_from (suc (suc fuel)) k late some_fuel =
      poll (suc fuel) k (answer k) refl
        (λ early. wait_from (suc fuel) (suc k) (λ i far. late i (omega arith)) (omega arith))

-- A wait with a timeout ends: where the clock has passed at least one poll interval per poll that came
-- before, the polls that fit into the timeout and two more are enough, whatever the server answers;
-- and where the wait ends without an error, the server showed the task in a terminal status.
pub wait_remote-Ends :
    (answer : ℕ → Answer) (elapsed : ℕ → ℕ) (timeout interval : ℕ)
    → 0 < interval
    → ((k : ℕ) → k * interval ≤ elapsed k)
    → Ends answer elapsed timeout (timeout / interval + 2) 0
wait_remote-Ends answer elapsed timeout interval positive slow =
    wait_from answer elapsed timeout (timeout / interval + 2) 0
      (λ i far.
        let after : timeout < i * interval = (div-lt_iff_lt-mul positive).0 (omega arith) in
        let waited = slow i in omega arith)
      (omega arith)
