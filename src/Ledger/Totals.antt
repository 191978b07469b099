-- ===== src/Ledger/Totals.antt =====
-- The running totals: what the dispatcher adds and takes off agrees with the sums of the ledger,
-- in every order, and stays within the capacity.
use mathlib.Core.Logic.{∥∥₁_elim}
use mathlib.Core.List.{Perm, Permᴰ}
use execgo_runtime.Base.{
  ℕ, ◌+◌, ◌≤◌, ◌≡◌, refl, ◌∙◌, true, Option, none, some, List, [], ◌∷◌, ◌++◌, arith, u64_max,
  saturating_add, saturating_add_right_comm,
}
use execgo_runtime.Types.Limits.{TaskResourceReservation}
use execgo_runtime.Types.Capability.{ResourceCapacity}
use execgo_runtime.Ledger.{
  ResourceLedger, can_reserve, reserved_capacity, sum_reservations, add_amount, available_capacity,
  add_reservation, subtract_reservation,
}

-- Amounts that stay within a limit: a limited amount is tracked, and at most the limit.
abbrev pub WithinAmount : Option ℕ → Option ℕ → Type 0
WithinAmount none total = Unit
WithinAmount (some limit) none = ⊥
WithinAmount (some limit) (some total) = total ≤ limit

abbrev pub Within : ResourceCapacity → ResourceCapacity → Type 0
Within limit total =
    (total.task_slots ≤ limit.task_slots)
    × WithinAmount limit.memory_bytes total.memory_bytes
    × WithinAmount limit.pids total.pids

-- From totals within the capacity, a reservation that `can_reserve` admits leaves the totals that
-- `add_reservation` computes within the capacity.
pub add_reservation-Within :
    (ledger : ResourceLedger) (reserved : ResourceCapacity) (r : TaskResourceReservation)
    → Within ledger.capacity reserved
    → can_reserve ledger reserved r ≡ true
    → Within ledger.capacity (add_reservation reserved r)
unfolding can_reserve add_reservation
add_reservation-Within ledger reserved r w h = ground arith

sum_reservations-append :
    (slots : ℕ) (memory pids : Option ℕ) (rs : List TaskResourceReservation)
    (r : TaskResourceReservation)
    → sum_reservations slots memory pids (rs ++ r ∷ [])
      ≡ add_reservation (sum_reservations slots memory pids rs) r
unfolding sum_reservations add_reservation
sum_reservations-append slots memory pids [] r = refl
sum_reservations-append slots memory pids (x ∷ rs) r =
    sum_reservations-append (saturating_add slots x.task_slots) (add_amount memory x.memory_bytes)
      (add_amount pids x.pids) rs r

-- Adding one reservation to the running totals gives what `reserved_capacity` computes from the
-- list with that reservation at its end.
pub reserved_capacity-append :
    (ledger : ResourceLedger) (rs : List TaskResourceReservation) (r : TaskResourceReservation)
    → reserved_capacity ledger (rs ++ r ∷ []) ≡ add_reservation (reserved_capacity ledger rs) r
unfolding reserved_capacity
reserved_capacity-append ledger rs r = sum_reservations-append 0 _ _ rs r

-- Adding a value to a tracked total does not saturate.
abbrev pub AddsExactly : Option ℕ → Option ℕ → Type 0
AddsExactly total none = Unit
AddsExactly none (some value) = ⊥
AddsExactly (some total) (some value) = total + value ≤ u64_max

-- `subtract_reservation` takes off what `add_reservation` put on, where the added sums do not
-- saturate and every amount of the reservation is one that the totals track.
pub subtract_reservation-add_reservation :
    (total : ResourceCapacity) (r : TaskResourceReservation)
    → total.task_slots + r.task_slots ≤ u64_max
    → AddsExactly total.memory_bytes r.memory_bytes
    → AddsExactly total.pids r.pids
    → subtract_reservation (add_reservation total r) r ≡ total
unfolding subtract_reservation add_reservation
subtract_reservation-add_reservation total r s m p = ground arith

-- What is left of a limit: with nothing reserved the limit, else the rest of it.
abbrev pub AddsUp : Option ℕ → Option ℕ → Option ℕ → Type 0
AddsUp none reserved left = left ≡ none
AddsUp (some limit) reserved none = ⊥
AddsUp (some limit) none (some left) = left ≡ limit
AddsUp (some limit) (some reserved) (some left) = reserved + left ≡ limit

-- For totals within the capacity, what `available_capacity` leaves and what is reserved add up to
-- the capacity.
pub available_capacity-AddsUp :
    (ledger : ResourceLedger) (reserved : ResourceCapacity)
    → Within ledger.capacity reserved
    → let left = available_capacity ledger reserved in
      (reserved.task_slots + left.task_slots ≡ ledger.capacity.task_slots)
      × AddsUp ledger.capacity.memory_bytes reserved.memory_bytes left.memory_bytes
      × AddsUp ledger.capacity.pids reserved.pids left.pids
unfolding available_capacity
available_capacity-AddsUp ledger reserved w = ground arith

add_amount_comm :
    (total a b : Option ℕ) → add_amount (add_amount total a) b ≡ add_amount (add_amount total b) a
add_amount_comm total a b = ground arith

sum_reservations-perm :
    {rs qs : List TaskResourceReservation} (slots : ℕ) (memory pids : Option ℕ)
    → Permᴰ rs qs
    → sum_reservations slots memory pids rs ≡ sum_reservations slots memory pids qs
unfolding sum_reservations
sum_reservations-perm slots memory pids Permᴰ.nil = refl
sum_reservations-perm slots memory pids (Permᴰ.cons {a = x} e p) = rw (← e) (
    sum_reservations-perm (saturating_add slots x.task_slots) (add_amount memory x.memory_bytes)
      (add_amount pids x.pids) p)
sum_reservations-perm slots memory pids (Permᴰ.swap {a = x} {b = y} {l = l} e f) =
    rw (← e, ← f, saturating_add_right_comm slots x.task_slots y.task_slots)
      (rw (add_amount_comm memory x.memory_bytes y.memory_bytes)
        (rw (add_amount_comm pids x.pids y.pids)))
sum_reservations-perm slots memory pids (Permᴰ.trans p q) =
    sum_reservations-perm slots memory pids p ∙ sum_reservations-perm slots memory pids q

ResourceCapacity-set : IsSet ResourceCapacity
ResourceCapacity-set = hlevel

-- The reserved capacity of a runtime depends on which reservations it holds, and not on the order
-- in which the task table lists them.
pub reserved_capacity-perm :
    (ledger : ResourceLedger) (rs qs : List TaskResourceReservation)
    → Perm rs qs
    → reserved_capacity ledger rs ≡ reserved_capacity ledger qs
unfolding reserved_capacity
reserved_capacity-perm ledger rs qs p =
    ∥∥₁_elim p (ResourceCapacity-set _ _) (sum_reservations-perm 0 _ _)
