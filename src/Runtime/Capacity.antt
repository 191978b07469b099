-- ===== src/Runtime/Capacity.antt =====
-- Running totals that cover what the tasks hold, within a limit.
use execgo_runtime.Base.{unwrap_or, ℕ, ◌+◌, ◌≤◌, ◌≡◌, true, Option, none, some, List, arith}
use execgo_runtime.Types.Limits.{TaskResourceReservation}
use execgo_runtime.Types.Capability.{ResourceCapacity}
use execgo_runtime.Ledger.{
  add_amount, ResourceLedger, can_reserve, add_reservation, subtract_reservation,
}
use execgo_runtime.Ledger.Fit.{IsTracked, FitsAmount, can_reserve_iff, BelowMax, IsBelowMax}
use execgo_runtime.Repo.Rows.{TaskRecord}
use execgo_runtime.Runtime.Held.{slots_of, memory_of, pids_of, held, total}

-- A tracked total that is at least `held` and at most its limit.
abbrev pub Tracks : Option ℕ → Option ℕ → ℕ → Type 0
Tracks none current held = Unit
Tracks (some limit) none held = ⊥
Tracks (some limit) (some current) held = (held ≤ current) × (current ≤ limit)

-- The totals `current` are at least what the rows hold and at most the limit.
pub record Covers (limit current : ResourceCapacity) (rows : List TaskRecord) : Type 0 where
  pub slots : total slots_of rows ≤ current.task_slots
  pub bounded : current.task_slots ≤ limit.task_slots
  pub memory : Tracks limit.memory_bytes current.memory_bytes (total memory_of rows)
  pub pids : Tracks limit.pids current.pids (total pids_of rows)

Tracks-add :
    (limit current requested : Option ℕ) (before after : ℕ)
    → BelowMax limit
    → FitsAmount current requested limit
    → after ≤ before + unwrap_or 0 requested
    → Tracks limit current before
    → Tracks limit (add_amount current requested) after
Tracks-add limit current requested before after below fits le t = ground arith

IsTracked-Tracks :
    (limit current : Option ℕ) (held : ℕ) → Tracks limit current held → IsTracked limit current
IsTracked-Tracks none current held t = tt
IsTracked-Tracks (some limit) none held t = t
IsTracked-Tracks (some limit) (some current) held t = tt

pub Covers-add :
    (ledger : ResourceLedger) (current : ResourceCapacity) (r : TaskResourceReservation)
    (rows next : List TaskRecord)
    → IsBelowMax ledger.capacity
    → can_reserve ledger current r ≡ true
    → ((amount : TaskResourceReservation → ℕ) → total amount next ≤ total amount rows + amount r)
    → Covers ledger.capacity current rows
    → Covers ledger.capacity (add_reservation current r) next
unfolding add_reservation
Covers-add ledger current r rows next below admitted le c =
    let memory_known = IsTracked-Tracks _ _ _ c.memory in
    let pids_known = IsTracked-Tracks _ _ _ c.pids in
    let fits = (can_reserve_iff ledger current r below (memory_known, pids_known)).0 admitted in
    let slots_fit = fits.0 in
    let below_max = below.0 in
    let slots_le = le slots_of in
    record {
      slots = ground (arith, c.slots, slots_le);
      bounded = ground (arith, slots_fit);
      memory = Tracks-add _ _ _ _ _ below.1 fits.1 (le memory_of) c.memory;
      pids = Tracks-add _ _ _ _ _ below.2 fits.2 (le pids_of) c.pids;
    }

module _ (limit current : ResourceCapacity) (rows next : List TaskRecord) where
  pub Covers-le :
      ((amount : TaskResourceReservation → ℕ) → total amount next ≤ total amount rows)
      → Covers limit current rows
      → Covers limit current next
  Covers-le le c =
      let slots_le = le slots_of in
      let memory_le = le memory_of in
      let pids_le = le pids_of in
      record {
        slots = omega (arith, c.slots);
        bounded = c.bounded;
        memory = ground (arith, c.memory, memory_le);
        pids = ground (arith, c.pids, pids_le);
      }

  pub Covers-subtract :
      (r : TaskResourceReservation)
      → ((amount : TaskResourceReservation → ℕ) → total amount next + amount r ≡ total amount rows)
      → Covers limit current rows
      → Covers limit (subtract_reservation current r) next
  unfolding subtract_reservation
  Covers-subtract r eq c =
      let slots_eq = eq slots_of in
      let memory_eq = eq memory_of in
      let pids_eq = eq pids_of in
      record {
        slots = omega (arith, c.slots);
        bounded = omega (arith, c.bounded);
        memory = ground (arith, c.memory, memory_eq);
        pids = ground (arith, c.pids, pids_eq);
      }
