-- ===== src/Runtime/Within.antt =====
-- A whole cycle of the dispatcher, from the totals that it computes to the tables that it leaves.
use execgo_runtime.Base.{
  ℕ, ◌+◌, ◌≤◌, ◌≡◌, refl, ap, ◌∙◌, Bool, Option, none, some, List, [], ◌∷◌, arith, keep, insert_by,
  sort_by, unwrap_or, saturating_add, u64_max,
}
use execgo_runtime.Errors.{ok, err}
use execgo_runtime.Types.Limits.{TaskResourceReservation}
use execgo_runtime.Types.Capability.{ResourceCapacity}
use execgo_runtime.Ledger.{
  ResourceLedger, sum_reservations, reserved_capacity, add_amount, zero_if_some,
}
use execgo_runtime.Ledger.Fit.{BelowMax, IsBelowMax}
use execgo_runtime.Repo.Rows.{TaskRecord, Store, has_active_reservation}
use execgo_runtime.Repo.Queries.{list_active_reservations, list_accepted}
use execgo_runtime.Repo.Touch.{keys}
use execgo_runtime.Repo.Consistent.{Distinct}
use execgo_runtime.Runtime.Held.{slots_of, memory_of, pids_of, total}
use execgo_runtime.Runtime.Capacity.{Covers, Tracks}
use execgo_runtime.Runtime.Dispatch.{
  System, Budget, Progress, reservations, initial_budget, dispatch_tasks, dispatch_once_sync,
}
use execgo_runtime.Runtime.Cycle.{EndsCovered, dispatch_tasks-EndsCovered}

abbrev pub WithinTotal : Option ℕ → ℕ → Type 0
WithinTotal none n = Unit
WithinTotal (some limit) n = n ≤ limit

-- The exact sums of what the tasks hold are within the limit.
abbrev pub IsWithin : ResourceCapacity → List TaskRecord → Type 0
IsWithin limit rows =
    (total slots_of rows ≤ limit.task_slots)
    × WithinTotal limit.memory_bytes (total memory_of rows)
    × WithinTotal limit.pids (total pids_of rows)

module _ (amount : TaskResourceReservation → ℕ) where
  abbrev pub sum : List TaskResourceReservation → ℕ
  sum [] = 0
  sum (r ∷ rs) = amount r + sum rs

  insert_by-sum :
      (before : TaskRecord → TaskRecord → Bool) (row : TaskRecord) (rows : List TaskRecord)
      → sum (reservations (insert_by before row rows)) ≡ sum (reservations (row ∷ rows))
  unfolding reservations
  insert_by-sum before row [] = refl
  insert_by-sum before row (x ∷ rows) = ground (arith, insert_by-sum before row rows)

  sort_by-sum :
      (before : TaskRecord → TaskRecord → Bool) (rows : List TaskRecord)
      → sum (reservations (sort_by before rows)) ≡ sum (reservations rows)
  unfolding reservations
  sort_by-sum before [] = refl
  sort_by-sum before (x ∷ rows) =
      insert_by-sum before x (sort_by before rows) ∙ ground (arith, sort_by-sum before rows)

  active-sum :
      (rows : List TaskRecord)
      → sum (reservations (keep has_active_reservation rows)) ≡ total amount rows
  unfolding reservations
  active-sum [] = refl
  active-sum (x ∷ rows) = ground (arith, active-sum rows)

  -- The reservations that the dispatcher reads are what the tasks hold.
  list_active-sum :
      (s : Store) → sum (reservations (list_active_reservations s)) ≡ total amount s.tasks
  unfolding list_active_reservations
  list_active-sum s = sort_by-sum _ (keep has_active_reservation s.tasks) ∙ active-sum s.tasks

sum_reservations-slots :
    (slots : ℕ) (memory pids : Option ℕ) (rs : List TaskResourceReservation)
    → slots + sum slots_of rs ≤ u64_max
    → (sum_reservations slots memory pids rs).task_slots ≡ slots + sum slots_of rs
unfolding sum_reservations
sum_reservations-slots slots memory pids [] h = omega arith
sum_reservations-slots slots memory pids (r ∷ rs) h = ground (
  arith,
  sum_reservations-slots (saturating_add slots r.task_slots) (add_amount memory r.memory_bytes)
      (add_amount pids r.pids) rs,
)

add_amount-exact :
    (n : ℕ) (value : Option ℕ)
    → n + unwrap_or 0 value ≤ u64_max
    → add_amount (some n) value ≡ some (n + unwrap_or 0 value)
add_amount-exact n value h = ground arith

sum_reservations-memory :
    (slots memory : ℕ) (pids : Option ℕ) (rs : List TaskResourceReservation)
    → memory + sum memory_of rs ≤ u64_max
    → (sum_reservations slots (some memory) pids rs).memory_bytes ≡ some (memory + sum memory_of rs)
unfolding sum_reservations
sum_reservations-memory slots memory pids [] h = ap some (omega arith)
sum_reservations-memory slots memory pids (r ∷ rs) h =
    rw (add_amount-exact memory r.memory_bytes (omega arith), sum_reservations)
      (sum_reservations-memory (saturating_add slots r.task_slots) (memory + memory_of r)
          (add_amount pids r.pids) rs (omega arith)
        ∙ ap some (omega arith))

sum_reservations-pids :
    (slots : ℕ) (memory : Option ℕ) (pids : ℕ) (rs : List TaskResourceReservation)
    → pids + sum pids_of rs ≤ u64_max
    → (sum_reservations slots memory (some pids) rs).pids ≡ some (pids + sum pids_of rs)
unfolding sum_reservations
sum_reservations-pids slots memory pids [] h = ap some (omega arith)
sum_reservations-pids slots memory pids (r ∷ rs) h =
    rw (add_amount-exact pids r.pids (omega arith), sum_reservations)
      (sum_reservations-pids (saturating_add slots r.task_slots) (add_amount memory r.memory_bytes)
          (pids + pids_of r) rs (omega arith)
        ∙ ap some (omega arith))

-- The total of one amount at the start of a cycle.
module _ (rs : List TaskResourceReservation) (slots : ℕ) where
  memory-Tracks :
      (limit pids : Option ℕ)
      → BelowMax limit
      → WithinTotal limit (sum memory_of rs)
      → Tracks limit
          (sum_reservations slots (zero_if_some limit) pids rs).memory_bytes
          (sum memory_of rs)
  memory-Tracks none pids below within = tt
  memory-Tracks (some limit) pids below within =
      rw (sum_reservations-memory slots 0 pids rs (omega arith)) (omega arith, omega arith)

  pids-Tracks :
      (limit memory : Option ℕ)
      → BelowMax limit
      → WithinTotal limit (sum pids_of rs)
      → Tracks limit (sum_reservations slots memory (zero_if_some limit) rs).pids (sum pids_of rs)
  pids-Tracks none memory below within = tt
  pids-Tracks (some limit) memory below within =
      rw (sum_reservations-pids slots memory 0 rs (omega arith)) (omega arith, omega arith)

-- The reserved capacity that a ledger computes covers what rows hold with the same sums.
pub reserved_capacity-Covers :
    (ledger : ResourceLedger) (rs : List TaskResourceReservation) (rows : List TaskRecord)
    → ((amount : TaskResourceReservation → ℕ) → sum amount rs ≡ total amount rows)
    → IsBelowMax ledger.capacity
    → IsWithin ledger.capacity rows
    → Covers ledger.capacity (reserved_capacity ledger rs) rows
unfolding reserved_capacity
reserved_capacity-Covers ledger rs rows sums below within =
    let slots_sum = sums slots_of in
    let memory_sum = sums memory_of in
    let pids_sum = sums pids_of in
    let slots_exact =
      sum_reservations-slots 0 (zero_if_some ledger.capacity.memory_bytes)
        (zero_if_some ledger.capacity.pids) rs (omega (arith, below.0, within.0, slots_sum)) in
    record {
      slots = omega (arith, slots_exact, slots_sum);
      bounded = omega (arith, slots_exact, slots_sum, within.0);
      memory = rw memory_sum at (
          memory-Tracks rs 0 ledger.capacity.memory_bytes (zero_if_some ledger.capacity.pids)
            below.1 (rw memory_sum within.1));
      pids = rw pids_sum at (
          pids-Tracks rs 0 ledger.capacity.pids (zero_if_some ledger.capacity.memory_bytes) below.2
            (rw pids_sum within.2));
    }

-- The totals at the start of a cycle cover what the tasks hold.
initial_budget-Covers :
    (ledger : ResourceLedger) (s : Store)
    → IsBelowMax ledger.capacity
    → IsWithin ledger.capacity s.tasks
    → Covers ledger.capacity (initial_budget ledger (list_active_reservations s)).reserved s.tasks
unfolding initial_budget
initial_budget-Covers ledger s below within =
    reserved_capacity-Covers ledger (reservations (list_active_reservations s)) s.tasks
      (λ amount. list_active-sum amount s) below within

pub Covers-IsWithin :
    (limit current : ResourceCapacity) (rows : List TaskRecord)
    → Covers limit current rows
    → IsWithin limit rows
Covers-IsWithin limit current rows c =
    (omega (arith, c.slots, c.bounded), ground (arith, c.memory), ground (arith, c.pids))

EndsCovered-IsWithin :
    (limit : ResourceCapacity) (p : Progress Budget)
    → EndsCovered limit p
    → IsWithin limit p.0.tasks
EndsCovered-IsWithin limit (t, ok budget) c = Covers-IsWithin limit budget.reserved t.tasks c.covers
EndsCovered-IsWithin limit (t, err e) (current, c) = Covers-IsWithin limit current t.tasks c.covers

-- Let the tasks of the table be distinct, and let what they hold be within the capacity of the
-- runtime, every bound of which is below the largest `u64`. Then what they hold is within the
-- capacity after a cycle of the dispatcher too, whatever the system answers, whether shims start or
-- not, and whether the cycle ends with an error or not.
pub dispatch_once_sync-IsWithin :
    (system : System) (ledger : ResourceLedger) (max_queued_tasks : ℕ) (s : Store)
    → IsBelowMax ledger.capacity
    → Distinct (keys s.tasks)
    → IsWithin ledger.capacity s.tasks
    → IsWithin ledger.capacity (dispatch_once_sync system ledger max_queued_tasks s).0.tasks
unfolding dispatch_once_sync
dispatch_once_sync-IsWithin system ledger max_queued_tasks s below unique within =
    EndsCovered-IsWithin ledger.capacity
      (dispatch_tasks system ledger (list_accepted max_queued_tasks s)
        (initial_budget ledger (list_active_reservations s)) s)
      (dispatch_tasks-EndsCovered system ledger below (list_accepted max_queued_tasks s)
        (initial_budget ledger (list_active_reservations s)) s
        (record { unique = unique; covers = initial_budget-Covers ledger s below within }))
