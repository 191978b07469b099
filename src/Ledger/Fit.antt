-- ===== src/Ledger/Fit.antt =====
-- What the tests of the ledger decide.
use execgo_runtime.Base.{
  unwrap_or, ℕ, ◌+◌, ◌≤◌, ◌<◌, ◌≡◌, ◌↔◌, true, String, Option, none, some, [], arith, u64_max,
  and_then,
}
use execgo_runtime.Errors.{ok}
use execgo_runtime.Types.Limits.{TaskResourceReservation}
use execgo_runtime.Types.Capability.{ResourceCapacity}
use execgo_runtime.Ledger.{
  ResourceLedger, new, tenant_quota, ensure_within_capacity, ensure_within_tenant_quota,
  can_reserve, can_reserve_for_tenant, reserved_capacity,
}

-- An amount that is bounded lies below the largest `u64`, so that no sum saturates up to it.
abbrev pub BelowMax : Option ℕ → Type 0
BelowMax none = Unit
BelowMax (some n) = n < u64_max

abbrev pub IsBelowMax : ResourceCapacity → Type 0
IsBelowMax c = (c.task_slots < u64_max) × BelowMax c.memory_bytes × BelowMax c.pids

-- The exact sum of what is reserved, nothing where no amount is given, and of what is requested is
-- within the limit. Nothing is asked where no amount is requested or there is no limit.
abbrev pub FitsAmount : Option ℕ → Option ℕ → Option ℕ → Type 0
FitsAmount reserved (some requested) (some limit) = unwrap_or 0 reserved + requested ≤ limit
FitsAmount reserved (some requested) none = Unit
FitsAmount reserved none limit = Unit

-- Of an amount with a limit it is known how much is reserved.
abbrev pub IsTracked : Option ℕ → Option ℕ → Type 0
IsTracked none reserved = Unit
IsTracked (some limit) none = ⊥
IsTracked (some limit) (some reserved) = Unit

abbrev pub Tracked : ResourceCapacity → ResourceCapacity → Type 0
Tracked limit reserved =
    IsTracked limit.memory_bytes reserved.memory_bytes × IsTracked limit.pids reserved.pids

abbrev pub Fits : ResourceCapacity → ResourceCapacity → TaskResourceReservation → Type 0
Fits limit reserved r =
    (reserved.task_slots + r.task_slots ≤ limit.task_slots)
    × FitsAmount reserved.memory_bytes r.memory_bytes limit.memory_bytes
    × FitsAmount reserved.pids r.pids limit.pids

-- For a capacity below the largest `u64`, and totals that say how much is reserved of each amount that
-- has a limit, `can_reserve` holds exactly when the exact, unsaturated sums of what is reserved and
-- what is requested are within the capacity: the slots, and the memory and the processes where they
-- are requested and have a limit.
pub can_reserve_iff :
    (ledger : ResourceLedger) (reserved : ResourceCapacity) (r : TaskResourceReservation)
    → IsBelowMax ledger.capacity
    → Tracked ledger.capacity reserved
    → (can_reserve ledger reserved r ≡ true) ↔ Fits ledger.capacity reserved r
unfolding can_reserve
can_reserve_iff ledger reserved r h t = ground arith

-- For a tenant with a quota, `can_reserve_for_tenant` is `can_reserve` of a ledger whose capacity
-- is that quota.
pub can_reserve_for_tenant-eq :
    (ledger : ResourceLedger) (tenant : String) (quota reserved : ResourceCapacity)
    (r : TaskResourceReservation)
    → tenant_quota ledger tenant ≡ some quota
    → can_reserve_for_tenant ledger (some tenant) reserved r ≡ can_reserve (new quota) reserved r
unfolding can_reserve_for_tenant can_reserve
can_reserve_for_tenant-eq ledger tenant quota reserved r h = ground arith

-- An amount of a reservation is a `u64`.
abbrev pub IsWord : Option ℕ → Type 0
IsWord none = Unit
IsWord (some n) = n ≤ u64_max

abbrev pub IsWords : TaskResourceReservation → Type 0
IsWords r = (r.task_slots ≤ u64_max) × IsWord r.memory_bytes × IsWord r.pids

-- `ensure_within_capacity` accepts a reservation whose amounts are `u64`s exactly when a runtime
-- that holds no reservation can reserve it.
pub ensure_within_capacity_iff :
    (ledger : ResourceLedger) (r : TaskResourceReservation)
    → IsWords r
    → (ensure_within_capacity ledger r ≡ ok tt)
      ↔ (can_reserve ledger (reserved_capacity ledger []) r ≡ true)
unfolding ensure_within_capacity can_reserve reserved_capacity
ensure_within_capacity_iff ledger r h = ground arith

-- `ensure_within_tenant_quota` accepts a reservation for a tenant with a quota exactly when
-- `ensure_within_capacity` of a ledger with that quota for its capacity does, and any reservation
-- where there is no tenant or the tenant has no quota.
pub ensure_within_tenant_quota_iff :
    (ledger : ResourceLedger) (tenant : Option String) (r : TaskResourceReservation)
    → ((quota : ResourceCapacity)
        → and_then tenant (tenant_quota ledger) ≡ some quota
        → (ensure_within_tenant_quota ledger tenant r ≡ ok tt)
          ↔ (ensure_within_capacity (new quota) r ≡ ok tt))
      × (and_then tenant (tenant_quota ledger) ≡ none
          → ensure_within_tenant_quota ledger tenant r ≡ ok tt)
unfolding ensure_within_tenant_quota ensure_within_capacity
ensure_within_tenant_quota_iff ledger tenant r = (λ quota h. ground arith, λ h. ground arith)
