-- ===== src/Ledger.antt =====
-- src/ledger.rs: ResourceLedger, and from src/runtime.rs the running totals that the dispatcher
-- keeps with it (add_reservation, subtract_reservation).
pub mod Fit
pub mod Totals
mod Examples
use execgo_runtime.Base.{
  ℕ, Bool, true, false, not, String, Option, none, some, List, [], ◌∷◌, ltb, if◌then◌else◌, is_some,
  and_then, map_option, unwrap_or, saturating_add, saturating_sub, str_append,
}
use execgo_runtime.Base.Text.{decimal}
use execgo_runtime.Base.Dict
use execgo_runtime.Base.Dict.{Dict}
use execgo_runtime.Errors.{Checked, ok, insufficient_resources, guard, ◌>>◌}
use execgo_runtime.Types.Limits.{TaskResourceReservation}
use execgo_runtime.Types.Capability.{ResourceCapacity}

pub record ResourceLedger : Type 0 where
  pub capacity : ResourceCapacity
  pub tenant_quotas : Dict ResourceCapacity

-- `ResourceLedger::new`, by way of `with_tenant_quotas`.
abbrev pub new : ResourceCapacity → ResourceLedger
new capacity = record { capacity = capacity; tenant_quotas = [] }

-- `ResourceLedger::tenant_quota`
unfoldable pub tenant_quota : ResourceLedger → String → Option ResourceCapacity
unfolding Dict.get
tenant_quota ledger tenant = Dict.get ledger.tenant_quotas tenant

-- "<subject> requires <requested> <unit> but <bound> is <limit>"
abbrev too_much : String → String → String → ℕ → ℕ → String
too_much subject unit bound requested limit = str_append subject (
    str_append " requires " (
      str_append (decimal requested)
        (str_append unit (str_append bound (str_append " is " (decimal limit))))))

-- `if let (Some(requested), Some(limit)) = (..) { if requested > limit { return Err(..) } }`
abbrev check_amount : (ℕ → ℕ → String) → Option ℕ → Option ℕ → Checked
check_amount message (some requested) (some limit) =
    guard (not (ltb limit requested)) (insufficient_resources (message requested limit))
check_amount message (some requested) none = ok tt
check_amount message none limit = ok tt

unfoldable pub ensure_within_capacity : ResourceLedger → TaskResourceReservation → Checked
ensure_within_capacity ledger r = do
  guard (not (ltb ledger.capacity.task_slots r.task_slots)) (
      insufficient_resources (
        too_much "task" " task slots but " "runtime capacity" r.task_slots
          ledger.capacity.task_slots))
  check_amount (too_much "task" " memory_bytes but " "runtime capacity") r.memory_bytes
      ledger.capacity.memory_bytes
  check_amount (too_much "task" " pids but " "runtime capacity") r.pids ledger.capacity.pids

-- "tenant '<name>': task"
abbrev tenant_task : String → String
tenant_task name = str_append "tenant '" (str_append name "': task")

ensure_within_quota : String → ResourceCapacity → TaskResourceReservation → Checked
ensure_within_quota name quota r = do
  guard (not (ltb quota.task_slots r.task_slots)) (
      insufficient_resources (
        too_much (tenant_task name) " task slots but " "tenant quota" r.task_slots
          quota.task_slots))
  check_amount (too_much (tenant_task name) " memory_bytes but " "tenant quota") r.memory_bytes
      quota.memory_bytes
  check_amount (too_much (tenant_task name) " pids but " "tenant quota") r.pids quota.pids

-- With no tenant, or none that has a quota, nothing is checked.
unfoldable pub ensure_within_tenant_quota :
    ResourceLedger → Option String → TaskResourceReservation → Checked
unfolding ensure_within_quota
ensure_within_tenant_quota ledger tenant r = elim (and_then tenant (tenant_quota ledger)) [
  | none ↦ ok tt
  | some quota ↦ ensure_within_quota (unwrap_or "" tenant) quota r
]

-- `if let (Some(..), Some(..), Some(..)) = (..) { reserved.saturating_add(requested) > limit }`
abbrev exceeds : Option ℕ → Option ℕ → Option ℕ → Bool
exceeds (some reserved) (some requested) (some limit) =
    ltb limit (saturating_add reserved requested)
exceeds (some reserved) (some requested) none = false
exceeds (some reserved) none limit = false
exceeds none requested limit = false

unfoldable pub can_reserve : ResourceLedger → ResourceCapacity → TaskResourceReservation → Bool
can_reserve ledger reserved r =
    if ltb ledger.capacity.task_slots (saturating_add reserved.task_slots r.task_slots)
    then false
    else if exceeds reserved.memory_bytes r.memory_bytes ledger.capacity.memory_bytes
    then false
    else if exceeds reserved.pids r.pids ledger.capacity.pids
    then false
    else true

can_reserve_in_quota : ResourceCapacity → ResourceCapacity → TaskResourceReservation → Bool
can_reserve_in_quota quota reserved r =
    if ltb quota.task_slots (saturating_add reserved.task_slots r.task_slots)
    then false
    else if exceeds reserved.memory_bytes r.memory_bytes quota.memory_bytes
    then false
    else if exceeds reserved.pids r.pids quota.pids
    then false
    else true

unfoldable pub can_reserve_for_tenant :
    ResourceLedger → Option String → ResourceCapacity → TaskResourceReservation → Bool
unfolding can_reserve_in_quota
can_reserve_for_tenant ledger tenant reserved r = elim (and_then tenant (tenant_quota ledger)) [
  | none ↦ true
  | some quota ↦ can_reserve_in_quota quota reserved r
]

-- `if let Some(value) = value { total = Some(total.unwrap_or(0).saturating_add(value)); }`
abbrev pub add_amount : Option ℕ → Option ℕ → Option ℕ
add_amount total none = total
add_amount total (some value) = some (saturating_add (unwrap_or 0 total) value)

-- The loop of `reserved_capacity` over the reservations that are left.
unfoldable pub sum_reservations :
    ℕ → Option ℕ → Option ℕ → List TaskResourceReservation → ResourceCapacity
sum_reservations task_slots memory pids [] = record {
  task_slots = task_slots;
  memory_bytes = memory;
  pids = pids;
}
sum_reservations task_slots memory pids (r ∷ rest) =
    sum_reservations (saturating_add task_slots r.task_slots) (add_amount memory r.memory_bytes)
      (add_amount pids r.pids) rest

-- `if limit.is_some() { Some(0) } else { None }`
abbrev pub zero_if_some : Option ℕ → Option ℕ
zero_if_some none = none
zero_if_some (some limit) = some 0

unfoldable pub reserved_capacity : ResourceLedger → List TaskResourceReservation → ResourceCapacity
unfolding sum_reservations
reserved_capacity ledger reservations =
    sum_reservations 0 (zero_if_some ledger.capacity.memory_bytes)
      (zero_if_some ledger.capacity.pids) reservations

abbrev amount_left : Option ℕ → Option ℕ → Option ℕ
amount_left limit reserved = map_option (λ l. saturating_sub l (unwrap_or 0 reserved)) limit

unfoldable pub available_capacity : ResourceLedger → ResourceCapacity → ResourceCapacity
available_capacity ledger reserved = record {
  task_slots = saturating_sub ledger.capacity.task_slots reserved.task_slots;
  memory_bytes = amount_left ledger.capacity.memory_bytes reserved.memory_bytes;
  pids = amount_left ledger.capacity.pids reserved.pids;
}

unfoldable pub tenant_available_capacity : ResourceCapacity → ResourceCapacity → ResourceCapacity
tenant_available_capacity quota reserved = record {
  task_slots = saturating_sub quota.task_slots reserved.task_slots;
  memory_bytes = amount_left quota.memory_bytes reserved.memory_bytes;
  pids = amount_left quota.pids reserved.pids;
}

-- `add_reservation` of src/runtime.rs
unfoldable pub add_reservation : ResourceCapacity → TaskResourceReservation → ResourceCapacity
add_reservation current r = record {
  task_slots = saturating_add current.task_slots r.task_slots;
  memory_bytes = add_amount current.memory_bytes r.memory_bytes;
  pids = add_amount current.pids r.pids;
}

abbrev subtract_amount : Option ℕ → Option ℕ → Option ℕ
subtract_amount total none = total
subtract_amount total (some value) = map_option (λ t. saturating_sub t value) total

-- `subtract_reservation` of src/runtime.rs
unfoldable pub subtract_reservation : ResourceCapacity → TaskResourceReservation → ResourceCapacity
subtract_reservation current r = record {
  task_slots = saturating_sub current.task_slots r.task_slots;
  memory_bytes = subtract_amount current.memory_bytes r.memory_bytes;
  pids = subtract_amount current.pids r.pids;
}
