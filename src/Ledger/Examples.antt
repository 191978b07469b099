-- ===== src/Ledger/Examples.antt =====
-- The theorems about the ledger at concrete inputs: a runtime with 8 slots, and the tenant alice.
use execgo_runtime.Base.{◌≡◌, refl, true, ◌↔◌, some, none, [], ◌∷◌, arith}
use execgo_runtime.Types.Limits.{TaskResourceReservation}
use execgo_runtime.Types.Capability.{ResourceCapacity}
use execgo_runtime.Ledger.{ResourceLedger, tenant_quota, can_reserve, add_reservation}
use execgo_runtime.Ledger.Fit.{Fits, can_reserve_iff}
use execgo_runtime.Ledger.Totals.{Within, add_reservation-Within}

abbrev quota : ResourceCapacity
quota = record { task_slots = 2; memory_bytes = some 200; pids = some 10 }

abbrev ledger : ResourceLedger
ledger = record {
  capacity = record { task_slots = 8; memory_bytes = some 800; pids = some 64 };
  tenant_quotas = ("alice", quota) ∷ [];
}

abbrev in_use : ResourceCapacity
in_use = record { task_slots = 1; memory_bytes = some 100; pids = some 5 }

abbrev small : TaskResourceReservation
small = record { task_slots = 1; memory_bytes = some 100; pids = none }

abbrev large : TaskResourceReservation
large = record { task_slots = 1; memory_bytes = some 600; pids = some 20 }

alice_quota : tenant_quota ledger "alice" ≡ some quota
unfolding tenant_quota
alice_quota = refl

can_reserve-small : can_reserve ledger in_use small ≡ true
unfolding can_reserve
can_reserve-small = refl

can_reserve_iff_example :
    (can_reserve ledger in_use small ≡ true) ↔ Fits ledger.capacity in_use small
can_reserve_iff_example = can_reserve_iff ledger in_use small (omega arith) (tt, tt)

add_reservation-Within_example : Within ledger.capacity (add_reservation in_use small)
add_reservation-Within_example =
    add_reservation-Within ledger in_use small (omega arith) can_reserve-small
