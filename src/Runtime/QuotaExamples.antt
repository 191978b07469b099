-- ===== src/Runtime/QuotaExamples.antt =====
-- The quota of a tenant at a concrete input: a quota of one slot, and two accepted tasks of the
-- tenant that ask for one slot each.
use execgo_runtime.Base.{◌≡◌, refl, true, false, some, none, [], ◌∷◌, arith}
use execgo_runtime.Base.Dict
use execgo_runtime.Base.{String}
use execgo_runtime.Base.Text.{parse_u64, split, split_once, trim}
use execgo_runtime.Errors.{ok}
use execgo_runtime.Runtime.TenantQuota.{parse_tenant_quota}
use execgo_runtime.Runtime.QuotaText.{IsQuota, parse_tenant_quota-IsQuota}
use execgo_runtime.Types.Control.{ControlContext}
use execgo_runtime.Types.Status.{TaskStatus}
use execgo_runtime.Types.Capability.{ResourceCapacity}
use execgo_runtime.Ledger.{
  ResourceLedger, tenant_quota, can_reserve, reserved_capacity, can_reserve_for_tenant,
  add_reservation,
}
use execgo_runtime.Repo.Queries.{list_accepted, list_active_reservations}
use execgo_runtime.Repo.Writes.{reserve_resources, mark_dispatched}
use execgo_runtime.Repo.Rows.{TaskRecord, Store, insert_event_tx, update_row}
use execgo_runtime.Repo.Examples.{accepted, accepted_row}
use execgo_runtime.Runtime.Examples.{working, summary}
use execgo_runtime.Runtime.Dispatch.{dispatch_once_sync, reservations}
use execgo_runtime.Runtime.Within.{IsWithin}
use execgo_runtime.Runtime.Shares.{share}
use execgo_runtime.Runtime.Resources.{runtime_resources}
use execgo_runtime.Runtime.TenantViews.{find_view, expected_view, find_view-runtime_resources}
use execgo_runtime.Runtime.QuotaWithin.{dispatch_once_sync-IsWithin_quota}

abbrev one_slot : ResourceCapacity
one_slot = record { task_slots = 1; memory_bytes = none; pids = none }

abbrev limited : ResourceLedger
limited = record {
  capacity = record { task_slots = 4; memory_bytes = none; pids = none };
  tenant_quotas = ("alice", one_slot) ∷ [];
}

abbrev context : ControlContext
context = record {
  control_plane_mode = none;
  tenant = some "alice";
  owner = none;
  expected_runtime_profile = none;
  requires_strict_sandbox = false;
  requires_resource_reservation = false;
  labels = [];
}

abbrev waiting : TaskRecord
waiting = record accepted_row { control_context = some context }

abbrev two_waiting : Store
two_waiting = record accepted { tasks = waiting ∷ record waiting { task_id = "t2" } ∷ [] }

-- One of the two tasks starts, and the other one waits.
dispatches_one :
    summary (dispatch_once_sync working limited 16 two_waiting).0
    ≡ (TaskStatus.running, true) ∷ (TaskStatus.accepted, false) ∷ []
unfolding dispatch_once_sync list_accepted can_reserve reserved_capacity list_active_reservations
    can_reserve_for_tenant tenant_quota reserve_resources insert_event_tx update_row mark_dispatched
    add_reservation Dict.put
dispatches_one = refl

abbrev dispatched : Store
dispatched = (dispatch_once_sync working limited 16 two_waiting).0

alice_limited : tenant_quota limited "alice" ≡ some one_slot
unfolding tenant_quota
alice_limited = refl

dispatch_once_sync-IsWithin_quota_example :
    IsWithin one_slot (share "alice" (dispatch_once_sync working limited 16 two_waiting).0.tasks)
dispatch_once_sync-IsWithin_quota_example =
    dispatch_once_sync-IsWithin_quota working limited 16 "alice" one_slot two_waiting alice_limited
      (omega arith, tt, tt) (refl, (refl, tt)) (omega arith, tt, tt)

find_view-runtime_resources_example :
    find_view "alice" (runtime_resources "r1" limited dispatched).tenants
    ≡ expected_view limited "alice"
        (reservations (share "alice" (list_active_reservations dispatched)))
find_view-runtime_resources_example = find_view-runtime_resources "r1" limited dispatched "alice"

-- The value of a later entry counts, and blank entries are passed over.
abbrev alice_text : String
alice_text = " alice =slots:1, slots : 2,,pids:7"

abbrev alice_read : ResourceCapacity
alice_read = record { task_slots = 2; memory_bytes = none; pids = some 7 }

alice_parsed : parse_tenant_quota alice_text ≡ ok ("alice", alice_read)
unfolding parse_tenant_quota split split_once trim parse_u64
alice_parsed = refl

parse_tenant_quota-IsQuota_example : IsQuota alice_text "alice" alice_read
parse_tenant_quota-IsQuota_example =
    parse_tenant_quota-IsQuota alice_text "alice" alice_read alice_parsed

rejects_large : parse_u64 "18446744073709551616" ≡ none
unfolding parse_u64
rejects_large = refl
