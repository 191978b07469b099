-- ===== src/Runtime/Resources.antt =====
-- src/runtime.rs: runtime_resources, the view of the ledger that the service answers with.
use execgo_runtime.Base.{
  String, Option, none, some, List, [], ◌∷◌, map, map_option, unwrap_or, is_some, if◌then◌else◌,
}
use execgo_runtime.Base.Dict
use execgo_runtime.Base.Dict.{Dict, entries}
use execgo_runtime.Types.Limits.{TaskResourceReservation}
use execgo_runtime.Types.Capability.{ResourceCapacity}
use execgo_runtime.Types.Views.{ActiveTaskReservation, TenantResourceView, RuntimeResourcesResponse}
use execgo_runtime.Ledger.{
  ResourceLedger, reserved_capacity, available_capacity, tenant_available_capacity, add_reservation,
}
use execgo_runtime.Repo.Rows.{TaskRecord, Store}
use execgo_runtime.Repo.Queries.{list_active_reservations, count_accepted_waiting}
use execgo_runtime.Runtime.Dispatch.{tenant_of, reservations}

-- `ResourceCapacity { task_slots: 0, memory_bytes: None, pids: None }`
abbrev pub nothing_reserved : ResourceCapacity
nothing_reserved = record { task_slots = 0; memory_bytes = none; pids = none }

-- The task of an active reservation.
abbrev pub active_reservation : TaskRecord → TaskResourceReservation → ActiveTaskReservation
active_reservation task r = record {
  task_id = task.task_id;
  status = task.status;
  reservation = r;
  reserved_at = task.reserved_at;
}

unfoldable pub active_reservations : List TaskRecord → List ActiveTaskReservation
active_reservations [] = []
active_reservations (task ∷ rest) = elim task.reservation [
  | none ↦ active_reservations rest
  | some r ↦ active_reservation task r ∷ active_reservations rest
]

-- `per_tenant.entry(tenant).or_insert(..)`, and `add_reservation` on it.
unfoldable pub add_usage :
    Option String → TaskResourceReservation → Dict ResourceCapacity → Dict ResourceCapacity
add_usage none r d = d
add_usage (some tenant) r d =
    Dict.put d tenant (add_reservation (unwrap_or nothing_reserved (Dict.get d tenant)) r)

-- The loop over the active tasks.
unfoldable pub tenant_usage : List TaskRecord → Dict ResourceCapacity → Dict ResourceCapacity
unfolding add_usage
tenant_usage [] d = d
tenant_usage (task ∷ rest) d = elim task.reservation [
  | none ↦ tenant_usage rest d
  | some r ↦ tenant_usage rest (add_usage (tenant_of task) r d)
]

-- `per_tenant.entry(tenant).or_insert(..)`
abbrev pub or_insert : Dict ResourceCapacity → String → Dict ResourceCapacity
or_insert d tenant = if is_some (Dict.get d tenant) then d else Dict.put d tenant nothing_reserved

-- The loop over the tenants that have a quota.
unfoldable pub with_quotas : Dict ResourceCapacity → Dict ResourceCapacity → Dict ResourceCapacity
with_quotas [] d = d
with_quotas ((tenant, quota) ∷ rest) d = with_quotas rest (or_insert d tenant)

abbrev pub tenant_view : Dict ResourceCapacity → String × ResourceCapacity → TenantResourceView
tenant_view quotas (tenant, reserved) = record {
  tenant = tenant;
  quota = Dict.get quotas tenant;
  reserved = reserved;
  available = map_option (λ q. tenant_available_capacity q reserved) (Dict.get quotas tenant);
}

-- `RuntimeService::runtime_resources`
unfoldable pub runtime_resources : String → ResourceLedger → Store → RuntimeResourcesResponse
unfolding active_reservations tenant_usage with_quotas reservations
runtime_resources runtime_id ledger s = record {
  runtime_id = runtime_id;
  capacity = ledger.capacity;
  reserved = reserved;
  available = available_capacity ledger reserved;
  active_reservations = active_reservations active;
  accepted_waiting_tasks = count_accepted_waiting s;
  tenants =
      map (tenant_view ledger.tenant_quotas)
        (entries (with_quotas ledger.tenant_quotas (tenant_usage active [])));
}
  where
    active : List TaskRecord
    active = list_active_reservations s

    reserved : ResourceCapacity
    reserved = reserved_capacity ledger (reservations active)

-- `ResourceLedger::empty_snapshot`
unfoldable pub empty_snapshot : String → ResourceLedger → RuntimeResourcesResponse
empty_snapshot runtime_id ledger = record {
  runtime_id = runtime_id;
  capacity = ledger.capacity;
  reserved = reserved_capacity ledger [];
  available = available_capacity ledger (reserved_capacity ledger []);
  active_reservations = [];
  accepted_waiting_tasks = 0;
  tenants = [];
}
