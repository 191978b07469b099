-- ===== src/Runtime/TenantViews.antt =====
-- What runtime_resources says of each tenant.
use execgo_runtime.Base.{
  String, ◌≡◌, refl, ap, ◌∙◌, Bool, true, false, ◌||◌, Bool-cases, Option-cases, inl, inr, Option,
  none, some, List, [], ◌∷◌, map, map_option, unwrap_or, is_some, if◌then◌else◌, str_eq, eq_iff,
  arith,
}
use execgo_runtime.Base.Dict
use execgo_runtime.Base.Dict.{Dict, entries, get-put, get-entries}
use execgo_runtime.Types.Limits.{TaskResourceReservation}
use execgo_runtime.Types.Capability.{ResourceCapacity}
use execgo_runtime.Types.Views.{TenantResourceView}
use execgo_runtime.Ledger.{
  ResourceLedger, tenant_quota, tenant_available_capacity, add_reservation, sum_reservations,
}
use execgo_runtime.Repo.Rows.{TaskRecord, Store, empty}
use execgo_runtime.Repo.Queries.{list_active_reservations, count_accepted_waiting}
use execgo_runtime.Runtime.Dispatch.{tenant_of, reservations}
use execgo_runtime.Runtime.Shares.{is_tenant, belongs_to, share}
use execgo_runtime.Runtime.Resources.{
  nothing_reserved, add_usage, tenant_usage, or_insert, with_quotas, tenant_view, runtime_resources,
  empty_snapshot,
}

-- What reservations add to a total that may not be there yet.
abbrev used : Option ResourceCapacity → List TaskResourceReservation → Option ResourceCapacity
used total [] = total
used total (r ∷ rs) = used (some (add_reservation (unwrap_or nothing_reserved total) r)) rs

-- The view of a tenant in a list.
abbrev pub find_view : String → List TenantResourceView → Option TenantResourceView
find_view tenant [] = none
find_view tenant (view ∷ rest) =
    if str_eq view.tenant tenant then some view else find_view tenant rest

module _ (tenant : String) where
  get-add_usage :
      (name : Option String) (r : TaskResourceReservation) (d : Dict ResourceCapacity)
      → Dict.get (add_usage name r d) tenant ≡ (
          if is_tenant tenant name
          then some (add_reservation (unwrap_or nothing_reserved (Dict.get d tenant)) r)
          else Dict.get d tenant)
  unfolding add_usage
  get-add_usage none r d = refl
  get-add_usage (some name) r d = elim (Bool-cases (str_eq name tenant)) [
    | inl e ↦
        let same : name ≡ tenant = (eq_iff name tenant).0 e in
        get-put d name tenant _ ∙ rw (e, same) refl
    | inr e ↦ get-put d name tenant _ ∙ rw e refl
  ]

  get-tenant_usage :
      (tasks : List TaskRecord) (d : Dict ResourceCapacity)
      → Dict.get (tenant_usage tasks d) tenant
        ≡ used (Dict.get d tenant) (reservations (share tenant tasks))
  unfolding tenant_usage reservations
  get-tenant_usage [] d = refl
  get-tenant_usage (x ∷ tasks) d = elim (Option-cases x.reservation) [
    | inl e ↦ elim (Bool-cases (belongs_to tenant x)) [
      | inl own ↦ rw (own, e, tenant_usage) (get-tenant_usage tasks d)
      | inr other ↦ rw (e, other, tenant_usage) (get-tenant_usage tasks d)
    ]
    | inr (r, e) ↦
        let rest = get-tenant_usage tasks (add_usage (tenant_of x) r d) in
        let first = get-add_usage (tenant_of x) r d in
        elim (Bool-cases (belongs_to tenant x)) [
          | inl own ↦ rw (own, e, tenant_usage) (rw (first, own) at rest)
          | inr other ↦ rw (e, other, tenant_usage) (rw (first, other) at rest)
        ]
  ]

  get-or_insert :
      (d : Dict ResourceCapacity) (name : String)
      → Dict.get (or_insert d name) tenant ≡ (
          if is_some (Dict.get d tenant)
          then Dict.get d tenant
          else if str_eq name tenant
          then some nothing_reserved
          else none)
  get-or_insert d name = ground (arith, get-put d name tenant nothing_reserved, eq_iff name tenant)

  get-with_quotas :
      (quotas d : Dict ResourceCapacity)
      → Dict.get (with_quotas quotas d) tenant ≡ (
          if is_some (Dict.get d tenant)
          then Dict.get d tenant
          else map_option (λ q. nothing_reserved) (Dict.get quotas tenant))
  unfolding with_quotas Dict.get
  get-with_quotas [] d = ground arith
  get-with_quotas ((name, quota) ∷ rest) d =
      ground (arith, get-with_quotas rest (or_insert d name), get-or_insert d name)

  find_view-map :
      (quotas d : Dict ResourceCapacity)
      → find_view tenant (map (tenant_view quotas) d)
        ≡ map_option (λ reserved. tenant_view quotas (tenant, reserved)) (Dict.get d tenant)
  unfolding Dict.get
  find_view-map quotas [] = refl
  find_view-map quotas ((name, reserved) ∷ d) = elim (Bool-cases (str_eq name tenant)) [
    | inl e ↦ rw (e, (eq_iff name tenant).0 e) refl
    | inr e ↦ rw e (find_view-map quotas d)
  ]

used-some :
    (c : ResourceCapacity) (rs : List TaskResourceReservation)
    → used (some c) rs ≡ some (sum_reservations c.task_slots c.memory_bytes c.pids rs)
unfolding sum_reservations add_reservation
used-some c [] = refl
used-some c (r ∷ rs) = used-some (add_reservation c r) rs

abbrev holds_any : List TaskResourceReservation → Bool
holds_any [] = false
holds_any (r ∷ rs) = true

used-none :
    (rs : List TaskResourceReservation)
    → used none rs ≡ (if holds_any rs then some (sum_reservations 0 none none rs) else none)
unfolding sum_reservations add_reservation
used-none [] = refl
used-none (r ∷ rs) = used-some (add_reservation nothing_reserved r) rs

-- The view of a tenant: its quota, what its reservations add up to, and what the quota leaves.
abbrev pub expected_view :
    ResourceLedger → String → List TaskResourceReservation → Option TenantResourceView
expected_view ledger tenant rs =
    if holds_any rs || is_some (tenant_quota ledger tenant)
    then some (record {
      tenant = tenant;
      quota = tenant_quota ledger tenant;
      reserved = sum_reservations 0 none none rs;
      available =
          map_option (λ q. tenant_available_capacity q (sum_reservations 0 none none rs))
            (tenant_quota ledger tenant);
    })
    else none

view-used :
    (ledger : ResourceLedger) (tenant : String) (rs : List TaskResourceReservation)
    → map_option
        (λ reserved. tenant_view ledger.tenant_quotas (tenant, reserved))
        (if is_some (used none rs)
          then used none rs
          else map_option (λ q. nothing_reserved) (Dict.get ledger.tenant_quotas tenant))
      ≡ expected_view ledger tenant rs
unfolding tenant_quota sum_reservations
view-used ledger tenant rs = rw (used-none rs) (by_cases rs)
  where
    by_cases :
        (rs : List TaskResourceReservation)
        → map_option
            (λ reserved. tenant_view ledger.tenant_quotas (tenant, reserved))
            (if is_some (if holds_any rs then some (sum_reservations 0 none none rs) else none)
              then (if holds_any rs then some (sum_reservations 0 none none rs) else none)
              else map_option (λ q. nothing_reserved) (Dict.get ledger.tenant_quotas tenant))
          ≡ expected_view ledger tenant rs
    by_cases [] = elim (Option-cases (Dict.get ledger.tenant_quotas tenant)) [
      | inl e ↦ rw e refl
      | inr (q, e) ↦ rw e refl
    ]
    by_cases (r ∷ rs) = refl

-- In the answer of `runtime_resources` a tenant has a view exactly when it has a quota or one of its
-- tasks holds a reservation; the view has its quota, the sum of the reservations of its tasks, and
-- what the quota leaves of it.
pub find_view-runtime_resources :
    (runtime_id : String) (ledger : ResourceLedger) (s : Store) (tenant : String)
    → find_view tenant (runtime_resources runtime_id ledger s).tenants
      ≡ expected_view ledger tenant (reservations (share tenant (list_active_reservations s)))
unfolding runtime_resources Dict.get
find_view-runtime_resources runtime_id ledger s tenant =
    let active = list_active_reservations s in
    let usage = tenant_usage active [] in
    let listed = with_quotas ledger.tenant_quotas usage in
    let at = λ (found : Option ResourceCapacity).
      map_option (λ reserved. tenant_view ledger.tenant_quotas (tenant, reserved)) found in
    let held = get-tenant_usage tenant active [] in
    find_view-map tenant ledger.tenant_quotas (entries listed)
    ∙ ap at (get-entries listed tenant ∙ get-with_quotas tenant ledger.tenant_quotas usage)
    ∙ rw held (view-used ledger tenant (reservations (share tenant active)))

-- On the empty tables, and without quotas, the answer is the empty snapshot of the ledger.
runtime_resources-empty :
    (runtime_id : String) (capacity : ResourceCapacity)
    → runtime_resources runtime_id (record { capacity = capacity; tenant_quotas = [] }) empty
      ≡ empty_snapshot runtime_id (record { capacity = capacity; tenant_quotas = [] })
unfolding runtime_resources empty_snapshot list_active_reservations count_accepted_waiting
runtime_resources-empty runtime_id capacity = refl
