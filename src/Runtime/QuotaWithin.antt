-- ===== src/Runtime/QuotaWithin.antt =====
-- A whole cycle of the dispatcher and one tenant, from the totals that it computes to the tables that
-- it leaves.
use execgo_runtime.Base.{
  ℕ, String, ◌≡◌, refl, ap, ◌∙◌, inl, inr, Bool, Bool-cases, Option-cases, some, List, [], ◌∷◌, All,
  arith, take, zero, suc, leb, i64_max, keep, insert_by, sort_by,
}
use execgo_runtime.Base.Dict
use execgo_runtime.Base.Dict.{Dict}
use execgo_runtime.Errors.{ok, err}
use execgo_runtime.Types.Limits.{TaskResourceReservation}
use execgo_runtime.Types.Capability.{ResourceCapacity}
use execgo_runtime.Ledger.{
  ResourceLedger, new, tenant_quota, reserved_capacity, sum_reservations, add_reservation,
}
use execgo_runtime.Ledger.Fit.{IsBelowMax}
use execgo_runtime.Repo.Rows.{TaskRecord, Store, find_row, has_active_reservation}
use execgo_runtime.Repo.Writes.{is_accepted}
use execgo_runtime.Repo.Queries.{list_accepted, list_active_reservations, limited, older}
use execgo_runtime.Repo.Touch.{keys}
use execgo_runtime.Repo.Consistent.{Distinct, All-map}
use execgo_runtime.Runtime.Held.{total}
use execgo_runtime.Runtime.Within.{IsWithin, Covers-IsWithin, reserved_capacity-Covers, sum}
use execgo_runtime.Runtime.Sorted.{All-sort_by, All-keep}
use execgo_runtime.Runtime.Restarted.{IsCurrent, rows-IsCurrent}
use execgo_runtime.Runtime.Dispatch.{
  System, Budget, Progress, then_rest, tenant_of, tenant_total, empty_tenant_cap, add_to_tenant,
  sum_tenants, reservations, initial_budget, dispatch_task, dispatch_tasks, dispatch_once_sync,
}
use execgo_runtime.Runtime.Shares.{belongs_to, share}
use execgo_runtime.Runtime.Quota.{IsShared, SameTenants, tenant_total_own, tenant_total_other}
use execgo_runtime.Runtime.QuotaCycle.{
  Matches, EndsShared, tenant_share, is_tenant-some, is_tenant-other, dispatch_task-EndsShared,
}

-- The tasks that are left still match, where no task has changed its tenant.
SameTenants-Matches :
    (s t : Store) (rest : List TaskRecord) → SameTenants s t → Matches s rest → Matches t rest
SameTenants-Matches s t [] same m = tt
SameTenants-Matches s t (x ∷ rest) same m = (
  λ row found. elim (Option-cases (find_row x.task_id s.tasks)) [
    | inl e ↦ let p = same x.task_id in let p' = rw (found, e) at p in cc
    | inr (before, e) ↦
        let p = same x.task_id in
        let p' = rw (found, e) at p in
        let kept : tenant_of row ≡ tenant_of before = cc in kept ∙ m.0 before e
  ],
  SameTenants-Matches s t rest same m.1,
)

All-take :
    (P : TaskRecord → Type 0) (n : ℕ) (rows : List TaskRecord) → All P rows → All P (take n rows)
All-take P zero rows ps = tt
All-take P (suc n) [] ps = tt
All-take P (suc n) (x ∷ rows) ps = (ps.0, All-take P n rows ps.1)

-- The accepted tasks that the dispatcher reads are those of the table.
list_accepted-Matches :
    (limit : ℕ) (s : Store) → Distinct (keys s.tasks) → Matches s (list_accepted limit s)
unfolding list_accepted
list_accepted-Matches limit s d =
    let sorted =
      All-sort_by older (IsCurrent s.tasks) (keep is_accepted s.tasks)
        (All-keep is_accepted (IsCurrent s.tasks) s.tasks (rows-IsCurrent s.tasks d)) in
    let matching =
      All-map (sort_by older (keep is_accepted s.tasks))
        (λ x current row found. let same : row ≡ x = cc in ap tenant_of same) sorted in
    elim (Bool-cases (leb limit i64_max)) [
      | inl e ↦ rw e (All-take _ limit (sort_by older (keep is_accepted s.tasks)) matching)
      | inr e ↦ rw e matching
    ]

module _ (tenant : String) (amount : TaskResourceReservation → ℕ) where
  share-insert_by :
      (before : TaskRecord → TaskRecord → Bool) (x : TaskRecord) (rows : List TaskRecord)
      → sum amount (reservations (share tenant (insert_by before x rows)))
        ≡ sum amount (reservations (share tenant (x ∷ rows)))
  unfolding reservations
  share-insert_by before x [] = refl
  share-insert_by before x (y ∷ rows) = ground (arith, share-insert_by before x rows)

  share-sort_by :
      (before : TaskRecord → TaskRecord → Bool) (rows : List TaskRecord)
      → sum amount (reservations (share tenant (sort_by before rows)))
        ≡ sum amount (reservations (share tenant rows))
  unfolding reservations
  share-sort_by before [] = refl
  share-sort_by before (x ∷ rows) =
      share-insert_by before x (sort_by before rows) ∙ ground (arith, share-sort_by before rows)

  share-active :
      (rows : List TaskRecord)
      → sum amount (reservations (share tenant (keep has_active_reservation rows)))
        ≡ total amount (share tenant rows)
  unfolding reservations
  share-active [] = refl
  share-active (x ∷ rows) = ground (arith, share-active rows)

module _ (ledger : ResourceLedger) (tenant : String) where
  -- The totals that the dispatcher computes for a tenant are the sums of what its tasks reserve.
  sum_tenants-share :
      (tasks : List TaskRecord) (d : Dict ResourceCapacity)
      → let current = tenant_total ledger (some tenant) d in
        tenant_total ledger (some tenant) (sum_tenants ledger tasks d)
        ≡ sum_reservations current.task_slots current.memory_bytes current.pids
            (reservations (share tenant tasks))
  unfolding sum_tenants reservations sum_reservations add_reservation
  sum_tenants-share [] d = refl
  sum_tenants-share (x ∷ tasks) d = elim (Option-cases x.reservation) [
    | inl e ↦ elim (Bool-cases (belongs_to tenant x)) [
      | inl own ↦ rw (own, e, sum_tenants) (sum_tenants-share tasks d)
      | inr other ↦ rw (e, other, sum_tenants) (sum_tenants-share tasks d)
    ]
    | inr (r, e) ↦ elim (Bool-cases (belongs_to tenant x)) [
      | inl own ↦
          let name = is_tenant-some tenant (tenant_of x) own in
          let rest = sum_tenants-share tasks (add_to_tenant ledger (tenant_of x) r d) in
          let total = tenant_total_own ledger tenant r d in
          let rest' = rw name at rest in rw (own, e, sum_tenants, name) (rw total at rest')
      | inr other ↦
          let rest = sum_tenants-share tasks (add_to_tenant ledger (tenant_of x) r d) in
          let total =
            tenant_total_other ledger tenant r d (tenant_of x)
              (is_tenant-other tenant (tenant_of x) other) in
          rw (e, other, sum_tenants) (rw total at rest)
    ]
  ]

  module _ (quota : ResourceCapacity) (limited : tenant_quota ledger tenant ≡ some quota) where
    tenant_share-initial :
        (s : Store)
        → tenant_share ledger tenant quota (initial_budget ledger (list_active_reservations s))
          ≡ reserved_capacity (new quota) (reservations (share tenant (list_active_reservations s)))
    unfolding initial_budget reserved_capacity tenant_total empty_tenant_cap Dict.get
    tenant_share-initial s = sum_tenants-share (list_active_reservations s) [] ∙ rw limited refl

    list_active-share :
        (amount : TaskResourceReservation → ℕ) (s : Store)
        → sum amount (reservations (share tenant (list_active_reservations s)))
          ≡ total amount (share tenant s.tasks)
    unfolding list_active_reservations
    list_active-share amount s =
        share-sort_by tenant amount _ (keep has_active_reservation s.tasks)
        ∙ share-active tenant amount s.tasks

    initial_budget-IsShared :
        (s : Store)
        → IsBelowMax quota
        → Distinct (keys s.tasks)
        → IsWithin quota (share tenant s.tasks)
        → IsShared tenant quota
            (tenant_share ledger tenant quota (initial_budget ledger (list_active_reservations s)))
            s
    initial_budget-IsShared s below d within = record {
      unique = d;
      covers = rw (tenant_share-initial s) (
          reserved_capacity-Covers (new quota)
            (reservations (share tenant (list_active_reservations s))) (share tenant s.tasks)
            (λ amount. list_active-share amount s) below within);
    }

    -- The tasks of the tenant hold no more than its quota after a part of a cycle.
    abbrev WithinQuota : Progress Budget → Type 0
    WithinQuota p = IsWithin quota (share tenant p.0.tasks)

    then_rest-WithinQuota :
        (s : Store) (p : Progress Budget) (rest : Budget → Store → Progress Budget)
        → EndsShared ledger tenant quota s p
        → ((budget : Budget) (t : Store)
            → IsShared tenant quota (tenant_share ledger tenant quota budget) t
            → SameTenants s t
            → WithinQuota (rest budget t))
        → WithinQuota (then_rest p rest)
    then_rest-WithinQuota s (t, ok budget) rest (c, same) h = h budget t c same
    then_rest-WithinQuota s (t, err e) rest (current, c) h =
        Covers-IsWithin quota current (share tenant t.tasks) c.covers

    dispatch_tasks-WithinQuota :
        (system : System)
        → IsBelowMax quota
        → (tasks : List TaskRecord) (budget : Budget) (s : Store)
        → IsShared tenant quota (tenant_share ledger tenant quota budget) s
        → Matches s tasks
        → WithinQuota (dispatch_tasks system ledger tasks budget s)
    unfolding dispatch_tasks
    dispatch_tasks-WithinQuota system below [] budget s c m =
        Covers-IsWithin quota (tenant_share ledger tenant quota budget) (share tenant s.tasks)
          c.covers
    dispatch_tasks-WithinQuota system below (task ∷ rest) budget s c m =
        then_rest-WithinQuota s (dispatch_task system ledger task budget s)
          (dispatch_tasks system ledger rest)
          (dispatch_task-EndsShared ledger tenant quota limited below system task budget s c m.0)
          λ next t d same.
            dispatch_tasks-WithinQuota system below rest next t d
              (SameTenants-Matches s t rest same m.1)

-- Let a tenant have a quota, whose limits are below the largest value of their type, let the tasks
-- of the table be distinct, and let what the tasks of the tenant hold be within the quota. Whatever
-- the system answers, and whether the cycle of the dispatcher ends well or with an error, what the
-- tasks of the tenant hold is within the quota in the tables that it leaves.
pub dispatch_once_sync-IsWithin_quota :
    (system : System) (ledger : ResourceLedger) (max_queued_tasks : ℕ) (tenant : String)
    (quota : ResourceCapacity) (s : Store)
    → tenant_quota ledger tenant ≡ some quota
    → IsBelowMax quota
    → Distinct (keys s.tasks)
    → IsWithin quota (share tenant s.tasks)
    → IsWithin quota (share tenant (dispatch_once_sync system ledger max_queued_tasks s).0.tasks)
unfolding dispatch_once_sync
dispatch_once_sync-IsWithin_quota system ledger max_queued_tasks tenant quota s limited below d
      within =
    dispatch_tasks-WithinQuota ledger tenant quota limited system below
      (list_accepted max_queued_tasks s) (initial_budget ledger (list_active_reservations s)) s
      (initial_budget-IsShared ledger tenant quota limited s below d within)
      (list_accepted-Matches max_queued_tasks s d)
