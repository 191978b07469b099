-- ===== src/Runtime/Quota.antt =====
-- A write of the dispatcher, and what the tasks of one tenant hold.
use execgo_runtime.Base.{
  ℕ, ◌+◌, ◌≤◌, String, ◌≡◌, ◌≢◌, refl, ap, ◌∙◌, inl, inr, true, false, Bool-cases, Option, none,
  some, arith, map_option, str_eq, eq_iff,
}
use execgo_runtime.Base.Dict.{Dict, get-put}
use execgo_runtime.Types.Limits.{TaskResourceReservation}
use execgo_runtime.Types.Capability.{ResourceCapacity}
use execgo_runtime.Ledger.{ResourceLedger, new, can_reserve, add_reservation}
use execgo_runtime.Ledger.Fit.{IsBelowMax}
use execgo_runtime.Repo.Rows.{TaskRecord, Store, find_row, update_row}
use execgo_runtime.Repo.Touch.{keys, update-Touches}
use execgo_runtime.Repo.Consistent.{Distinct}
use execgo_runtime.Repo.Lifecycle.{find_row-update_row_self}
use execgo_runtime.Runtime.Held.{held, total, total-update_row_le, total-update_row_none}
use execgo_runtime.Runtime.Capacity.{Covers, Covers-le, Covers-add}
use execgo_runtime.Runtime.Dispatch.{tenant_of, tenant_total, add_to_tenant}
use execgo_runtime.Runtime.Shares.{
  is_tenant, belongs_to, share, share-update_row, share_other, Distinct-share,
}

-- The tasks are distinct, and `current` covers what the tasks of the tenant hold.
pub record IsShared (tenant : String) (quota current : ResourceCapacity) (s : Store) : Type 0 where
  pub unique : Distinct (keys s.tasks)
  pub covers : Covers quota current (share tenant s.tasks)

-- No task has changed its tenant.
abbrev pub SameTenants : Store → Store → Type 0
SameTenants s t =
    (id : String)
    → map_option tenant_of (find_row id t.tasks) ≡ map_option tenant_of (find_row id s.tasks)

-- A write on the row of one task, which keeps its identifier and its context.
module _ (id : String) (f : TaskRecord → TaskRecord)
    (same : (r : TaskRecord) → (f r).task_id ≡ r.task_id)
    (context : (r : TaskRecord) → tenant_of (f r) ≡ tenant_of r) (s t : Store)
    (written : t.tasks ≡ update_row id f s.tasks) where
  pub written-SameTenants : SameTenants s t
  written-SameTenants j = elim (Bool-cases (str_eq j id)) [
    | inl e ↦
        let named : j ≡ id = (eq_iff j id).0 e in
        rw (named, written, find_row-update_row_self id f same s.tasks)
          (again (find_row id s.tasks))
    | inr e ↦
        let other : j ≢ id = λ p. ground (arith, p, eq_iff j id) in
        rw written (ap (map_option tenant_of) ((update-Touches id f same s).rows j other))
  ]
    where
      again :
          (row : Option TaskRecord)
          → map_option tenant_of (map_option f row) ≡ map_option tenant_of row
      again none = refl
      again (some row) = ap some (context row)

  module _ (tenant : String) (quota current : ResourceCapacity) where
    -- The rows of the tenant after the write.
    share_written : share tenant t.tasks ≡ update_row id f (share tenant s.tasks)
    share_written =
        ap (share tenant) written
        ∙ share-update_row tenant id f s.tasks (λ row. ap (is_tenant tenant) (context row)) same

    Distinct-written : Distinct (keys s.tasks) → Distinct (keys t.tasks)
    Distinct-written d = rw (ap keys written ∙ (update-Touches id f same s).kept) d

    pub IsShared-le :
        ((amount : TaskResourceReservation → ℕ) (row : TaskRecord)
          → held amount (f row) ≤ held amount row)
        → IsShared tenant quota current s
        → IsShared tenant quota current t
    IsShared-le le c = record {
      unique = Distinct-written c.unique;
      covers = rw share_written (
          Covers-le quota current (share tenant s.tasks) (update_row id f (share tenant s.tasks))
            (λ amount. total-update_row_le amount id f (share tenant s.tasks) (le amount))
            c.covers);
    }

    pub IsShared-other :
        (row : TaskRecord)
        → find_row id s.tasks ≡ some row
        → belongs_to tenant row ≡ false
        → IsShared tenant quota current s
        → IsShared tenant quota current t
    IsShared-other row found other c = record {
      unique = Distinct-written c.unique;
      covers = rw share_written (
          Covers-le quota current (share tenant s.tasks) (update_row id f (share tenant s.tasks))
            (λ amount.
              let unchanged =
                total-update_row_none amount id f (share tenant s.tasks)
                  (share_other tenant id s.tasks row c.unique found other) in
              omega (arith, unchanged))
            c.covers);
    }

    pub IsShared-add :
        (r : TaskResourceReservation)
        → IsBelowMax quota
        → can_reserve (new quota) current r ≡ true
        → ((amount : TaskResourceReservation → ℕ)
            → Distinct (keys (share tenant s.tasks))
            → total amount (update_row id f (share tenant s.tasks))
              ≤ total amount (share tenant s.tasks) + amount r)
        → IsShared tenant quota current s
        → IsShared tenant quota (add_reservation current r) t
    IsShared-add r below fits le c = record {
      unique = Distinct-written c.unique;
      covers = rw share_written (
          Covers-add (new quota) current r (share tenant s.tasks)
            (update_row id f (share tenant s.tasks)) below fits
            (λ amount. le amount (Distinct-share tenant s.tasks c.unique)) c.covers);
    }

-- The total of a tenant after a reservation of a task of it, and of another task.
module _ (ledger : ResourceLedger) (tenant : String) (r : TaskResourceReservation)
    (tenants : Dict ResourceCapacity) where
  pub tenant_total_own :
      tenant_total ledger (some tenant) (add_to_tenant ledger (some tenant) r tenants)
      ≡ add_reservation (tenant_total ledger (some tenant) tenants) r
  unfolding tenant_total add_to_tenant
  tenant_total_own = rw (get-put tenants tenant tenant _, (eq_iff tenant tenant).1 refl) refl

  pub tenant_total_other :
      (name : Option String)
      → name ≢ some tenant
      → tenant_total ledger (some tenant) (add_to_tenant ledger name r tenants)
        ≡ tenant_total ledger (some tenant) tenants
  unfolding tenant_total add_to_tenant
  tenant_total_other none other = refl
  tenant_total_other (some name) other = elim (Bool-cases (str_eq name tenant)) [
    | inl e ↦ elim (other (ap some ((eq_iff name tenant).0 e))) [ ]
    | inr e ↦ rw (get-put tenants name tenant _, e) refl
  ]
