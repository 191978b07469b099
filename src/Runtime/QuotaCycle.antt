-- ===== src/Runtime/QuotaCycle.antt =====
-- A cycle of the dispatcher keeps what the tasks of a tenant hold within its quota.
use execgo_runtime.Base.{
  ◌+◌, String, ◌≡◌, ◌≢◌, refl, sym, ap, ◌∙◌, inl, inr, true, false, Bool-cases, Option-cases,
  Option, none, some, List, All, arith, eq_iff,
}
use execgo_runtime.Errors.{AppResult, Checked, ok, err}
use execgo_runtime.Types.Limits.{TaskResourceReservation}
use execgo_runtime.Types.Capability.{ResourceCapacity}
use execgo_runtime.Ledger.{ResourceLedger, tenant_quota, can_reserve, can_reserve_for_tenant}
use execgo_runtime.Ledger.Fit.{IsBelowMax, can_reserve_for_tenant-eq}
use execgo_runtime.Repo.Rows.{
  TaskRecord, Store, Clock, find_row, update_row, update, has_active_reservation,
}
use execgo_runtime.Repo.Writes.{reserved, dispatched, reserve_resources, mark_dispatched}
use execgo_runtime.Repo.Finish.{cancelled_row, cancel_accepted_task, completed_row, complete_task}
use execgo_runtime.Repo.Totality.{find_row-present, has_row-update}
use execgo_runtime.Repo.Lifecycle.{tasks-insert_event_tx, tasks-finish, tasks_complete}
use execgo_runtime.Runtime.Held.{held-cancelled, held-dispatched, held-completed, total-reserved}
use execgo_runtime.Runtime.Cycle.{insert_event_tx-present}
use execgo_runtime.Runtime.Dispatch.{
  System, Spawned, spawned, refused, Budget, Progress, then_write, then_check,
  persist_latest_result, tenant_of, tenant_total, add_to_tenant, cancelled_before, wanted,
  after_spawn, start_shim, cancel_waiting, reserve_and_start, dispatch_task,
}
use execgo_runtime.Runtime.Shares.{is_tenant, share}
use execgo_runtime.Runtime.Quota.{
  IsShared, SameTenants, written-SameTenants, IsShared-le, IsShared-other, IsShared-add,
  tenant_total_own, tenant_total_other,
}

-- The tasks in the list are of the tenant that the table has for them.
abbrev pub Matches : Store → List TaskRecord → Type 0
Matches s = All λ (task : TaskRecord).
    (row : TaskRecord) → find_row task.task_id s.tasks ≡ some row → tenant_of row ≡ tenant_of task

module _ (ledger : ResourceLedger) (tenant : String) (quota : ResourceCapacity) where
  -- What the budget has for the tenant.
  abbrev pub tenant_share : Budget → ResourceCapacity
  tenant_share budget = tenant_total ledger (some tenant) budget.tenants

  -- At the end of a part of a cycle that starts from `s`, the total of the tenant covers what its
  -- tasks hold; after an error, a total that the cycle held does.
  abbrev pub EndsShared : Store → Progress Budget → Type 0
  EndsShared s (t, ok budget) = IsShared tenant quota (tenant_share budget) t × SameTenants s t
  EndsShared s (t, err e) = (current : ResourceCapacity) × IsShared tenant quota current t

  then_write-EndsShared :
      (s : Store) (write : AppResult Store) (u : Store) (rest : Store → Progress Budget)
      → (current : ResourceCapacity) → IsShared tenant quota current u
      → ((t : Store) → write ≡ ok t → EndsShared s (rest t))
      → EndsShared s (then_write write u rest)
  then_write-EndsShared s (ok t) u rest current c h = h t refl
  then_write-EndsShared s (err e) u rest current c h = (current, c)

  then_check-EndsShared :
      (s : Store) (check : Checked) (t : Store) (budget : Budget)
      → IsShared tenant quota (tenant_share budget) t
      → SameTenants s t
      → EndsShared s (then_check check t budget)
  then_check-EndsShared s (ok x) t budget c same = (c, same)
  then_check-EndsShared s (err e) t budget c same = (tenant_share budget, c)

  cancel_waiting-EndsShared :
      (system : System) (id : String) (budget : Budget) (s : Store)
      → IsShared tenant quota (tenant_share budget) s
      → EndsShared s (cancel_waiting system id budget s)
  unfolding cancel_waiting cancel_accepted_task
  cancel_waiting-EndsShared system id budget s c =
      let f = cancelled_row id cancelled_before (system.clock id 0) in
      then_write-EndsShared s (cancel_accepted_task (system.clock id) id cancelled_before s) s _
        (tenant_share budget) c
        λ t h.
          let written = tasks-finish (system.clock id) id s t f _ _ _ _ _ h in
          then_check-EndsShared s (persist_latest_result system.write_result id t) t budget
            (IsShared-le id f (λ r. ground arith) (λ r. ground arith) s t written tenant quota
              (tenant_share budget)
              (λ amount row. held-cancelled amount id cancelled_before (system.clock id 0) row) c)
            (written-SameTenants id f (λ r. ground arith) (λ r. ground arith) s t written)

  module _ (system : System) (id : String) (r : TaskResourceReservation) (budget : Budget)
      (s u : Store) (kept : SameTenants s u)
      (c : IsShared tenant quota (tenant_share budget) u) where
    after_spawn-EndsShared :
        (answer : Spawned) → EndsShared s (after_spawn system id r budget u answer)
    unfolding after_spawn mark_dispatched
    after_spawn-EndsShared (spawned pid) =
        let f = dispatched pid (system.clock id 2) in
        (
          IsShared-le id f (λ x. ground arith) (λ x. ground arith) u (update id f u) refl tenant
              quota (tenant_share budget)
              (λ amount x. held-dispatched amount pid (system.clock id 2) x) c,
          λ j.
              written-SameTenants id f (λ x. ground arith) (λ x. ground arith) u (update id f u)
                refl j
              ∙ kept j,
        )
    after_spawn-EndsShared (refused message) =
        then_write-EndsShared s (complete_task (λ k. system.clock id (3 + k)) id _ u) u _
          (tenant_share budget) c
          λ t h.
            let written = tasks_complete (λ k. system.clock id (3 + k)) id u t _ h in
            then_check-EndsShared s (persist_latest_result system.write_result id t) t _
              (IsShared-le id (completed_row _) (λ x. refl) (λ x. refl) u t written tenant quota
                (tenant_share budget) (λ amount x. omega (arith, held-completed amount _ x)) c)
              (λ j.
                written-SameTenants id (completed_row _) (λ x. refl) (λ x. refl) u t written j
                ∙ kept j)

    start_shim-EndsShared : EndsShared s (start_shim system id r budget u)
    unfolding start_shim
    start_shim-EndsShared = elim (Option-cases (system.exe_error id)) [
      | inr (message, e) ↦ rw (e, start_shim) (tenant_share budget, c)
      | inl e ↦ rw (e, start_shim) (after_spawn-EndsShared (system.spawn id))
    ]

-- The table before and after the reservation of a task.
reserve_written :
    (clock : Clock) (id message : String) (r : TaskResourceReservation) (s t : Store)
    → reserve_resources clock id r message s ≡ ok t
    → (t.tasks ≡ update_row id (reserved r (clock 0)) s.tasks)
      × ((row : TaskRecord) × (find_row id s.tasks ≡ some row))
unfolding reserve_resources
reserve_written clock id message r s t h =
    let f = reserved r (clock 0) in
    (
      tasks-insert_event_tx id _ _ _ _ (update id f s) t h,
      find_row-present id s.tasks (
          sym (has_row-update id f (λ x. refl) id s)
          ∙ insert_event_tx-present id _ _ _ _ (update id f s) t h),
    )

pub is_tenant-some :
    (tenant : String) (name : Option String) → is_tenant tenant name ≡ true → name ≡ some tenant
is_tenant-some tenant none h = cc
is_tenant-some tenant (some name) h = ap some ((eq_iff name tenant).0 h)

pub is_tenant-other :
    (tenant : String) (name : Option String) → is_tenant tenant name ≡ false → name ≢ some tenant
is_tenant-other tenant name h p =
    let own : is_tenant tenant name ≡ true =
      ap (is_tenant tenant) p ∙ (eq_iff tenant tenant).1 refl in
    cc

module _ (ledger : ResourceLedger) (tenant : String) (quota : ResourceCapacity)
    (limited : tenant_quota ledger tenant ≡ some quota) (below : IsBelowMax quota)
    (system : System) where
  module _ (task : TaskRecord) (budget : Budget) (s : Store)
      (c : IsShared tenant quota (tenant_share ledger tenant quota budget) s)
      (current : (row : TaskRecord)
        → find_row task.task_id s.tasks ≡ some row
        → tenant_of row ≡ tenant_of task) where
    abbrev r : TaskResourceReservation
    r = wanted task

    -- The budget with the reservation covers what the tenant holds after it.
    reserve-IsShared :
        (t : Store)
        → can_reserve_for_tenant ledger
            (tenant_of task)
            (tenant_total ledger (tenant_of task) budget.tenants)
            r
          ≡ true
        → t.tasks ≡ update_row task.task_id (reserved r (system.clock task.task_id 0)) s.tasks
        → (row : TaskRecord) → find_row task.task_id s.tasks ≡ some row
        → IsShared tenant quota
            (tenant_total ledger
              (some tenant)
              (add_to_tenant ledger (tenant_of task) r budget.tenants))
            t
    reserve-IsShared t fits written row found =
        let f = reserved r (system.clock task.task_id 0) in
        elim (Bool-cases (is_tenant tenant (tenant_of task))) [
          | inl own ↦
              let name = is_tenant-some tenant (tenant_of task) own in
              let fits' = rw name at fits in
              rw (name, tenant_total_own ledger tenant r budget.tenants)
                (IsShared-add task.task_id f (λ x. refl) (λ x. refl) s t written tenant quota
                  (tenant_total ledger (some tenant) budget.tenants) r below
                  (sym (can_reserve_for_tenant-eq ledger tenant quota _ r limited) ∙ fits')
                  (λ amount d.
                    total-reserved amount task.task_id r (system.clock task.task_id 0)
                      (share tenant s.tasks) d)
                  c)
          | inr other ↦
              rw
                (tenant_total_other ledger tenant r budget.tenants (tenant_of task)
                  (is_tenant-other tenant (tenant_of task) other))
                (IsShared-other task.task_id f (λ x. refl) (λ x. refl) s t written tenant quota
                  (tenant_total ledger (some tenant) budget.tenants) row found
                  (ap (is_tenant tenant) (current row found) ∙ other) c)
        ]

    reserve_and_start-EndsShared :
        can_reserve_for_tenant ledger
            (tenant_of task)
            (tenant_total ledger (tenant_of task) budget.tenants)
            r
          ≡ true
        → EndsShared ledger tenant quota s (reserve_and_start system ledger task budget s)
    unfolding reserve_and_start
    reserve_and_start-EndsShared fits =
        let f = reserved r (system.clock task.task_id 0) in
        then_write-EndsShared ledger tenant quota s
          (reserve_resources (system.clock task.task_id) task.task_id r "task resources reserved" s)
          s _ (tenant_share ledger tenant quota budget) c
          λ t h.
            let (written, (row, found)) =
              reserve_written (system.clock task.task_id) task.task_id "task resources reserved" r s
                t h in
            start_shim-EndsShared ledger tenant quota system task.task_id r _ s t
              (written-SameTenants task.task_id f (λ x. refl) (λ x. refl) s t written)
              (reserve-IsShared t fits written row found)

    pub dispatch_task-EndsShared :
        EndsShared ledger tenant quota s (dispatch_task system ledger task budget s)
    unfolding dispatch_task
    dispatch_task-EndsShared =
        let skipped : SameTenants s s = λ j. refl in
        elim (Bool-cases task.kill_requested) [
          | inl e ↦
              rw (e, dispatch_task)
                (cancel_waiting-EndsShared ledger tenant quota system task.task_id budget s c)
          | inr e ↦ elim (Bool-cases (has_active_reservation task)) [
            | inl a ↦ rw (e, dispatch_task, a) (c, skipped)
            | inr a ↦ elim (Bool-cases (can_reserve ledger budget.reserved r)) [
              | inr k ↦ rw (e, dispatch_task, a, k) (c, skipped)
              | inl k ↦
                  elim (Bool-cases (
                    can_reserve_for_tenant ledger (tenant_of task)
                      (tenant_total ledger (tenant_of task) budget.tenants) r)) [
                        | inr q ↦ rw (e, dispatch_task, a, k, q) (c, skipped)
                        | inl q ↦ rw (e, dispatch_task, a, k, q) (reserve_and_start-EndsShared q)
                      ]
            ]
          ]
        ]
