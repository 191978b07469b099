-- ===== src/Runtime/Cycle.antt =====
-- A cycle of the dispatcher keeps what the tasks hold within the capacity of the runtime.
use execgo_runtime.Base.{
  ℕ, ◌+◌, ◌≤◌, String, ◌≡◌, refl, sym, ap, ◌∙◌, true, Bool-cases, Option-cases, Option, some, List,
  [], ◌∷◌, arith, inl, inr,
}
use execgo_runtime.Errors.{AppResult, Checked, ok, err}
use execgo_runtime.Types.Status.{EventType}
use execgo_runtime.Repo.Totality.{has_row-update, find_row-present}
use execgo_runtime.Types.Limits.{TaskResourceReservation}
use execgo_runtime.Types.Capability.{ResourceCapacity}
use execgo_runtime.Ledger.{ResourceLedger, can_reserve, subtract_reservation}
use execgo_runtime.Ledger.Fit.{IsBelowMax}
use execgo_runtime.Repo.Rows.{
  has_row, EventData, insert_event_tx, TaskRecord, CompletionUpdate, Store, Clock, find_row,
  update_row, update,
}
use execgo_runtime.Repo.Writes.{dispatched, mark_dispatched, reserved, reserve_resources}
use execgo_runtime.Repo.Finish.{cancelled_row, cancel_accepted_task, completed_row, complete_task}
use execgo_runtime.Repo.Touch.{keys, update-Touches}
use execgo_runtime.Repo.Consistent.{Distinct}
use execgo_runtime.Repo.Lifecycle.{
  find_row-update_row_self, tasks-insert_event_tx, tasks-finish, tasks_complete,
}
use execgo_runtime.Runtime.Held.{
  held, held-cancelled, held-dispatched, total-update_row_le, total-reserved, total-completed,
}
use execgo_runtime.Runtime.Capacity.{Covers, Covers-le, Covers-add, Covers-subtract}
use execgo_runtime.Runtime.Dispatch.{
  after_spawn, Spawned, spawned, refused, System, Budget, Progress, then_write, then_check,
  persist_latest_result, start_shim, cancelled_before, wanted, cancel_waiting, reserve_and_start,
  dispatch_task, then_rest, dispatch_tasks,
}

-- The tasks are distinct, and the totals of the cycle cover what they hold.
pub record IsCovered (limit current : ResourceCapacity) (s : Store) : Type 0 where
  pub unique : Distinct (keys s.tasks)
  pub covers : Covers limit current s.tasks

-- The same of the end of a part of a cycle; after an error, of totals that the cycle held.
abbrev pub EndsCovered : ResourceCapacity → Progress Budget → Type 0
EndsCovered limit (t, ok budget) = IsCovered limit budget.reserved t
EndsCovered limit (t, err e) = (current : ResourceCapacity) × IsCovered limit current t

module _ (limit : ResourceCapacity) where
  then_write-EndsCovered :
      (write : AppResult Store) (s : Store) (rest : Store → Progress Budget)
      → (current : ResourceCapacity) → IsCovered limit current s
      → ((t : Store) → write ≡ ok t → EndsCovered limit (rest t))
      → EndsCovered limit (then_write write s rest)
  then_write-EndsCovered (ok t) s rest current c h = h t refl
  then_write-EndsCovered (err e) s rest current c h = (current, c)

  then_check-EndsCovered :
      (check : Checked) (s : Store) (budget : Budget)
      → IsCovered limit budget.reserved s
      → EndsCovered limit (then_check check s budget)
  then_check-EndsCovered (ok x) s budget c = c
  then_check-EndsCovered (err e) s budget c = (budget.reserved, c)

  then_rest-EndsCovered :
      (part : Progress Budget) (rest : Budget → Store → Progress Budget)
      → EndsCovered limit part
      → ((budget : Budget) (s : Store)
          → IsCovered limit budget.reserved s
          → EndsCovered limit (rest budget s))
      → EndsCovered limit (then_rest part rest)
  then_rest-EndsCovered (s, ok budget) rest c h = h budget s c
  then_rest-EndsCovered (s, err e) rest c h = c

  -- The tables after a write on the rows of one task.
  module _ (id : String) (f : TaskRecord → TaskRecord)
      (same : (r : TaskRecord) → (f r).task_id ≡ r.task_id) (s t : Store)
      (written : t.tasks ≡ update_row id f s.tasks) where
    pub unique_after : Distinct (keys s.tasks) → Distinct (keys t.tasks)
    unique_after d = rw (ap keys written ∙ (update-Touches id f same s).kept) d

    IsCovered-le :
        (current : ResourceCapacity)
        → ((amount : TaskResourceReservation → ℕ) (row : TaskRecord)
            → held amount (f row) ≤ held amount row)
        → IsCovered limit current s
        → IsCovered limit current t
    IsCovered-le current le c = record {
      unique = unique_after c.unique;
      covers = rw written (
          Covers-le limit current s.tasks (update_row id f s.tasks)
            (λ amount. total-update_row_le amount id f s.tasks (le amount)) c.covers);
    }

  cancel_waiting-EndsCovered :
      (system : System) (id : String) (budget : Budget) (s : Store)
      → IsCovered limit budget.reserved s
      → EndsCovered limit (cancel_waiting system id budget s)
  unfolding cancel_waiting cancel_accepted_task
  cancel_waiting-EndsCovered system id budget s c =
      then_write-EndsCovered (cancel_accepted_task (system.clock id) id cancelled_before s) s _
        budget.reserved c
        λ t h. then_check-EndsCovered (persist_latest_result system.write_result id t) t budget (
          IsCovered-le id (cancelled_row id cancelled_before (system.clock id 0))
            (λ r. ground arith) s t
            (tasks-finish (system.clock id) id s t
              (cancelled_row id cancelled_before (system.clock id 0)) _ _ _ _ _ h)
            budget.reserved
            (λ amount row. held-cancelled amount id cancelled_before (system.clock id 0) row) c)

  -- The start of a shim, for a task that holds the reservation `r`.
  module _ (system : System) (id : String) (r : TaskResourceReservation) (budget : Budget)
      (s : Store) (row : TaskRecord) (found : find_row id s.tasks ≡ some row)
      (holds : (amount : TaskResourceReservation → ℕ) → held amount row ≡ amount r) where
    launch_failed-IsCovered :
        (u : CompletionUpdate) (clock : Clock) (t : Store)
        → complete_task clock id u s ≡ ok t
        → IsCovered limit budget.reserved s
        → IsCovered limit (subtract_reservation budget.reserved r) t
    launch_failed-IsCovered u clock t h c =
        let written = tasks_complete clock id s t u h in
        record {
          unique = unique_after id (completed_row u) (λ x. refl) s t written c.unique;
          covers = rw written (
              Covers-subtract limit budget.reserved s.tasks
                (update_row id (completed_row u) s.tasks) r
                (λ amount.
                  let freed = total-completed amount id u s.tasks row c.unique found in
                  rw (holds amount) at freed)
                c.covers);
        }

    after_spawn-EndsCovered :
        (answer : Spawned)
        → IsCovered limit budget.reserved s
        → EndsCovered limit (after_spawn system id r budget s answer)
    unfolding after_spawn mark_dispatched
    after_spawn-EndsCovered (spawned pid) c =
        IsCovered-le id (dispatched pid (system.clock id 2)) (λ x. ground arith) s _ refl
          budget.reserved (λ amount x. held-dispatched amount pid (system.clock id 2) x) c
    after_spawn-EndsCovered (refused message) c =
        then_write-EndsCovered (complete_task (λ k. system.clock id (3 + k)) id _ s) s _
          budget.reserved c
          λ t h.
            then_check-EndsCovered (persist_latest_result system.write_result id t) t _
              (launch_failed-IsCovered _ (λ k. system.clock id (3 + k)) t h c)

    start_shim-EndsCovered :
        IsCovered limit budget.reserved s → EndsCovered limit (start_shim system id r budget s)
    unfolding start_shim
    start_shim-EndsCovered c = elim (Option-cases (system.exe_error id)) [
      | inr (message, e) ↦ rw (e, start_shim) (budget.reserved, c)
      | inl e ↦ rw (e, start_shim) (after_spawn-EndsCovered (system.spawn id) c)
    ]

pub insert_event_tx-present :
    (id : String) (event_type : EventType) (time : ℕ) (message : Option String)
    (payload : Option EventData) (s t : Store)
    → insert_event_tx id event_type time message payload s ≡ ok t
    → has_row id s.tasks ≡ true
unfolding insert_event_tx
insert_event_tx-present id event_type time message payload s t h = ground arith

module _ (system : System) (ledger : ResourceLedger) (below : IsBelowMax ledger.capacity) where
  module _ (task : TaskRecord) (budget : Budget) (s : Store)
      (c : IsCovered ledger.capacity budget.reserved s) where
    abbrev r : TaskResourceReservation
    r = wanted task

    abbrev f : TaskRecord → TaskRecord
    f = reserved r (system.clock task.task_id 0)

    -- The row of the task after its reservation holds the reservation.
    row_reserved :
        (t : Store)
        → reserve_resources (system.clock task.task_id) task.task_id r "task resources reserved" s
          ≡ ok t
        → (t.tasks ≡ update_row task.task_id f s.tasks)
          × ((row : TaskRecord) × (find_row task.task_id t.tasks ≡ some row)
              × ((amount : TaskResourceReservation → ℕ) → held amount row ≡ amount r))
    unfolding reserve_resources
    row_reserved t h =
        let written = tasks-insert_event_tx task.task_id _ _ _ _ (update task.task_id f s) t h in
        let present = insert_event_tx-present task.task_id _ _ _ _ (update task.task_id f s) t h in
        let (row, found) =
          find_row-present task.task_id s.tasks
            (sym (has_row-update task.task_id f (λ x. refl) task.task_id s) ∙ present) in
        let moved = find_row-update_row_self task.task_id f (λ x. refl) s.tasks in
        (written, (f row, ap (find_row task.task_id) written ∙ rw found at moved, λ amount. refl))

    reserve_and_start-EndsCovered :
        can_reserve ledger budget.reserved r ≡ true
        → EndsCovered ledger.capacity (reserve_and_start system ledger task budget s)
    unfolding reserve_and_start
    reserve_and_start-EndsCovered fits =
        then_write-EndsCovered ledger.capacity
          (reserve_resources (system.clock task.task_id) task.task_id r "task resources reserved" s)
          s _ budget.reserved c
          λ t h.
            let (written, (row, found, holds)) = row_reserved t h in
            start_shim-EndsCovered ledger.capacity system task.task_id r _ t row found holds
              (record {
                unique =
                    unique_after ledger.capacity task.task_id f (λ x. refl) s t written c.unique;
                covers = rw written (
                    Covers-add ledger budget.reserved r s.tasks (update_row task.task_id f s.tasks)
                      below fits
                      (λ amount.
                        total-reserved amount task.task_id r (system.clock task.task_id 0) s.tasks
                          c.unique)
                      c.covers);
              })

    dispatch_task-EndsCovered :
        EndsCovered ledger.capacity (dispatch_task system ledger task budget s)
    unfolding dispatch_task
    dispatch_task-EndsCovered = elim (Bool-cases task.kill_requested) [
      | inl e ↦
          rw (e, dispatch_task)
            (cancel_waiting-EndsCovered ledger.capacity system task.task_id budget s c)
      | inr e ↦ elim (Bool-cases (can_reserve ledger budget.reserved r)) [
        | inl fits ↦ let started = reserve_and_start-EndsCovered fits in ground (arith, c, started)
        | inr full ↦ ground (arith, c)
      ]
    ]

  -- From totals that cover what the tasks hold, the loop over the accepted tasks ends, with or
  -- without an error, in tables whose tasks hold no more than the capacity.
  pub dispatch_tasks-EndsCovered :
      (tasks : List TaskRecord) (budget : Budget) (s : Store)
      → IsCovered ledger.capacity budget.reserved s
      → EndsCovered ledger.capacity (dispatch_tasks system ledger tasks budget s)
  unfolding dispatch_tasks
  dispatch_tasks-EndsCovered [] budget s c = c
  dispatch_tasks-EndsCovered (task ∷ rest) budget s c =
      then_rest-EndsCovered ledger.capacity (dispatch_task system ledger task budget s)
        (dispatch_tasks system ledger rest) (dispatch_task-EndsCovered task budget s c)
        λ next t d. dispatch_tasks-EndsCovered rest next t d
