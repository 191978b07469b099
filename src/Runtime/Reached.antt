-- ===== src/Runtime/Reached.antt =====
-- The operations of src/runtime.rs as sequences of the transitions of the repository.
pub mod Tasks
pub mod Restarts
use execgo_runtime.Base.{
  ℕ, ◌+◌, String, ◌≡◌, refl, Bool, true, false, not, Bool-cases, Option, Option-cases, none, some,
  List, [], ◌∷◌, All, inl, inr, is_none, ◌&&◌, if◌then◌else◌,
}
use execgo_runtime.Errors.{AppResult, AppResult-cases, Checked, ok, err}
use execgo_runtime.Types.Status.{TaskStatus, is_terminal}
use execgo_runtime.Types.Limits.{TaskResourceReservation, from_limits}
use execgo_runtime.Ledger.{ResourceLedger, can_reserve, can_reserve_for_tenant}
use execgo_runtime.Repo.Rows.{TaskRecord, Store, Clock, has_active_reservation}
use execgo_runtime.Repo.Writes.{get_task}
use execgo_runtime.Repo.Finish.{delete_task}
use execgo_runtime.Repo.Queries.{
  list_accepted, list_active_reservations, list_non_terminal, list_gc_candidates,
}
use execgo_runtime.Repo.Effects.{Write, apply}
use execgo_runtime.Repo.Consistent.{Step, Reach, here, next}
use execgo_runtime.Runtime.Dispatch.{
  System, Budget, Spawned, Progress, launch_failure, cancelled_before, then_write, then_check,
  then_rest, after_spawn, start_shim, cancel_waiting, reserve_and_start, dispatch_task,
  dispatch_tasks, dispatch_once_sync, initial_budget, persist_latest_result, wanted, tenant_of,
  tenant_total,
}
use execgo_runtime.Runtime.Recovery.{
  Restart, lose_task, reconstruct, keep_task, recover_running, recover_accepted, recover_status,
  recover_task, recover_tasks, recover,
}
use execgo_runtime.Runtime.Gc.{Removal, is_gone, delete_row, gc_tasks, gc_pass}

-- An operation that has come from the tables `r` to where it stands by transitions.
pub record Reaches {A : Type 0} (r : Store) (p : Progress A) : Type 0 where
  pub steps : Reach r p.0

module _ (r : Store) where
  pub at : {A : Type 0} (s : Store) (result : AppResult A) → Reach r s → Reaches r (s, result)
  at s result h = record { steps = h }

  pub written :
      {A : Type 0} (m : AppResult Store) (s : Store) (rest : Store → Progress A)
      → Reach r s
      → ((t : Store) → m ≡ ok t → Reach r t)
      → ((t : Store) → Reach r t → Reaches r (rest t))
      → Reaches r (then_write m s rest)
  written (ok t) s rest h step more = more t (step t refl)
  written (err e) s rest h step more = at s (err e) h

  -- A write on a task, and what follows.
  pub write-Reaches :
      {A : Type 0} (w : Write) (clock : Clock) (id : String) (s : Store) (rest : Store → Progress A)
      → Reach r s
      → ((t : Store) → Reach r t → Reaches r (rest t))
      → Reaches r (then_write (apply w clock id s) s rest)
  write-Reaches w clock id s rest h more =
      written (apply w clock id s) s rest h (λ t e. next h (Step.write w clock id e)) more

  pub check-Reaches :
      {A : Type 0} (c : Checked) (s : Store) (a : A) → Reach r s → Reaches r (then_check c s a)
  check-Reaches (ok x) s a h = at s (ok a) h
  check-Reaches (err e) s a h = at s (err e) h

  pub rest-Reaches :
      {A B : Type 0} (p : Progress A) (rest : A → Store → Progress B)
      → Reaches r p
      → ((a : A) (t : Store) → Reach r t → Reaches r (rest a t))
      → Reaches r (then_rest p rest)
  rest-Reaches (t, ok a) rest h more = more a t h.steps
  rest-Reaches (t, err e) rest h more = at t (err e) h.steps

  -- The dispatcher.
  after_spawn-Reaches :
      (system : System) (id : String) (q : TaskResourceReservation) (budget : Budget) (s : Store)
      (spawned : Spawned)
      → Reach r s
      → Reaches r (after_spawn system id q budget s spawned)
  unfolding after_spawn apply
  after_spawn-Reaches system id q budget s (Spawned.spawned pid) h =
      write-Reaches (Write.dispatch pid) (λ k. system.clock id (2 + k)) id s (λ t. (t, ok budget)) h
        (λ t k. at t _ k)
  after_spawn-Reaches system id q budget s (Spawned.refused message) h =
      write-Reaches (Write.complete (launch_failure message (system.clock id 2)))
        (λ k. system.clock id (3 + k)) id s _ h
        (λ t k. check-Reaches (persist_latest_result system.write_result id t) t _ k)

  start_shim-Reaches :
      (system : System) (id : String) (q : TaskResourceReservation) (budget : Budget) (s : Store)
      → Reach r s
      → Reaches r (start_shim system id q budget s)
  unfolding start_shim
  start_shim-Reaches system id q budget s h = elim (Option-cases (system.exe_error id)) [
    | inl e ↦ rw (start_shim, e) (after_spawn-Reaches system id q budget s (system.spawn id) h)
    | inr (m, e) ↦ rw (start_shim, e) (at s _ h)
  ]

  cancel_waiting-Reaches :
      (system : System) (id : String) (budget : Budget) (s : Store)
      → Reach r s
      → Reaches r (cancel_waiting system id budget s)
  unfolding cancel_waiting apply
  cancel_waiting-Reaches system id budget s h =
      write-Reaches (Write.cancel cancelled_before) (system.clock id) id s _ h
        (λ t k. check-Reaches (persist_latest_result system.write_result id t) t budget k)

  reserve_and_start-Reaches :
      (system : System) (ledger : ResourceLedger) (task : TaskRecord) (budget : Budget) (s : Store)
      → Reach r s
      → Reaches r (reserve_and_start system ledger task budget s)
  unfolding reserve_and_start apply
  reserve_and_start-Reaches system ledger task budget s h =
      write-Reaches (Write.reserve (wanted task) "task resources reserved")
        (system.clock task.task_id) task.task_id s _ h
        (λ t k. start_shim-Reaches system task.task_id _ _ t k)

  pub if-Reaches :
      {A : Type 0} (b : Bool) (p q : Progress A)
      → Reaches r p
      → Reaches r q
      → Reaches r (if b then p else q)
  if-Reaches true p q h k = h
  if-Reaches false p q h k = k

  dispatch_task-Reaches :
      (system : System) (ledger : ResourceLedger) (task : TaskRecord) (budget : Budget) (s : Store)
      → Reach r s
      → Reaches r (dispatch_task system ledger task budget s)
  unfolding dispatch_task
  dispatch_task-Reaches system ledger task budget s h =
      if-Reaches task.kill_requested _ _ (cancel_waiting-Reaches system task.task_id budget s h) (
        if-Reaches (has_active_reservation task) (s, ok budget) _ (at s _ h)
          (if-Reaches _ (s, ok budget) _ (at s _ h)
            (if-Reaches _ (s, ok budget) _ (at s _ h)
              (reserve_and_start-Reaches system ledger task budget s h))))

  dispatch_tasks-Reaches :
      (system : System) (ledger : ResourceLedger) (tasks : List TaskRecord) (budget : Budget)
      (s : Store)
      → Reach r s
      → Reaches r (dispatch_tasks system ledger tasks budget s)
  unfolding dispatch_tasks
  dispatch_tasks-Reaches system ledger [] budget s h = at s _ h
  dispatch_tasks-Reaches system ledger (task ∷ rest) budget s h =
      rest-Reaches (dispatch_task system ledger task budget s) (dispatch_tasks system ledger rest)
        (dispatch_task-Reaches system ledger task budget s h)
        (λ budget t k. dispatch_tasks-Reaches system ledger rest budget t k)

module _ (r s : Store) (h : Reach r s) where
  pub dispatch_once_sync-Reaches :
      (system : System) (ledger : ResourceLedger) (max_queued_tasks : ℕ)
      → Reaches r (dispatch_once_sync system ledger max_queued_tasks s)
  unfolding dispatch_once_sync
  dispatch_once_sync-Reaches system ledger max_queued_tasks =
      dispatch_tasks-Reaches r system ledger (list_accepted max_queued_tasks s)
        (initial_budget ledger (list_active_reservations s)) s h
