-- ===== src/Runtime/Reached/Restarts.antt =====
-- The recovery and the garbage collection as sequences of the transitions of the repository.
use execgo_runtime.Base.{
  ℕ, ◌+◌, String, ◌≡◌, refl, Bool-cases, Option-cases, List, [], ◌∷◌, inl, inr,
}
use execgo_runtime.Errors.{ok}
use execgo_runtime.Types.Status.{TaskStatus}
use execgo_runtime.Types.Limits.{from_limits}
use execgo_runtime.Repo.Rows.{TaskRecord, Store, has_active_reservation}
use execgo_runtime.Repo.Finish.{delete_task}
use execgo_runtime.Repo.Queries.{list_non_terminal, list_gc_candidates}
use execgo_runtime.Repo.Effects.{Write, apply}
use execgo_runtime.Repo.Consistent.{Step, Reach, next}
use execgo_runtime.Runtime.Recovery.{
  Restart, lose_task, reconstruct, keep_task, recover_running, recover_accepted, recover_status,
  recover_task, recover_tasks, recover,
}
use execgo_runtime.Runtime.Gc.{Removal, is_gone, delete_row, gc_tasks, gc_pass}
use execgo_runtime.Runtime.Reached.{Reaches, at, written, write-Reaches, rest-Reaches, if-Reaches}

module _ (r : Store) where
  -- The recovery.
  lose_task-Reaches :
      (restart : Restart) (id : String) (s : Store) → Reach r s → Reaches r (lose_task restart id s)
  unfolding lose_task apply
  lose_task-Reaches restart id s h =
      write-Reaches r Write.lose (restart.clock id) id s _ h (λ t k. at r t _ k)

  reconstruct-Reach :
      (restart : Restart) (task : TaskRecord) (s t : Store)
      → Reach r s
      → reconstruct restart task s ≡ ok t
      → Reach r t
  unfolding reconstruct apply
  reconstruct-Reach restart task s t h e = elim (Bool-cases (has_active_reservation task)) [
    | inl held ↦ let e' = rw (held, reconstruct) at e in let same : s ≡ t = cc in rw (← same) h
    | inr free ↦ next h (
        Step.write
          (Write.reserve (from_limits task.limits)
            "resource reservation reconstructed during recovery")
          (restart.clock task.task_id) task.task_id (rw (free, reconstruct) at e))
  ]

  keep_task-Reaches :
      (restart : Restart) (task : TaskRecord) (s : Store)
      → Reach r s
      → Reaches r (keep_task restart task s)
  unfolding keep_task apply
  keep_task-Reaches restart task s h =
      written r (reconstruct restart task s) s _ h (λ t e. reconstruct-Reach restart task s t h e)
        (λ t k.
          write-Reaches r Write.recover (λ k. restart.clock task.task_id (2 + k)) task.task_id t _ k
            (λ u l. at r u _ l))

  recover_running-Reaches :
      (restart : Restart) (task : TaskRecord) (s : Store)
      → Reach r s
      → Reaches r (recover_running restart task s)
  unfolding recover_running
  recover_running-Reaches restart task s h = elim (Option-cases task.shim_pid) [
    | inl e ↦ rw (recover_running, e) (lose_task-Reaches restart task.task_id s h)
    | inr (pid, e) ↦
        rw (recover_running, e)
          (if-Reaches r (restart.process_exists pid) _ _ (keep_task-Reaches restart task s h)
            (lose_task-Reaches restart task.task_id s h))
  ]

  recover_status-Reaches :
      (restart : Restart) (status : TaskStatus) (task : TaskRecord) (s : Store)
      → Reach r s
      → Reaches r (recover_status restart status task s)
  unfolding recover_status recover_accepted apply
  recover_status-Reaches restart TaskStatus.accepted task s h =
      if-Reaches r (has_active_reservation task) _ (s, ok tt)
        (write-Reaches r (Write.release "orphan accepted-task reservation released during recovery")
          (restart.clock task.task_id) task.task_id s _ h (λ t k. at r t _ k))
        (at r s _ h)
  recover_status-Reaches restart TaskStatus.running task s h =
      recover_running-Reaches restart task s h
  recover_status-Reaches restart TaskStatus.success task s h = at r s _ h
  recover_status-Reaches restart TaskStatus.failed task s h = at r s _ h
  recover_status-Reaches restart TaskStatus.cancelled task s h = at r s _ h

  recover_tasks-Reaches :
      (restart : Restart) (tasks : List TaskRecord) (s : Store)
      → Reach r s
      → Reaches r (recover_tasks restart tasks s)
  unfolding recover_tasks recover_task
  recover_tasks-Reaches restart [] s h = at r s _ h
  recover_tasks-Reaches restart (task ∷ rest) s h =
      rest-Reaches r (recover_task restart task s) (λ x. recover_tasks restart rest)
        (recover_status-Reaches restart task.status task s h)
        (λ x t k. recover_tasks-Reaches restart rest t k)

  -- The garbage collection.
  gc_tasks-Reach :
      (remove : TaskRecord → Removal) (tasks : List TaskRecord) (s : Store)
      → Reach r s
      → Reach r (gc_tasks remove tasks s)
  unfolding gc_tasks delete_row delete_task
  gc_tasks-Reach remove [] s h = h
  gc_tasks-Reach remove (task ∷ rest) s h = elim (Bool-cases (is_gone (remove task))) [
    | inl e ↦
        rw (gc_tasks, e)
          (gc_tasks-Reach remove rest (delete_row task.task_id s)
            (next h (Step.delete task.task_id refl)))
    | inr e ↦ rw (gc_tasks, e) (gc_tasks-Reach remove rest s h)
  ]

module _ (r s : Store) (h : Reach r s) where
  pub recover-Reaches : (restart : Restart) → Reaches r (recover restart s)
  unfolding recover
  recover-Reaches restart = recover_tasks-Reaches r restart (list_non_terminal s) s h

  pub gc_pass-Reach :
      (remove : TaskRecord → Removal) (cutoff : ℕ) → Reach r (gc_pass remove cutoff s)
  unfolding gc_pass
  gc_pass-Reach remove cutoff = gc_tasks-Reach r remove (list_gc_candidates cutoff s) s h
