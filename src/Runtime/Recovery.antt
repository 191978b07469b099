-- ===== src/Runtime/Recovery.antt =====
-- src/runtime.rs: RuntimeService::recover, which a service runs when it starts.
use execgo_runtime.Base.{ℕ, ◌+◌, Bool, String, none, some, List, [], ◌∷◌, if◌then◌else◌}
use execgo_runtime.Errors.{AppResult, Checked, ok}
use execgo_runtime.Types.Status.{TaskStatus}
use execgo_runtime.Types.Limits.{from_limits}
use execgo_runtime.Repo.Rows.{TaskRecord, Store, Clock, has_active_reservation}
use execgo_runtime.Repo.Writes.{reserve_resources, release_resources, mark_recovered}
use execgo_runtime.Repo.Finish.{mark_recovery_lost}
use execgo_runtime.Repo.Queries.{list_non_terminal}
use execgo_runtime.Runtime.Dispatch.{Progress, then_write, then_rest, persist_latest_result}

-- What the recovery asks of the system: the clock, whether a process is alive, and a result file.
pub record Restart : Type 0 where
  pub clock : String → Clock
  pub process_exists : ℕ → Bool
  pub write_result : TaskRecord → Checked

-- A running task whose shim is gone.
unfoldable pub lose_task : Restart → String → Store → Progress (Unit {0})
lose_task restart id s =
    then_write (mark_recovery_lost (restart.clock id) id s) s
      λ t. (t, persist_latest_result restart.write_result id t)

-- The reservation of a running task that has none.
unfoldable pub reconstruct : Restart → TaskRecord → Store → AppResult Store
reconstruct restart task s =
    if has_active_reservation task
    then ok s
    else reserve_resources (restart.clock task.task_id) task.task_id (from_limits task.limits)
        "resource reservation reconstructed during recovery" s

-- A running task whose shim is alive.
unfoldable pub keep_task : Restart → TaskRecord → Store → Progress (Unit {0})
unfolding reconstruct
keep_task restart task s = then_write (reconstruct restart task s) s λ t.
    then_write (mark_recovered (λ k. restart.clock task.task_id (2 + k)) task.task_id t) t
      λ u. (u, ok tt)

unfoldable pub recover_running : Restart → TaskRecord → Store → Progress (Unit {0})
unfolding keep_task lose_task
recover_running restart task s = elim task.shim_pid [
  | none ↦ lose_task restart task.task_id s
  | some pid ↦
      if restart.process_exists pid
      then keep_task restart task s
      else lose_task restart task.task_id s
]

unfoldable pub recover_accepted : Restart → TaskRecord → Store → Progress (Unit {0})
recover_accepted restart task s =
    if has_active_reservation task
    then then_write
        (release_resources (restart.clock task.task_id) task.task_id
          "orphan accepted-task reservation released during recovery" s)
        s (λ t. (t, ok tt))
    else (s, ok tt)

-- The recovery of a task by its status.
unfoldable pub recover_status : Restart → TaskStatus → TaskRecord → Store → Progress (Unit {0})
unfolding recover_running recover_accepted
recover_status restart TaskStatus.accepted task s = recover_accepted restart task s
recover_status restart TaskStatus.running task s = recover_running restart task s
recover_status restart TaskStatus.success task s = (s, ok tt)
recover_status restart TaskStatus.failed task s = (s, ok tt)
recover_status restart TaskStatus.cancelled task s = (s, ok tt)

-- The body of the loop over the tasks that have not ended.
unfoldable pub recover_task : Restart → TaskRecord → Store → Progress (Unit {0})
unfolding recover_status
recover_task restart task s = recover_status restart task.status task s

unfoldable pub recover_tasks : Restart → List TaskRecord → Store → Progress (Unit {0})
unfolding recover_task
recover_tasks restart [] s = (s, ok tt)
recover_tasks restart (task ∷ rest) s =
    then_rest (recover_task restart task s) λ x. recover_tasks restart rest

-- `RuntimeService::recover`
unfoldable pub recover : Restart → Store → Progress (Unit {0})
unfolding recover_tasks
recover restart s = recover_tasks restart (list_non_terminal s) s
