-- ===== src/Runtime/Returns.antt =====
-- The shim of a task returns, and ends the task, when the system does its part.
use execgo_runtime.Base.{
  ◌+◌, ◌-◌, String, ◌≡◌, refl, inl, inr, Bool, true, Bool-cases, All, leb, i64_max, is_none, ◌&&◌,
  is_some,
}
use execgo_runtime.Errors.{ok, err, AppResult-cases}
use execgo_runtime.Types.Status.{TaskStatus, is_terminal}
use execgo_runtime.Types.Plan.{ExecutionPlan}
use execgo_runtime.Repo.Rows.{TaskRecord, CompletionUpdate, Store, has_row}
use execgo_runtime.Repo.Finish.{fits_i64}
use execgo_runtime.Repo.Effects.{Write, apply}
use execgo_runtime.Repo.Totality.{get_task_total}
use execgo_runtime.Runtime.Dispatch.{Progress, then_write, persist_latest_result}
use execgo_runtime.Runtime.Classify.{WaitUsage, classify_completion}
use execgo_runtime.Runtime.Watch.{
  Limit, Turn, Watch, fresh_watch, poll_turns, was_cancelled, finish, supervise_wait,
}
use execgo_runtime.Runtime.Shim.{
  SpawnedProcess, Host, plan_of, ended_before, launch_error, cancelled_before_launch, end_task,
  watch_task, run_spawned, launch_task, run_task, run_internal_shim,
}
use execgo_runtime.Runtime.Ending.{
  HasEnded, EndsTask, find_row-task_id, get_task-find_row, run_internal_shim-EndsTask,
}
use execgo_runtime.Runtime.Turns.{
  KeepsTask, Returns, then_rest-Returns, InTable, write_present, is_cancel_requested_total,
  poll_turns-Returns,
}

-- The system does its part: the service keeps the task in the table, the wait for the process
-- succeeds, its duration fits in 63 bits, and the result file can be written.
pub record IsCooperative (host : Host) (id : String) : Type 0 where
  pub turns : All (λ (turn : Turn). KeepsTask id turn.before) host.turns
  pub exit : KeepsTask id host.exit.before
  pub usage : WaitUsage
  pub waited : host.exit.usage ≡ ok usage
  pub duration : leb (host.exit.now 0 - host.clock 3) i64_max ≡ true
  pub written : (task : TaskRecord) → host.write_result task ≡ ok tt

module _ (id : String) where
  -- A completion whose duration fits, of a task in the table.
  abbrev CanEnd : CompletionUpdate → Store → Type 0
  CanEnd u t = (fits_i64 u.duration_ms ≡ true) × (has_row id t.tasks ≡ true)

  was_cancelled_total :
      (w : Watch) (s : Store)
      → has_row id s.tasks ≡ true
      → (b : Bool) × (was_cancelled id w s ≡ ok b)
  unfolding was_cancelled
  was_cancelled_total w s present = elim (Bool-cases (is_some w.cancel_started)) [
    | inl e ↦ (true, rw (e, was_cancelled) refl)
    | inr e ↦
        let (b, read) = is_cancel_requested_total id s present in (b, rw (e, was_cancelled) read)
  ]

  module _ (host : Host) (c : IsCooperative host id) where
    finish-Returns :
        (limit : Limit) (w : Watch) (s : Store)
        → limit.start ≡ host.clock 3
        → has_row id s.tasks ≡ true
        → Returns CanEnd (s, finish limit id host.exit w s)
    unfolding finish classify_completion
    finish-Returns limit w s start present =
        let (b, read) = was_cancelled_total w s present in
        rw (c.waited, finish, read, start) (c.duration, present)

    end_task-Returns :
        (u : CompletionUpdate) (s : Store)
        → CanEnd u s
        → Returns (InTable id) (end_task host id u s)
    unfolding end_task apply persist_latest_result
    end_task-Returns u s p =
        let (t, done, kept) =
          write_present id (Write.complete u) (λ k. host.clock (10 + k)) s p.1 p.0 in
        let (task, read) = get_task_total id t kept in
        rw (end_task, done, read, c.written task) kept

    watch_task-Returns :
        (plan : ExecutionPlan) (started : TaskRecord) (s : Store)
        → started.task_id ≡ id
        → has_row id s.tasks ≡ true
        → Returns (InTable id) (watch_task host plan started s)
    unfolding watch_task supervise_wait
    watch_task-Returns plan started s named present =
        let limit : Limit = record {
          start = host.clock 3;
          wall_time_ms = plan.resource_enforcement.wall_time_ms;
          grace_ms = host.termination_grace_ms;
        } in
        rw (watch_task, named)
          (then_rest-Returns CanEnd (InTable id) (supervise_wait limit id host.turns host.exit s)
            (end_task host id)
            (then_rest-Returns (InTable id) CanEnd (poll_turns limit id host.turns fresh_watch s)
              (λ w t. (host.exit.before t, finish limit id host.exit w (host.exit.before t)))
              (poll_turns-Returns id limit host.turns fresh_watch s c.turns present)
              λ w t here. finish-Returns limit w (host.exit.before t) refl (c.exit t here))
            end_task-Returns)

    run_spawned-Returns :
        (task : TaskRecord) (process : SpawnedProcess) (s : Store)
        → task.task_id ≡ id
        → has_row id s.tasks ≡ true
        → Returns (InTable id) (run_spawned host task process s)
    unfolding run_spawned apply
    run_spawned-Returns task process s named present =
        let (t, done, kept) =
          write_present id (Write.start process.pid process.pgid process.script_path)
            (λ k. host.clock (1 + k)) s present refl in
        let (started, read) = get_task_total id t kept in
        rw (run_spawned, named, done, then_write, read)
          (watch_task-Returns (plan_of task) started t
            (find_row-task_id id t.tasks started (get_task-find_row id t started read)) kept)

    launch_task-Returns :
        (task : TaskRecord) (s : Store)
        → task.task_id ≡ id
        → has_row id s.tasks ≡ true
        → Returns (InTable id) (launch_task host task s)
    unfolding launch_task
    launch_task-Returns task s named present =
        elim (AppResult-cases (host.spawn_task_process task (plan_of task))) [
          | inl (process, spawned) ↦
              rw (spawned, launch_task) (run_spawned-Returns task process s named present)
          | inr (e, refused) ↦
              rw (refused, launch_task, named)
                (end_task-Returns (ended_before TaskStatus.failed (launch_error e) (host.clock 0)) s
                  (refl, present))
        ]

    run_task-Returns :
        (task : TaskRecord) (s : Store)
        → task.task_id ≡ id
        → has_row id s.tasks ≡ true
        → Returns (InTable id) (run_task host task s)
    unfolding run_task
    run_task-Returns task s named present = elim (Bool-cases (is_terminal task.status)) [
      | inl e ↦ rw (e, run_task) present
      | inr e ↦ elim (Bool-cases (task.kill_requested && is_none task.pid)) [
        | inl k ↦
            rw (e, run_task, k, named)
              (end_task-Returns
                (ended_before TaskStatus.cancelled cancelled_before_launch (host.clock 0)) s
                (refl, present))
        | inr k ↦ rw (e, run_task, k) (launch_task-Returns task s named present)
      ]
    ]

    run_internal_shim-Returns :
        (s : Store) → has_row id s.tasks ≡ true → Returns (InTable id) (run_internal_shim host id s)
    unfolding run_internal_shim
    run_internal_shim-Returns s present =
        let (task, read) = get_task_total id s present in
        rw (read, run_internal_shim)
          (run_task-Returns task s
            (find_row-task_id id s.tasks task (get_task-find_row id s task read)) present)

Returns-ok :
    (id : String) (s : Store) (P : Unit {0} → Store → Type 0) (p : Progress (Unit {0}))
    → Returns P p
    → EndsTask id s p
    → (t : Store) × (p ≡ (t, ok tt)) × HasEnded id s t
Returns-ok id s P (t, ok x) r e = (t, refl, e)
Returns-ok id s P (t, err e') r e = elim r [ ]

-- The shim of a task that is in the table returns without an error, and leaves the task ended, when
-- the service keeps the task in the table while the shim runs, the wait for the process succeeds
-- after a duration that fits in 63 bits, and the result file can be written; also when the launch
-- fails, a limit is over, or a kill is requested.
pub run_internal_shim_returns :
    (host : Host) (id : String) (s : Store)
    → IsCooperative host id
    → has_row id s.tasks ≡ true
    → (t : Store) × (run_internal_shim host id s ≡ (t, ok tt)) × HasEnded id s t
run_internal_shim_returns host id s c present =
    Returns-ok id s (λ x t. has_row id t.tasks ≡ true) (run_internal_shim host id s)
      (run_internal_shim-Returns id host c s present) (run_internal_shim-EndsTask host id s)
