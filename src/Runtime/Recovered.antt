-- ===== src/Runtime/Recovered.antt =====
-- What the recovery leaves of one task.
use execgo_runtime.Base.{
  ℕ, ◌+◌, String, ◌≡◌, refl, inl, inr, true, false, Bool-cases, Option-cases, some, arith,
}
use execgo_runtime.Errors.{AppResult, Checked, ok, err}
use execgo_runtime.Types.Status.{TaskStatus}
use execgo_runtime.Types.Limits.{from_limits}
use execgo_runtime.Repo.Rows.{TaskRecord, Store, find_row, has_active_reservation}
use execgo_runtime.Repo.Writes.{release_resources, mark_recovered, reserved, recovered}
use execgo_runtime.Repo.Finish.{mark_recovery_lost}
use execgo_runtime.Repo.Touch.{Touches, Touches-refl, Touches-trans}
use execgo_runtime.Repo.Effects.{Write, apply, apply-Touches}
use execgo_runtime.Repo.Lifecycle.{apply-transition, row-apply}
use execgo_runtime.Runtime.Dispatch.{Progress, then_write, persist_latest_result}
use execgo_runtime.Runtime.Recovery.{
  Restart, lose_task, reconstruct, keep_task, recover_running, recover_accepted, recover_status,
  recover_task,
}

-- A task that waits holds nothing; a task that runs holds a reservation, and its shim is alive.
pub record IsSound (restart : Restart) (row : TaskRecord) : Type 0 where
  pub waiting : row.status ≡ TaskStatus.accepted → has_active_reservation row ≡ false
  pub holding : row.status ≡ TaskStatus.running → has_active_reservation row ≡ true
  pub alive :
      row.status ≡ TaskStatus.running
      → (pid : ℕ) × (row.shim_pid ≡ some pid) × (restart.process_exists pid ≡ true)

-- From the tables `s` a part of the recovery touches the task `id` only, and leaves it sound.
pub record Recovers (restart : Restart) (id : String) (s t : Store) : Type 0 where
  pub touches : Touches id s t
  pub row : TaskRecord
  pub found : find_row id t.tasks ≡ some row
  pub sound : IsSound restart row

-- The same of a result without an error.
abbrev pub EndsRecovered : Restart → String → Store → Progress (Unit {0}) → Type 0
EndsRecovered restart id s (t, ok x) = Recovers restart id s t
EndsRecovered restart id s (t, err e) = Unit

module _ (restart : Restart) (id : String) (s : Store) where
  EndsRecovered-any :
      (t : Store) (m : Checked) → Recovers restart id s t → EndsRecovered restart id s (t, m)
  EndsRecovered-any t (ok x) r = r
  EndsRecovered-any t (err e) r = tt

  then_write-EndsRecovered :
      (write : AppResult Store) (u : Store) (rest : Store → Progress (Unit {0}))
      → ((t : Store) → write ≡ ok t → EndsRecovered restart id s (rest t))
      → EndsRecovered restart id s (then_write write u rest)
  then_write-EndsRecovered (ok t) u rest h = h t refl
  then_write-EndsRecovered (err e) u rest h = tt

  module _ (task : TaskRecord) (found : find_row id s.tasks ≡ some task) where
    lose_task-EndsRecovered : EndsRecovered restart id s (lose_task restart id s)
    unfolding lose_task apply
    lose_task-EndsRecovered =
        then_write-EndsRecovered (mark_recovery_lost (restart.clock id) id s) s _ λ t h.
          let (next, there, status, free) =
            apply-transition Write.lose (restart.clock id) id s t task h found in
          EndsRecovered-any t (persist_latest_result restart.write_result id t) (record {
            touches = apply-Touches Write.lose (restart.clock id) id s t h;
            row = next;
            found = there;
            sound = record { waiting = λ w. cc; holding = λ w. cc; alive = λ w. cc };
          })

    -- A task that waits.
    recover_accepted-EndsRecovered :
        task.task_id ≡ id
        → task.status ≡ TaskStatus.accepted
        → EndsRecovered restart id s (recover_accepted restart task s)
    unfolding recover_accepted apply
    recover_accepted-EndsRecovered named waits = elim (Bool-cases (has_active_reservation task)) [
      | inr e ↦
          rw (e, recover_accepted)
            (record {
              touches = Touches-refl id s;
              row = task;
              found = found;
              sound = record { waiting = λ w. e; holding = λ w. cc; alive = λ w. cc };
            })
      | inl e ↦
          rw (e, recover_accepted, named)
            (then_write-EndsRecovered (release_resources (restart.clock id) id _ s) s _ λ t h.
              let (next, there, status, free) =
                apply-transition
                  (Write.release "orphan accepted-task reservation released during recovery")
                  (restart.clock id) id s t task h found in
              record {
                touches =
                    apply-Touches
                      (Write.release "orphan accepted-task reservation released during recovery")
                      (restart.clock id) id s t h;
                row = next;
                found = there;
                sound = record { waiting = λ w. free; holding = λ w. cc; alive = λ w. cc };
              })
    ]

    -- The reservation of a running task, made where there was none.
    reconstruct_row :
        (t : Store)
        → task.task_id ≡ id
        → reconstruct restart task s ≡ ok t
        → Touches id s t
          × ((row : TaskRecord) × (find_row id t.tasks ≡ some row)
              × (row.status ≡ task.status)
              × (row.shim_pid ≡ task.shim_pid)
              × (has_active_reservation row ≡ true))
    unfolding reconstruct apply
    reconstruct_row t named h = elim (Bool-cases (has_active_reservation task)) [
      | inl e ↦
          let h' = rw (e, reconstruct) at h in
          let same : s ≡ t = cc in rw (← same) (Touches-refl id s, (task, found, refl, refl, e))
      | inr e ↦
          let w : Write =
            Write.reserve (from_limits task.limits)
              "resource reservation reconstructed during recovery" in
          let done = rw (e, reconstruct, named) at h in
          let moved = row-apply w (restart.clock id) id s t done in
          (
            apply-Touches w (restart.clock id) id s t done,
            (
              reserved (from_limits task.limits) (restart.clock id 0) task,
              rw found at moved,
              refl,
              refl,
              refl,
            ),
          )
    ]

    keep_task-EndsRecovered :
        (pid : ℕ)
        → task.task_id ≡ id
        → task.status ≡ TaskStatus.running
        → task.shim_pid ≡ some pid
        → restart.process_exists pid ≡ true
        → EndsRecovered restart id s (keep_task restart task s)
    unfolding keep_task apply
    keep_task-EndsRecovered pid named runs shim lives =
        then_write-EndsRecovered (reconstruct restart task s) s _ λ t h. rw named (
          then_write-EndsRecovered (mark_recovered (λ k. restart.clock id (2 + k)) id t) t _ λ u h'.
            let (touched, (row, there, status, same_shim, holds)) = reconstruct_row t named h in
            let moved = row-apply Write.recover (λ k. restart.clock id (2 + k)) id t u h' in
            record {
              touches =
                  Touches-trans id touched
                    (apply-Touches Write.recover (λ k. restart.clock id (2 + k)) id t u h');
              row = recovered (restart.clock id 2) row;
              found = rw there at moved;
              sound = record {
                waiting = λ w. ground (arith, status, runs);
                holding = λ w. ground (arith, holds);
                alive = λ w. (pid, ground (arith, same_shim, shim), lives);
              };
            })

    recover_running-EndsRecovered :
        task.task_id ≡ id
        → task.status ≡ TaskStatus.running
        → EndsRecovered restart id s (recover_running restart task s)
    unfolding recover_running
    recover_running-EndsRecovered named runs = elim (Option-cases task.shim_pid) [
      | inl e ↦ rw (e, recover_running, named) lose_task-EndsRecovered
      | inr (pid, shim) ↦ elim (Bool-cases (restart.process_exists pid)) [
        | inl lives ↦
            rw (shim, recover_running, lives) (keep_task-EndsRecovered pid named runs shim lives)
        | inr gone ↦ rw (shim, recover_running, gone, named) lose_task-EndsRecovered
      ]
    ]

    -- A task that has ended.
    ended-EndsRecovered :
        (task.status ≡ TaskStatus.accepted → ⊥)
        → (task.status ≡ TaskStatus.running → ⊥)
        → EndsRecovered restart id s (s, ok tt)
    ended-EndsRecovered not_accepted not_running = record {
      touches = Touches-refl id s;
      row = task;
      found = found;
      sound = record {
        waiting = λ w. elim (not_accepted w) [ ];
        holding = λ w. elim (not_running w) [ ];
        alive = λ w. elim (not_running w) [ ];
      };
    }

    recover_status-EndsRecovered :
        (status : TaskStatus)
        → task.status ≡ status
        → task.task_id ≡ id
        → EndsRecovered restart id s (recover_status restart status task s)
    unfolding recover_status
    recover_status-EndsRecovered TaskStatus.accepted e named =
        recover_accepted-EndsRecovered named e
    recover_status-EndsRecovered TaskStatus.running e named = recover_running-EndsRecovered named e
    recover_status-EndsRecovered TaskStatus.success e named =
        ended-EndsRecovered (λ w. cc) (λ w. cc)
    recover_status-EndsRecovered TaskStatus.failed e named = ended-EndsRecovered (λ w. cc) (λ w. cc)
    recover_status-EndsRecovered TaskStatus.cancelled e named =
        ended-EndsRecovered (λ w. cc) (λ w. cc)

    -- The recovery of a task, as the table has it, touches this task only, and leaves it sound.
    pub recover_task-EndsRecovered :
        task.task_id ≡ id → EndsRecovered restart id s (recover_task restart task s)
    unfolding recover_task
    recover_task-EndsRecovered named = recover_status-EndsRecovered task.status refl named
