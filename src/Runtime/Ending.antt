-- ===== src/Runtime/Ending.antt =====
-- The shim leaves its task ended.
use execgo_runtime.Base.{
  ◌&&◌, ◌⊎◌, List, [], ◌∷◌, str_eq, eq_iff, ◌+◌, String, ◌≡◌, refl, sym, ap, ◌∙◌, true, false,
  Bool-cases, Option-cases, some, inl, inr, is_none,
}
use execgo_runtime.Errors.{AppResult, Checked, ok, err, AppResult-cases, ok_injective}
use execgo_runtime.Types.Status.{TaskStatus, is_terminal}
use execgo_runtime.Types.Plan.{ExecutionPlan}
use execgo_runtime.Repo.Rows.{
  TaskRecord, CompletionUpdate, Store, Clock, find_row, has_row, has_active_reservation,
}
use execgo_runtime.Repo.Writes.{get_task, mark_started}
use execgo_runtime.Repo.Finish.{complete_task, fits_i64}
use execgo_runtime.Repo.Effects.{Write, apply}
use execgo_runtime.Repo.Lifecycle.{apply-transition}
use execgo_runtime.Runtime.Dispatch.{Progress, then_write, then_rest, persist_latest_result}
use execgo_runtime.Runtime.Watch.{supervise_wait}
use execgo_runtime.Repo.Totality.{find_row-present}
use execgo_runtime.Repo.Missing.{apply_missing}
use execgo_runtime.Runtime.Shim.{
  SpawnedProcess, Host, watch_task, cancelled_before_launch, ended_before, launch_error, plan_of,
  end_task, run_spawned, launch_task, run_task, run_internal_shim,
}
use execgo_runtime.Runtime.Final.{IsFinal, supervise_wait-IsFinal}

-- The task `id` has ended in the tables `t`; where the shim ended it, it holds no reservation.
abbrev pub HasEnded : String → Store → Store → Type 0
HasEnded id s t =
    (row : TaskRecord) × (find_row id t.tasks ≡ some row)
    × (is_terminal row.status ≡ true)
    × ((t ≡ s) ⊎ (has_active_reservation row ≡ false))

-- The same of a result without an error.
abbrev pub EndsTask : String → Store → Progress (Unit {0}) → Type 0
EndsTask id s (t, ok x) = HasEnded id s t
EndsTask id s (t, err e) = Unit

pub find_row-task_id :
    (id : String) (rows : List TaskRecord) (row : TaskRecord)
    → find_row id rows ≡ some row
    → row.task_id ≡ id
unfolding find_row
find_row-task_id id [] row h = cc
find_row-task_id id (x ∷ rows) row h = elim (Bool-cases (str_eq x.task_id id)) [
  | inl e ↦
      let h' = rw (e, find_row) at h in
      let same : x ≡ row = cc in
      ap (λ (r : TaskRecord). r.task_id) (sym same) ∙ (eq_iff x.task_id id).0 e
  | inr e ↦ find_row-task_id id rows row (rw (e, find_row) at h)
]

complete_task-fits :
    (clock : Clock) (id : String) (u : CompletionUpdate) (s t : Store)
    → complete_task clock id u s ≡ ok t
    → fits_i64 u.duration_ms ≡ true
unfolding complete_task
complete_task-fits clock id u s t h = elim (Bool-cases (fits_i64 u.duration_ms)) [
  | inl e ↦ e
  | inr e ↦ let h' = rw (e, complete_task) at h in cc
]

-- A completion that succeeds leaves the row in its status, with no reservation.
complete_task-ended :
    (clock : Clock) (id : String) (u : CompletionUpdate) (s t : Store)
    → complete_task clock id u s ≡ ok t
    → (row : TaskRecord) × (find_row id t.tasks ≡ some row)
      × (row.status ≡ u.status)
      × (has_active_reservation row ≡ false)
unfolding apply
complete_task-ended clock id u s t h = elim (Bool-cases (has_row id s.tasks)) [
  | inl present ↦
      let (row, found) = find_row-present id s.tasks present in
      apply-transition (Write.complete u) clock id s t row h found
  | inr missing ↦
      let refused =
        apply_missing (Write.complete u) clock id s missing (complete_task-fits clock id u s t h) in
      cc
]

module _ (id : String) (s : Store) where
  EndsTask-any : (t : Store) (m : Checked) → HasEnded id s t → EndsTask id s (t, m)
  EndsTask-any t (ok x) h = h
  EndsTask-any t (err e) h = tt

  then_write-EndsTask :
      (write : AppResult Store) (u : Store) (rest : Store → Progress (Unit {0}))
      → ((t : Store) → write ≡ ok t → EndsTask id s (rest t))
      → EndsTask id s (then_write write u rest)
  then_write-EndsTask (ok t) u rest h = h t refl
  then_write-EndsTask (err e) u rest h = tt

  end_task-EndsTask :
      (host : Host) (u : CompletionUpdate) (v : Store)
      → is_terminal u.status ≡ true
      → EndsTask id s (end_task host id u v)
  unfolding end_task
  end_task-EndsTask host u v final =
      then_write-EndsTask (complete_task (λ k. host.clock (10 + k)) id u v) v _ λ t h.
        let (row, found, status, free) =
          complete_task-ended (λ k. host.clock (10 + k)) id u v t h in
        EndsTask-any t (persist_latest_result host.write_result id t)
          (row, found, ap is_terminal status ∙ final, inr free)

then_rest-EndsTask :
    (id : String) (s : Store) (part : Progress CompletionUpdate)
    (rest : CompletionUpdate → Store → Progress (Unit {0}))
    → IsFinal part
    → ((u : CompletionUpdate) (t : Store) → is_terminal u.status ≡ true → EndsTask id s (rest u t))
    → EndsTask id s (then_rest part rest)
then_rest-EndsTask id s (t, ok u) rest final h = h u t final
then_rest-EndsTask id s (t, err e) rest final h = tt

pub get_task-find_row :
    (id : String) (s : Store) (row : TaskRecord)
    → get_task id s ≡ ok row
    → find_row id s.tasks ≡ some row
unfolding get_task
get_task-find_row id s row h = elim (Option-cases (find_row id s.tasks)) [
  | inl e ↦ let h' = rw (e, get_task) at h in cc
  | inr (x, e) ↦ let h' = rw (e, get_task) at h in e ∙ ap some (ok_injective h')
]

module _ (host : Host) (id : String) (s : Store) where
  watch_task-EndsTask :
      (plan : ExecutionPlan) (started : TaskRecord) (u : Store)
      → started.task_id ≡ id
      → EndsTask id s (watch_task host plan started u)
  unfolding watch_task
  watch_task-EndsTask plan started u named =
      rw (named, watch_task)
        (then_rest-EndsTask id s (supervise_wait _ id host.turns host.exit u) (end_task host id)
          (supervise_wait-IsFinal _ id host.turns host.exit u)
          λ v t final. end_task-EndsTask id s host v t final)

  run_spawned-EndsTask :
      (task : TaskRecord) (process : SpawnedProcess) (u : Store)
      → task.task_id ≡ id
      → EndsTask id s (run_spawned host task process u)
  unfolding run_spawned
  run_spawned-EndsTask task process u named =
      then_write-EndsTask id s
        (mark_started (λ k. host.clock (1 + k)) task.task_id process.pid process.pgid
          process.script_path u)
        u _
        λ t h. elim (AppResult-cases (get_task task.task_id t)) [
          | inr (e, refused) ↦ rw refused tt
          | inl (started, read) ↦ rw read (
              watch_task-EndsTask (plan_of task) started t (
                find_row-task_id task.task_id t.tasks started
                  (get_task-find_row task.task_id t started read)
                ∙ named))
        ]

  launch_task-EndsTask :
      (task : TaskRecord) (u : Store) → task.task_id ≡ id → EndsTask id s (launch_task host task u)
  unfolding launch_task is_terminal
  launch_task-EndsTask task u named =
      elim (AppResult-cases (host.spawn_task_process task (plan_of task))) [
        | inl (process, spawned) ↦
            rw (spawned, launch_task) (run_spawned-EndsTask task process u named)
        | inr (e, refused) ↦
            rw (refused, launch_task, named)
              (end_task-EndsTask id s host
                (ended_before TaskStatus.failed (launch_error e) (host.clock 0)) u refl)
      ]

  run_task-EndsTask :
      (task : TaskRecord) → find_row id s.tasks ≡ some task → EndsTask id s (run_task host task s)
  unfolding run_task is_terminal
  run_task-EndsTask task found =
      let named = find_row-task_id id s.tasks task found in
      elim (Bool-cases (is_terminal task.status)) [
        | inl e ↦ rw (e, run_task) (task, found, e, inl refl)
        | inr e ↦ elim (Bool-cases (task.kill_requested && is_none task.pid)) [
          | inl k ↦
              rw (e, run_task, k, named)
                (end_task-EndsTask id s host
                  (ended_before TaskStatus.cancelled cancelled_before_launch (host.clock 0)) s refl)
          | inr k ↦ rw (e, run_task, k) (launch_task-EndsTask task s named)
        ]
      ]

-- The shim of a task, if nothing that it does fails, returns with the task ended: in the table, with
-- a final status; and either the tables are as they were, or the task holds no reservation. This is
-- so whatever the launch answers, at whatever turn of its watch the limit is over or a kill is
-- requested, however the process ends, and whatever the service does to the tables between the turns.
pub run_internal_shim-EndsTask :
    (host : Host) (id : String) (s : Store) → EndsTask id s (run_internal_shim host id s)
unfolding run_internal_shim
run_internal_shim-EndsTask host id s = elim (AppResult-cases (get_task id s)) [
  | inl (task, read) ↦
      rw (read, run_internal_shim)
        (run_task-EndsTask host id s task (get_task-find_row id s task read))
  | inr (e, refused) ↦ rw (refused, run_internal_shim) tt
]
