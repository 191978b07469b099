-- ===== src/Repo/Lifecycle.antt =====
-- The life of one task: what each write does to its row, its status and its reservation.
use execgo_runtime.Base.{
  ℕ, ◌+◌, String, ◌≡◌, refl, sym, ap, ◌∙◌, Bool, true, false, Bool-cases, Option-cases, Option,
  none, some, inl, inr, List, [], ◌∷◌, arith, eq_iff, map_option, if◌then◌else◌,
}
use execgo_runtime.Errors.{>>=-eq-ok, ok, ◌>>=◌}
use execgo_runtime.Types.Status.{TaskStatus, EventType}
use execgo_runtime.Types.Limits.{TaskResourceReservation}
use execgo_runtime.Repo.Rows.{
  TaskRecord, CompletionUpdate, EventData, Store, Clock, find_row, update_row, update,
  insert_event_tx, has_active_reservation,
}
use execgo_runtime.Repo.Writes.{
  dispatched, started, reserved, release_resources, active_reservation, released,
  set_cancel_requested, cancel_requested, timed_out, recovered, get_task,
}
use execgo_runtime.Repo.Finish.{
  cancelled_row, complete_task, completed_row, fits_i64, recovery_lost, insert_released,
}
use execgo_runtime.Repo.Effects.{
  Write, dispatch, start, reserve, release, request_cancel, time_out, cancel, complete, recover,
  lose, apply,
}

-- The row that a write leaves of a row.
abbrev pub row_after : Write → Clock → String → TaskRecord → TaskRecord
row_after (dispatch shim_pid) clock id = dispatched shim_pid (clock 0)
row_after (start pid pgid path) clock id = started pid pgid path (clock 0)
row_after (reserve r message) clock id = reserved r (clock 0)
row_after (release message) clock id =
    λ row. if has_active_reservation row then released (clock 0) row else row
row_after request_cancel clock id = cancel_requested (clock 0)
row_after time_out clock id = timed_out (clock 0)
row_after (cancel error) clock id = cancelled_row id error (clock 0)
row_after (complete u) clock id = completed_row u
row_after recover clock id = recovered (clock 0)
row_after lose clock id = completed_row (recovery_lost (clock 0))

module _ (id : String) (f : TaskRecord → TaskRecord)
    (same : (r : TaskRecord) → (f r).task_id ≡ r.task_id) where
  pub find_row-update_row_self :
      (rows : List TaskRecord)
      → find_row id (update_row id f rows) ≡ map_option f (find_row id rows)
  unfolding find_row update_row
  find_row-update_row_self [] = refl
  find_row-update_row_self (r ∷ rows) =
      ground
        (arith, same r, eq_iff r.task_id id, eq_iff (f r).task_id id, find_row-update_row_self rows)

pub tasks-insert_event_tx :
    (id : String) (event_type : EventType) (time : ℕ) (message : Option String)
    (payload : Option EventData) (s t : Store)
    → insert_event_tx id event_type time message payload s ≡ ok t
    → t.tasks ≡ s.tasks
unfolding insert_event_tx
tasks-insert_event_tx id event_type time message payload s t h = ground arith

pub tasks-insert_released :
    (id : String) (time : ℕ) (r : Option TaskResourceReservation) (s t : Store)
    → insert_released id time r s ≡ ok t
    → t.tasks ≡ s.tasks
unfolding insert_released
tasks-insert_released id time none s t h = ground arith
tasks-insert_released id time (some r) s t h = tasks-insert_event_tx id _ _ _ _ s t h

-- A release acts exactly on a row that holds a reservation.
module _ (id : String) (s : Store) (f : TaskRecord → TaskRecord) where
  release_none :
      active_reservation id s ≡ none
      → find_row id s.tasks
        ≡ map_option
            (λ row. if has_active_reservation row then f row else row)
            (find_row id s.tasks)
  unfolding active_reservation
  release_none e = ground arith

  release_some :
      (r : TaskResourceReservation)
      → active_reservation id s ≡ some r
      → map_option f (find_row id s.tasks)
        ≡ map_option
            (λ row. if has_active_reservation row then f row else row)
            (find_row id s.tasks)
  unfolding active_reservation
  release_some r e = ground arith

module _ (clock : Clock) (id : String) (s t : Store) where
  -- The tables after a write on the row, whatever events follow.
  row-of :
      (f : TaskRecord → TaskRecord)
      → ((r : TaskRecord) → (f r).task_id ≡ r.task_id)
      → t.tasks ≡ update_row id f s.tasks
      → find_row id t.tasks ≡ map_option f (find_row id s.tasks)
  row-of f same e = ap (find_row id) e ∙ find_row-update_row_self id f same s.tasks

  pub tasks-finish :
      (f : TaskRecord → TaskRecord) (time : ℕ) (r : Option TaskResourceReservation)
      (event_type : EventType) (time' : ℕ) (message : Option String)
      → (insert_released id time r (update id f s)
          >>= insert_event_tx id event_type time' message none)
        ≡ ok t
      → t.tasks ≡ update_row id f s.tasks
  tasks-finish f time r event_type time' message h =
      let (x, p, q) =
        >>=-eq-ok (insert_released id time r (update id f s))
          (insert_event_tx id event_type time' message none) t h in
      tasks-insert_event_tx id event_type time' message none x t q
      ∙ tasks-insert_released id time r (update id f s) x p

  pub tasks_complete :
      (u : CompletionUpdate)
      → complete_task clock id u s ≡ ok t
      → t.tasks ≡ update_row id (completed_row u) s.tasks
  unfolding complete_task
  tasks_complete u h = elim (Bool-cases (fits_i64 u.duration_ms)) [
    | inl e ↦ tasks-finish (completed_row u) _ _ _ _ _ (rw (e, complete_task) at h)
    | inr e ↦ let h' = rw (e, complete_task) at h in cc
  ]

  pub tasks-request_cancel :
      (task : TaskRecord)
      → set_cancel_requested clock id s ≡ ok (task, t)
      → t.tasks ≡ update_row id (cancel_requested (clock 0)) s.tasks
  unfolding set_cancel_requested
  tasks-request_cancel task h =
      let (x, p, q) = >>=-eq-ok (insert_event_tx id _ _ _ _ _) _ (task, t) h in
      let (y, p', q') = >>=-eq-ok (get_task id x) _ (task, t) q in
      let same : x ≡ t = cc in tasks-insert_event_tx id _ _ _ _ _ t (p ∙ ap ok same)

  row-release :
      (message : String)
      → release_resources clock id message s ≡ ok t
      → find_row id t.tasks
        ≡ map_option (row_after (release message) clock id) (find_row id s.tasks)
  unfolding release_resources
  row-release message h = elim (Option-cases (active_reservation id s)) [
    | inl e ↦
        let h' = rw (e, release_resources) at h in
        let unchanged : s ≡ t = cc in rw (← unchanged) (release_none id s (released (clock 0)) e)
    | inr (r, e) ↦
        let moved =
          tasks-insert_event_tx id _ _ _ _ (update id (released (clock 0)) s) t
            (rw (e, release_resources) at h) in
        row-of (released (clock 0)) (λ x. refl) moved ∙ release_some id s (released (clock 0)) r e
  ]

-- On every successful write, the row of the task becomes what `row_after` says.
pub row-apply :
    (w : Write) (clock : Clock) (id : String) (s t : Store)
    → apply w clock id s ≡ ok t
    → find_row id t.tasks ≡ map_option (row_after w clock id) (find_row id s.tasks)
unfolding apply
row-apply (dispatch shim_pid) clock id s t h =
    let same : update id (dispatched shim_pid (clock 0)) s ≡ t = cc in
    row-of clock id s t _ (λ r. ground arith) (ap tasks (sym same))
  where
    tasks : Store → List TaskRecord
    tasks x = x.tasks
row-apply (start pid pgid path) clock id s t h =
    row-of clock id s t (started pid pgid path (clock 0)) (λ r. refl)
      (tasks-insert_event_tx id _ _ _ _ _ t h)
row-apply (reserve r message) clock id s t h =
    row-of clock id s t (reserved r (clock 0)) (λ r. refl) (tasks-insert_event_tx id _ _ _ _ _ t h)
row-apply (release message) clock id s t h = row-release clock id s t message h
row-apply request_cancel clock id s t h =
    let (x, p, q) = >>=-eq-ok (set_cancel_requested clock id s) _ t h in
    let same : x.1 ≡ t = cc in
    rw (← same) (
      row-of clock id s x.1 (cancel_requested (clock 0)) (λ r. refl)
        (tasks-request_cancel clock id s x.1 x.0 p))
row-apply time_out clock id s t h =
    row-of clock id s t (timed_out (clock 0)) (λ r. refl) (tasks-insert_event_tx id _ _ _ _ _ t h)
row-apply (cancel error) clock id s t h =
    row-of clock id s t (cancelled_row id error (clock 0)) (λ r. ground arith)
      (tasks-finish clock id s t (cancelled_row id error (clock 0)) _ _ _ _ _ h)
row-apply (complete u) clock id s t h =
    row-of clock id s t (completed_row u) (λ r. refl) (tasks_complete clock id s t u h)
row-apply recover clock id s t h =
    row-of clock id s t (recovered (clock 0)) (λ r. ground arith)
      (tasks-insert_event_tx id _ _ _ _ _ t h)
row-apply lose clock id s t h =
    row-of clock id s t (completed_row (recovery_lost (clock 0))) (λ r. refl)
      (tasks_complete (λ k. clock (1 + k)) id s t (recovery_lost (clock 0)) h)

-- The status and whether a reservation is held, after a write.
abbrev pub status_after : Write → TaskStatus → TaskStatus
status_after (dispatch shim_pid) status = elim status [
  | TaskStatus.accepted ↦ TaskStatus.running
  | other ↦ other
]
status_after (start pid pgid path) status = TaskStatus.running
status_after (cancel error) status = elim status [
  | TaskStatus.accepted ↦ TaskStatus.cancelled
  | other ↦ other
]
status_after (complete u) status = u.status
status_after lose status = TaskStatus.failed
status_after _ status = status

abbrev pub holds_after : Write → TaskStatus → Bool → Bool
holds_after (reserve r message) status held = true
holds_after (release message) status held = false
holds_after (cancel error) status held = elim status [ TaskStatus.accepted ↦ false | _ ↦ held ]
holds_after (complete u) status held = false
holds_after lose status held = false
holds_after _ status held = held

row_after_lem :
    (w : Write) (clock : Clock) (id : String) (row : TaskRecord)
    → ((row_after w clock id row).status ≡ status_after w row.status)
      × (has_active_reservation (row_after w clock id row)
          ≡ holds_after w row.status (has_active_reservation row))
row_after_lem (dispatch shim_pid) clock id row = ground arith
row_after_lem _ clock id row = ground arith

-- A successful write on a task that is in the table moves its status, and whether it holds an active
-- reservation, as the tables `status_after` and `holds_after` say: only a dispatch, a start, a
-- cancellation, a completion and a lost recovery change the status, the first and the third of an
-- accepted task only; and a reservation is held after it is made until it is released, or the task
-- completes, is lost, or is cancelled while accepted.
pub apply-transition :
    (w : Write) (clock : Clock) (id : String) (s t : Store) (row : TaskRecord)
    → apply w clock id s ≡ ok t
    → find_row id s.tasks ≡ some row
    → (next : TaskRecord) × (find_row id t.tasks ≡ some next)
      × (next.status ≡ status_after w row.status)
      × (has_active_reservation next ≡ holds_after w row.status (has_active_reservation row))
apply-transition w clock id s t row h found =
    let e = row-apply w clock id s t h in
    let moved = row_after_lem w clock id row in
    (row_after w clock id row, rw found at e, moved.0, moved.1)
