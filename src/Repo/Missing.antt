-- ===== src/Repo/Missing.antt =====
-- The writes on a task that is not in the table.
use execgo_runtime.Base.{
  ℕ, ◌+◌, String, ◌≡◌, refl, ap, ◌∙◌, Bool, true, false, Option, none, List, [], ◌∷◌, arith,
  if◌then◌else◌,
}
use execgo_runtime.Errors.{ok, err, sqlite}
use execgo_runtime.Types.Status.{EventType}
use execgo_runtime.Repo.Rows.{
  TaskRecord, CompletionUpdate, EventData, Store, Clock, find_row, has_row, update_row, update,
  insert_event_tx,
}
use execgo_runtime.Repo.Writes.{
  release_resources, active_reservation, set_cancel_requested, cancel_requested, dispatched,
  started, reserved, timed_out, recovered,
}
use execgo_runtime.Repo.Finish.{
  cancelled_row, cancel_accepted_task, complete_task, completed_row, fits_i64, recovery_lost,
  insert_released,
}
use execgo_runtime.Repo.Effects.{
  Write, dispatch, start, reserve, release, request_cancel, time_out, cancel, complete, recover,
  lose, apply,
}
use execgo_runtime.Repo.Totality.{has_row-update, insert_event_tx_missing, fits}

-- The writes that always add an event.
abbrev pub always_logs : Write → Bool
always_logs (dispatch shim_pid) = false
always_logs (release message) = false
always_logs _ = true

update_row_missing :
    (id : String) (f : TaskRecord → TaskRecord) (rows : List TaskRecord)
    → has_row id rows ≡ false
    → update_row id f rows ≡ rows
unfolding update_row
update_row_missing id f [] h = refl
update_row_missing id f (r ∷ rows) h = ground (arith, update_row_missing id f rows)

find_row_missing :
    (id : String) (rows : List TaskRecord) → has_row id rows ≡ false → find_row id rows ≡ none
unfolding find_row
find_row_missing id [] h = refl
find_row_missing id (r ∷ rows) h = ground (arith, find_row_missing id rows)

module _ (id : String) (s : Store) (missing : has_row id s.tasks ≡ false) where
  no_reservation : active_reservation id s ≡ none
  unfolding active_reservation
  no_reservation = rw (find_row_missing id s.tasks missing) refl

  log_missing :
      (f : TaskRecord → TaskRecord)
      → ((r : TaskRecord) → (f r).task_id ≡ r.task_id)
      → (event_type : EventType) (time : ℕ) (message : Option String) (payload : Option EventData)
      → insert_event_tx id event_type time message payload (update id f s)
        ≡ err (sqlite "FOREIGN KEY constraint failed")
  log_missing f same event_type time message payload =
      insert_event_tx_missing id event_type time message payload (update id f s)
        (has_row-update id f same id s ∙ missing)

  complete_missing :
      (clock : Clock) (u : CompletionUpdate)
      → fits_i64 u.duration_ms ≡ true
      → complete_task clock id u s ≡ err (sqlite "FOREIGN KEY constraint failed")
  unfolding complete_task insert_released
  complete_missing clock u fit =
      rw (fit, no_reservation, complete_task, insert_released)
        (log_missing (completed_row u) (λ r. refl) _ _ _ _)

-- On a task that is not in the table, a dispatch and a release do nothing and succeed, and every
-- other write is refused by the foreign key of its event, when the duration that a completion
-- records fits in 63 bits.
pub apply_missing :
    (w : Write) (clock : Clock) (id : String) (s : Store)
    → has_row id s.tasks ≡ false
    → fits w ≡ true
    → apply w clock id s
      ≡ (if always_logs w then err (sqlite "FOREIGN KEY constraint failed") else ok s)
unfolding apply insert_released
apply_missing (dispatch shim_pid) clock id s h fit =
    ap (λ rows. ok (record s { tasks = rows }))
      (update_row_missing id (dispatched shim_pid (clock 0)) s.tasks h)
apply_missing (start pid pgid path) clock id s h fit =
    log_missing id s h (started pid pgid path (clock 0)) (λ r. refl) _ _ _ _
apply_missing (reserve r message) clock id s h fit =
    log_missing id s h (reserved r (clock 0)) (λ x. refl) _ _ _ _
apply_missing (release message) clock id s h fit =
    rw (no_reservation id s h, release_resources) refl
apply_missing request_cancel clock id s h fit =
    rw (log_missing id s h (cancel_requested (clock 0)) (λ r. refl) _ _ _ _, set_cancel_requested)
      refl
apply_missing time_out clock id s h fit =
    log_missing id s h (timed_out (clock 0)) (λ r. refl) _ _ _ _
apply_missing (cancel error) clock id s h fit =
    rw (no_reservation id s h, cancel_accepted_task, insert_released)
      (log_missing id s h (cancelled_row id error (clock 0)) (λ r. ground arith) _ _ _ _)
apply_missing (complete u) clock id s h fit = complete_missing id s h clock u fit
apply_missing recover clock id s h fit =
    log_missing id s h (recovered (clock 0)) (λ r. ground arith) _ _ _ _
apply_missing lose clock id s h fit =
    complete_missing id s h (λ k. clock (1 + k)) (recovery_lost (clock 0)) refl
