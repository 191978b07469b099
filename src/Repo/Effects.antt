-- ===== src/Repo/Effects.antt =====
-- The writes on a task as one data type, and what each of them may change.
use execgo_runtime.Base.{
  ℕ, ◌+◌, String, ◌≡◌, refl, ap, ◌∙◌, Bool-cases, Option-cases, Option, none, some, inl, inr, arith,
}
use execgo_runtime.Errors.{>>=-eq-ok, AppResult, ok, ◌>>=◌}
use execgo_runtime.Types.Status.{RuntimeErrorInfo, EventType}
use execgo_runtime.Types.Limits.{TaskResourceReservation}
use execgo_runtime.Repo.Rows.{TaskRecord, CompletionUpdate, Store, Clock, update, insert_event_tx}
use execgo_runtime.Repo.Writes.{
  mark_dispatched, mark_started, reserve_resources, release_resources, active_reservation,
  set_cancel_requested, mark_timeout_triggered, mark_recovered, get_task, dispatched, recovered,
  released, cancel_requested,
}
use execgo_runtime.Repo.Finish.{
  recovery_lost, cancel_accepted_task, complete_task, cancelled_row, completed_row, fits_i64,
  mark_recovery_lost, insert_released,
}
use execgo_runtime.Repo.Touch.{
  Touches, Touches-refl, Touches-trans, update-Touches, insert_event_tx-Touches,
  update_and_log-Touches,
}

pub data Write : Type 0 where
  dispatch : ℕ → Write
  start : ℕ → ℕ → Option String → Write
  reserve : TaskResourceReservation → String → Write
  release : String → Write
  request_cancel : Write
  time_out : Write
  cancel : RuntimeErrorInfo → Write
  complete : CompletionUpdate → Write
  recover : Write
  lose : Write

unfoldable pub apply : Write → Clock → String → Store → AppResult Store
unfolding mark_dispatched mark_started reserve_resources release_resources set_cancel_requested
    mark_timeout_triggered cancel_accepted_task complete_task mark_recovered mark_recovery_lost
apply (dispatch shim_pid) clock id s = mark_dispatched clock id shim_pid s
apply (start pid pgid path) clock id s = mark_started clock id pid pgid path s
apply (reserve r message) clock id s = reserve_resources clock id r message s
apply (release message) clock id s = release_resources clock id message s
apply request_cancel clock id s = do (task, t) ← set_cancel_requested clock id s; ok t
apply time_out clock id s = mark_timeout_triggered clock id s
apply (cancel error) clock id s = cancel_accepted_task clock id error s
apply (complete u) clock id s = complete_task clock id u s
apply recover clock id s = mark_recovered clock id s
apply lose clock id s = mark_recovery_lost clock id s

insert_released-Touches :
    (id : String) (time : ℕ) (r : Option TaskResourceReservation) (s t : Store)
    → insert_released id time r s ≡ ok t
    → Touches id s t
unfolding insert_released
insert_released-Touches id time none s t h =
    let same : s ≡ t = cc in rw (← same) (Touches-refl id s)
insert_released-Touches id time (some r) s t h = insert_event_tx-Touches id _ _ _ _ s t h

module _ (clock : Clock) (id : String) (s t : Store) where
  release-Touches :
      (message : String) → release_resources clock id message s ≡ ok t → Touches id s t
  unfolding release_resources
  release-Touches message h = elim (Option-cases (active_reservation id s)) [
    | inl e ↦
        let h' = rw (e, release_resources) at h in
        let same : s ≡ t = cc in rw (← same) (Touches-refl id s)
    | inr (r, e) ↦
        update_and_log-Touches id (released (clock 0)) _ _ _ _ s t (λ x. refl)
          (rw (e, release_resources) at h)
  ]

  request_cancel-Touches :
      (task : TaskRecord) → set_cancel_requested clock id s ≡ ok (task, t) → Touches id s t
  unfolding set_cancel_requested
  request_cancel-Touches task h =
      let (x, p, q) = >>=-eq-ok (insert_event_tx id _ _ _ _ _) _ (task, t) h in
      let (y, p', q') = >>=-eq-ok (get_task id x) _ (task, t) q in
      let same : x ≡ t = cc in
      update_and_log-Touches id (cancel_requested (clock 0)) _ _ _ _ s t (λ x. refl)
        (p ∙ ap ok same)

  -- A write on the row, the event of a released reservation, and a last event.
  finish-Touches :
      (f : TaskRecord → TaskRecord) (released_at : ℕ) (r : Option TaskResourceReservation)
      (event_type : EventType) (time : ℕ) (message : Option String)
      → ((x : TaskRecord) → (f x).task_id ≡ x.task_id)
      → (insert_released id released_at r (update id f s)
          >>= insert_event_tx id event_type time message none)
        ≡ ok t
      → Touches id s t
  finish-Touches f released_at r event_type time message same h =
      let (x, p, q) =
        >>=-eq-ok (insert_released id released_at r (update id f s))
          (insert_event_tx id event_type time message none) t h in
      Touches-trans id
        (Touches-trans id (update-Touches id f same s)
          (insert_released-Touches id released_at r (update id f s) x p))
        (insert_event_tx-Touches id event_type time message none x t q)

  complete-Touches : (u : CompletionUpdate) → complete_task clock id u s ≡ ok t → Touches id s t
  unfolding complete_task
  complete-Touches u h = elim (Bool-cases (fits_i64 u.duration_ms)) [
    | inl e ↦ finish-Touches (completed_row u) _ _ _ _ _ (λ r. refl) (rw (e, complete_task) at h)
    | inr e ↦ let h' = rw (e, complete_task) at h in cc
  ]

-- A successful write on a task leaves the rows of all other tasks as they are, adds and removes no
-- task, and extends the event log at its end by events of that task alone, numbered on from the
-- last one.
pub apply-Touches :
    (w : Write) (clock : Clock) (id : String) (s t : Store)
    → apply w clock id s ≡ ok t
    → Touches id s t
unfolding apply
apply-Touches (dispatch shim_pid) clock id s t h =
    let same : update id (dispatched shim_pid (clock 0)) s ≡ t = cc in
    rw (← same) (update-Touches id _ (λ r. ground arith) s)
apply-Touches (start pid pgid path) clock id s t h =
    update_and_log-Touches id _ _ _ _ _ s t (λ r. refl) h
apply-Touches (reserve r message) clock id s t h =
    update_and_log-Touches id _ _ _ _ _ s t (λ r. refl) h
apply-Touches (release message) clock id s t h = release-Touches clock id s t message h
apply-Touches request_cancel clock id s t h =
    let (x, p, q) = >>=-eq-ok (set_cancel_requested clock id s) _ t h in
    let same : x.1 ≡ t = cc in rw (← same) (request_cancel-Touches clock id s x.1 x.0 p)
apply-Touches time_out clock id s t h = update_and_log-Touches id _ _ _ _ _ s t (λ r. refl) h
apply-Touches (cancel error) clock id s t h =
    finish-Touches clock id s t (cancelled_row id error (clock 0)) _ _ _ _ _ (λ r. ground arith) h
apply-Touches (complete u) clock id s t h = complete-Touches clock id s t u h
apply-Touches recover clock id s t h =
    update_and_log-Touches id (recovered (clock 0)) _ _ _ _ s t (λ r. ground arith) h
apply-Touches lose clock id s t h =
    complete-Touches (λ k. clock (1 + k)) id s t (recovery_lost (clock 0)) h
