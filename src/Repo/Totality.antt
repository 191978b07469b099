-- ===== src/Repo/Totality.antt =====
-- When the writes succeed, and what the unguarded ones do to a task that has ended.
use execgo_runtime.Base.{
  ℕ, ◌+◌, suc, String, ◌≡◌, refl, sym, ap, ◌∙◌, Bool, true, false, Option-cases, Option, none, some,
  List, [], ◌∷◌, ◌++◌, inl, inr, arith, is_some,
}
use execgo_runtime.Errors.{ok, err, sqlite, ◌>>=◌}
use execgo_runtime.Types.Status.{TaskStatus, EventType}
use execgo_runtime.Types.Limits.{TaskResourceReservation}
use execgo_runtime.Repo.Rows.{
  TaskRecord, CompletionUpdate, EventData, Store, Clock, find_row, has_row, update_row, update,
  insert_event_tx,
}
use execgo_runtime.Repo.Writes.{
  dispatched, mark_started, started, reserved, release_resources, active_reservation, released,
  set_cancel_requested, cancel_requested, timed_out, recovered, get_task,
}
use execgo_runtime.Repo.Finish.{
  final_message, final_event, cancelled_row, complete_task, completed_row, fits_i64, recovery_lost,
  insert_released,
}
use execgo_runtime.Repo.Touch.{has_key, has_row-keys, update-Touches}
use execgo_runtime.Repo.Effects.{
  Write, dispatch, start, reserve, release, request_cancel, time_out, cancel, complete, recover,
  lose, apply,
}
use execgo_runtime.Repo.Lifecycle.{tasks-insert_event_tx, find_row-update_row_self}

pub has_row-find_row :
    (id : String) (rows : List TaskRecord) → has_row id rows ≡ is_some (find_row id rows)
unfolding find_row
has_row-find_row id [] = refl
has_row-find_row id (r ∷ rows) = ground (arith, has_row-find_row id rows)

-- A write on a row does not change which tasks there are.
pub has_row-update :
    (id : String) (f : TaskRecord → TaskRecord)
    → ((r : TaskRecord) → (f r).task_id ≡ r.task_id)
    → (j : String) (s : Store) → has_row j (update_row id f s.tasks) ≡ has_row j s.tasks
has_row-update id f same j s =
    has_row-keys j (update_row id f s.tasks)
    ∙ ap (has_key j) (update-Touches id f same s).kept
    ∙ sym (has_row-keys j s.tasks)

module _ (id : String) (event_type : EventType) (time : ℕ) (message : Option String)
    (payload : Option EventData) (s : Store) where
  -- The tables with the event at the end of the log.
  abbrev pub logged : Store
  logged = record s {
    events =
        s.events
        ++ record {
          seq = s.next_seq;
          task_id = id;
          event_type = event_type;
          timestamp = time;
          message = message;
          payload = payload;
        }
          ∷ [];
    next_seq = suc s.next_seq;
  }

  insert_event_tx_total :
      has_row id s.tasks ≡ true → insert_event_tx id event_type time message payload s ≡ ok logged
  unfolding insert_event_tx
  insert_event_tx_total h = rw h refl

  pub insert_event_tx_missing :
      has_row id s.tasks ≡ false
      → insert_event_tx id event_type time message payload s
        ≡ err (sqlite "FOREIGN KEY constraint failed")
  unfolding insert_event_tx
  insert_event_tx_missing h = rw h refl

-- `mark_started` has no guard on the status: whatever the status of a task, also a final one, the
-- write succeeds and leaves the task running, with the finish time and the error of its end.
pub mark_started_revives :
    (clock : Clock) (id : String) (pid pgid : ℕ) (path : Option String) (s : Store)
    (row : TaskRecord)
    → find_row id s.tasks ≡ some row
    → (t : Store) × (next : TaskRecord) × (mark_started clock id pid pgid path s ≡ ok t)
      × (find_row id t.tasks ≡ some next)
      × (next.status ≡ TaskStatus.running)
      × (next.finished_at ≡ row.finished_at)
      × (next.error ≡ row.error)
unfolding mark_started
mark_started_revives clock id pid pgid path s row found =
    let f = started pid pgid path (clock 0) in
    let present =
      has_row-update id f (λ r. refl) id s ∙ has_row-find_row id s.tasks ∙ rw found refl in
    (
      logged id EventType.started (clock 1) _ none (update id f s),
      f row,
      insert_event_tx_total id EventType.started (clock 1) _ none (update id f s) present,
      find_row-update_row_self id f (λ r. refl) s.tasks ∙ rw found refl,
      refl,
      refl,
      refl,
    )

-- The duration of a completion fits the column.
abbrev pub fits : Write → Bool
fits (complete u) = fits_i64 u.duration_ms
fits _ = true

module _ (clock : Clock) (id : String) (s : Store) (present : has_row id s.tasks ≡ true) where
  still_present :
      (f : TaskRecord → TaskRecord)
      → ((r : TaskRecord) → (f r).task_id ≡ r.task_id)
      → has_row id (update_row id f s.tasks) ≡ true
  still_present f same = has_row-update id f same id s ∙ present

  log_total :
      (f : TaskRecord → TaskRecord)
      → ((r : TaskRecord) → (f r).task_id ≡ r.task_id)
      → (event_type : EventType) (time : ℕ) (message : Option String) (payload : Option EventData)
      → (t : Store) × (insert_event_tx id event_type time message payload (update id f s) ≡ ok t)
  log_total f same event_type time message payload = (
    logged id event_type time message payload (update id f s),
    insert_event_tx_total id event_type time message payload (update id f s) (still_present f same),
  )

insert_released_total :
    (id : String) (time : ℕ) (r : Option TaskResourceReservation) (s : Store)
    → has_row id s.tasks ≡ true
    → (t : Store) × (insert_released id time r s ≡ ok t) × (has_row id t.tasks ≡ true)
unfolding insert_released
insert_released_total id time none s h = (s, refl, h)
insert_released_total id time (some r) s h =
    (logged id _ _ _ _ s, insert_event_tx_total id _ _ _ _ s h, h)

finish_total :
    (id : String) (f : TaskRecord → TaskRecord) (time : ℕ) (r : Option TaskResourceReservation)
    (event_type : EventType) (time' : ℕ) (message : Option String) (s : Store)
    → has_row id (update_row id f s.tasks) ≡ true
    → (t : Store) × ((insert_released id time r (update id f s)
          >>= insert_event_tx id event_type time' message none)
        ≡ ok t)
finish_total id f time r event_type time' message s h =
    let (x, p, q) = insert_released_total id time r (update id f s) h in
    (
      logged id event_type time' message none x,
      rw p (insert_event_tx_total id event_type time' message none x q),
    )

complete_task_total :
    (clock : Clock) (id : String) (u : CompletionUpdate) (s : Store)
    → has_row id s.tasks ≡ true
    → fits_i64 u.duration_ms ≡ true
    → (t : Store) × (complete_task clock id u s ≡ ok t)
unfolding complete_task
complete_task_total clock id u s h fit =
    let (t, p) =
      finish_total id (completed_row u) (clock 0) (active_reservation id s) (final_event u.status)
        (clock 1) (some (final_message u.status)) s
        (still_present clock id s h (completed_row u) (λ r. refl)) in
    (t, rw fit p)

release_total :
    (clock : Clock) (id message : String) (s : Store)
    → has_row id s.tasks ≡ true
    → (t : Store) × (release_resources clock id message s ≡ ok t)
unfolding release_resources
release_total clock id message s h = elim (Option-cases (active_reservation id s)) [
  | inl e ↦ (s, rw (e, release_resources) refl)
  | inr (r, e) ↦
      let (t, p) =
        log_total clock id s h (released (clock 0)) (λ x. refl) EventType.resource_released
          (clock 1) (some message) (some (EventData.reservation r)) in
      (t, rw (e, release_resources) p)
]

pub find_row-present :
    (id : String) (rows : List TaskRecord)
    → has_row id rows ≡ true
    → (row : TaskRecord) × (find_row id rows ≡ some row)
find_row-present id rows h = elim (Option-cases (find_row id rows)) [
  | inl e ↦ let k = has_row-find_row id rows in let k' = rw e at k in cc
  | inr found ↦ found
]

pub get_task_total :
    (id : String) (s : Store)
    → has_row id s.tasks ≡ true
    → (row : TaskRecord) × (get_task id s ≡ ok row)
unfolding get_task
get_task_total id s h =
    let (row, found) = find_row-present id s.tasks h in (row, rw (found, get_task) refl)

pub request_cancel_total :
    (clock : Clock) (id : String) (s : Store)
    → has_row id s.tasks ≡ true
    → (t : Store) × (row : TaskRecord) × (set_cancel_requested clock id s ≡ ok (row, t))
unfolding set_cancel_requested
request_cancel_total clock id s h =
    let f = cancel_requested (clock 0) in
    let (t, p) =
      log_total clock id s h f (λ r. refl) EventType.kill_requested (clock 1)
        (some "kill requested") none in
    let moved = tasks-insert_event_tx id _ _ _ _ (update id f s) t p in
    let (row, q) =
      get_task_total id t (ap (has_row id) moved ∙ still_present clock id s h f (λ r. refl)) in
    (t, row, rw (p, q) refl)

-- A write on a task that is in the table succeeds, whatever the status of the task, when the
-- duration that a completion records fits in 63 bits.
pub apply_total :
    (w : Write) (clock : Clock) (id : String) (s : Store)
    → has_row id s.tasks ≡ true
    → fits w ≡ true
    → (t : Store) × (apply w clock id s ≡ ok t)
unfolding apply
apply_total (dispatch shim_pid) clock id s h fit =
    (update id (dispatched shim_pid (clock 0)) s, refl)
apply_total (start pid pgid path) clock id s h fit =
    log_total clock id s h (started pid pgid path (clock 0)) (λ r. refl) _ _ _ _
apply_total (reserve r message) clock id s h fit =
    log_total clock id s h (reserved r (clock 0)) (λ x. refl) _ _ _ _
apply_total (release message) clock id s h fit = release_total clock id message s h
apply_total request_cancel clock id s h fit =
    let (t, row, p) = request_cancel_total clock id s h in (t, rw p refl)
apply_total time_out clock id s h fit =
    log_total clock id s h (timed_out (clock 0)) (λ r. refl) _ _ _ _
apply_total (cancel error) clock id s h fit =
    let f = cancelled_row id error (clock 0) in
    finish_total id f _ _ _ _ _ s (still_present clock id s h f (λ r. ground arith))
apply_total (complete u) clock id s h fit = complete_task_total clock id u s h fit
apply_total recover clock id s h fit =
    log_total clock id s h (recovered (clock 0)) (λ r. ground arith) _ _ _ _
apply_total lose clock id s h fit =
    complete_task_total (λ k. clock (1 + k)) id (recovery_lost (clock 0)) s h refl
