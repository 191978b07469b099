-- ===== src/Runtime/Stop.antt =====
-- What a kill leaves of a task, in every case.
use execgo_runtime.Base.{
  String, ◌≡◌, refl, ap, ◌∙◌, true, false, Option, some, inl, inr, arith, ◌≢◌, ℕ,
}
use execgo_runtime.Errors.{AppResult-cases, AppError, ok, err, permission_denied}
use execgo_runtime.Types.Status.{TaskStatus, is_terminal}
use execgo_runtime.Repo.Rows.{TaskRecord, Store, find_row, has_active_reservation}
use execgo_runtime.Repo.Writes.{set_cancel_requested, cancel_requested}
use execgo_runtime.Repo.Finish.{cancelled_row}
use execgo_runtime.Runtime.Dispatch.{Progress, cancelled_before}
use execgo_runtime.Runtime.Kill.{
  Killer, Others, owner_of, check_owner, stop_task, request_kill, kill_owned, kill_task,
}
use execgo_runtime.Runtime.Stopping.{
  get_task-found, request_row, stop_waiting, stop_running, MayKill, check_owner_lem,
}

-- What a kill by `caller` leaves of the task of `row`, from the tables `s`. Before the request is
-- stored the others make the row `asked`, and before the cancellation the row `met`.
pub record IsKilled (id : String) (caller : Option String) (row asked met : TaskRecord) (s : Store)
    (p : Progress TaskRecord) : Type 0 where
  pub refused :
      (owner : String)
      → owner_of row ≡ some owner
      → caller ≢ some owner
      → (p.0 ≡ s) × (reason : String) × (p.1 ≡ err (permission_denied reason))
  pub ended : is_terminal row.status ≡ true → p.0 ≡ s
  pub waiting :
      MayKill caller row
      → is_terminal row.status ≡ false
      → asked.status ≡ TaskStatus.accepted
      → met.status ≡ TaskStatus.accepted
      → (next : TaskRecord) × (find_row id p.0.tasks ≡ some next)
        × (next.status ≡ TaskStatus.cancelled)
        × (has_active_reservation next ≡ false)
        × (next.kill_requested ≡ true)
  pub running :
      MayKill caller row
      → is_terminal row.status ≡ false
      → met.status ≡ TaskStatus.running
      → (next : TaskRecord) × (find_row id p.0.tasks ≡ some next)
        × (next.status ≡ TaskStatus.running)
        × (next.kill_requested ≡ true)

module _ (killer : Killer) (between : Others) (id : String) (caller : Option String) (s : Store)
    (row : TaskRecord) (found : find_row id s.tasks ≡ some row) where
  pub kill_refused :
      (e : AppError)
      → check_owner row caller ≡ err e
      → kill_task killer between id caller s ≡ (s, err e)
  unfolding kill_task
  kill_refused e denied = rw (get_task-found id s row found, kill_task, denied) refl

  pub kill_ended : is_terminal row.status ≡ true → (kill_task killer between id caller s).0 ≡ s
  unfolding kill_task kill_owned
  kill_ended end = elim (AppResult-cases (check_owner row caller)) [
    | inl (x, allowed) ↦
        rw (get_task-found id s row found, kill_task, allowed, kill_owned, end) refl
    | inr (e, denied) ↦ ap (λ p. p.0) (kill_refused e denied)
  ]

  pub kill_open :
      (t : Store) (asked : TaskRecord)
      → check_owner row caller ≡ ok tt
      → is_terminal row.status ≡ false
      → set_cancel_requested killer.clock id (between 0 s) ≡ ok (asked, t)
      → kill_task killer between id caller s ≡ stop_task killer between id asked (between 1 t)
  unfolding kill_task kill_owned request_kill
  kill_open t asked allowed open_task done =
      rw
        (
          get_task-found id s row found,
          kill_task,
          allowed,
          kill_owned,
          open_task,
          request_kill,
          done,
        )
        refl

-- What the others make of the row of a task, which they leave in the table and marked as killed once
-- it is.
pub record Leaves (between : Others) (id : String) (change : ℕ → TaskRecord → TaskRecord)
    : Type 0 where
  pub kept :
      (k : ℕ) (s : Store) (row : TaskRecord)
      → find_row id s.tasks ≡ some row
      → find_row id (between k s).tasks ≡ some (change k row)
  pub marked :
      (k : ℕ) (row : TaskRecord) → row.kill_requested ≡ true → (change k row).kill_requested ≡ true

-- A kill of a task that is in the table, where the others leave its row there and marked as killed
-- once it is, does the following. A caller that is not the owner is refused with permission_denied,
-- and the tables stay as they were; so they do where the task has ended. Else a task that waits when
-- the request is stored and when it is to be cancelled is cancelled, and then holds no reservation; a
-- task that runs by the time of the cancellation, also one that was dispatched after the request, is
-- not cancelled: it runs on, marked as killed. This is so whatever the answers to the signal and of
-- the output files.
pub kill_task-IsKilled :
    (killer : Killer) (between : Others) (change : ℕ → TaskRecord → TaskRecord) (id : String)
    (caller : Option String) (s : Store) (row : TaskRecord)
    → find_row id s.tasks ≡ some row
    → Leaves between id change
    → IsKilled id caller row
        (change 0 row)
        (change 1 (cancel_requested (killer.clock 0) (change 0 row)))
        s
        (kill_task killer between id caller s)
kill_task-IsKilled killer between change id caller s row found leaves =
    let asked = change 0 row in
    let marked = cancel_requested (killer.clock 0) asked in
    let met = change 1 marked in
    let (allow, deny) = check_owner_lem row caller in
    let (t, done, moved) =
      request_row killer.clock id (between 0 s) asked (leaves.kept 0 s row found) in
    let there = leaves.kept 1 t marked moved in
    let still = leaves.marked 1 marked refl in
    let reach : MayKill caller row
        → is_terminal row.status ≡ false
        → kill_task killer between id caller s ≡ stop_task killer between id marked (between 1 t) =
      λ may open_task.
        kill_open killer between id caller s row found t marked (allow may) open_task done in
    record {
      refused = λ owner owned other.
          let (reason, denied) = deny owner owned other in
          let kept =
            kill_refused killer between id caller s row found (permission_denied reason) denied in
          (ap (λ p. p.0) kept, reason, ap (λ p. p.1) kept);
      ended = kill_ended killer between id caller s row found;
      waiting = λ may open_task waits waits_still. (
        cancelled_row id cancelled_before (killer.clock 2) met,
        ap (λ p. find_row id p.0.tasks) (reach may open_task)
            ∙ stop_waiting killer between id marked met (between 1 t) there (rw waits refl),
        rw waits_still refl,
        ground (arith, waits_still),
        rw waits_still still,
      );
      running = λ may open_task runs. (
        met,
        ap (λ p. find_row id p.0.tasks) (reach may open_task)
            ∙ stop_running killer between id marked met (between 1 t) there runs,
        runs,
        still,
      );
    }
