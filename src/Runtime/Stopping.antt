-- ===== src/Runtime/Stopping.antt =====
-- The steps of a kill: the read of the task, the check of its owner, the stored request, and the
-- cancellation.
use execgo_runtime.Base.{
  str_append, eq_iff, str_eq, Option-cases, ◌+◌, String, ◌≡◌, refl, sym, ap, ◌∙◌, true, Option,
  none, some, inl, inr, ◌≢◌, Bool-cases, map_option,
}
use execgo_runtime.Errors.{ok, err, permission_denied, >>=-eq-ok, ok_injective}
use execgo_runtime.Types.Status.{EventType, TaskStatus}
use execgo_runtime.Repo.Rows.{TaskRecord, Store, Clock, find_row, has_row, insert_event_tx, update}
use execgo_runtime.Repo.Writes.{get_task, set_cancel_requested, cancel_requested, is_accepted}
use execgo_runtime.Repo.Finish.{cancelled_row}
use execgo_runtime.Repo.Effects.{Write, apply}
use execgo_runtime.Repo.Lifecycle.{row-apply, tasks-request_cancel, find_row-update_row_self}
use execgo_runtime.Repo.Totality.{apply_total, request_cancel_total, has_row-find_row}
use execgo_runtime.Runtime.Dispatch.{cancelled_before}
use execgo_runtime.Runtime.Kill.{Killer, Others, owner_of, check_owner, stop_task}

pub has_row-found :
    (id : String) (s : Store) (row : TaskRecord)
    → find_row id s.tasks ≡ some row
    → has_row id s.tasks ≡ true
has_row-found id s row found = has_row-find_row id s.tasks ∙ rw found refl

pub get_task-found :
    (id : String) (s : Store) (row : TaskRecord)
    → find_row id s.tasks ≡ some row
    → get_task id s ≡ ok row
unfolding get_task
get_task-found id s row found = rw (found, get_task) refl

-- The request for a cancellation succeeds, and returns the row that it leaves.
pub request_row :
    (clock : Clock) (id : String) (s : Store) (row : TaskRecord)
    → find_row id s.tasks ≡ some row
    → (t : Store) × (set_cancel_requested clock id s ≡ ok (cancel_requested (clock 0) row, t))
      × (find_row id t.tasks ≡ some (cancel_requested (clock 0) row))
unfolding set_cancel_requested
request_row clock id s row found =
    let (t, task, done) = request_cancel_total clock id s (has_row-found id s row found) in
    let written = tasks-request_cancel clock id s t task done in
    let moved =
      ap (find_row id) written
      ∙ find_row-update_row_self id (cancel_requested (clock 0)) (λ r. refl) s.tasks
      ∙ ap (map_option (cancel_requested (clock 0))) found in
    let (x, p, q) =
      >>=-eq-ok
        (insert_event_tx id EventType.kill_requested (clock 1) (some "kill requested") none
          (update id (cancel_requested (clock 0)) s))
        _ (task, t) done in
    let (y, p', q') = >>=-eq-ok (get_task id x) _ (task, t) q in
    let pair = ok_injective q' in
    let same : x ≡ t = ap (λ z. z.1) pair in
    let read = get_task-found id t (cancel_requested (clock 0) row) moved in
    let task_row : task ≡ cancel_requested (clock 0) row =
      sym (ap (λ z. z.0) pair) ∙ ok_injective (sym p' ∙ ap (get_task id) same ∙ read) in
    (t, done ∙ ap (λ z. ok (z, t)) task_row, moved)

-- The tables after the rest of a kill of a task that waited when the request was stored: it is
-- cancelled if it still waits.
pub stop_waiting :
    (killer : Killer) (between : Others) (id : String) (updated met : TaskRecord) (s : Store)
    → find_row id s.tasks ≡ some met
    → is_accepted updated ≡ true
    → find_row id (stop_task killer between id updated s).0.tasks
      ≡ some (cancelled_row id cancelled_before (killer.clock 2) met)
unfolding stop_task apply
stop_waiting killer between id updated met s found waits =
    let clock : Clock = λ k. killer.clock (2 + k) in
    let (t, done) =
      apply_total (Write.cancel cancelled_before) clock id s (has_row-found id s met found) refl in
    let row = row-apply (Write.cancel cancelled_before) clock id s t done in
    let stopped : (stop_task killer between id updated s).0 ≡ t =
      rw (waits, stop_task, done) refl in
    ap (λ (z : Store). find_row id z.tasks) stopped
    ∙ row
    ∙ ap (map_option (cancelled_row id cancelled_before (killer.clock 2))) found

-- A task that runs by the time of the cancellation stays as it is.
pub stop_running :
    (killer : Killer) (between : Others) (id : String) (updated met : TaskRecord) (s : Store)
    → find_row id s.tasks ≡ some met
    → met.status ≡ TaskStatus.running
    → find_row id (stop_task killer between id updated s).0.tasks ≡ some met
unfolding stop_task
stop_running killer between id updated met s found runs = elim (Bool-cases (is_accepted updated)) [
  | inl waits ↦ stop_waiting killer between id updated met s found waits ∙ rw runs refl
  | inr signalled ↦ rw (signalled, stop_task) found
]

-- The owner of a task, if it has one, is the only caller that may kill it.
abbrev pub MayKill : Option String → TaskRecord → Type 0
MayKill caller row = (owner : String) → owner_of row ≡ some owner → caller ≡ some owner

abbrev wanted : String → String
wanted owner = str_append "kill requires owner '" (str_append owner "'")

pub check_owner_lem :
    (row : TaskRecord) (caller : Option String)
    → (MayKill caller row → check_owner row caller ≡ ok tt)
      × ((owner : String)
          → owner_of row ≡ some owner
          → caller ≢ some owner
          → (reason : String) × (check_owner row caller ≡ err (permission_denied reason)))
unfolding check_owner
check_owner_lem row caller = elim (Option-cases (owner_of row)) [
  | inl free ↦ ((λ may. rw (free, check_owner) refl), (λ owner owned other. absurd cc))
  | inr (name, taken) ↦ elim (Option-cases caller) [
    | inl nobody ↦ (
      (λ may. let same = may name taken in absurd cc),
      (λ owner owned other. (wanted name, rw (taken, nobody, check_owner) refl)),
    )
    | inr (own, called) ↦ elim (Bool-cases (str_eq own name)) [
      | inl equal ↦
          let same : own ≡ name = (eq_iff own name).0 equal in
          (
            (λ may. rw (taken, called, check_owner, equal) refl),
            (λ owner owned other. absurd (other cc)),
          )
      | inr differ ↦ (
        (λ may.
            let same : own ≡ name = cc (may name taken) in
            let equal : str_eq own name ≡ true = (eq_iff own name).1 same in absurd cc),
        (λ owner owned other. (wanted name, rw (taken, called, check_owner, differ) refl)),
      )
    ]
  ]
]
