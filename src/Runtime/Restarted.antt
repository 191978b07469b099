-- ===== src/Runtime/Restarted.antt =====
-- The whole recovery: what it leaves of the table.
use execgo_runtime.Base.{
  String, ◌≡◌, ◌≢◌, refl, sym, ap, ◌∙◌, ◌⊎◌, inl, inr, true, false, Bool-cases, some, List, [], ◌∷◌,
  arith, keep, All, str_eq, eq_iff,
}
use execgo_runtime.Errors.{ok, err}
use execgo_runtime.Types.Status.{TaskStatus}
use execgo_runtime.Repo.Rows.{TaskRecord, Store, find_row}
use execgo_runtime.Repo.Queries.{list_non_terminal, is_open, older}
use execgo_runtime.Repo.Touch.{Touches, keys, has_key, has_row-keys}
use execgo_runtime.Repo.Totality.{has_row-find_row}
use execgo_runtime.Runtime.Ending.{find_row-task_id}
use execgo_runtime.Repo.Consistent.{Distinct, All-map}
use execgo_runtime.Runtime.Sorted.{
  InList, Distinct-sort_by, InList-sort_by, All-sort_by, Distinct-keep, InList-keep, All-keep,
}
use execgo_runtime.Runtime.Dispatch.{Progress, then_rest}
use execgo_runtime.Runtime.Recovery.{Restart, recover_task, recover_tasks, recover}
use execgo_runtime.Runtime.Recovered.{IsSound, Recovers, EndsRecovered, recover_task-EndsRecovered}

-- The row that the table has under an identifier.
abbrev pub IsCurrent : List TaskRecord → TaskRecord → Type 0
IsCurrent rows row = find_row row.task_id rows ≡ some row

find_row-InList :
    (id : String) (rows : List TaskRecord) (row : TaskRecord)
    → find_row id rows ≡ some row
    → InList row rows
unfolding find_row
find_row-InList id [] row h = cc
find_row-InList id (x ∷ rows) row h = elim (Bool-cases (str_eq x.task_id id)) [
  | inl e ↦ let h' = rw (e, find_row) at h in inl (cc)
  | inr e ↦ inr (find_row-InList id rows row (rw (e, find_row) at h))
]

find_row-has_key :
    (id : String) (rows : List TaskRecord) (row : TaskRecord)
    → find_row id rows ≡ some row
    → has_key id (keys rows) ≡ true
find_row-has_key id rows row h = sym (has_row-keys id rows) ∙ has_row-find_row id rows ∙ rw h refl

-- The rows of a table with distinct identifiers are the ones found under them.
pub rows-IsCurrent : (rows : List TaskRecord) → Distinct (keys rows) → All (IsCurrent rows) rows
unfolding find_row
rows-IsCurrent [] d = tt
rows-IsCurrent (x ∷ rows) d = (
  rw ((eq_iff x.task_id x.task_id).1 refl) refl,
  All-map rows
      (λ row current. elim (Bool-cases (str_eq x.task_id row.task_id)) [
        | inl e ↦
            let named : x.task_id ≡ row.task_id = (eq_iff x.task_id row.task_id).0 e in
            let there = find_row-has_key row.task_id rows row current in
            let gone = rw named at d.0 in cc
        | inr e ↦ rw e current
      ])
      (rows-IsCurrent rows d.1),
)

module _ (restart : Restart) where
  -- Every task of the table is sound, or is in the list of those that are left.
  abbrev Pending : Store → List TaskRecord → Type 0
  Pending s rest =
      (id : String) (row : TaskRecord)
      → find_row id s.tasks ≡ some row
      → IsSound restart row ⊎ InList row rest

  -- Every task of the table is sound.
  abbrev pub AllSound : Store → Type 0
  AllSound s =
      (id : String) (row : TaskRecord) → find_row id s.tasks ≡ some row → IsSound restart row

  abbrev pub EndsSound : Progress (Unit {0}) → Type 0
  EndsSound (t, ok x) = AllSound t
  EndsSound (t, err e) = Unit

  then_rest-EndsSound :
      (id : String) (s : Store) (part : Progress (Unit {0}))
      (rest : Unit {0} → Store → Progress (Unit {0}))
      → EndsRecovered restart id s part
      → ((x : Unit {0}) (t : Store) → Recovers restart id s t → EndsSound (rest x t))
      → EndsSound (then_rest part rest)
  then_rest-EndsSound id s (t, ok x) rest r h = h x t r
  then_rest-EndsSound id s (t, err e) rest r h = tt

  -- The tasks that are left are still as the table has them.
  IsCurrent-after :
      (id : String) (s t : Store) (rest : List TaskRecord)
      → Touches id s t
      → has_key id (keys rest) ≡ false
      → All (IsCurrent s.tasks) rest
      → All (IsCurrent t.tasks) rest
  IsCurrent-after id s t [] w h c = tt
  IsCurrent-after id s t (x ∷ rest) w h c = (
    w.rows x.task_id (λ same. ground (arith, same, eq_iff x.task_id id)) ∙ c.0,
    IsCurrent-after id s t rest w (ground arith) c.1,
  )

  Pending-after :
      (task : TaskRecord) (s t : Store) (rest : List TaskRecord)
      → Recovers restart task.task_id s t
      → Pending s (task ∷ rest)
      → Pending t rest
  Pending-after task s t rest r pending id row found = elim (Bool-cases (str_eq id task.task_id)) [
    | inl e ↦
        let named : id ≡ task.task_id = (eq_iff id task.task_id).0 e in
        let there = r.found in
        let here = rw named at found in let same : r.row ≡ row = cc in inl (rw (← same) r.sound)
    | inr e ↦
        let other : id ≢ task.task_id = λ p. ground (arith, p, eq_iff id task.task_id) in
        let before = sym (r.touches.rows id other) ∙ found in
        elim (pending id row before) [
          | inl sound ↦ inl sound
          | inr (inl same) ↦
              elim (other (
                sym (find_row-task_id id s.tasks row before)
                ∙ ap (λ (q : TaskRecord). q.task_id) same)) [ ]
          | inr (inr there) ↦ inr there
        ]
  ]

  recover_tasks-EndsSound :
      (rest : List TaskRecord) (s : Store)
      → Distinct (keys rest)
      → All (IsCurrent s.tasks) rest
      → Pending s rest
      → EndsSound (recover_tasks restart rest s)
  unfolding recover_tasks
  recover_tasks-EndsSound [] s d c pending = λ id row found. elim (pending id row found) [
    | inl sound ↦ sound
    | inr none_left ↦ elim none_left [ ]
  ]
  recover_tasks-EndsSound (task ∷ rest) s d c pending =
      then_rest-EndsSound task.task_id s (recover_task restart task s)
        (λ x. recover_tasks restart rest)
        (recover_task-EndsRecovered restart task.task_id s task c.0 refl)
        λ x t r.
          recover_tasks-EndsSound rest t d.1
            (IsCurrent-after task.task_id s t rest r.touches d.0 c.1)
            (Pending-after task s t rest r pending)

  closed-IsSound : (row : TaskRecord) → is_open row ≡ false → IsSound restart row
  closed-IsSound row e = record {
    waiting = λ w. ground arith;
    holding = λ w. ground arith;
    alive = λ w. elim (still_open w) [ ];
  }
    where
      still_open : row.status ≡ TaskStatus.running → ⊥
      still_open w = ground arith

  -- In a table of distinct tasks, a recovery that does not fail leaves every task sound: a task that
  -- waits holds no reservation, and a task that runs holds one and has a shim that is alive.
  pub recover-EndsSound : (s : Store) → Distinct (keys s.tasks) → EndsSound (recover restart s)
  unfolding recover list_non_terminal
  recover-EndsSound s d =
      recover_tasks-EndsSound (list_non_terminal s) s
        (Distinct-sort_by older (keep is_open s.tasks) (Distinct-keep is_open s.tasks d))
        (All-sort_by older (IsCurrent s.tasks) (keep is_open s.tasks)
          (All-keep is_open (IsCurrent s.tasks) s.tasks (rows-IsCurrent s.tasks d)))
        λ id row found. elim (Bool-cases (is_open row)) [
          | inl e ↦ inr (
              InList-sort_by older row (keep is_open s.tasks)
                (InList-keep is_open row s.tasks e (find_row-InList id s.tasks row found)))
          | inr e ↦ inl (closed-IsSound row e)
        ]
