-- ===== src/Runtime/Gc.antt =====
-- src/runtime.rs: one pass of gc_loop, which removes the directories and the rows of tasks that ended
-- long ago. A failure is logged, and the pass goes on with the next task.
use execgo_runtime.Base.{
  ℕ, String, ◌≡◌, refl, ◌∙◌, Bool, true, false, not, ◌&&◌, ◌||◌, Bool-cases, inl, inr, none, some,
  List, [], ◌∷◌, arith, if◌then◌else◌, keep, any, insert_by, sort_by, str_eq, eq_iff,
}
use execgo_runtime.Errors.{ok, err}
use execgo_runtime.Repo.Rows.{TaskRecord, Store, find_row}
use execgo_runtime.Repo.Finish.{delete_task}
use execgo_runtime.Repo.Queries.{list_gc_candidates, is_collectable, finished_first}
use execgo_runtime.Repo.Touch.{keys, has_key}
use execgo_runtime.Repo.Consistent.{Distinct}

-- `fs::remove_dir_all`: the directory was removed, was not there, or could not be removed.
pub data Removal : Type 0 where
  removed not_there failed : Removal

abbrev pub is_gone : Removal → Bool
is_gone removed = true
is_gone not_there = true
is_gone failed = false

-- The deletion of a row, of which an error is logged.
unfoldable pub delete_row : String → Store → Store
delete_row id s = elim (delete_task id s) [ ok t ↦ t | err e ↦ s ]

-- The loop over the candidates; `remove` is what the removal of the directory of a task answers.
unfoldable pub gc_tasks : (TaskRecord → Removal) → List TaskRecord → Store → Store
unfolding delete_row
gc_tasks remove [] s = s
gc_tasks remove (task ∷ rest) s =
    gc_tasks remove rest (if is_gone (remove task) then delete_row task.task_id s else s)

-- One pass, for the tasks that have finished at the time `cutoff` or before it.
unfoldable pub gc_pass : (TaskRecord → Removal) → ℕ → Store → Store
unfolding gc_tasks
gc_pass remove cutoff s = gc_tasks remove (list_gc_candidates cutoff s) s

find_row-keep :
    (id j : String) (rows : List TaskRecord)
    → find_row j (keep (λ (task : TaskRecord). not (str_eq task.task_id id)) rows)
      ≡ (if str_eq id j then none else find_row j rows)
unfolding find_row
find_row-keep id j [] = ground arith
find_row-keep id j (x ∷ rows) =
    ground (arith, eq_iff x.task_id id, eq_iff x.task_id j, eq_iff id j, find_row-keep id j rows)

find_row-delete_row :
    (id j : String) (s : Store)
    → find_row j (delete_row id s).tasks ≡ (if str_eq id j then none else find_row j s.tasks)
unfolding delete_row delete_task
find_row-delete_row id j s = find_row-keep id j s.tasks

module _ (remove : TaskRecord → Removal) (id : String) where
  -- The pass deletes the task `id` for this task of its list.
  abbrev hits : TaskRecord → Bool
  hits task = str_eq task.task_id id && is_gone (remove task)

  find_row-gc_tasks :
      (tasks : List TaskRecord) (s : Store)
      → find_row id (gc_tasks remove tasks s).tasks
        ≡ (if any hits tasks then none else find_row id s.tasks)
  unfolding gc_tasks
  find_row-gc_tasks [] s = refl
  find_row-gc_tasks (task ∷ rest) s = elim (Bool-cases (is_gone (remove task))) [
    | inl e ↦
        rw (e, gc_tasks)
          (find_row-gc_tasks rest (delete_row task.task_id s)
            ∙ ground (arith, find_row-delete_row task.task_id id s))
    | inr e ↦ rw (e, gc_tasks) (find_row-gc_tasks rest s ∙ ground arith)
  ]

  any-insert_by :
      (before : TaskRecord → TaskRecord → Bool) (x : TaskRecord) (rows : List TaskRecord)
      → any hits (insert_by before x rows) ≡ (hits x || any hits rows)
  any-insert_by before x [] = refl
  any-insert_by before x (y ∷ rows) = ground (arith, any-insert_by before x rows)

  any-sort_by :
      (before : TaskRecord → TaskRecord → Bool) (rows : List TaskRecord)
      → any hits (sort_by before rows) ≡ any hits rows
  any-sort_by before [] = refl
  any-sort_by before (x ∷ rows) =
      any-insert_by before x (sort_by before rows) ∙ ground (arith, any-sort_by before rows)

  any-keep_none :
      (test : TaskRecord → Bool) (rows : List TaskRecord)
      → has_key id (keys rows) ≡ false
      → any hits (keep test rows) ≡ false
  any-keep_none test [] h = refl
  any-keep_none test (x ∷ rows) h = ground (arith, any-keep_none test rows)

  -- The row found under an identifier decides, where identifiers are distinct.
  any-keep :
      (test : TaskRecord → Bool) (rows : List TaskRecord) (row : TaskRecord)
      → Distinct (keys rows)
      → find_row id rows ≡ some row
      → any hits (keep test rows) ≡ (test row && is_gone (remove row))
  unfolding find_row
  any-keep test [] row d found = cc
  any-keep test (x ∷ rows) row d found = elim (Bool-cases (str_eq x.task_id id)) [
    | inl e ↦
        let found' = rw (e, find_row) at found in
        let same : x ≡ row = cc in
        let named : x.task_id ≡ id = (eq_iff x.task_id id).0 e in
        let alone = any-keep_none test rows (rw named at d.0) in
        rw (← same) (ground (arith, e, alone))
    | inr e ↦
        let rest = any-keep test rows row d.1 (rw (e, find_row) at found) in ground (arith, rest)
  ]

-- In a table of distinct tasks, a pass of the garbage collection deletes a task exactly when it is no
-- longer accepted or running, finished at the cutoff or before it, and its directory is gone; every
-- other task keeps its row.
pub find_row-gc_pass :
    (remove : TaskRecord → Removal) (cutoff : ℕ) (s : Store) (id : String) (row : TaskRecord)
    → Distinct (keys s.tasks)
    → find_row id s.tasks ≡ some row
    → find_row id (gc_pass remove cutoff s).tasks
      ≡ (if is_collectable cutoff row && is_gone (remove row) then none else some row)
unfolding gc_pass list_gc_candidates
find_row-gc_pass remove cutoff s id row d found =
    let hit = any-keep remove id (is_collectable cutoff) s.tasks row d found in
    let sorted = any-sort_by remove id finished_first (keep (is_collectable cutoff) s.tasks) in
    find_row-gc_tasks remove id (list_gc_candidates cutoff s) s ∙ rw (sorted, hit, found) refl
