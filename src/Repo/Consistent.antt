-- ===== src/Repo/Consistent.antt =====
-- The invariant of the two tables, in every state that the operations of the repository reach.
use mathlib.Core.List.{map-append}
use execgo_runtime.Base.{
  ◌&&◌, ◌||◌, ℕ, suc, ◌≤◌, String, ◌≡◌, refl, sym, ◌∙◌, Bool, true, false, not, List, [], ◌∷◌, ◌++◌,
  All, All-append, keep, arith, eq_iff, str_eq, Bool-cases, inl, inr, some, none,
}
use execgo_runtime.Errors.{>>=-eq-ok, AppResult, ok, ◌>>=◌}
use execgo_runtime.Types.Status.{EventType}
use execgo_runtime.Repo.Rows.{
  TaskRecord, NewTaskRecord, EventData, EventRecord, Store, Clock, has_row, insert_event_tx,
}
use execgo_runtime.Repo.Writes.{insert_degraded, insert_events, insert_task, new_row}
use execgo_runtime.Repo.Finish.{delete_task}
use execgo_runtime.Repo.Touch.{
  Touches, Touches-refl, Touches-trans, insert_event_tx-Touches, Numbered, keys, has_key,
  has_row-keys,
}
use execgo_runtime.Repo.Effects.{Write, apply, apply-Touches}

-- No identifier stands twice.
abbrev pub Distinct : List String → Type 0
Distinct [] = Unit
Distinct (k ∷ ks) = (has_key k ks ≡ false) × Distinct ks

-- The numbers of the events rise from at least `lo` to below `hi`.
abbrev pub Ascending : ℕ → List EventRecord → ℕ → Type 0
Ascending lo [] hi = lo ≤ hi
Ascending lo (e ∷ es) hi = (lo ≤ e.seq) × Ascending (suc e.seq) es hi

-- Task identifiers are unique, every event belongs to a task of the table, and the events are in the
-- order of their numbers, all below the next number.
pub record IsConsistent (s : Store) : Type 0 where
  pub unique : Distinct (keys s.tasks)
  pub owned : All (λ (e : EventRecord). has_key e.task_id (keys s.tasks) ≡ true) s.events
  pub ordered : Ascending 0 s.events s.next_seq

Ascending-Numbered :
    (lo n m : ℕ) (xs ys : List EventRecord)
    → Ascending lo xs n
    → Numbered n ys m
    → Ascending lo (xs ++ ys) m
Ascending-Numbered lo n m [] [] h e = omega arith
Ascending-Numbered lo n m [] (y ∷ ys) h e =
    (omega (arith, e.0), Ascending-Numbered (suc y.seq) (suc n) m [] ys (omega (arith, e.0)) e.1)
Ascending-Numbered lo n m (x ∷ xs) ys h e = (h.0, Ascending-Numbered (suc x.seq) n m xs ys h.1 e)

pub All-map :
    {A : Type 0} {P Q : A → Type 0} (xs : List A) → ((a : A) → P a → Q a) → All P xs → All Q xs
All-map [] f h = tt
All-map (x ∷ xs) f h = (f x h.0, All-map xs f h.1)

-- A change that touches one task of the table keeps the invariant.
Touches-IsConsistent :
    (id : String) (s t : Store) → Touches id s t → IsConsistent s → IsConsistent t
Touches-IsConsistent id s t w c = record {
  unique = rw (w.kept) c.unique;
  owned = rw (w.log, w.kept) (All-append _ s.events w.added c.owned w.known);
  ordered =
      rw (w.log) (Ascending-Numbered 0 s.next_seq t.next_seq s.events w.added c.ordered w.numbered);
}

-- The transitions of the tables: a write on a task, a new task, a deletion.
pub data Step (s t : Store) : Type 0 where
  write : (w : Write) (clock : Clock) (id : String) → apply w clock id s ≡ ok t → Step s t
  insert : (new : NewTaskRecord) (clock : Clock) → insert_task clock new s ≡ ok t → Step s t
  delete : (id : String) → delete_task id s ≡ ok t → Step s t

pub data Reach (s : Store) : Store → Type 0 where
  here : Reach s s
  next : {t u : Store} → Reach s t → Step t u → Reach s u

has_key-append :
    (k id : String) (ks : List String) → has_key k (ks ++ id ∷ []) ≡ (has_key k ks || str_eq id k)
has_key-append k id [] = ground arith
has_key-append k id (j ∷ ks) = ground (arith, has_key-append k id ks)

Distinct-append :
    (id : String) (ks : List String)
    → has_key id ks ≡ false
    → Distinct ks
    → Distinct (ks ++ id ∷ [])
Distinct-append id [] h d = (refl, tt)
Distinct-append id (k ∷ ks) h d = (
  ground (arith, has_key-append k id ks, eq_iff k id, eq_iff id k),
  Distinct-append id ks (ground arith) d.1,
)

-- What `insert_task` does before its events.
abbrev pub inserted : TaskRecord → Store → Store
inserted row s = record s { tasks = s.tasks ++ row ∷ [] }

inserted-IsConsistent :
    (row : TaskRecord) (s : Store)
    → has_row row.task_id s.tasks ≡ false
    → IsConsistent s
    → IsConsistent (inserted row s)
inserted-IsConsistent row s h c = record {
  unique = rw (map-append _ s.tasks (row ∷ [])) (
      Distinct-append row.task_id (keys s.tasks) (sym (has_row-keys row.task_id s.tasks) ∙ h)
        c.unique);
  owned = rw (map-append _ s.tasks (row ∷ [])) (
      All-map s.events
        (λ e known. ground (arith, has_key-append e.task_id row.task_id (keys s.tasks))) c.owned);
  ordered = c.ordered;
}

insert_degraded-Touches :
    (new : NewTaskRecord) (time : ℕ) (s t : Store)
    → insert_degraded new time s ≡ ok t
    → Touches new.task_id s t
unfolding insert_degraded
insert_degraded-Touches new time s t h = elim (Bool-cases new.execution_plan.degraded) [
  | inl e ↦
      insert_event_tx-Touches new.task_id EventType.degraded time _ _ s t
        (rw (e, insert_degraded) at h)
  | inr e ↦
      let h' = rw (e, insert_degraded) at h in
      let same : s ≡ t = cc in rw (← same) (Touches-refl new.task_id s)
]

-- The events of a new task, after its row.
pub insert_events-Touches :
    (new : NewTaskRecord) (clock : Clock) (s t : Store)
    → insert_events new clock s ≡ ok t
    → Touches new.task_id s t
unfolding insert_events
insert_events-Touches new clock s t h =
    let (s₁, p₁, h₁) = >>=-eq-ok (first s) (λ x. second x >>= λ y. third y >>= last) t h in
    let (s₂, p₂, h₂) = >>=-eq-ok (second s₁) (λ y. third y >>= last) t h₁ in
    let (s₃, p₃, h₃) = >>=-eq-ok (third s₂) last t h₂ in
    Touches-trans new.task_id (insert_event_tx-Touches new.task_id _ _ _ _ s s₁ p₁) (
      Touches-trans new.task_id (insert_event_tx-Touches new.task_id _ _ _ _ s₁ s₂ p₂) (
        Touches-trans new.task_id (insert_event_tx-Touches new.task_id _ _ _ _ s₂ s₃ p₃)
          (insert_degraded-Touches new (clock 4) s₃ t h₃)))
  where
    first : Store → AppResult Store
    first = insert_event_tx new.task_id EventType.submitted (clock 1) (some "task submitted") none

    second : Store → AppResult Store
    second = insert_event_tx new.task_id EventType.accepted (clock 2) (some "task accepted") none

    third : Store → AppResult Store
    third =
        insert_event_tx new.task_id EventType.planned (clock 3) (some "execution plan resolved")
          (some (EventData.plan new.execution_plan))

    last : Store → AppResult Store
    last = insert_degraded new (clock 4)

insert_task-IsConsistent :
    (clock : Clock) (new : NewTaskRecord) (s t : Store)
    → insert_task clock new s ≡ ok t
    → IsConsistent s
    → IsConsistent t
unfolding insert_task
insert_task-IsConsistent clock new s t h c =
    Touches-IsConsistent new.task_id (inserted row s) t
      (insert_events-Touches new clock (inserted row s) t (ground arith))
      (inserted-IsConsistent row s (ground arith) c)
  where
    row : TaskRecord
    row = new_row new (clock 0)

-- What the deletion keeps.
has_key-keep :
    (k id : String) (rows : List TaskRecord)
    → has_key k (keys (keep (λ row. not (str_eq row.task_id id)) rows))
      ≡ (has_key k (keys rows) && not (str_eq k id))
has_key-keep k id [] = refl
has_key-keep k id (row ∷ rows) =
    ground (arith, has_key-keep k id rows, eq_iff row.task_id id, eq_iff row.task_id k, eq_iff k id)

Distinct-keep :
    (id : String) (rows : List TaskRecord)
    → Distinct (keys rows)
    → Distinct (keys (keep (λ row. not (str_eq row.task_id id)) rows))
Distinct-keep id [] d = tt
Distinct-keep id (row ∷ rows) d =
    ground (arith, has_key-keep row.task_id id rows, Distinct-keep id rows d.1)

owned-keep :
    (id : String) (rows : List TaskRecord) (es : List EventRecord)
    → All (λ (e : EventRecord). has_key e.task_id (keys rows) ≡ true) es
    → All
        (λ (e : EventRecord).
          has_key e.task_id (keys (keep (λ row. not (str_eq row.task_id id)) rows)) ≡ true)
        (keep (λ e. not (str_eq e.task_id id)) es)
owned-keep id rows [] h = tt
owned-keep id rows (e ∷ es) h =
    ground (arith, has_key-keep e.task_id id rows, owned-keep id rows es h.1)

Ascending-mono :
    (lo n hi : ℕ) (es : List EventRecord) → lo ≤ n → Ascending n es hi → Ascending lo es hi
Ascending-mono lo n hi [] l h = omega arith
Ascending-mono lo n hi (e ∷ es) l h = (omega arith, h.1)

Ascending-keep :
    (p : EventRecord → Bool) (lo hi : ℕ) (es : List EventRecord)
    → Ascending lo es hi
    → Ascending lo (keep p es) hi
Ascending-keep p lo hi [] h = h
Ascending-keep p lo hi (e ∷ es) h =
    let rest = Ascending-keep p (suc e.seq) hi es h.1 in
    ground (arith, rest, Ascending-mono lo (suc e.seq) hi (keep p es) (omega arith) rest)

delete_task-IsConsistent :
    (id : String) (s t : Store) → delete_task id s ≡ ok t → IsConsistent s → IsConsistent t
unfolding delete_task
delete_task-IsConsistent id s t h c =
    let same : kept ≡ t = cc in
    rw (← same) (record {
      unique = Distinct-keep id s.tasks c.unique;
      owned = owned-keep id s.tasks s.events c.owned;
      ordered = Ascending-keep _ 0 s.next_seq s.events c.ordered;
    })
  where
    kept : Store
    kept = record s {
      tasks = keep (λ row. not (str_eq row.task_id id)) s.tasks;
      events = keep (λ e. not (str_eq e.task_id id)) s.events;
    }

Step-IsConsistent : {s t : Store} → Step s t → IsConsistent s → IsConsistent t
Step-IsConsistent {s} {t} (write w clock id h) c =
    Touches-IsConsistent id s t (apply-Touches w clock id s t h) c
Step-IsConsistent {s} {t} (insert new clock h) c = insert_task-IsConsistent clock new s t h c
Step-IsConsistent {s} {t} (delete id h) c = delete_task-IsConsistent id s t h c

-- Every state that the writes, insertions and deletions of the repository reach from a consistent
-- one is consistent: task identifiers are unique, every event belongs to a task of the table, and
-- the events stand in the order of their numbers, all below the next number.
pub Reach-IsConsistent : {s t : Store} → IsConsistent s → Reach s t → IsConsistent t
Reach-IsConsistent c here = c
Reach-IsConsistent c (next r step) = Step-IsConsistent step (Reach-IsConsistent c r)
