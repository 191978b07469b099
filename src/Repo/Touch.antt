-- ===== src/Repo/Touch.antt =====
-- What a write may change: the row of its task, and events of its task at the end of the log.
use execgo_runtime.Base.{
  str_eq, Bool, true, ℕ, suc, String, ◌≡◌, ◌≢◌, refl, sym, ap, ◌∙◌, Option, List, [], ◌∷◌, ◌++◌,
  All, All-append, map, any, arith, eq_iff,
}
use execgo_runtime.Errors.{ok}
use execgo_runtime.Types.Status.{EventType}
use execgo_runtime.Repo.Rows.{
  TaskRecord, EventData, EventRecord, Store, find_row, has_row, update_row, update, insert_event_tx,
}
use mathlib.Core.List.{append_assoc, append-nil}

-- The events carry the numbers from `n` on, up to and without `m`.
abbrev pub Numbered : ℕ → List EventRecord → ℕ → Type 0
Numbered n [] m = n ≡ m
Numbered n (e ∷ es) m = (e.seq ≡ n) × Numbered (suc n) es m

Numbered-append :
    (n k m : ℕ) (xs ys : List EventRecord)
    → Numbered n xs k
    → Numbered k ys m
    → Numbered n (xs ++ ys) m
Numbered-append n k m [] ys hx hy = rw (sym hx) at hy
Numbered-append n k m (x ∷ xs) ys hx hy = (hx.0, Numbered-append (suc n) k m xs ys hx.1 hy)

-- The identifiers of the tasks, in their places.
abbrev pub keys : List TaskRecord → List String
keys = map λ (r : TaskRecord). r.task_id

abbrev pub has_key : String → List String → Bool
has_key id = any λ k. str_eq k id

pub has_row-keys : (id : String) (rows : List TaskRecord) → has_row id rows ≡ has_key id (keys rows)
has_row-keys id [] = refl
has_row-keys id (r ∷ rows) = ground (arith, has_row-keys id rows)

-- From `s` to `t` the rows of other tasks are the same, every task keeps its place and no task is
-- added or lost, and the log grows at its end by numbered events of the
-- task `id`, which then is in the table.
pub record Touches (id : String) (s t : Store) : Type 0 where
  pub rows : (j : String) → j ≢ id → find_row j t.tasks ≡ find_row j s.tasks
  pub kept : keys t.tasks ≡ keys s.tasks
  pub added : List EventRecord
  pub log : t.events ≡ s.events ++ added
  pub own : All (λ (e : EventRecord). e.task_id ≡ id) added
  pub known : All (λ (e : EventRecord). has_key e.task_id (keys s.tasks) ≡ true) added
  pub numbered : Numbered s.next_seq added t.next_seq

module _ (id : String) where
  pub Touches-refl : (s : Store) → Touches id s s
  Touches-refl s = record {
    rows = λ j h. refl;
    kept = refl;
    added = [];
    log = sym (append-nil s.events);
    own = tt;
    known = tt;
    numbered = refl;
  }

  pub Touches-trans : {s t u : Store} → Touches id s t → Touches id t u → Touches id s u
  Touches-trans {s} {t} {u} a b = record {
    rows = λ j h. b.rows j h ∙ a.rows j h;
    kept = b.kept ∙ a.kept;
    added = a.added ++ b.added;
    log = b.log ∙ ap (λ es. es ++ b.added) a.log ∙ append_assoc s.events a.added b.added;
    own = All-append _ a.added b.added a.own b.own;
    known = All-append _ a.added b.added a.known (rw a.kept at b.known);
    numbered =
        Numbered-append s.next_seq t.next_seq u.next_seq a.added b.added a.numbered b.numbered;
  }

  module _ (f : TaskRecord → TaskRecord) (same : (r : TaskRecord) → (f r).task_id ≡ r.task_id) where
    find_row-update_row_ne :
        (j : String) (rows : List TaskRecord)
        → j ≢ id
        → find_row j (update_row id f rows) ≡ find_row j rows
    unfolding find_row update_row
    find_row-update_row_ne j [] h = refl
    find_row-update_row_ne j (r ∷ rows) h = ground (
      arith,
      same r,
      eq_iff r.task_id id,
      eq_iff r.task_id j,
      eq_iff (f r).task_id j,
      find_row-update_row_ne j rows h,
    )

    keys-update_row : (rows : List TaskRecord) → keys (update_row id f rows) ≡ keys rows
    unfolding update_row
    keys-update_row [] = refl
    keys-update_row (r ∷ rows) = ground (arith, same r, keys-update_row rows)

    pub update-Touches : (s : Store) → Touches id s (update id f s)
    update-Touches s = record {
      rows = λ j h. find_row-update_row_ne j s.tasks h;
      kept = keys-update_row s.tasks;
      added = [];
      log = sym (append-nil s.events);
      own = tt;
      known = tt;
      numbered = refl;
    }

  pub insert_event_tx-Touches :
      (event_type : EventType) (time : ℕ) (message : Option String) (payload : Option EventData)
      (s t : Store)
      → insert_event_tx id event_type time message payload s ≡ ok t
      → Touches id s t
  unfolding insert_event_tx
  insert_event_tx-Touches event_type time message payload s t h = record {
    rows = λ j n. ap (find_row j) unchanged;
    kept = ap keys unchanged;
    added = event ∷ [];
    log = ground arith;
    own = (refl, tt);
    known = (sym (has_row-keys id s.tasks) ∙ present, tt);
    numbered = (refl, ground arith);
  }
    where
      unchanged : t.tasks ≡ s.tasks
      unchanged = ground arith

      present : has_row id s.tasks ≡ true
      present = ground arith

      event : EventRecord
      event = record {
        seq = s.next_seq;
        task_id = id;
        event_type = event_type;
        timestamp = time;
        message = message;
        payload = payload;
      }

  -- A write on the row, followed by one event.
  pub update_and_log-Touches :
      (f : TaskRecord → TaskRecord) (event_type : EventType) (time : ℕ) (message : Option String)
      (payload : Option EventData) (s t : Store)
      → ((r : TaskRecord) → (f r).task_id ≡ r.task_id)
      → insert_event_tx id event_type time message payload (update id f s) ≡ ok t
      → Touches id s t
  update_and_log-Touches f event_type time message payload s t same h =
      Touches-trans (update-Touches f same s)
        (insert_event_tx-Touches event_type time message payload (update id f s) t h)
