-- ===== src/Repo/History.antt =====
-- The log of events over the transitions of the tables.
use execgo_runtime.Base.{
  ℕ, suc, ◌≤◌, ◌<◌, ◌≡◌, refl, String, not, str_eq, Bool, Bool-cases, inl, inr, List, [], ◌∷◌, All,
  All-append, keep, arith,
}
use mathlib.Core.List.{Memᴰ}
use execgo_runtime.Repo.Rows.{EventRecord, Store}
use execgo_runtime.Repo.Writes.{insert_task, new_row}
use execgo_runtime.Repo.Finish.{delete_task}
use execgo_runtime.Repo.Touch.{Touches, Numbered}
use execgo_runtime.Repo.Effects.{apply-Touches}
use execgo_runtime.Repo.Consistent.{
  Step, write, insert, delete, Reach, here, next, inserted, insert_events-Touches,
}

-- The events with numbers below `n`, all of them given out, have a property.
abbrev Below : ℕ → (EventRecord → Type 0) → Store → Type 0
Below n P s = (n ≤ s.next_seq) × All (λ e. e.seq < n → P e) s.events

module _ (n : ℕ) (P : EventRecord → Type 0) where
  Numbered-above :
      (k m : ℕ) (es : List EventRecord)
      → n ≤ k
      → Numbered k es m
      → (n ≤ m) × All (λ e. e.seq < n → P e) es
  Numbered-above k m [] low h = (omega arith, tt)
  Numbered-above k m (e ∷ es) low h =
      let rest = Numbered-above (suc k) m es (omega arith) h.1 in
      (rest.0, ((λ below. absurd (omega (arith, h.0))), rest.1))

  Touches-Below : (id : String) (s t : Store) → Touches id s t → Below n P s → Below n P t
  Touches-Below id s t w h =
      let new = Numbered-above s.next_seq t.next_seq w.added h.0 w.numbered in
      (new.0, rw (w.log) (All-append _ s.events w.added h.1 new.1))

  All-keep :
      (test : EventRecord → Bool) (es : List EventRecord)
      → All (λ e. e.seq < n → P e) es
      → All (λ e. e.seq < n → P e) (keep test es)
  All-keep test [] h = tt
  All-keep test (x ∷ es) h = elim (Bool-cases (test x)) [
    | inl e ↦ rw e (h.0, All-keep test es h.1)
    | inr e ↦ rw e (All-keep test es h.1)
  ]

  Step-Below : {s t : Store} → Step s t → Below n P s → Below n P t
  unfolding insert_task delete_task
  Step-Below {s} {t} (write w clock id e) h =
      Touches-Below id s t (apply-Touches w clock id s t e) h
  Step-Below {s} {t} (insert new clock e) h =
      let row = new_row new (clock 0) in
      Touches-Below new.task_id (inserted row s) t
        (insert_events-Touches new clock (inserted row s) t (ground arith)) h
  Step-Below {s} {t} (delete id e) h =
      let same : record s {
        tasks = keep (λ task. not (str_eq task.task_id id)) s.tasks;
        events = keep (λ event. not (str_eq event.task_id id)) s.events;
      }
          ≡ t =
        cc in
      rw (← same) (h.0, All-keep (λ event. not (str_eq event.task_id id)) s.events h.1)

  pub Reach-Below : {s t : Store} → Reach s t → Below n P s → Below n P t
  Reach-Below here h = h
  Reach-Below (next r step) h = Step-Below step (Reach-Below r h)

All-Memᴰ :
    (P : EventRecord → Type 0) (es : List EventRecord)
    → ((e : EventRecord) → Memᴰ e es → P e)
    → All P es
All-Memᴰ P [] f = tt
All-Memᴰ P (e ∷ es) f = (f e (Memᴰ.head refl), All-Memᴰ P es (λ d m. f d (Memᴰ.tail m)))

-- The log of `t` continues that of `s`: the next number has not fallen, and every event of `t` with a
-- number that was given out before `s` is an event of `s`.
pub record Continues (s t : Store) : Type 0 where
  pub risen : s.next_seq ≤ t.next_seq
  pub unaltered : All (λ (e : EventRecord). e.seq < s.next_seq → Memᴰ e s.events) t.events

pub Reach-Continues : {s t : Store} → Reach s t → Continues s t
Reach-Continues {s} r =
    let (risen, unaltered) =
      Reach-Below s.next_seq (λ e. Memᴰ e s.events) r
        (omega arith, All-Memᴰ _ s.events (λ e m below. m)) in
    record { risen = risen; unaltered = unaltered }
