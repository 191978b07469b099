-- ===== src/Runtime/Turns.antt =====
-- The turns of the watch of a task return, and keep the task in the table, when the service does.
use execgo_runtime.Base.{
  ◌+◌, String, ◌≡◌, refl, sym, ap, ◌∙◌, inl, inr, Bool, true, Bool-cases, List, [], ◌∷◌, All,
}
use execgo_runtime.Errors.{AppResult, ok, err}
use execgo_runtime.Repo.Rows.{Store, Clock, has_row}
use execgo_runtime.Repo.Writes.{is_cancel_requested}
use execgo_runtime.Repo.Touch.{has_key, has_row-keys}
use execgo_runtime.Repo.Effects.{Write, apply, apply-Touches}
use execgo_runtime.Repo.Totality.{apply_total, find_row-present, fits}
use execgo_runtime.Runtime.Dispatch.{Progress, then_write, then_rest}
use execgo_runtime.Runtime.Watch.{Limit, Turn, Watch, times_out, turn_write, poll_turn, poll_turns}

-- The task stays in the table over what the service does.
abbrev pub KeepsTask : String → (Store → Store) → Type 0
KeepsTask id f = (s : Store) → has_row id s.tasks ≡ true → has_row id (f s).tasks ≡ true

-- A result without an error, of which `P` holds.
abbrev pub Returns : {A : Type 0} → (A → Store → Type 0) → Progress A → Type 0
Returns P (t, ok a) = P a t
Returns P (t, err e) = ⊥

pub then_write-Returns :
    {A : Type 0} (P : A → Store → Type 0) (write : AppResult Store) (s t : Store)
    (rest : Store → Progress A)
    → write ≡ ok t
    → Returns P (rest t)
    → Returns P (then_write write s rest)
then_write-Returns P write s t rest e h = rw e h

pub then_rest-Returns :
    {A B : Type 0} (P : A → Store → Type 0) (Q : B → Store → Type 0) (part : Progress A)
    (rest : A → Store → Progress B)
    → Returns P part
    → ((a : A) (t : Store) → P a t → Returns Q (rest a t))
    → Returns Q (then_rest part rest)
then_rest-Returns P Q (t, ok a) rest p h = h a t p
then_rest-Returns P Q (t, err e) rest p h = elim p [ ]

module _ (id : String) where
  abbrev pub InTable : {A : Type 0} → A → Store → Type 0
  InTable a t = has_row id t.tasks ≡ true

  -- A write on the task, which keeps it in the table.
  pub write_present :
      (w : Write) (clock : Clock) (s : Store)
      → has_row id s.tasks ≡ true
      → fits w ≡ true
      → (t : Store) × (apply w clock id s ≡ ok t) × (has_row id t.tasks ≡ true)
  write_present w clock s present fit =
      let (t, done) = apply_total w clock id s present fit in
      (
        t,
        done,
        has_row-keys id t.tasks
            ∙ ap (has_key id) (apply-Touches w clock id s t done).kept
            ∙ sym (has_row-keys id s.tasks)
            ∙ present,
      )

  pub is_cancel_requested_total :
      (s : Store) → has_row id s.tasks ≡ true → (b : Bool) × (is_cancel_requested id s ≡ ok b)
  unfolding is_cancel_requested
  is_cancel_requested_total s present =
      let (row, found) = find_row-present id s.tasks present in
      (row.kill_requested, rw (found, is_cancel_requested) refl)

  turn_write_present :
      (limit : Limit) (turn : Turn) (w : Watch) (s : Store)
      → has_row id s.tasks ≡ true
      → (t : Store) × (turn_write limit id turn w s ≡ ok t) × (has_row id t.tasks ≡ true)
  unfolding turn_write apply
  turn_write_present limit turn w s present = elim (Bool-cases (times_out limit turn w)) [
    | inl e ↦
        let (t, done, kept) = write_present Write.time_out (λ k. turn.now (1 + k)) s present refl in
        (t, rw (e, turn_write) done, kept)
    | inr e ↦ (s, rw (e, turn_write) refl, present)
  ]

  poll_turn-Returns :
      (limit : Limit) (turn : Turn) (w : Watch) (s : Store)
      → KeepsTask id turn.before
      → has_row id s.tasks ≡ true
      → Returns InTable (poll_turn limit id turn w s)
  unfolding poll_turn
  poll_turn-Returns limit turn w s keeps present =
      let here = keeps s present in
      let (b, read) = is_cancel_requested_total (turn.before s) here in
      let (t, done, kept) = turn_write_present limit turn w (turn.before s) here in
      rw (read, poll_turn, done) kept

  pub poll_turns-Returns :
      (limit : Limit) (turns : List Turn) (w : Watch) (s : Store)
      → All (λ (turn : Turn). KeepsTask id turn.before) turns
      → has_row id s.tasks ≡ true
      → Returns InTable (poll_turns limit id turns w s)
  unfolding poll_turns
  poll_turns-Returns limit [] w s keeps present = present
  poll_turns-Returns limit (turn ∷ rest) w s keeps present =
      then_rest-Returns InTable InTable (poll_turn limit id turn w s) (poll_turns limit id rest)
        (poll_turn-Returns limit turn w s keeps.0 present)
        λ next t here. poll_turns-Returns limit rest next t keeps.1 here
