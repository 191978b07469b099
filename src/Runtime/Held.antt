-- ===== src/Runtime/Held.antt =====
-- What the tasks of the table hold: the exact sums of the amounts of their active reservations, and
-- how the writes of the dispatcher change them.
use execgo_runtime.Base.{
  inl, inr, Bool-cases, str_eq, Bool-cases, ℕ, ◌+◌, ◌≤◌, String, ◌≡◌, refl, false, Option, none,
  some, List, [], ◌∷◌, arith, if◌then◌else◌, eq_iff, unwrap_or,
}
use execgo_runtime.Types.Limits.{TaskResourceReservation}
use execgo_runtime.Types.Status.{RuntimeErrorInfo}
use execgo_runtime.Repo.Rows.{
  TaskRecord, CompletionUpdate, find_row, update_row, has_active_reservation,
}
use execgo_runtime.Repo.Writes.{dispatched, reserved}
use execgo_runtime.Repo.Finish.{cancelled_row, completed_row}
use execgo_runtime.Repo.Touch.{keys, has_key}
use execgo_runtime.Repo.Consistent.{Distinct}

-- The amounts of a reservation; a missing one counts nothing.
abbrev pub slots_of : TaskResourceReservation → ℕ
slots_of r = r.task_slots

abbrev pub memory_of : TaskResourceReservation → ℕ
memory_of r = unwrap_or 0 r.memory_bytes

abbrev pub pids_of : TaskResourceReservation → ℕ
pids_of r = unwrap_or 0 r.pids

module _ (amount : TaskResourceReservation → ℕ) where
  abbrev of_reservation : Option TaskResourceReservation → ℕ
  of_reservation none = 0
  of_reservation (some r) = amount r

  -- What a task holds.
  abbrev pub held : TaskRecord → ℕ
  held row = if has_active_reservation row then of_reservation row.reservation else 0

  -- What the tasks hold together.
  abbrev pub total : List TaskRecord → ℕ
  total [] = 0
  total (row ∷ rows) = held row + total rows

  pub held-cancelled :
      (id : String) (error : RuntimeErrorInfo) (now : ℕ) (row : TaskRecord)
      → held (cancelled_row id error now row) ≤ held row
  held-cancelled id error now row = ground arith

  pub held-dispatched :
      (shim_pid now : ℕ) (row : TaskRecord) → held (dispatched shim_pid now row) ≤ held row
  held-dispatched shim_pid now row = ground arith

  pub held-completed : (u : CompletionUpdate) (row : TaskRecord) → held (completed_row u row) ≡ 0
  held-completed u row = ground arith

  -- A write that lets no row hold more.
  pub total-update_row_le :
      (id : String) (f : TaskRecord → TaskRecord) (rows : List TaskRecord)
      → ((row : TaskRecord) → held (f row) ≤ held row)
      → total (update_row id f rows) ≤ total rows
  unfolding update_row
  total-update_row_le id f [] h = omega arith
  total-update_row_le id f (row ∷ rows) h = ground (arith, h row, total-update_row_le id f rows h)

  pub total-update_row_none :
      (id : String) (f : TaskRecord → TaskRecord) (rows : List TaskRecord)
      → has_key id (keys rows) ≡ false
      → total (update_row id f rows) ≡ total rows
  unfolding update_row
  total-update_row_none id f [] h = refl
  total-update_row_none id f (row ∷ rows) h = ground (arith, total-update_row_none id f rows)

  -- A reservation adds at most its amount.
  pub total-reserved :
      (id : String) (r : TaskResourceReservation) (now : ℕ) (rows : List TaskRecord)
      → Distinct (keys rows)
      → total (update_row id (reserved r now) rows) ≤ total rows + amount r
  unfolding update_row
  total-reserved id r now [] d = omega arith
  total-reserved id r now (row ∷ rows) d = ground (
    arith,
    d.0,
    eq_iff row.task_id id,
    total-update_row_none id (reserved r now) rows,
    total-reserved id r now rows d.1,
  )

  -- A completion frees what the row held.
  pub total-completed :
      (id : String) (u : CompletionUpdate) (rows : List TaskRecord) (row : TaskRecord)
      → Distinct (keys rows)
      → find_row id rows ≡ some row
      → total (update_row id (completed_row u) rows) + held row ≡ total rows
  unfolding update_row find_row
  total-completed id u [] row d found = cc
  total-completed id u (x ∷ rows) row d found = elim (Bool-cases (str_eq x.task_id id)) [
    | inl e ↦
        let found' = rw (e, find_row) at found in
        let same : x ≡ row = cc in
        let none_left = d.0 in
        let named : x.task_id ≡ id = (eq_iff x.task_id id).0 e in
        let gone = rw named at none_left in
        let rest = total-update_row_none id (completed_row u) rows gone in
        rw (← same, e) (omega (arith, held-completed u x, rest))
    | inr e ↦
        let found' = rw (e, find_row) at found in
        rw e (omega (arith, total-completed id u rows row d.1 found'))
  ]
