-- ===== src/Runtime/Sorted.antt =====
-- Sorted lists of the rows that pass a test: their identifiers and their members.
use execgo_runtime.Base.{
  String, ◌≡◌, refl, sym, ap, ◌∙◌, ◌⊎◌, inl, inr, Bool, true, false, Bool-cases, List, [], ◌∷◌,
  arith, keep, insert_by, sort_by, All, eq_iff,
}
use execgo_runtime.Repo.Rows.{TaskRecord}
use execgo_runtime.Repo.Touch.{keys, has_key}
use execgo_runtime.Repo.Consistent.{Distinct}

-- The row is in the list.
abbrev pub InList : TaskRecord → List TaskRecord → Type 0
InList row [] = ⊥
InList row (x ∷ xs) = (row ≡ x) ⊎ InList row xs

-- The sorted list of the tasks that pass a test keeps the identifiers distinct.
module _ (before : TaskRecord → TaskRecord → Bool) where
  has_key-insert_by :
      (k : String) (row : TaskRecord) (rows : List TaskRecord)
      → has_key k (keys (insert_by before row rows)) ≡ has_key k (keys (row ∷ rows))
  has_key-insert_by k row [] = refl
  has_key-insert_by k row (x ∷ rows) = ground (arith, has_key-insert_by k row rows)

  Distinct-insert_by :
      (row : TaskRecord) (rows : List TaskRecord)
      → has_key row.task_id (keys rows) ≡ false
      → Distinct (keys rows)
      → Distinct (keys (insert_by before row rows))
  Distinct-insert_by row [] h d = (h, d)
  Distinct-insert_by row (x ∷ rows) h d = ground (
    arith,
    h,
    d.0,
    d.1,
    eq_iff x.task_id row.task_id,
    eq_iff row.task_id x.task_id,
    has_key-insert_by x.task_id row rows,
    Distinct-insert_by row rows,
  )

  has_key-sort_by :
      (k : String) (rows : List TaskRecord)
      → has_key k (keys (sort_by before rows)) ≡ has_key k (keys rows)
  has_key-sort_by k [] = refl
  has_key-sort_by k (x ∷ rows) =
      has_key-insert_by k x (sort_by before rows) ∙ ground (arith, has_key-sort_by k rows)

  pub Distinct-sort_by :
      (rows : List TaskRecord) → Distinct (keys rows) → Distinct (keys (sort_by before rows))
  Distinct-sort_by [] d = d
  Distinct-sort_by (x ∷ rows) d =
      Distinct-insert_by x (sort_by before rows) (has_key-sort_by x.task_id rows ∙ d.0)
        (Distinct-sort_by rows d.1)

  InList-insert_by :
      (row x : TaskRecord) (rows : List TaskRecord)
      → InList row (x ∷ rows)
      → InList row (insert_by before x rows)
  InList-insert_by row x [] h = h
  InList-insert_by row x (y ∷ rows) h = elim (Bool-cases (before x y)) [
    | inl e ↦ rw e h
    | inr e ↦ rw e (elim h [
      | inl same ↦ inr (InList-insert_by row x rows (inl same))
      | inr (inl same) ↦ inl same
      | inr (inr rest) ↦ inr (InList-insert_by row x rows (inr rest))
    ])
  ]

  pub InList-sort_by :
      (row : TaskRecord) (rows : List TaskRecord)
      → InList row rows
      → InList row (sort_by before rows)
  InList-sort_by row [] h = elim h [ ]
  InList-sort_by row (x ∷ rows) h =
      InList-insert_by row x (sort_by before rows)
        (elim h [ inl same ↦ inl same | inr rest ↦ inr (InList-sort_by row rows rest) ])

  All-insert_by :
      (P : TaskRecord → Type 0) (x : TaskRecord) (rows : List TaskRecord)
      → P x
      → All P rows
      → All P (insert_by before x rows)
  All-insert_by P x [] p ps = (p, tt)
  All-insert_by P x (y ∷ rows) p ps = elim (Bool-cases (before x y)) [
    | inl e ↦ rw e (p, ps)
    | inr e ↦ rw e (ps.0, All-insert_by P x rows p ps.1)
  ]

  pub All-sort_by :
      (P : TaskRecord → Type 0) (rows : List TaskRecord) → All P rows → All P (sort_by before rows)
  All-sort_by P [] ps = tt
  All-sort_by P (x ∷ rows) ps =
      All-insert_by P x (sort_by before rows) ps.0 (All-sort_by P rows ps.1)

module _ (test : TaskRecord → Bool) where
  has_key-keep :
      (k : String) (rows : List TaskRecord)
      → has_key k (keys rows) ≡ false
      → has_key k (keys (keep test rows)) ≡ false
  has_key-keep k [] h = h
  has_key-keep k (x ∷ rows) h = ground (arith, has_key-keep k rows)

  pub Distinct-keep :
      (rows : List TaskRecord) → Distinct (keys rows) → Distinct (keys (keep test rows))
  Distinct-keep [] d = d
  Distinct-keep (x ∷ rows) d =
      let rest = Distinct-keep rows d.1 in
      ground (arith, d.0, rest, has_key-keep x.task_id rows d.0)

  pub InList-keep :
      (row : TaskRecord) (rows : List TaskRecord)
      → test row ≡ true
      → InList row rows
      → InList row (keep test rows)
  InList-keep row [] h there = elim there [ ]
  InList-keep row (x ∷ rows) h (inl same) =
      let passes : test x ≡ true = ap test (sym same) ∙ h in rw passes (inl same)
  InList-keep row (x ∷ rows) h (inr rest) = elim (Bool-cases (test x)) [
    | inl e ↦ rw e (inr (InList-keep row rows h rest))
    | inr e ↦ rw e (InList-keep row rows h rest)
  ]

  pub All-keep :
      (P : TaskRecord → Type 0) (rows : List TaskRecord) → All P rows → All P (keep test rows)
  All-keep P [] ps = tt
  All-keep P (x ∷ rows) ps = elim (Bool-cases (test x)) [
    | inl e ↦ rw e (ps.0, All-keep P rows ps.1)
    | inr e ↦ rw e (All-keep P rows ps.1)
  ]
