-- ===== src/Runtime/Shares.antt =====
-- The rows of one tenant, and how the writes of the dispatcher change them.
use execgo_runtime.Base.{
  String, ◌≡◌, refl, ap, ◌∙◌, inl, inr, Bool, false, Bool-cases, Option, none, some, List, [], ◌∷◌,
  arith, keep, str_eq, eq_iff,
}
use execgo_runtime.Repo.Rows.{TaskRecord, find_row, update_row}
use execgo_runtime.Repo.Touch.{keys, has_key}
use execgo_runtime.Repo.Consistent.{Distinct}
use execgo_runtime.Runtime.Dispatch.{tenant_of}

abbrev pub is_tenant : String → Option String → Bool
is_tenant tenant none = false
is_tenant tenant (some name) = str_eq name tenant

-- The task is one of the tenant.
abbrev pub belongs_to : String → TaskRecord → Bool
belongs_to tenant task = is_tenant tenant (tenant_of task)

-- The rows of a tenant.
abbrev pub share : String → List TaskRecord → List TaskRecord
share tenant = keep (belongs_to tenant)

module _ (tenant : String) where
  pub share-update_row :
      (id : String) (f : TaskRecord → TaskRecord) (rows : List TaskRecord)
      → ((row : TaskRecord) → belongs_to tenant (f row) ≡ belongs_to tenant row)
      → ((row : TaskRecord) → (f row).task_id ≡ row.task_id)
      → share tenant (update_row id f rows) ≡ update_row id f (share tenant rows)
  unfolding update_row
  share-update_row id f [] h same = refl
  share-update_row id f (x ∷ rows) h same =
      let rest = share-update_row id f rows h same in
      elim (Bool-cases (belongs_to tenant x)) [
        | inl e ↦ elim (Bool-cases (str_eq x.task_id id)) [
          | inl k ↦ rw (k, h x ∙ e, e, update_row, k) (ap (λ l. f x ∷ l) rest)
          | inr k ↦ rw (k, e, update_row, k) (ap (λ l. x ∷ l) rest)
        ]
        | inr e ↦ elim (Bool-cases (str_eq x.task_id id)) [
          | inl k ↦ rw (k, h x ∙ e, e) rest
          | inr k ↦ rw (k, e) rest
        ]
      ]

  pub has_key-share :
      (id : String) (rows : List TaskRecord)
      → has_key id (keys rows) ≡ false
      → has_key id (keys (share tenant rows)) ≡ false
  has_key-share id [] h = h
  has_key-share id (x ∷ rows) h = ground (arith, has_key-share id rows)

  pub Distinct-share :
      (rows : List TaskRecord) → Distinct (keys rows) → Distinct (keys (share tenant rows))
  Distinct-share [] d = d
  Distinct-share (x ∷ rows) d =
      let rest = Distinct-share rows d.1 in
      ground (arith, d.0, rest, has_key-share x.task_id rows d.0)

  -- A task of another tenant is not in the share.
  pub share_other :
      (id : String) (rows : List TaskRecord) (row : TaskRecord)
      → Distinct (keys rows)
      → find_row id rows ≡ some row
      → belongs_to tenant row ≡ false
      → has_key id (keys (share tenant rows)) ≡ false
  unfolding find_row
  share_other id [] row d found other = refl
  share_other id (x ∷ rows) row d found other = elim (Bool-cases (str_eq x.task_id id)) [
    | inl e ↦
        let found' = rw (e, find_row) at found in
        let same : x ≡ row = cc in
        let named : x.task_id ≡ id = (eq_iff x.task_id id).0 e in
        let gone = has_key-share id rows (rw named at d.0) in
        let mine : belongs_to tenant x ≡ false = ap (belongs_to tenant) same ∙ other in rw mine gone
    | inr e ↦
        let rest = share_other id rows row d.1 (rw (e, find_row) at found) other in
        elim (Bool-cases (belongs_to tenant x)) [ inl m ↦ rw (m, e) rest | inr m ↦ rw m rest ]
  ]
