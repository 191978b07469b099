-- ===== src/Runtime/QuotaText.antt =====
-- What parse_tenant_quota accepts, and which quota it reads.
use execgo_runtime.Base.{
  ℕ, ◌≡◌, refl, sym, ap, ◌∙◌, Bool-cases, Option-cases, String, false, inl, inr, Option, none, some,
  List, [], ◌∷◌, arith, if◌then◌else◌, and_then, str_eq, eq_iff,
}
use execgo_runtime.Base.Text.{parse_u64, trim, is_empty, split, split_once}
use execgo_runtime.Errors.{ok, AppResult-cases}
use execgo_runtime.Types.Capability.{ResourceCapacity}
use execgo_runtime.Runtime.TenantQuota.{
  Amounts, set_amount, read_entry, read_entries, nothing, parse_tenant_quota,
}

-- The value that an entry has for a key.
abbrev value_of : String → String → Option ℕ
value_of key entry =
    if is_empty (trim entry)
    then none
    else and_then (split_once b':' (trim entry)) λ (pair : String × String).
      if str_eq (trim pair.0) key then parse_u64 (trim pair.1) else none

abbrev or_else : Option ℕ → Option ℕ → Option ℕ
or_else none b = b
or_else (some n) b = some n

-- The value of the last entry that has one for the key.
abbrev last_value : String → List String → Option ℕ
last_value key [] = none
last_value key (entry ∷ rest) = or_else (last_value key rest) (value_of key entry)

-- The amounts after some entries: the last value of each key, or what was there before.
abbrev HasAmounts : List String → Amounts → Amounts → Type 0
HasAmounts entries a b =
    (b.task_slots ≡ or_else (last_value "slots" entries) a.task_slots)
    × (b.memory_bytes ≡ or_else (last_value "memory" entries) a.memory_bytes)
    × (b.pids ≡ or_else (last_value "pids" entries) a.pids)

-- What an accepted text says.
abbrev pub IsQuota : String → String → ResourceCapacity → Type 0
IsQuota raw name quota =
    (spec : String) × (before : String) × (split_once b'=' raw ≡ some (before, spec))
    × (name ≡ trim before)
    × (is_empty name ≡ false)
    × (last_value "slots" (split b',' spec) ≡ some quota.task_slots)
    × (last_value "memory" (split b',' spec) ≡ quota.memory_bytes)
    × (last_value "pids" (split b',' spec) ≡ quota.pids)

set_amount-HasAmounts :
    (raw key value : String) (a b : Amounts)
    → set_amount raw key value a ≡ ok b
    → (b.task_slots ≡ or_else (if str_eq key "slots" then parse_u64 value else none) a.task_slots)
      × (b.memory_bytes
          ≡ or_else (if str_eq key "memory" then parse_u64 value else none) a.memory_bytes)
      × (b.pids ≡ or_else (if str_eq key "pids" then parse_u64 value else none) a.pids)
unfolding set_amount
set_amount-HasAmounts raw key value a b h = elim (Bool-cases (str_eq key "slots")) [
  | inl e ↦
      let named = (eq_iff key "slots").0 e in
      let m : str_eq key "memory" ≡ false = ap (λ k. str_eq k "memory") named in
      let p : str_eq key "pids" ≡ false = ap (λ k. str_eq k "pids") named in
      rw (e, m, p) (ground (arith, rw (e, set_amount) at h))
  | inr e ↦ elim (Bool-cases (str_eq key "memory")) [
    | inl m ↦
        let p : str_eq key "pids" ≡ false = ap (λ k. str_eq k "pids") ((eq_iff key "memory").0 m) in
        rw (e, m, p) (ground (arith, rw (e, set_amount, m) at h))
    | inr m ↦ elim (Bool-cases (str_eq key "pids")) [
      | inl p ↦ rw (e, m, p) (ground (arith, rw (e, set_amount, m, p) at h))
      | inr p ↦ rw (e, m, p) (ground (arith, rw (e, set_amount, m, p) at h))
    ]
  ]
]

read_entry-HasAmounts :
    (raw entry : String) (a b : Amounts)
    → read_entry raw entry a ≡ ok b
    → HasAmounts (entry ∷ []) a b
unfolding read_entry
read_entry-HasAmounts raw entry a b h = elim (Bool-cases (is_empty (trim entry))) [
  | inl e ↦ rw e (ground (arith, rw (e, read_entry) at h))
  | inr e ↦ elim (Option-cases (split_once b':' (trim entry))) [
    | inl p ↦ rw (e, p) (ground (arith, rw (e, read_entry, p) at h))
    | inr (pair, p) ↦
        rw (e, p)
          (set_amount-HasAmounts raw (trim pair.0) (trim pair.1) a b (rw (e, read_entry, p) at h))
  ]
]

read_entries-HasAmounts :
    (raw : String) (entries : List String) (a b : Amounts)
    → read_entries raw entries a ≡ ok b
    → HasAmounts entries a b
unfolding read_entries
read_entries-HasAmounts raw [] a b h = ground (arith, h)
read_entries-HasAmounts raw (entry ∷ rest) a b h = elim (AppResult-cases (read_entry raw entry a)) [
  | inl (next, e) ↦
      let first = read_entry-HasAmounts raw entry a next e in
      let others = read_entries-HasAmounts raw rest next b (rw (e, read_entries) at h) in
      (
        others.0 ∙ both (last_value "slots" rest) (value_of "slots" entry) _ _ first.0,
        others.1 ∙ both (last_value "memory" rest) (value_of "memory" entry) _ _ first.1,
        others.2 ∙ both (last_value "pids" rest) (value_of "pids" entry) _ _ first.2,
      )
  | inr (problem, e) ↦ let h' = rw (e, read_entries) at h in cc
]
  where
    both :
        (later here n before : Option ℕ)
        → n ≡ or_else here before
        → or_else later n ≡ or_else (or_else later here) before
    both none here n before e = e
    both (some v) here n before e = refl

or_else-none : (a : Option ℕ) → or_else a none ≡ a
or_else-none none = refl
or_else-none (some n) = refl

-- An accepted text has an equals sign after a name that is not blank, and the quota has for each of
-- its amounts the value of the last entry after the equals sign that has one for its key; it has a
-- number of slots.
pub parse_tenant_quota-IsQuota :
    (raw name : String) (quota : ResourceCapacity)
    → parse_tenant_quota raw ≡ ok (name, quota)
    → IsQuota raw name quota
unfolding parse_tenant_quota
parse_tenant_quota-IsQuota raw name quota h = elim (Option-cases (split_once b'=' raw)) [
  | inl e ↦ let h' = rw (e, parse_tenant_quota) at h in cc
  | inr (parts, e) ↦ elim (Bool-cases (is_empty (trim parts.0))) [
    | inl blank ↦ let h' = rw (e, parse_tenant_quota, blank) at h in cc
    | inr named ↦ elim (AppResult-cases (read_entries raw (split b',' parts.1) nothing)) [
      | inr (problem, r) ↦ let h' = rw (e, parse_tenant_quota, named, r) at h in cc
      | inl (amounts, r) ↦
          let read = read_entries-HasAmounts raw (split b',' parts.1) nothing amounts r in
          elim (Option-cases amounts.task_slots) [
            | inl n ↦ let h' = rw (e, parse_tenant_quota, named, r, n) at h in cc
            | inr (slots, n) ↦
                let h' = rw (e, parse_tenant_quota, named, r, n) at h in
                let trimmed : name ≡ trim parts.0 = cc in
                let same_slots : some quota.task_slots ≡ amounts.task_slots = cc in
                let same_memory : quota.memory_bytes ≡ amounts.memory_bytes = cc in
                let same_pids : quota.pids ≡ amounts.pids = cc in
                (
                  parts.1,
                  parts.0,
                  e,
                  trimmed,
                  ap is_empty trimmed ∙ named,
                  sym (
                      same_slots ∙ read.0 ∙ or_else-none (last_value "slots" (split b',' parts.1))),
                  sym (
                      same_memory
                      ∙ read.1
                      ∙ or_else-none (last_value "memory" (split b',' parts.1))),
                  sym (same_pids ∙ read.2 ∙ or_else-none (last_value "pids" (split b',' parts.1))),
                )
          ]
    ]
  ]
]
