-- ===== src/Runtime/TenantQuota.antt =====
-- src/runtime.rs: parse_tenant_quota, the quota of a tenant in the text of an option.
use execgo_runtime.Base.{
  ℕ, String, not, Option, none, some, List, [], ◌∷◌, if◌then◌else◌, str_eq, str_append,
}
use execgo_runtime.Base.Text.{parse_u64, trim, is_empty, split, split_once}
use execgo_runtime.Errors.{AppResult, ok, err, AppError, invalid_input, guard, or_err, ◌>>=◌, ◌>>◌}
use execgo_runtime.Types.Capability.{ResourceCapacity}

-- The locals `task_slots`, `memory_bytes` and `pids`.
pub record Amounts : Type 0 where
  pub task_slots : Option ℕ
  pub memory_bytes : Option ℕ
  pub pids : Option ℕ

-- "tenant-quota '<raw>': <problem>"
abbrev quota_error : String → String → AppError
quota_error raw problem =
    invalid_input (str_append "tenant-quota '" (str_append raw (str_append "': " problem)))

-- "<key> value '<value>' is not a valid u64"
abbrev not_u64 : String → String → String
not_u64 key value = str_append key (str_append " value '" (str_append value "' is not a valid u64"))

-- One entry of the text, a key and a value.
unfoldable pub set_amount : String → String → String → Amounts → AppResult Amounts
set_amount raw key value a =
    if str_eq key "slots"
    then (do
      n ← or_err (parse_u64 value) (quota_error raw (not_u64 "slots" value))
      ok (record a { task_slots = some n }))
    else if str_eq key "memory"
    then (do
      n ← or_err (parse_u64 value) (quota_error raw (not_u64 "memory" value))
      ok (record a { memory_bytes = some n }))
    else if str_eq key "pids"
    then (do
      n ← or_err (parse_u64 value) (quota_error raw (not_u64 "pids" value))
      ok (record a { pids = some n }))
    else err (quota_error raw (str_append "unknown key '" (str_append key "'")))

-- The body of the loop over the entries.
unfoldable pub read_entry : String → String → Amounts → AppResult Amounts
unfolding set_amount
read_entry raw entry a = if is_empty (trim entry) then ok a else (do
  pair ←
      or_err (split_once b':' (trim entry))
        (quota_error raw (str_append "malformed key-value '" (str_append (trim entry) "'")))
  set_amount raw (trim pair.0) (trim pair.1) a)

-- The loop over the entries.
unfoldable pub read_entries : String → List String → Amounts → AppResult Amounts
unfolding read_entry
read_entries raw [] a = ok a
read_entries raw (entry ∷ rest) a = do next ← read_entry raw entry a; read_entries raw rest next

-- The amounts before the first entry.
abbrev pub nothing : Amounts
nothing = record { task_slots = none; memory_bytes = none; pids = none }

unfoldable pub parse_tenant_quota : String → AppResult (String × ResourceCapacity)
unfolding read_entries
parse_tenant_quota raw = do
  parts ←
      or_err (split_once b'=' raw)
        (quota_error raw "expected format name=slots:N[,memory:BYTES][,pids:N]")
  guard (not (is_empty (trim parts.0)))
      (invalid_input "tenant-quota: tenant name must not be empty")
  amounts ← read_entries raw (split b',' parts.1) nothing
  task_slots ← or_err amounts.task_slots (quota_error raw "'slots' is required")
  ok (
    trim parts.0,
    record { task_slots = task_slots; memory_bytes = amounts.memory_bytes; pids = amounts.pids },
  )
