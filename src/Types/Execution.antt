-- ===== src/Types/Execution.antt =====
-- src/types.rs: ExecutionKind, ExecutionSpec and its validation.
-- `env` is the list of the entries of the HashMap, in the order in which the map yields them.
use execgo_runtime.Base.{
  Bool, true, false, not, ◌||◌, String, Option, none, some, List, [], ◌∷◌, any, ◌==◌,
}
use execgo_runtime.Base.Text.{trim, is_empty, any_char}
use execgo_runtime.Errors.{Checked, invalid_input, guard, ◌>>◌}

pub data ExecutionKind : Type 0 where
  command script : ExecutionKind

pub record ExecutionSpec : Type 0 where
  pub kind : ExecutionKind
  pub program : Option String
  pub args : List String
  pub script : Option String
  pub interpreter : Option (List String)
  pub env : List (String × String)

-- `value.as_deref().map(str::trim).unwrap_or_default().is_empty()`
abbrev pub is_blank : Option String → Bool
is_blank none = true
is_blank (some s) = is_empty (trim s)

-- `value.as_ref().is_some_and(|v| !v.trim().is_empty())`
abbrev pub is_filled : Option String → Bool
is_filled none = false
is_filled (some s) = not (is_empty (trim s))

-- `key.trim().is_empty() || key.contains('=')`
abbrev pub is_bad_key : String → Bool
is_bad_key key = is_empty (trim key) || any_char (λ c. c == b'=') key

-- `interpreter.is_empty() || interpreter[0].trim().is_empty()`
abbrev pub is_bad_interpreter : Option (List String) → Bool
is_bad_interpreter none = false
is_bad_interpreter (some []) = true
is_bad_interpreter (some (first ∷ rest)) = is_empty (trim first)

unfoldable pub validate_kind : ExecutionKind → ExecutionSpec → Checked
validate_kind ExecutionKind.command spec = do
  guard (not (is_blank spec.program))
      (invalid_input "execution.program is required for command tasks")
  guard (not (is_filled spec.script))
      (invalid_input "execution.script must be empty for command tasks")
validate_kind ExecutionKind.script spec = do
  guard (not (is_blank spec.script)) (invalid_input "execution.script is required for script tasks")
  guard (not (is_filled spec.program))
      (invalid_input "execution.program must be empty for script tasks")
  guard (not (is_bad_interpreter spec.interpreter))
      (invalid_input "execution.interpreter must contain at least one non-empty value")

-- `ExecutionSpec::validate`
unfoldable pub validate : ExecutionSpec → Checked
unfolding validate_kind
validate spec = do
  validate_kind spec.kind spec
  guard (not (any (λ entry. is_bad_key entry.0) spec.env))
      (invalid_input "execution.env keys must be non-empty and cannot contain '='")
