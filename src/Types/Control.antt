-- ===== src/Types/Control.antt =====
-- src/types.rs: CapabilityMode, TaskPolicy, and ControlContext with its validation.
use execgo_runtime.Base.{Bool, not, String, Option, none, some, List, [], ◌∷◌, any}
use execgo_runtime.Base.Text.{trim, is_empty}
use execgo_runtime.Errors.{Checked, ok, invalid_input, guard, ◌>>◌}
use execgo_runtime.Types.Execution.{is_bad_key}

pub data CapabilityMode : Type 0 where
  adaptive strict : CapabilityMode

pub record TaskPolicy : Type 0 where
  pub capability_mode : CapabilityMode

-- `TaskPolicy::validate`, which accepts every policy.
unfoldable pub validate_policy : TaskPolicy → Checked
validate_policy policy = ok tt

-- `labels` is a BTreeMap, as the list of its entries.
pub record ControlContext : Type 0 where
  pub control_plane_mode : Option String
  pub tenant : Option String
  pub owner : Option String
  pub expected_runtime_profile : Option String
  pub requires_strict_sandbox : Bool
  pub requires_resource_reservation : Bool
  pub labels : List (String × String)

-- `value.is_some_and(|item| item.trim().is_empty())`
abbrev pub is_empty_value : Option String → Bool
is_empty_value none = Bool.false
is_empty_value (some item) = is_empty (trim item)

-- `ControlContext::validate`
unfoldable pub validate : ControlContext → Checked
validate c = do
  guard (not (any (λ entry. is_bad_key entry.0) c.labels))
      (invalid_input "control_context.labels keys must be non-empty and cannot contain '='")
  guard (not (any is_empty_value values))
      (invalid_input "control_context values cannot be empty strings")
  where
    values : List (Option String)
    values = c.control_plane_mode ∷ c.tenant ∷ c.owner ∷ c.expected_runtime_profile ∷ []
