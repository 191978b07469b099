-- ===== src/Types/Request.antt =====
-- src/types.rs: the body of a submission, its validation, and the identifiers of tasks.
use execgo_runtime.Base.{ℕ, Bool, not, ◌||◌, String, Option, none, some, List, ◌==◌}
use execgo_runtime.Base.Text.{trim, is_empty, all_chars, is_ascii_alphanumeric}
use execgo_runtime.Errors.{Checked, ok, invalid_input, guard, ◌>>◌}
use execgo_runtime.Types.Status.{TaskStatus}
use execgo_runtime.Types.Execution
use execgo_runtime.Types.Execution.{ExecutionSpec}
use execgo_runtime.Types.Control
use execgo_runtime.Types.Control.{TaskPolicy, ControlContext, validate_policy}
use execgo_runtime.Types.Sandbox
use execgo_runtime.Types.Sandbox.{SandboxPolicy}
use execgo_runtime.Types.Limits
use execgo_runtime.Types.Limits.{ResourceLimits}

-- A letter, a digit, `-`, `_` or `.`.
unfoldable pub is_task_id_char : ℕ → Bool
unfolding is_ascii_alphanumeric
is_task_id_char c = is_ascii_alphanumeric c || c == b'-' || c == b'_' || c == b'.'

unfoldable pub validate_task_id : String → Checked
unfolding trim is_task_id_char
validate_task_id task_id = do
  guard (not (is_empty (trim task_id))) (invalid_input "task_id cannot be empty")
  guard (all_chars is_task_id_char (trim task_id))
      (invalid_input "task_id may only contain letters, digits, '-', '_' and '.'")

pub record SubmitTaskRequest : Type 0 where
  pub task_id : Option String
  pub execution : ExecutionSpec
  pub limits : ResourceLimits
  pub sandbox : SandboxPolicy
  pub policy : Option TaskPolicy
  pub control_context : Option ControlContext
  pub metadata : List (String × String)

-- `if let Some(value) = &value { check(value)?; }`
abbrev pub if_some : {A : Type 0} → (A → Checked) → Option A → Checked
if_some check none = ok tt
if_some check (some value) = check value

-- `SubmitTaskRequest::validate`
unfoldable pub validate : SubmitTaskRequest → Checked
unfolding validate_policy
validate request = do
  if_some validate_task_id request.task_id
  Execution.validate request.execution
  Limits.validate request.limits
  Sandbox.validate request.sandbox
  if_some validate_policy request.policy
  if_some Control.validate request.control_context

pub record SubmitTaskResponse : Type 0 where
  pub task_id : String
  pub handle_id : String
  pub status : TaskStatus
