-- ===== src/Types/Examples.antt =====
-- The theorems about the validations at concrete inputs, and tests of the identifiers.
use execgo_runtime.Base.{◌≢◌, ◌≡◌, refl, ◌↔◌, true, false, some, none, [], ◌∷◌}
use execgo_runtime.Base.Text.{trim, trim_start, trim_end, is_empty, split, is_ascii_alphanumeric}
use execgo_runtime.Errors.{ok, err, invalid_input}
use execgo_runtime.Types.Execution
use execgo_runtime.Types.Execution.{ExecutionKind, ExecutionSpec}
use execgo_runtime.Types.Sandbox
use execgo_runtime.Types.Sandbox.{
  SandboxProfile, SandboxPolicy, default_sandbox, join, resolve_workspace_dir,
}
use execgo_runtime.Types.Limits
use execgo_runtime.Types.Limits.{default_limits}
use execgo_runtime.Types.Request
use execgo_runtime.Types.Request.{SubmitTaskRequest, is_task_id_char, validate_task_id}
use execgo_runtime.Types.Submission.{
  IsNameChar, AllChars, validate_task_id_iff, IsSubmission, validate-IsSubmission,
}

abbrev spec : ExecutionSpec
spec = record {
  kind = ExecutionKind.script;
  program = none;
  args = [];
  script = some "echo hi";
  interpreter = some ("/bin/bash" ∷ []);
  env = ("HOME", "/root") ∷ [];
}

abbrev sandbox : SandboxPolicy
sandbox = record default_sandbox {
  profile = SandboxProfile.linux_sandbox;
  workspace_subdir = some "build/out";
  rootfs = some "/srv/root";
  chroot = true;
}

abbrev request : SubmitTaskRequest
request = record {
  task_id = some "job-1";
  execution = spec;
  limits = default_limits;
  sandbox = sandbox;
  policy = none;
  control_context = none;
  metadata = [];
}

sandbox_valid : Sandbox.validate sandbox ≡ ok tt
unfolding Sandbox.validate Sandbox.validate_subdir Sandbox.validate_relative_workspace_subdir split
    trim trim_start trim_end
sandbox_valid = refl

request_valid : Request.validate request ≡ ok tt
unfolding Request.validate Request.validate_task_id Execution.validate Execution.validate_kind
    Limits.validate Sandbox.validate Sandbox.validate_subdir
    Sandbox.validate_relative_workspace_subdir split trim trim_start trim_end is_task_id_char
    is_ascii_alphanumeric
request_valid = refl

-- Identifiers that consist of dots are accepted.
dots_accepted : validate_task_id ".." ≡ ok tt
unfolding validate_task_id trim trim_start trim_end is_task_id_char is_ascii_alphanumeric
dots_accepted = refl

slash_refused :
    validate_task_id "a/b"
    ≡ err (invalid_input "task_id may only contain letters, digits, '-', '_' and '.'")
unfolding validate_task_id trim trim_start trim_end is_task_id_char is_ascii_alphanumeric
slash_refused = refl

validate_task_id_iff_example :
    (validate_task_id "job-1" ≡ ok tt)
    ↔ ((is_empty (trim "job-1") ≡ false) × AllChars IsNameChar (trim "job-1"))
validate_task_id_iff_example = validate_task_id_iff "job-1"

-- A colon is the first character after the digits.
colon_refused : validate_task_id "a:b" ≢ ok tt
unfolding validate_task_id trim trim_start trim_end is_task_id_char is_ascii_alphanumeric
colon_refused h = cc

validate-IsSubmission_example : IsSubmission request
validate-IsSubmission_example = validate-IsSubmission request request_valid
