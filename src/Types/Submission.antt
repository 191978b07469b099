-- ===== src/Types/Submission.antt =====
-- What the validation of a whole submission guarantees, and of a task identifier.
use Prim.Native.String.{◌∷◌ as cons, [] as nil}
use Prim.Native.Char.{code}
use execgo_runtime.Base.{◌⊎◌, ◌≤◌, ℕ, ◌<◌, true, false, ◌≡◌, refl, ◌↔◌, arith, String}
use execgo_runtime.Base.Text.{trim, is_empty, all_chars, is_ascii_alphanumeric}
use execgo_runtime.Errors.{ok, >>=-eq-ok}
use execgo_runtime.Types.Execution
use execgo_runtime.Types.Sandbox
use execgo_runtime.Types.Sandbox.{join, resolve_workspace_dir}
use execgo_runtime.Types.Limits
use execgo_runtime.Types.Limits.{ResourceLimits}
use execgo_runtime.Types.Request
use execgo_runtime.Types.Request.{SubmitTaskRequest, is_task_id_char, validate_task_id, if_some}
use execgo_runtime.Types.Validity.{
  IsExecution, validate-IsExecution, IsSandbox, IsBelow, validate-IsSandbox,
  resolve_workspace_dir-IsBelow,
}

-- The character of a number is a letter or a digit of ASCII, `-`, `_` or `.`.
abbrev pub IsNameChar : ℕ → Type 0
IsNameChar c =
    ((48 ≤ c) × (c ≤ 57))
    ⊎ ((65 ≤ c) × (c ≤ 90))
    ⊎ ((97 ≤ c) × (c ≤ 122))
    ⊎ (c ≡ 45)
    ⊎ (c ≡ 95)
    ⊎ (c ≡ 46)

abbrev pub AllChars : (ℕ → Type 0) → String → Type 0
AllChars P nil = Unit
AllChars P (cons c s) = P (code c) × AllChars P s

is_task_id_char_iff : (c : ℕ) → (is_task_id_char c ≡ true) ↔ IsNameChar c
unfolding is_task_id_char is_ascii_alphanumeric
is_task_id_char_iff c = ground arith

all_chars_iff : (s : String) → (all_chars is_task_id_char s ≡ true) ↔ AllChars IsNameChar s
all_chars_iff nil = ((λ h. tt), (λ h. refl))
all_chars_iff (cons c s) =
    let (to, from) = all_chars_iff s in
    let (names, named) = is_task_id_char_iff (code c) in
    (
      (λ h.
          let first : is_task_id_char (code c) ≡ true = ground arith in
          let rest : all_chars is_task_id_char s ≡ true = ground arith in (names first, to rest)),
      (λ h. rw (named h.0, from h.1) refl),
    )

-- A task identifier is accepted exactly when, without the blanks around it, it is not empty and all
-- its characters are letters and digits of ASCII, `-`, `_` and `.`: of the codes 48 to 57, 65 to 90 and
-- 97 to 122, and 45, 95 and 46.
pub validate_task_id_iff :
    (id : String)
    → (validate_task_id id ≡ ok tt) ↔ ((is_empty (trim id) ≡ false) × AllChars IsNameChar (trim id))
unfolding validate_task_id
validate_task_id_iff id =
    let (to, from) = all_chars_iff (trim id) in
    (
      (λ h.
          let chars : all_chars is_task_id_char (trim id) ≡ true = ground arith in
          let filled : is_empty (trim id) ≡ false = ground arith in (filled, to chars)),
      (λ h. rw (h.0, from h.1, validate_task_id) refl),
    )

limits_positive :
    (limits : ResourceLimits)
    → Limits.validate limits ≡ ok tt
    → (0 < limits.wall_time_ms) × (0 < limits.stdout_max_bytes) × (0 < limits.stderr_max_bytes)
unfolding Limits.validate
limits_positive limits h = ground arith

-- What an accepted submission has.
pub record IsSubmission (request : SubmitTaskRequest) : Type 0 where
  pub execution : IsExecution request.execution
  pub wall_time : 0 < request.limits.wall_time_ms
  pub stdout : 0 < request.limits.stdout_max_bytes
  pub stderr : 0 < request.limits.stderr_max_bytes
  pub sandbox : IsSandbox request.sandbox
  pub workspace :
      (task_dir : String)
      → (dir : String) × (resolve_workspace_dir task_dir request.sandbox ≡ ok dir)
        × IsBelow (join task_dir "workspace") dir

-- A submission that passes the validation has an execution of its kind, limits on time and output
-- that are not zero, and a sandbox of a consistent form; and the workspace directory of its task can
-- be computed for every task directory, and lies below it.
pub validate-IsSubmission :
    (request : SubmitTaskRequest) → Request.validate request ≡ ok tt → IsSubmission request
unfolding Request.validate
validate-IsSubmission request h =
    let (x₁, p₁, h₁) = >>=-eq-ok (if_some validate_task_id request.task_id) _ tt h in
    let (x₂, p₂, h₂) = >>=-eq-ok (Execution.validate request.execution) _ tt h₁ in
    let (x₃, p₃, h₃) = >>=-eq-ok (Limits.validate request.limits) _ tt h₂ in
    let (x₄, p₄, h₄) = >>=-eq-ok (Sandbox.validate request.sandbox) _ tt h₃ in
    let (wall, out, errors) = limits_positive request.limits p₃ in
    record {
      execution = (validate-IsExecution request.execution).0 p₂;
      wall_time = wall;
      stdout = out;
      stderr = errors;
      sandbox = (validate-IsSandbox request.sandbox).0 p₄;
      workspace = λ task_dir. resolve_workspace_dir-IsBelow task_dir request.sandbox p₄;
    }
