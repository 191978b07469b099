-- ===== src/Errors.antt =====
-- src/error.rs: the error type of the crate, its codes and its HTTP statuses. The payloads of the
-- errors that other crates raise (io, rusqlite, serde_json, reqwest) are their texts.
use execgo_runtime.Base.{
  ◌⊎◌, inl, inr, ℕ, String, Option, none, Bool, true, false, str_append, ◌≡◌, refl,
}
use execgo_runtime.Types.Status.{ErrorCode, RuntimeErrorInfo}

pub data AppError : Type 0 where
  invalid_input : String → AppError
  not_found : String → AppError
  queue_full : AppError
  conflict : String → AppError
  launch_failed : String → AppError
  sandbox_setup : String → AppError
  unsupported_capability : String → AppError
  insufficient_resources : String → AppError
  permission_denied : String → AppError
  io : String → AppError
  sqlite : String → AppError
  json : String → AppError
  http : String → AppError
  internal : String → AppError

pub data AppResult {ℓ} (A : Type ℓ) : Type ℓ where
  ok : A → AppResult A
  err : AppError → AppResult A

-- `AppResult<()>`.
abbrev pub Checked : Type 0
Checked = AppResult (Unit {0})

infixl 5 ◌>>=◌ ◌>>◌
abbrev pub ◌>>=◌ {ℓ κ} : {A : Type ℓ} {B : Type κ} → AppResult A → (A → AppResult B) → AppResult B
ok a >>= f = f a
err e >>= f = err e

abbrev pub ◌>>◌ {ℓ} : {B : Type ℓ} → Checked → AppResult B → AppResult B
m >> k = m >>= λ _. k

-- `if !condition { return Err(e); }`
abbrev pub guard : Bool → AppError → Checked
guard true e = ok tt
guard false e = err e

-- `option.ok_or(e)?`
abbrev pub or_err {ℓ} : {A : Type ℓ} → Option A → AppError → AppResult A
or_err none e = err e
or_err (Option.some a) e = ok a

-- The parts of a successful chain of steps.
pub >>=-eq-ok :
    {A B : Type 0} (m : AppResult A) (f : A → AppResult B) (b : B)
    → (m >>= f) ≡ ok b
    → (a : A) × (m ≡ ok a) × (f a ≡ ok b)
>>=-eq-ok (ok a) f b h = (a, refl, h)
>>=-eq-ok (err e) f b h = cc

pub AppResult-cases :
    {A : Type 0} (m : AppResult A) → ((a : A) × (m ≡ ok a)) ⊎ ((e : AppError) × (m ≡ err e))
AppResult-cases (ok a) = inl (a, refl)
AppResult-cases (err e) = inr (e, refl)

pub ok_injective : {A : Type 0} {a b : A} → ok a ≡ ok b → a ≡ b
ok_injective h = cc

-- `AppError::code`
unfoldable pub code : AppError → ErrorCode
code (invalid_input m) = ErrorCode.invalid_input
code (not_found m) = ErrorCode.not_found
code queue_full = ErrorCode.resource_limit_exceeded
code (conflict m) = ErrorCode.conflict
code (launch_failed m) = ErrorCode.launch_failed
code (sandbox_setup m) = ErrorCode.sandbox_setup_failed
code (unsupported_capability m) = ErrorCode.unsupported_capability
code (insufficient_resources m) = ErrorCode.insufficient_resources
code (permission_denied m) = ErrorCode.permission_denied
code (io m) = ErrorCode.internal
code (sqlite m) = ErrorCode.internal
code (json m) = ErrorCode.internal
code (http m) = ErrorCode.internal
code (internal m) = ErrorCode.internal

-- `AppError::status_code`, as the number of the HTTP status.
unfoldable pub status_code : AppError → ℕ
status_code (invalid_input m) = 400
status_code (not_found m) = 404
status_code queue_full = 429
status_code (conflict m) = 409
status_code (launch_failed m) = 400
status_code (sandbox_setup m) = 400
status_code (unsupported_capability m) = 400
status_code (insufficient_resources m) = 400
status_code (permission_denied m) = 403
status_code (io m) = 500
status_code (sqlite m) = 500
status_code (json m) = 500
status_code (http m) = 500
status_code (internal m) = 500

-- The `Display` that the `#[error(...)]` attributes derive.
unfoldable pub to_string : AppError → String
to_string (invalid_input m) = str_append "invalid input: " m
to_string (not_found m) = str_append "task not found: " m
to_string queue_full = "queue is full"
to_string (conflict m) = str_append "task is already terminal: " m
to_string (launch_failed m) = str_append "launch failed: " m
to_string (sandbox_setup m) = str_append "sandbox setup failed: " m
to_string (unsupported_capability m) = str_append "unsupported capability: " m
to_string (insufficient_resources m) = str_append "insufficient resources: " m
to_string (permission_denied m) = str_append "permission denied: " m
to_string (io m) = str_append "io error: " m
to_string (sqlite m) = str_append "sqlite error: " m
to_string (json m) = str_append "json error: " m
to_string (http m) = str_append "http error: " m
to_string (internal m) = str_append "internal error: " m

unfoldable pub as_runtime_error : AppError → RuntimeErrorInfo
unfolding code to_string
as_runtime_error e = record { code = code e; message = to_string e; details = none }

-- The HTTP response of an error: its status and the error of its JSON envelope.
unfoldable pub into_response : AppError → ℕ × RuntimeErrorInfo
unfolding status_code as_runtime_error
into_response e = (status_code e, as_runtime_error e)
