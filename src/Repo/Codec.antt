-- ===== src/Repo/Codec.antt =====
-- src/repo.rs: the texts that stand for the enumerations in the database, and their decoding.
use execgo_runtime.Base.{
  String, ◌≡◌, ◌↔◌, refl, sym, ap, ◌∙◌, inl, inr, Bool-cases, Option, none, some, if◌then◌else◌,
  str_eq, eq_iff,
}
use execgo_runtime.Types.Status.{TaskStatus, ErrorCode, EventType}

unfoldable pub encode_status : TaskStatus → String
encode_status TaskStatus.accepted = "accepted"
encode_status TaskStatus.running = "running"
encode_status TaskStatus.success = "success"
encode_status TaskStatus.failed = "failed"
encode_status TaskStatus.cancelled = "cancelled"

-- `none` is the error InvalidColumnType.
unfoldable pub decode_status : String → Option TaskStatus
decode_status value =
    if str_eq value "accepted"
    then some TaskStatus.accepted
    else if str_eq value "running"
    then some TaskStatus.running
    else if str_eq value "success"
    then some TaskStatus.success
    else if str_eq value "failed"
    then some TaskStatus.failed
    else if str_eq value "cancelled"
    then some TaskStatus.cancelled
    else none

unfoldable pub encode_error_code : ErrorCode → String
encode_error_code ErrorCode.invalid_input = "invalid_input"
encode_error_code ErrorCode.launch_failed = "launch_failed"
encode_error_code ErrorCode.timeout = "timeout"
encode_error_code ErrorCode.cancelled = "cancelled"
encode_error_code ErrorCode.memory_limit_exceeded = "memory_limit_exceeded"
encode_error_code ErrorCode.cpu_limit_exceeded = "cpu_limit_exceeded"
encode_error_code ErrorCode.resource_limit_exceeded = "resource_limit_exceeded"
encode_error_code ErrorCode.sandbox_setup_failed = "sandbox_setup_failed"
encode_error_code ErrorCode.exit_non_zero = "exit_nonzero"
encode_error_code ErrorCode.unsupported_capability = "unsupported_capability"
encode_error_code ErrorCode.insufficient_resources = "insufficient_resources"
encode_error_code ErrorCode.not_found = "not_found"
encode_error_code ErrorCode.conflict = "conflict"
encode_error_code ErrorCode.permission_denied = "permission_denied"
encode_error_code ErrorCode.internal = "internal"

unfoldable pub decode_error_code : String → Option ErrorCode
decode_error_code value =
    if str_eq value "invalid_input"
    then some ErrorCode.invalid_input
    else if str_eq value "launch_failed"
    then some ErrorCode.launch_failed
    else if str_eq value "timeout"
    then some ErrorCode.timeout
    else if str_eq value "cancelled"
    then some ErrorCode.cancelled
    else if str_eq value "memory_limit_exceeded"
    then some ErrorCode.memory_limit_exceeded
    else if str_eq value "cpu_limit_exceeded"
    then some ErrorCode.cpu_limit_exceeded
    else if str_eq value "resource_limit_exceeded"
    then some ErrorCode.resource_limit_exceeded
    else if str_eq value "sandbox_setup_failed"
    then some ErrorCode.sandbox_setup_failed
    else if str_eq value "exit_nonzero"
    then some ErrorCode.exit_non_zero
    else if str_eq value "unsupported_capability"
    then some ErrorCode.unsupported_capability
    else if str_eq value "insufficient_resources"
    then some ErrorCode.insufficient_resources
    else if str_eq value "not_found"
    then some ErrorCode.not_found
    else if str_eq value "conflict"
    then some ErrorCode.conflict
    else if str_eq value "permission_denied"
    then some ErrorCode.permission_denied
    else if str_eq value "internal"
    then some ErrorCode.internal
    else none

unfoldable pub encode_event_type : EventType → String
encode_event_type EventType.submitted = "submitted"
encode_event_type EventType.accepted = "accepted"
encode_event_type EventType.planned = "planned"
encode_event_type EventType.degraded = "degraded"
encode_event_type EventType.resource_reserved = "resource_reserved"
encode_event_type EventType.resource_released = "resource_released"
encode_event_type EventType.started = "started"
encode_event_type EventType.kill_requested = "kill_requested"
encode_event_type EventType.timeout_triggered = "timeout_triggered"
encode_event_type EventType.finished = "finished"
encode_event_type EventType.failed = "failed"
encode_event_type EventType.cancelled = "cancelled"
encode_event_type EventType.recovered = "recovered"

unfoldable pub decode_event_type : String → Option EventType
decode_event_type value =
    if str_eq value "submitted"
    then some EventType.submitted
    else if str_eq value "accepted"
    then some EventType.accepted
    else if str_eq value "planned"
    then some EventType.planned
    else if str_eq value "degraded"
    then some EventType.degraded
    else if str_eq value "resource_reserved"
    then some EventType.resource_reserved
    else if str_eq value "resource_released"
    then some EventType.resource_released
    else if str_eq value "started"
    then some EventType.started
    else if str_eq value "kill_requested"
    then some EventType.kill_requested
    else if str_eq value "timeout_triggered"
    then some EventType.timeout_triggered
    else if str_eq value "finished"
    then some EventType.finished
    else if str_eq value "failed"
    then some EventType.failed
    else if str_eq value "cancelled"
    then some EventType.cancelled
    else if str_eq value "recovered"
    then some EventType.recovered
    else none

pub decode-encode_status :
    (status : TaskStatus) → decode_status (encode_status status) ≡ some status
unfolding decode_status encode_status
decode-encode_status TaskStatus.accepted = refl
decode-encode_status _ = refl

pub decode-encode_error_code :
    (code : ErrorCode) → decode_error_code (encode_error_code code) ≡ some code
unfolding decode_error_code encode_error_code
decode-encode_error_code ErrorCode.invalid_input = refl
decode-encode_error_code _ = refl

decode-encode_event_type :
    (event : EventType) → decode_event_type (encode_event_type event) ≡ some event
unfolding decode_event_type encode_event_type
decode-encode_event_type EventType.submitted = refl
decode-encode_event_type _ = refl

-- One branch of a decoder: its text is the code of the constructor that it returns.
branch :
    {A : Type 0} (encode : A → String) (value : String) (x c : A) (rest : Option A)
    → (rest ≡ some x → encode x ≡ value)
    → (if str_eq value (encode c) then some c else rest) ≡ some x
    → encode x ≡ value
branch encode value x c rest other h = elim (Bool-cases (str_eq value (encode c))) [
  | inl e ↦
      let taken : some c ≡ some x = rw e at h in
      let same : c ≡ x = cc in ap encode (sym same) ∙ sym ((eq_iff value (encode c)).0 e)
  | inr e ↦ other (rw e at h)
]

encode-decode_status :
    (value : String) (x : TaskStatus) → decode_status value ≡ some x → encode_status x ≡ value
unfolding decode_status encode_status
encode-decode_status value x = step TaskStatus.accepted _ (
    step TaskStatus.running _ (
      step TaskStatus.success _ (step TaskStatus.failed _ (step TaskStatus.cancelled _ (λ h. cc)))))
  where
    step :
        (c : TaskStatus) (rest : Option TaskStatus)
        → (rest ≡ some x → encode_status x ≡ value)
        → (if str_eq value (encode_status c) then some c else rest) ≡ some x
        → encode_status x ≡ value
    step = branch encode_status value x

encode-decode_error_code :
    (value : String) (x : ErrorCode)
    → decode_error_code value ≡ some x
    → encode_error_code x ≡ value
unfolding decode_error_code encode_error_code
encode-decode_error_code value x = step ErrorCode.invalid_input _ (
    step ErrorCode.launch_failed _ (
      step ErrorCode.timeout _ (
        step ErrorCode.cancelled _ (
          step ErrorCode.memory_limit_exceeded _ (
            step ErrorCode.cpu_limit_exceeded _ (
              step ErrorCode.resource_limit_exceeded _ (
                step ErrorCode.sandbox_setup_failed _ (
                  step ErrorCode.exit_non_zero _ (
                    step ErrorCode.unsupported_capability _ (
                      step ErrorCode.insufficient_resources _ (
                        step ErrorCode.not_found _ (
                          step ErrorCode.conflict _ (
                            step ErrorCode.permission_denied _
                              (step ErrorCode.internal _ (λ h. cc)))))))))))))))
  where
    step :
        (c : ErrorCode) (rest : Option ErrorCode)
        → (rest ≡ some x → encode_error_code x ≡ value)
        → (if str_eq value (encode_error_code c) then some c else rest) ≡ some x
        → encode_error_code x ≡ value
    step = branch encode_error_code value x

encode-decode_event_type :
    (value : String) (x : EventType)
    → decode_event_type value ≡ some x
    → encode_event_type x ≡ value
unfolding decode_event_type encode_event_type
encode-decode_event_type value x = step EventType.submitted _ (
    step EventType.accepted _ (
      step EventType.planned _ (
        step EventType.degraded _ (
          step EventType.resource_reserved _ (
            step EventType.resource_released _ (
              step EventType.started _ (
                step EventType.kill_requested _ (
                  step EventType.timeout_triggered _ (
                    step EventType.finished _ (
                      step EventType.failed _ (
                        step EventType.cancelled _ (step EventType.recovered _ (λ h. cc)))))))))))))
  where
    step :
        (c : EventType) (rest : Option EventType)
        → (rest ≡ some x → encode_event_type x ≡ value)
        → (if str_eq value (encode_event_type c) then some c else rest) ≡ some x
        → encode_event_type x ≡ value
    step = branch encode_event_type value x

-- The text that encodes a status, an error code or an event type is the one text that is decoded to
-- it: what the database stores is read back as the same constructor, and no other text is.
pub decode_iff :
    ((value : String) (status : TaskStatus)
      → (decode_status value ≡ some status) ↔ (encode_status status ≡ value))
    × ((value : String) (code : ErrorCode)
        → (decode_error_code value ≡ some code) ↔ (encode_error_code code ≡ value))
    × ((value : String) (event : EventType)
        → (decode_event_type value ≡ some event) ↔ (encode_event_type event ≡ value))
decode_iff = (
  λ value x. (encode-decode_status value x, λ e. rw (← e) (decode-encode_status x)),
  λ value x. (encode-decode_error_code value x, λ e. rw (← e) (decode-encode_error_code x)),
  λ value x. (encode-decode_event_type value x, λ e. rw (← e) (decode-encode_event_type x)),
)
