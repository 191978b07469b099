-- ===== src/Types/Status.antt =====
-- src/types.rs: the life cycle of a task, its error codes and the kinds of its events.
use execgo_runtime.Base.{Bool, true, false, String, Option}

pub data TaskStatus : Type 0 where
  accepted running success failed cancelled : TaskStatus

unfoldable pub is_terminal : TaskStatus → Bool
is_terminal success = true
is_terminal failed = true
is_terminal cancelled = true
is_terminal _ = false

pub data ErrorCode : Type 0 where
  invalid_input : ErrorCode
  launch_failed : ErrorCode
  timeout : ErrorCode
  cancelled : ErrorCode
  memory_limit_exceeded : ErrorCode
  cpu_limit_exceeded : ErrorCode
  resource_limit_exceeded : ErrorCode
  sandbox_setup_failed : ErrorCode
  exit_non_zero : ErrorCode
  unsupported_capability : ErrorCode
  insufficient_resources : ErrorCode
  not_found : ErrorCode
  conflict : ErrorCode
  permission_denied : ErrorCode
  internal : ErrorCode

-- `details` is the text of a JSON value; no code of the crate sets it.
pub record RuntimeErrorInfo : Type 0 where
  pub code : ErrorCode
  pub message : String
  pub details : Option String

pub data EventType : Type 0 where
  submitted : EventType
  accepted : EventType
  planned : EventType
  degraded : EventType
  resource_reserved : EventType
  resource_released : EventType
  started : EventType
  kill_requested : EventType
  timeout_triggered : EventType
  finished : EventType
  failed : EventType
  cancelled : EventType
  recovered : EventType
