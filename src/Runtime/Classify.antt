-- ===== src/Runtime/Classify.antt =====
-- src/runtime.rs: how the shim of a task classifies its end. Times are milliseconds of one clock.
use execgo_runtime.Base.{
  ℕ, Bool, false, String, Option, none, some, if◌then◌else◌, str_append, ◌==◌,
}
use execgo_runtime.Base.Text.{decimal}
use execgo_runtime.Types.Status.{TaskStatus, ErrorCode, RuntimeErrorInfo}
use execgo_runtime.Repo.Rows.{CompletionUpdate}

-- What `wait4` tells of the end of the process.
pub record WaitUsage : Type 0 where
  pub exit_code : Option ℕ
  pub exit_signal : Option ℕ
  pub user_cpu_ms : Option ℕ
  pub system_cpu_ms : Option ℕ
  pub max_rss_bytes : Option ℕ

-- What the system tells besides: the number of SIGXCPU, and of the control group of the task its
-- peak of memory and whether the kernel killed it for memory.
pub record Verdict : Type 0 where
  pub sigxcpu : ℕ
  pub memory_peak : Option ℕ
  pub oom_killed : Bool

abbrev pub is_number : ℕ → Option ℕ → Bool
is_number n none = false
is_number n (some m) = m == n

abbrev info : ErrorCode → String → Option RuntimeErrorInfo
info code message = some (record { code = code; message = message; details = none })

-- The outcome that the exit code and the signal tell.
unfoldable pub classify_exit : WaitUsage → TaskStatus × Option RuntimeErrorInfo
classify_exit usage =
    if is_number 0 usage.exit_code then (TaskStatus.success, none) else elim usage.exit_code [
      | some code ↦ (
        TaskStatus.failed,
        info ErrorCode.exit_non_zero (str_append "task exited with code " (decimal code)),
      )
      | none ↦ elim usage.exit_signal [
        | some signal ↦ (
          TaskStatus.failed,
          info ErrorCode.internal (str_append "task terminated by signal " (decimal signal)),
        )
        | none ↦ (TaskStatus.failed, info ErrorCode.internal "task failed with unknown outcome")
      ]
    ]

-- The outcome of a task: a timeout before a cancellation before the limits before the exit.
unfoldable pub classify : Verdict → WaitUsage → Bool → Bool → TaskStatus × Option RuntimeErrorInfo
unfolding classify_exit
classify verdict usage timed_out cancelled =
    if timed_out
    then (TaskStatus.failed, info ErrorCode.timeout "task exceeded wall_time_ms")
    else if cancelled
    then (TaskStatus.cancelled, info ErrorCode.cancelled "task cancelled")
    else if verdict.oom_killed
    then (TaskStatus.failed, info ErrorCode.memory_limit_exceeded "task exceeded memory limit")
    else if is_number verdict.sigxcpu usage.exit_signal
    then (TaskStatus.failed, info ErrorCode.cpu_limit_exceeded "task exceeded cpu_time_sec")
    else classify_exit usage

-- `classify_completion`
unfoldable pub classify_completion : Verdict → WaitUsage → ℕ → Bool → Bool → ℕ → CompletionUpdate
unfolding classify
classify_completion verdict usage duration_ms timed_out cancelled now = record {
  status = outcome.0;
  finished_at = now;
  duration_ms = some duration_ms;
  exit_code = usage.exit_code;
  exit_signal = usage.exit_signal;
  error = outcome.1;
  usage = some (record {
    duration_ms = duration_ms;
    user_cpu_ms = usage.user_cpu_ms;
    system_cpu_ms = usage.system_cpu_ms;
    max_rss_bytes = usage.max_rss_bytes;
    memory_peak_bytes = verdict.memory_peak;
  });
  result_json = none;
}
  where
    outcome : TaskStatus × Option RuntimeErrorInfo
    outcome = classify verdict usage timed_out cancelled
