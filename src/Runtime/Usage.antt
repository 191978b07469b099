-- ===== src/Runtime/Usage.antt =====
-- src/runtime.rs: what the shim learns when a process ends: wait_for_pid, the conversions of its
-- usage, and the files of its cgroup.
use execgo_runtime.Base.{
  ℕ, ◌*◌, ◌/◌, min, String, Bool, false, ◌&&◌, Option, none, some, List, [], ◌∷◌, any, ltb,
  and_then, unwrap_or, str_eq, saturating_add, u64_max,
}
use execgo_runtime.Base.Text.{trim, parse_u64, lines, split_whitespace}
use execgo_runtime.Errors.{AppResult, ok, err, io, internal}
use execgo_runtime.Types.Sandbox.{join}
use execgo_runtime.Runtime.Classify.{WaitUsage}

-- `timeval_to_ms`, of seconds and microseconds that are not negative.
unfoldable pub timeval_to_ms : ℕ → ℕ → ℕ
timeval_to_ms tv_sec tv_usec = saturating_add (min (tv_sec * 1000) u64_max) (tv_usec / 1000)

-- `convert_max_rss` on Linux, of kilobytes that are not negative.
unfoldable pub convert_max_rss : ℕ → ℕ
convert_max_rss value = min (value * 1024) u64_max

-- How a process ended: by its exit with a code, by a signal, or in another way.
pub data Ended : Type 0 where
  exited : ℕ → Ended
  signaled : ℕ → Ended
  stopped : Ended

-- `libc::rusage`
pub record Rusage : Type 0 where
  pub utime_sec : ℕ
  pub utime_usec : ℕ
  pub stime_sec : ℕ
  pub stime_usec : ℕ
  pub maxrss : ℕ

-- An answer of `wait4`: interrupted, an error, no child, or an end.
pub data Waited : Type 0 where
  interrupted : Waited
  failed : String → Waited
  no_child : Waited
  ended : Ended → Rusage → Waited

abbrev pub exit_code_of : Ended → Option ℕ
exit_code_of (exited code) = some code
exit_code_of (signaled signal) = none
exit_code_of stopped = none

abbrev pub exit_signal_of : Ended → Option ℕ
exit_signal_of (exited code) = none
exit_signal_of (signaled signal) = some signal
exit_signal_of stopped = none

-- `wait_for_pid`, over the answers of `wait4`; none where the answers do not suffice.
unfoldable pub wait_for_pid : List Waited → Option (AppResult WaitUsage)
unfolding timeval_to_ms convert_max_rss
wait_for_pid [] = none
wait_for_pid (interrupted ∷ rest) = wait_for_pid rest
wait_for_pid (failed e ∷ rest) = some (err (io e))
wait_for_pid (no_child ∷ rest) = some (err (internal "wait4 returned no child"))
wait_for_pid (ended end usage ∷ rest) = some (
    ok (record {
      exit_code = exit_code_of end;
      exit_signal = exit_signal_of end;
      user_cpu_ms = some (timeval_to_ms usage.utime_sec usage.utime_usec);
      system_cpu_ms = some (timeval_to_ms usage.stime_sec usage.stime_usec);
      max_rss_bytes = some (convert_max_rss usage.maxrss);
    }))

-- `read_memory_peak_bytes`, with the text files of the host.
unfoldable pub read_memory_peak_bytes : (String → Option String) → Option String → Option ℕ
read_memory_peak_bytes read none = none
read_memory_peak_bytes read (some cgroup_dir) =
    and_then (read (join cgroup_dir "memory.peak")) λ value. parse_u64 (trim value)

-- The line counts kills for want of memory: `oom_kill` and a number that is not 0.
abbrev counts_kills : List String → Bool
counts_kills [] = false
counts_kills (name ∷ []) = false
counts_kills (name ∷ value ∷ rest) = str_eq name "oom_kill" && ltb 0 (unwrap_or 0 (parse_u64 value))

-- `oom_killed`
unfoldable pub oom_killed : (String → Option String) → Option String → Bool
oom_killed read none = false
oom_killed read (some cgroup_dir) = elim (read (join cgroup_dir "memory.events")) [
  | none ↦ false
  | some contents ↦ any (λ line. counts_kills (split_whitespace line)) (lines contents)
]
