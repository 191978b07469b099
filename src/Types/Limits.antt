-- ===== src/Types/Limits.antt =====
-- src/types.rs: ResourceLimits, its validation, and the reservation made from it.
use execgo_runtime.Base.{ℕ, not, ◌||◌, Option, none, ◌==◌}
use execgo_runtime.Errors.{Checked, invalid_input, guard, ◌>>◌}

pub record ResourceLimits : Type 0 where
  pub wall_time_ms : ℕ
  pub cpu_time_sec : Option ℕ
  pub memory_bytes : Option ℕ
  pub pids_max : Option ℕ
  pub stdout_max_bytes : ℕ
  pub stderr_max_bytes : ℕ

abbrev pub default_output_inline_bytes : ℕ
default_output_inline_bytes = 4194304

abbrev pub default_wall_time_ms : ℕ
default_wall_time_ms = 300000

abbrev pub default_limits : ResourceLimits
default_limits = record {
  wall_time_ms = default_wall_time_ms;
  cpu_time_sec = none;
  memory_bytes = none;
  pids_max = none;
  stdout_max_bytes = default_output_inline_bytes;
  stderr_max_bytes = default_output_inline_bytes;
}

-- `ResourceLimits::validate`
unfoldable pub validate : ResourceLimits → Checked
validate limits = do
  guard (not (limits.wall_time_ms == 0))
      (invalid_input "limits.wall_time_ms must be greater than 0")
  guard (not (limits.stdout_max_bytes == 0 || limits.stderr_max_bytes == 0))
      (invalid_input "limits.stdout_max_bytes and limits.stderr_max_bytes must be greater than 0")

pub record TaskResourceReservation : Type 0 where
  pub task_slots : ℕ
  pub memory_bytes : Option ℕ
  pub pids : Option ℕ

-- `TaskResourceReservation::from_limits`
abbrev pub from_limits : ResourceLimits → TaskResourceReservation
from_limits limits = record {
  task_slots = 1;
  memory_bytes = limits.memory_bytes;
  pids = limits.pids_max;
}
