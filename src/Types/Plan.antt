-- ===== src/Types/Plan.antt =====
-- src/types.rs: the plan that the negotiation of a request yields, and the plan of old records.
use execgo_runtime.Base.{ℕ, Bool, false, ◌&&◌, String, Option, is_some, List, []}
use execgo_runtime.Types.Control.{CapabilityMode, adaptive}
use execgo_runtime.Types.Sandbox.{SandboxPolicy, is_linux_sandbox}
use execgo_runtime.Types.Limits.{ResourceLimits}

pub record ResourceEnforcementPlan : Type 0 where
  pub wall_time_ms : ℕ
  pub cpu_time_sec : Option ℕ
  pub cpu_time_enforced : Bool
  pub memory_bytes : Option ℕ
  pub memory_enforced : Bool
  pub pids_max : Option ℕ
  pub pids_enforced : Bool
  pub cgroup_enforced : Bool
  pub oom_detection : Bool

pub record ExecutionPlan : Type 0 where
  pub capability_mode : CapabilityMode
  pub requested_sandbox : SandboxPolicy
  pub effective_sandbox : SandboxPolicy
  pub resource_enforcement : ResourceEnforcementPlan
  pub degraded : Bool
  pub fallback_reasons : List String
  pub capability_warnings : List String

-- `ExecutionPlan::legacy`
unfoldable pub legacy : SandboxPolicy → ResourceLimits → ExecutionPlan
legacy sandbox limits = record {
  capability_mode = adaptive;
  requested_sandbox = sandbox;
  effective_sandbox = sandbox;
  resource_enforcement = record {
    wall_time_ms = limits.wall_time_ms;
    cpu_time_sec = limits.cpu_time_sec;
    cpu_time_enforced = is_some limits.cpu_time_sec;
    memory_bytes = limits.memory_bytes;
    memory_enforced = is_some limits.memory_bytes;
    pids_max = limits.pids_max;
    pids_enforced = is_some limits.pids_max && cgroup_enforced;
    cgroup_enforced = cgroup_enforced;
    oom_detection = is_some limits.memory_bytes && cgroup_enforced;
  };
  degraded = false;
  fallback_reasons = [];
  capability_warnings = [];
}
  where
    cgroup_enforced : Bool
    cgroup_enforced = is_linux_sandbox sandbox.profile
