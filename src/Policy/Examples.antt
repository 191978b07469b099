-- ===== src/Policy/Examples.antt =====
-- The theorems about the negotiation at concrete inputs: a task that asks for the isolated profile
-- and a limit on processes, on a runtime without the one and the other.
use execgo_runtime.Base.{◌≡◌, refl, true, false, some, none, [], ◌∷◌, is_some}
use execgo_runtime.Errors.{ok}
use execgo_runtime.Types.Execution.{ExecutionKind}
use execgo_runtime.Types.Control.{CapabilityMode}
use execgo_runtime.Types.Sandbox.{
  SandboxProfile, default_sandbox, is_linux_sandbox, effective_namespaces,
}
use execgo_runtime.Types.Limits.{default_limits}
use execgo_runtime.Types.Plan.{ExecutionPlan}
use execgo_runtime.Types.Capability.{RuntimeCapabilities}
use execgo_runtime.Types.Request.{SubmitTaskRequest}
use execgo_runtime.Policy.{
  adjust_namespaces, namespace_or_fallback, build_plan, fall_back, negotiate_profile,
  negotiate_chroot, negotiate_namespaces, require_enforced, negotiate_limits, negotiate_sandbox,
  negotiate, resolve_execution_plan,
}
use execgo_runtime.Policy.Modes.{StrictAgrees, strict_adaptive}
use execgo_runtime.Policy.Effective.{
  IsSupportedPart, effective_sandbox-IsSupportedPart, limits_enforced,
}

abbrev pub bare_runtime : RuntimeCapabilities
bare_runtime = record {
  runtime_id = "test";
  snapshot_version = "v1";
  collected_at = 0;
  platform = record { os = "test"; arch = "test"; containerized = false; kubernetes = false };
  execution = record { command = true; script = true; process_group = true };
  sandbox = record {
    process = true;
    linux_sandbox = false;
    chroot = false;
    namespaces = record { mount = false; pid = false; uts = false; ipc = false; net = false };
  };
  storage = record { data_dir_writable = true };
  resources = record {
    rlimit_cpu = true;
    rlimit_memory = true;
    cgroup_v2 = false;
    cgroup_writable = false;
    memory_limit = true;
    pids_limit = false;
    oom_detection = false;
    cpu_quota = false;
    ledger = true;
    capacity = record { task_slots = 4; memory_bytes = some 1024; pids = some 64 };
  };
  stable_semantics = [];
  enhanced_semantics = [];
  warnings = [];
  degraded = false;
  overrides = [];
}

abbrev strict_request : SubmitTaskRequest
strict_request = record {
  task_id = none;
  execution = record {
    kind = ExecutionKind.command;
    program = some "/bin/echo";
    args = "ok" ∷ [];
    script = none;
    interpreter = none;
    env = [];
  };
  limits = record default_limits { pids_max = some 8 };
  sandbox = record default_sandbox { profile = SandboxProfile.linux_sandbox };
  policy = some (record { capability_mode = CapabilityMode.strict });
  control_context = none;
  metadata = [];
}

abbrev pub adaptive_request : SubmitTaskRequest
adaptive_request = record strict_request { policy = none }

abbrev pub fallen_back : ExecutionPlan
fallen_back =
    build_plan adaptive_request bare_runtime CapabilityMode.adaptive default_sandbox (record {
      degraded = true;
      reasons =
          "linux_sandbox is unavailable; falling back to process sandbox"
          ∷ "pids_max enforcement requires writable cgroup support" ∷ [];
    })

pub adaptive_plan :
    resolve_execution_plan adaptive_request bare_runtime CapabilityMode.adaptive ≡ ok fallen_back
unfolding resolve_execution_plan negotiate negotiate_sandbox negotiate_profile negotiate_chroot
    negotiate_namespaces negotiate_limits require_enforced fall_back
adaptive_plan = refl

strict_adaptive_example :
    (plan : ExecutionPlan) × (resolve_execution_plan adaptive_request bare_runtime
        CapabilityMode.adaptive
      ≡ ok plan)
    × StrictAgrees plan CapabilityMode.strict
        (resolve_execution_plan strict_request bare_runtime CapabilityMode.adaptive)
strict_adaptive_example =
    strict_adaptive strict_request none none bare_runtime CapabilityMode.adaptive refl refl

effective_sandbox-IsSupportedPart_example :
    (fallen_back.requested_sandbox ≡ adaptive_request.sandbox)
    × IsSupportedPart bare_runtime adaptive_request.sandbox fallen_back.effective_sandbox
effective_sandbox-IsSupportedPart_example =
    effective_sandbox-IsSupportedPart adaptive_request bare_runtime CapabilityMode.adaptive
      fallen_back adaptive_plan

limits_enforced_example :
    let enforcement = fallen_back.resource_enforcement in
    (fallen_back.degraded ≡ false
      → (enforcement.cpu_time_enforced ≡ is_some default_limits.cpu_time_sec)
        × (enforcement.memory_enforced ≡ is_some default_limits.memory_bytes)
        × (enforcement.pids_enforced ≡ true))
    × (enforcement.pids_enforced ≡ true
        → (is_linux_sandbox fallen_back.effective_sandbox.profile ≡ true)
          × (bare_runtime.resources.cgroup_writable ≡ true))
limits_enforced_example =
    limits_enforced adaptive_request bare_runtime CapabilityMode.adaptive fallen_back adaptive_plan

-- A runtime that supports all of it, and a request with limits.
abbrev pub full_runtime : RuntimeCapabilities
full_runtime = record bare_runtime {
  sandbox = record {
    process = true;
    linux_sandbox = true;
    chroot = true;
    namespaces = record { mount = true; pid = true; uts = true; ipc = true; net = true };
  };
  resources = record bare_runtime.resources {
    cgroup_v2 = true;
    cgroup_writable = true;
    pids_limit = true;
    oom_detection = true;
  };
}

abbrev pub full_request : SubmitTaskRequest
full_request = record strict_request {
  limits = record default_limits {
    cpu_time_sec = some 5;
    memory_bytes = some 4096;
    pids_max = some 8;
  };
}

abbrev pub full_plan : ExecutionPlan
full_plan =
    build_plan full_request full_runtime CapabilityMode.strict
      (record default_sandbox {
        profile = SandboxProfile.linux_sandbox;
        namespaces = some (effective_namespaces full_request.sandbox);
      })
      (record { degraded = false; reasons = [] })

pub full_planned :
    resolve_execution_plan full_request full_runtime CapabilityMode.adaptive ≡ ok full_plan
unfolding resolve_execution_plan negotiate negotiate_sandbox negotiate_profile negotiate_chroot
    negotiate_namespaces adjust_namespaces namespace_or_fallback negotiate_limits require_enforced
    fall_back
full_planned = refl
