-- ===== src/Types/Views.antt =====
-- src/types.rs: the responses of the API that are views of the state.
use execgo_runtime.Base.{ℕ, String, Bool, Option, List}
use execgo_runtime.Types.Status.{TaskStatus}
use execgo_runtime.Types.Control.{CapabilityMode}
use execgo_runtime.Types.Limits.{TaskResourceReservation}
use execgo_runtime.Types.Capability.{RuntimePlatform, ResourceCapacity}

pub record TaskArtifacts : Type 0 where
  pub task_dir : String
  pub request_path : String
  pub result_path : String
  pub stdout_path : String
  pub stderr_path : String
  pub script_path : Option String

pub record HealthResponse : Type 0 where
  pub status : String
  pub version : String

pub record RuntimeInfoResponse : Type 0 where
  pub runtime_id : String
  pub version : String
  pub started_at : ℕ
  pub snapshot_version : String
  pub platform : RuntimePlatform

pub record RuntimeConfigResponse : Type 0 where
  pub runtime_id : String
  pub listen_addr : String
  pub data_dir : String
  pub max_running_tasks : ℕ
  pub max_queued_tasks : ℕ
  pub termination_grace_ms : ℕ
  pub result_retention_secs : ℕ
  pub gc_interval_ms : ℕ
  pub dispatch_poll_interval_ms : ℕ
  pub cgroup_root : String
  pub default_capability_mode : CapabilityMode
  pub cgroup_enabled : Bool

pub record ActiveTaskReservation : Type 0 where
  pub task_id : String
  pub status : TaskStatus
  pub reservation : TaskResourceReservation
  pub reserved_at : Option ℕ

pub record TenantResourceView : Type 0 where
  pub tenant : String
  pub quota : Option ResourceCapacity
  pub reserved : ResourceCapacity
  pub available : Option ResourceCapacity

pub record RuntimeResourcesResponse : Type 0 where
  pub runtime_id : String
  pub capacity : ResourceCapacity
  pub reserved : ResourceCapacity
  pub available : ResourceCapacity
  pub active_reservations : List ActiveTaskReservation
  pub accepted_waiting_tasks : ℕ
  pub tenants : List TenantResourceView
