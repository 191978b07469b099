-- ===== src/Types/Capability.antt =====
-- src/types.rs: the capability snapshot of a runtime.
use execgo_runtime.Base.{ℕ, Bool, String, Option, List}

pub record RuntimePlatform : Type 0 where
  pub os : String
  pub arch : String
  pub containerized : Bool
  pub kubernetes : Bool

pub record ExecutionCapabilities : Type 0 where
  pub command : Bool
  pub script : Bool
  pub process_group : Bool

pub record NamespaceCapabilities : Type 0 where
  pub mount : Bool
  pub pid : Bool
  pub uts : Bool
  pub ipc : Bool
  pub net : Bool

pub record SandboxCapabilities : Type 0 where
  pub process : Bool
  pub linux_sandbox : Bool
  pub chroot : Bool
  pub namespaces : NamespaceCapabilities

pub record StorageCapabilities : Type 0 where
  pub data_dir_writable : Bool

pub record ResourceCapacity : Type 0 where
  pub task_slots : ℕ
  pub memory_bytes : Option ℕ
  pub pids : Option ℕ

pub record ResourceCapabilities : Type 0 where
  pub rlimit_cpu : Bool
  pub rlimit_memory : Bool
  pub cgroup_v2 : Bool
  pub cgroup_writable : Bool
  pub memory_limit : Bool
  pub pids_limit : Bool
  pub oom_detection : Bool
  pub cpu_quota : Bool
  pub ledger : Bool
  pub capacity : ResourceCapacity

-- `collected_at` in milliseconds; `overrides` is the list of the entries of the BTreeMap.
pub record RuntimeCapabilities : Type 0 where
  pub runtime_id : String
  pub snapshot_version : String
  pub collected_at : ℕ
  pub platform : RuntimePlatform
  pub execution : ExecutionCapabilities
  pub sandbox : SandboxCapabilities
  pub storage : StorageCapabilities
  pub resources : ResourceCapabilities
  pub stable_semantics : List String
  pub enhanced_semantics : List String
  pub warnings : List String
  pub degraded : Bool
  pub overrides : List (String × String)
