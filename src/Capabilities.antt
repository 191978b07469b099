-- ===== src/Capabilities.antt =====
-- src/capabilities.rs: the probe of what the host can do. The file system, the environment and the
-- system's numbers are what the host answers.
pub mod Isolation
mod Examples
use execgo_runtime.Base.{
  ℕ, ◌*◌, min, String, Bool, true, false, not, ◌&&◌, ◌||◌, ◌==◌, Option, none, some, List, [], ◌∷◌,
  ◌++◌, is_some, is_none, ltb, if◌then◌else◌, and_then, unwrap_or, str_append, u64_max,
}
use execgo_runtime.Base.Text.{decimal, trim, contains, parse_u64, parent}
use execgo_runtime.Base.Dict
use execgo_runtime.Base.Dict.{Dict}
use execgo_runtime.Types.Sandbox.{join}
use execgo_runtime.Types.Capability.{
  RuntimePlatform, ExecutionCapabilities, NamespaceCapabilities, SandboxCapabilities,
  StorageCapabilities, ResourceCapacity, ResourceCapabilities, RuntimeCapabilities,
}

pub record CapabilityProbeInput : Type 0 where
  pub runtime_id : String
  pub data_dir : String
  pub cgroup_root : String
  pub max_running_tasks : ℕ
  pub disable_linux_sandbox : Bool
  pub disable_cgroup : Bool
  pub capacity_memory_bytes : Option ℕ
  pub capacity_pids : Option ℕ

-- The target of the build (`linux` for target_os, `unix`), the process, and the answers of the host:
-- `can_write` a file, `exists`, `readonly` (none where there are no metadata), the contents of a
-- text file, an environment variable, the numbers of sysconf (0 for none), and the clock.
pub record Host : Type 0 where
  pub os : String
  pub arch : String
  pub linux : Bool
  pub unix : Bool
  pub process_id : ℕ
  pub euid : ℕ
  pub can_write : String → Bool
  pub exists : String → Bool
  pub readonly : String → Option Bool
  pub read_to_string : String → Option String
  pub has_variable : String → Bool
  pub physical_pages : ℕ
  pub page_size : ℕ
  pub now : ℕ

-- `cond.then(|| x)`, and `vec.push(x)` under an `if`.
abbrev pub push_if {ℓ} : {A : Type ℓ} → Bool → A → List A
push_if true x = x ∷ []
push_if false x = []

-- `option.or_else(other)`
abbrev pub or_else : Option ℕ → Option ℕ → Option ℕ
or_else none other = other
or_else (some n) other = some n

-- `map.insert(key, value)` under an `if` or an `if let`.
abbrev put_if : Bool → String → String → Dict String → Dict String
put_if true key value d = Dict.put d key value
put_if false key value d = d

abbrev put_number : String → Option ℕ → Dict String → Dict String
put_number key none d = d
put_number key (some n) d = Dict.put d key (decimal n)

unfoldable pub overrides_of : CapabilityProbeInput → Dict String
overrides_of input = put_number "capacity_pids" input.capacity_pids (
    put_number "capacity_memory_bytes" input.capacity_memory_bytes (
      put_if input.disable_cgroup "cgroup" "disabled"
        (put_if input.disable_linux_sandbox "linux_sandbox" "disabled" [])))

unfoldable pub stable_semantics : List String
stable_semantics =
    "submit" ∷ "status" ∷ "events" ∷ "stdout_stderr" ∷ "timeout" ∷ "kill" ∷ "artifacts"
    ∷ "result_persistence" ∷ "recovery" ∷ []

unfoldable pub enhanced_semantics : Bool → Bool → List String
enhanced_semantics linux_sandbox cgroup_writable =
    "resource_ledger"
    ∷ ((if linux_sandbox then "linux_sandbox" ∷ "namespaces" ∷ "chroot" ∷ [] else [])
        ++ (if cgroup_writable then "cgroup_memory" ∷ "cgroup_pids" ∷ "oom_detection" ∷ [] else []))

module _ (host : Host) where
  unfoldable pub data_dir_writable : String → Bool
  data_dir_writable path =
      host.can_write (join path (str_append ".execgo-runtime-probe-" (decimal host.process_id)))

  unfoldable pub path_likely_writable : String → Bool
  path_likely_writable path =
      elim (host.readonly (if host.exists path then path else unwrap_or path (parent path))) [
        | none ↦ false
        | some readonly ↦ not readonly
      ]

  -- `read_to_string(path).is_some_and(test)`
  abbrev file_has : String → (String → Bool) → Bool
  file_has path test = elim (host.read_to_string path) [ none ↦ false | some text ↦ test text ]

  unfoldable pub detect_containerized : Bool
  detect_containerized =
      host.exists "/.dockerenv"
      || host.exists "/run/.containerenv"
      || file_has "/proc/1/cgroup"
          (λ text. contains "docker" text || contains "containerd" text || contains "kubepods" text)

  unfoldable pub detect_kubernetes : Bool
  detect_kubernetes =
      host.has_variable "KUBERNETES_SERVICE_HOST"
      || file_has "/proc/1/cgroup" (λ text. contains "kubepods" text)

  unfoldable pub detect_memory_bytes : Option ℕ
  detect_memory_bytes =
      if host.unix && ltb 0 host.physical_pages && ltb 0 host.page_size
      then some (min (host.physical_pages * host.page_size) u64_max)
      else none

  unfoldable pub detect_pids_capacity : Option ℕ
  detect_pids_capacity =
      if host.linux
      then and_then (host.read_to_string "/proc/sys/kernel/pid_max") (λ text. parse_u64 (trim text))
      else none

  unfoldable pub current_euid : Option ℕ
  current_euid = if host.unix then some host.euid else none

  abbrev is_root : Option ℕ → Bool
  is_root none = false
  is_root (some uid) = uid == 0

  module _ (input : CapabilityProbeInput) where
    -- The locals of the probe.
    abbrev pub linux_sandbox : Bool
    linux_sandbox = host.linux && is_root current_euid && not input.disable_linux_sandbox

    abbrev pub cgroup_v2 : Bool
    cgroup_v2 = host.linux && host.exists "/sys/fs/cgroup/cgroup.controllers"

    abbrev pub cgroup_writable : Bool
    cgroup_writable =
        cgroup_v2 && not input.disable_cgroup && path_likely_writable input.cgroup_root

    unfoldable pub warnings : List String
    warnings =
        push_if (not (data_dir_writable input.data_dir))
          (str_append "data-dir is not writable: " input.data_dir)
        ++ (push_if (not linux_sandbox) (
              if host.linux
              then "linux_sandbox is unavailable without root-equivalent namespace permissions"
              else "linux_sandbox is unavailable on this host")
            ++ push_if (cgroup_v2 && not cgroup_writable) (
                str_append "cgroup v2 detected but cgroup root is not writable: "
                  input.cgroup_root))

    unfoldable pub resources : ResourceCapabilities
    unfolding detect_memory_bytes detect_pids_capacity
    resources = record {
      rlimit_cpu = host.unix;
      rlimit_memory = host.unix;
      cgroup_v2 = cgroup_v2;
      cgroup_writable = cgroup_writable;
      memory_limit = host.unix;
      pids_limit = cgroup_writable;
      oom_detection = cgroup_writable;
      cpu_quota = false;
      ledger = true;
      capacity = record {
        task_slots = input.max_running_tasks;
        memory_bytes = or_else input.capacity_memory_bytes detect_memory_bytes;
        pids = or_else input.capacity_pids detect_pids_capacity;
      };
    }

    abbrev not_empty : List String → Bool
    not_empty [] = false
    not_empty (x ∷ xs) = true

    unfoldable pub probe_runtime_capabilities : RuntimeCapabilities
    unfolding resources warnings overrides_of stable_semantics enhanced_semantics
        detect_containerized detect_kubernetes
    probe_runtime_capabilities = record {
      runtime_id = input.runtime_id;
      snapshot_version = "v1";
      collected_at = host.now;
      platform = record {
        os = host.os;
        arch = host.arch;
        containerized = detect_containerized;
        kubernetes = detect_kubernetes;
      };
      execution = record { command = true; script = true; process_group = host.unix };
      sandbox = record {
        process = true;
        linux_sandbox = linux_sandbox;
        chroot = linux_sandbox;
        namespaces = record {
          mount = linux_sandbox;
          pid = linux_sandbox;
          uts = linux_sandbox;
          ipc = linux_sandbox;
          net = linux_sandbox;
        };
      };
      storage = record { data_dir_writable = data_dir_writable input.data_dir };
      resources = resources;
      stable_semantics = stable_semantics;
      enhanced_semantics = enhanced_semantics linux_sandbox cgroup_writable;
      warnings = warnings;
      degraded = not_empty warnings;
      overrides = overrides_of input;
    }
