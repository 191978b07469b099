-- ===== src/Types/Sandbox.antt =====
-- src/types.rs: the sandbox a task asks for, its validation, and the workspace directory.
-- Paths are Unix paths as texts; `components` and `join` are those of std::path there.
use execgo_runtime.Base.{
  Bool, true, false, not, ◌&&◌, ◌||◌, String, Option, none, some, any, unwrap_or, if◌then◌else◌,
  str_eq, str_append,
}
use execgo_runtime.Base.Text.{is_empty, split, first_is, last_is}
use execgo_runtime.Errors.{AppResult, Checked, ok, invalid_input, guard, ◌>>◌}
use execgo_runtime.Types.Execution.{is_blank}

pub data SandboxProfile : Type 0 where
  process linux_sandbox : SandboxProfile

pub record NamespaceConfig : Type 0 where
  pub mount : Bool
  pub pid : Bool
  pub uts : Bool
  pub ipc : Bool
  pub net : Bool

abbrev pub default_namespaces : NamespaceConfig
default_namespaces = record { mount = true; pid = true; uts = true; ipc = true; net = false }

pub record SandboxPolicy : Type 0 where
  pub profile : SandboxProfile
  pub workspace_subdir : Option String
  pub rootfs : Option String
  pub chroot : Bool
  pub namespaces : Option NamespaceConfig

abbrev pub default_sandbox : SandboxPolicy
default_sandbox = record {
  profile = SandboxProfile.process;
  workspace_subdir = none;
  rootfs = none;
  chroot = false;
  namespaces = none;
}

-- `matches!(profile, SandboxProfile::LinuxSandbox)`
abbrev pub is_linux_sandbox : SandboxProfile → Bool
is_linux_sandbox SandboxProfile.process = false
is_linux_sandbox SandboxProfile.linux_sandbox = true

-- `SandboxPolicy::effective_namespaces`
abbrev pub effective_namespaces : SandboxPolicy → NamespaceConfig
effective_namespaces s = unwrap_or default_namespaces s.namespaces

-- `Path::is_absolute`
abbrev pub is_absolute : String → Bool
is_absolute path = first_is b'/' path

-- The path has a component `..`; on Unix a root component is a leading `/`, and there is no prefix.
abbrev pub has_parent_dir : String → Bool
has_parent_dir path = any (λ part. str_eq part "..") (split b'/' path)

unfoldable pub validate_relative_workspace_subdir : String → Checked
validate_relative_workspace_subdir subdir = do
  guard (not (is_absolute subdir)) (invalid_input "sandbox.workspace_subdir must be relative")
  guard (not (has_parent_dir subdir || is_absolute subdir))
      (invalid_input "sandbox.workspace_subdir cannot contain parent traversal")

unfoldable pub validate_subdir : Option String → Checked
unfolding validate_relative_workspace_subdir
validate_subdir none = ok tt
validate_subdir (some subdir) = validate_relative_workspace_subdir subdir

-- `SandboxPolicy::validate`
unfoldable pub validate : SandboxPolicy → Checked
unfolding validate_subdir
validate s = do
  validate_subdir s.workspace_subdir
  guard (not (s.chroot && is_blank s.rootfs))
      (invalid_input "sandbox.rootfs is required when sandbox.chroot=true")
  guard (not (not (is_linux_sandbox s.profile) && s.chroot))
      (invalid_input "sandbox.chroot requires sandbox.profile=linux_sandbox")

-- `Path::join`
abbrev pub join : String → String → String
join base path =
    if is_absolute path
    then path
    else if is_empty base || last_is b'/' base
    then str_append base path
    else str_append base (str_append "/" path)

-- `resolve_workspace_dir`
unfoldable pub resolve_workspace_dir : String → SandboxPolicy → AppResult String
unfolding validate_relative_workspace_subdir
resolve_workspace_dir task_dir s = elim s.workspace_subdir [
  | none ↦ ok (join task_dir "workspace")
  | some subdir ↦ do
    validate_relative_workspace_subdir subdir
    ok (join (join task_dir "workspace") subdir)
]
