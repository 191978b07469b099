-- ===== src/Types/Validity.antt =====
-- What the validations of src/types.rs guarantee of a request that they accept.
use Prim.Native.String.append
use Prim.Native.String.{◌∷◌ as cons, [] as nil}
use execgo_runtime.Base.{
  ◌||◌, Bool-cases, ℕ, ◌⊎◌, Bool, true, false, not, String, ◌≡◌, refl, sym, ◌↔◌, Option, none, some,
  any, inl, inr, arith, str_append,
}
use execgo_runtime.Base.Text.{is_empty, last_is}
use execgo_runtime.Errors.{ok, >>=-eq-ok}
use execgo_runtime.Types.Execution
use execgo_runtime.Types.Execution.{
  ExecutionKind, ExecutionSpec, validate_kind, is_blank, is_filled, is_bad_key, is_bad_interpreter,
}
use execgo_runtime.Types.Sandbox
use execgo_runtime.Types.Sandbox.{
  validate_subdir, SandboxPolicy, is_linux_sandbox, is_absolute, has_parent_dir,
  validate_relative_workspace_subdir, join, resolve_workspace_dir,
}

abbrev pub is_command : ExecutionKind → Bool
is_command ExecutionKind.command = true
is_command ExecutionKind.script = false

-- A program exactly for a command, a script exactly for a script, with an interpreter that can be
-- started if there is one, and environment keys that are names.
pub record IsExecution (spec : ExecutionSpec) : Type 0 where
  pub program : is_filled spec.program ≡ is_command spec.kind
  pub script : is_filled spec.script ≡ not (is_command spec.kind)
  pub interpreter : is_command spec.kind ≡ false → is_bad_interpreter spec.interpreter ≡ false
  pub env : any (λ entry. is_bad_key entry.0) spec.env ≡ false

is_filled-is_blank : (s : Option String) → is_filled s ≡ not (is_blank s)
is_filled-is_blank none = refl
is_filled-is_blank (some s) = refl

kind_lem :
    (kind : ExecutionKind) (spec : ExecutionSpec)
    → (validate_kind kind spec ≡ ok tt) ↔ (
        (is_filled spec.program ≡ is_command kind)
        × (is_filled spec.script ≡ not (is_command kind))
        × (is_command kind ≡ false → is_bad_interpreter spec.interpreter ≡ false))
unfolding validate_kind
kind_lem ExecutionKind.command spec =
    ground (arith, is_filled-is_blank spec.program, is_filled-is_blank spec.script)
kind_lem ExecutionKind.script spec =
    ground (arith, is_filled-is_blank spec.program, is_filled-is_blank spec.script)

-- The validation of an execution accepts exactly the specifications that name a program when they
-- are commands and a script when they are scripts, never both, with an interpreter that can be
-- started if a script gives one, and with environment keys that are not blank and without `=`.
pub validate-IsExecution :
    (spec : ExecutionSpec) → (Execution.validate spec ≡ ok tt) ↔ IsExecution spec
unfolding Execution.validate
validate-IsExecution spec = (to, from)
  where
    keys_good : Bool
    keys_good = not (any (λ entry. is_bad_key entry.0) spec.env)

    to : Execution.validate spec ≡ ok tt → IsExecution spec
    to h =
        let (x, p, q) = >>=-eq-ok (validate_kind spec.kind spec) _ tt h in
        let (a, b, c) = (kind_lem spec.kind spec).0 p in
        record { program = a; script = b; interpreter = c; env = ground arith }

    from : IsExecution spec → Execution.validate spec ≡ ok tt
    from v = rw ((kind_lem spec.kind spec).1 (v.program, v.script, v.interpreter), v.env) refl

-- A path below its base: not absolute, and without a component `..`.
abbrev pub IsConfined : String → Type 0
IsConfined subdir = (is_absolute subdir ≡ false) × (has_parent_dir subdir ≡ false)

abbrev pub IsConfinedSubdir : Option String → Type 0
IsConfinedSubdir none = Unit
IsConfinedSubdir (some subdir) = IsConfined subdir

-- A change of root wants the linux_sandbox profile and a root directory.
pub record IsSandbox (s : SandboxPolicy) : Type 0 where
  pub subdir : IsConfinedSubdir s.workspace_subdir
  pub rootfs : s.chroot ≡ true → is_blank s.rootfs ≡ false
  pub profile : s.chroot ≡ true → is_linux_sandbox s.profile ≡ true

subdir_iff :
    (subdir : String) → (validate_relative_workspace_subdir subdir ≡ ok tt) ↔ IsConfined subdir
unfolding validate_relative_workspace_subdir
subdir_iff subdir = ground arith

subdir_option_iff :
    (subdir : Option String) → (validate_subdir subdir ≡ ok tt) ↔ IsConfinedSubdir subdir
unfolding validate_subdir
subdir_option_iff none = ((λ h. tt), (λ h. refl))
subdir_option_iff (some subdir) = subdir_iff subdir

-- The validation of a sandbox accepts exactly the policies whose workspace directory is a relative
-- path without `..`, and which change the root only in the linux_sandbox profile and to a directory
-- that is given.
pub validate-IsSandbox : (s : SandboxPolicy) → (Sandbox.validate s ≡ ok tt) ↔ IsSandbox s
unfolding Sandbox.validate
validate-IsSandbox s = (to, from)
  where
    to : Sandbox.validate s ≡ ok tt → IsSandbox s
    to h =
        let (x, p, q) = >>=-eq-ok (validate_subdir s.workspace_subdir) _ tt h in
        record {
          subdir = (subdir_option_iff s.workspace_subdir).0 p;
          rootfs = ground arith;
          profile = ground arith;
        }

    from : IsSandbox s → Sandbox.validate s ≡ ok tt
    from v =
        let checked = (subdir_option_iff s.workspace_subdir).1 v.subdir in
        let rootfs = v.rootfs in let profile = v.profile in rw checked (ground arith)

-- A directory or one below it: the text of the base, then, unless it is the base itself, a separator
-- and a relative path without `..`.
abbrev pub IsBelow : String → String → Type 0
IsBelow base dir =
    (dir ≡ base)
    ⊎ ((subdir : String) × IsConfined subdir × (dir ≡ str_append base (str_append "/" subdir)))

-- A path that goes on with a text that is not empty and does not end in a character.
last_is-append :
    (k : ℕ) (path text : String)
    → is_empty text ≡ false
    → last_is k text ≡ false
    → (is_empty (str_append path text) ≡ false) × (last_is k (str_append path text) ≡ false)
last_is-append k nil text filled open_end = rw (append.nil text) (filled, open_end)
last_is-append k (cons c path) text filled open_end =
    let rest = last_is-append k path text filled open_end in
    rw (append.cons c path text) (refl, rw rest.0 rest.1)

-- The directory `workspace` of a task takes a separator.
workspace_open :
    (task_dir : String)
    → (is_empty (join task_dir "workspace") ≡ false)
      × (last_is b'/' (join task_dir "workspace") ≡ false)
workspace_open task_dir = elim (Bool-cases (is_empty task_dir || last_is b'/' task_dir)) [
  | inl closed ↦ rw closed (last_is-append b'/' task_dir "workspace" refl refl)
  | inr opened ↦ rw opened (last_is-append b'/' task_dir "/workspace" refl refl)
]

join_workspace :
    (task_dir subdir : String)
    → is_absolute subdir ≡ false
    → join (join task_dir "workspace") subdir
      ≡ str_append (join task_dir "workspace") (str_append "/" subdir)
join_workspace task_dir subdir relative =
    let (filled, open_end) = workspace_open task_dir in rw (relative, filled, open_end) refl

-- A sandbox that the validation accepts has a workspace directory, and this is the directory
-- `workspace` of the task or below it: a relative path without `..` after it.
pub resolve_workspace_dir-IsBelow :
    (task_dir : String) (s : SandboxPolicy)
    → Sandbox.validate s ≡ ok tt
    → (dir : String) × (resolve_workspace_dir task_dir s ≡ ok dir)
      × IsBelow (join task_dir "workspace") dir
unfolding resolve_workspace_dir
resolve_workspace_dir-IsBelow task_dir s h =
    go s.workspace_subdir refl ((validate-IsSandbox s).0 h).subdir
  where
    go :
        (subdir : Option String)
        → subdir ≡ s.workspace_subdir
        → IsConfinedSubdir subdir
        → (dir : String) × (resolve_workspace_dir task_dir s ≡ ok dir)
          × IsBelow (join task_dir "workspace") dir
    go none e c = (join task_dir "workspace", rw (sym e, resolve_workspace_dir) refl, inl refl)
    go (some subdir) e c = (
      join (join task_dir "workspace") subdir,
      rw (sym e, resolve_workspace_dir, (subdir_iff subdir).1 c) refl,
      inr (subdir, c, join_workspace task_dir subdir c.0),
    )
