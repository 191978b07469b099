-- ===== src/Runtime/Failing.antt =====
-- Which parts of a launch leave a process.
use execgo_runtime.Base.{
  ℕ, String, ◌≡◌, ◌⊎◌, refl, sym, ap, ◌∙◌, Bool, true, false, inl, inr, Option, none, is_some,
}
use execgo_runtime.Errors.{AppError, AppResult, ok, err, io, sandbox_setup}
use execgo_runtime.Runtime.Dispatch.{Spawned, spawned, refused}
use execgo_runtime.Runtime.Launch.{Process, World, Machine, Launching, follow}

abbrev pub is_sandbox_setup : AppError → Bool
is_sandbox_setup (sandbox_setup m) = true
is_sandbox_setup _ = false

-- The file system fails with errors of its own.
pub record FailsByIo (machine : Machine) : Type 0 where
  pub output :
      (path : String) (e : AppError)
      → machine.open_output_file path ≡ err e
      → (m : String) × (e ≡ io m)
  pub directory :
      (path : String) (e : AppError)
      → machine.create_dir_all path ≡ err e
      → (m : String) × (e ≡ io m)
  pub file :
      (path text : String) (e : AppError)
      → machine.write_file path text ≡ err e
      → (m : String) × (e ≡ io m)

-- The outcome of a launch: a process where it succeeds, and where it fails a process exactly when
-- the error is that of the sandbox set-up.
abbrev pub LeavesProcess : {A : Type 0} → World × AppResult A → Type 0
LeavesProcess (w, ok a) = is_some w.process ≡ true
LeavesProcess (w, err e) = is_some w.process ≡ is_sandbox_setup e

-- A part of a launch before the process starts.
abbrev pub EndsIdle : {A : Type 0} → World × AppResult A → Type 0
EndsIdle (w, ok a) = w.process ≡ none
EndsIdle (w, err e) = (w.process ≡ none) × (is_sandbox_setup e ≡ false)

pub follow-EndsIdle :
    {A B : Type 0} (x : World × AppResult A) (f : A → Launching B)
    → EndsIdle x
    → ((w : World) (a : A) → w.process ≡ none → EndsIdle (f a w))
    → EndsIdle (follow x f)
follow-EndsIdle (w, ok a) f i rest = rest w a i
follow-EndsIdle (w, err e) f i rest = i

pub idle-LeavesProcess :
    {A B : Type 0} (x : World × AppResult A) (f : A → Launching B)
    → EndsIdle x
    → ((w : World) (a : A) → w.process ≡ none → LeavesProcess (f a w))
    → LeavesProcess (follow x f)
idle-LeavesProcess (w, ok a) f i rest = rest w a i
idle-LeavesProcess (w, err e) f i rest = ap is_some i.0 ∙ sym i.1

pub follow-LeavesProcess :
    {A B : Type 0} (x : World × AppResult A) (f : A → Launching B)
    → LeavesProcess x
    → ((w : World) (a : A) → is_some w.process ≡ true → LeavesProcess (f a w))
    → LeavesProcess (follow x f)
follow-LeavesProcess (w, ok a) f i rest = rest w a i
follow-LeavesProcess (w, err e) f i rest = i

-- A step that keeps the process of the world, and then another.
pub follow-process :
    {A B : Type 0} (x : World × AppResult A) (f : A → Launching B) (q : Option Process)
    → x.0.process ≡ q
    → ((w : World) (a : A) → w.process ≡ q → (f a w).0.process ≡ q)
    → (follow x f).0.process ≡ q
follow-process (w, ok a) f q i rest = rest w a i
follow-process (w, err e) f q i rest = i

pub Spawned-cases :
    (s : Spawned) → ((pid : ℕ) × (s ≡ spawned pid)) ⊎ ((message : String) × (s ≡ refused message))
Spawned-cases (spawned pid) = inl (pid, refl)
Spawned-cases (refused message) = inr (message, refl)
