-- ===== src/Runtime/Final.antt =====
-- The outcome of a task is classified as a final one.
use execgo_runtime.Base.{
  List, ◌-◌, ℕ, String, ◌≡◌, ◌↔◌, refl, Bool, true, false, none, some, arith, is_some,
}
use execgo_runtime.Errors.{>>=-eq-ok, AppResult, ok, err, ok_injective}
use execgo_runtime.Types.Status.{TaskStatus, is_terminal}
use execgo_runtime.Repo.Rows.{CompletionUpdate, Store}
use execgo_runtime.Runtime.Dispatch.{Progress, then_rest}
use execgo_runtime.Runtime.Classify.{
  WaitUsage, Verdict, is_number, classify, classify_exit, classify_completion,
}
use execgo_runtime.Runtime.Watch.{
  Limit, Exit, Turn, Watch, fresh_watch, poll_turns, was_cancelled, supervise_wait, finish,
}

-- The classification of the end of a process is final: it always ends the task, as a success exactly
-- where the process exited with code 0, in time and not cancelled, and was killed neither for memory
-- nor for processor time; it records an error exactly where the task did not succeed; and the task
-- is cancelled exactly where it was cancelled in time.
pub classify_completion_lem :
    (verdict : Verdict) (usage : WaitUsage) (duration_ms : ℕ) (timed_out cancelled : Bool) (now : ℕ)
    → let u = classify_completion verdict usage duration_ms timed_out cancelled now in
      (is_terminal u.status ≡ true)
      × ((u.status ≡ TaskStatus.success) ↔ (
          (timed_out ≡ false)
          × (cancelled ≡ false)
          × (verdict.oom_killed ≡ false)
          × (is_number verdict.sigxcpu usage.exit_signal ≡ false)
          × (usage.exit_code ≡ some 0)))
      × ((u.error ≡ none) ↔ (u.status ≡ TaskStatus.success))
      × ((u.status ≡ TaskStatus.cancelled) ↔ ((timed_out ≡ false) × (cancelled ≡ true)))
unfolding classify_completion classify classify_exit is_terminal
classify_completion_lem verdict usage duration_ms timed_out cancelled now =
    (ground arith, ground arith, ground arith, ground arith)

-- The completion that a watch yields is final.
abbrev pub IsFinal : Progress CompletionUpdate → Type 0
IsFinal (t, ok u) = is_terminal u.status ≡ true
IsFinal (t, err e) = Unit

IsFinal-any :
    (t : Store) (m : AppResult CompletionUpdate)
    → ((u : CompletionUpdate) → m ≡ ok u → is_terminal u.status ≡ true)
    → IsFinal (t, m)
IsFinal-any t (ok u) h = h u refl
IsFinal-any t (err e) h = tt

then_rest-IsFinal :
    {A : Type 0} (part : Progress A) (rest : A → Store → Progress CompletionUpdate)
    → ((a : A) (t : Store) → IsFinal (rest a t))
    → IsFinal (then_rest part rest)
then_rest-IsFinal (t, ok a) rest h = h a t
then_rest-IsFinal (t, err e) rest h = tt

finish-IsFinal :
    (limit : Limit) (id : String) (exit : Exit) (w : Watch) (s : Store) (u : CompletionUpdate)
    → finish limit id exit w s ≡ ok u
    → is_terminal u.status ≡ true
unfolding finish
finish-IsFinal limit id exit w s u h =
    let (usage, p, q) = >>=-eq-ok exit.usage _ u h in
    let (cancelled, p', q') = >>=-eq-ok (was_cancelled id w s) _ u q in
    rw (← ok_injective q')
      (classify_completion_lem exit.verdict usage (exit.now 0 - limit.start)
        (is_some w.timeout_started) cancelled (exit.now 1)).0

pub supervise_wait-IsFinal :
    (limit : Limit) (id : String) (turns : List Turn) (exit : Exit) (s : Store)
    → IsFinal (supervise_wait limit id turns exit s)
unfolding supervise_wait
supervise_wait-IsFinal limit id turns exit s =
    then_rest-IsFinal (poll_turns limit id turns fresh_watch s) _ λ w t.
      IsFinal-any (exit.before t) (finish limit id exit w (exit.before t))
        (finish-IsFinal limit id exit w (exit.before t))
