-- ===== src/Runtime/Watch.antt =====
-- src/runtime.rs: supervise_wait, the loop that watches a task. Between two turns of the loop the service
-- may write to the tables; what it did is a function on the tables that each turn is given, so that
-- a list of turns is one interleaving of the two processes.
use execgo_runtime.Base.{
  ℕ, ◌+◌, ◌-◌, Bool, true, false, not, ◌&&◌, ◌||◌, String, Option, none, some, List, [], ◌∷◌,
  is_some, is_none, leb, if◌then◌else◌,
}
use execgo_runtime.Errors.{AppResult, ok, err, ◌>>=◌}
use execgo_runtime.Repo.Rows.{CompletionUpdate, Store, Clock}
use execgo_runtime.Repo.Writes.{mark_timeout_triggered, is_cancel_requested}
use execgo_runtime.Runtime.Dispatch.{Progress, then_write, then_rest}
use execgo_runtime.Runtime.Classify.{WaitUsage, Verdict, classify_completion}

-- The locals of the loop, and the signals sent to the process group so far, the last one first.
pub data Sent : Type 0 where
  sigterm sigkill : Sent

pub record Watch : Type 0 where
  pub timeout_started : Option ℕ
  pub cancel_started : Option ℕ
  pub term_sent : Bool
  pub kill_sent : Bool
  pub signals : List Sent

abbrev pub fresh_watch : Watch
fresh_watch = record {
  timeout_started = none;
  cancel_started = none;
  term_sent = false;
  kill_sent = false;
  signals = [];
}

-- The limits of the watch.
pub record Limit : Type 0 where
  pub start : ℕ
  pub wall_time_ms : ℕ
  pub grace_ms : ℕ

-- One turn of the loop that the poll timer starts: the readings of the clock in it, and what the
-- service did to the tables before it.
pub record Turn : Type 0 where
  pub now : Clock
  pub before : Store → Store

-- `started.elapsed() >= grace`
abbrev pub past : ℕ → ℕ → Option ℕ → Bool
past grace now none = false
past grace now (some started) = leb grace (now - started)

-- The turn finds that the wall time is over for the first time.
abbrev pub times_out : Limit → Turn → Watch → Bool
times_out limit turn w =
    is_none w.timeout_started && leb limit.wall_time_ms (turn.now 0 - limit.start)

unfoldable pub start_timeout : Limit → Turn → Watch → Watch
start_timeout limit turn w =
    if times_out limit turn w then record w { timeout_started = some (turn.now 3) } else w

unfoldable pub start_cancel : Bool → Turn → Watch → Watch
start_cancel cancel_requested turn w =
    if cancel_requested && is_none w.cancel_started
    then record w { cancel_started = some (turn.now 4) }
    else w

unfoldable pub send_term : Watch → Watch
send_term w =
    if (is_some w.timeout_started || is_some w.cancel_started) && not w.term_sent
    then record w { term_sent = true; signals = sigterm ∷ w.signals }
    else w

unfoldable pub send_kill : Limit → Turn → Watch → Watch
send_kill limit turn w =
    if (past limit.grace_ms (turn.now 5) w.timeout_started
        || past limit.grace_ms (turn.now 6) w.cancel_started)
      && not w.kill_sent
    then record w { kill_sent = true; signals = sigkill ∷ w.signals }
    else w

-- What a turn does besides its write.
unfoldable pub next_watch : Limit → Turn → Bool → Watch → Watch
unfolding start_timeout start_cancel send_term send_kill
next_watch limit turn cancel_requested w =
    send_kill limit turn
      (send_term (start_cancel cancel_requested turn (start_timeout limit turn w)))

-- The write of a turn.
unfoldable pub turn_write : Limit → String → Turn → Watch → Store → AppResult Store
turn_write limit id turn w s =
    if times_out limit turn w then mark_timeout_triggered (λ k. turn.now (1 + k)) id s else ok s

-- One turn of the loop.
unfoldable pub poll_turn : Limit → String → Turn → Watch → Store → Progress Watch
unfolding next_watch turn_write
poll_turn limit id turn w s = elim (is_cancel_requested id (turn.before s)) [
  | err e ↦ (turn.before s, err e)
  | ok cancel_requested ↦
      then_write (turn_write limit id turn w (turn.before s)) (turn.before s)
        λ t. (t, ok (next_watch limit turn cancel_requested w))
]

-- The turns of the loop, one after the other.
unfoldable pub poll_turns : Limit → String → List Turn → Watch → Store → Progress Watch
unfolding poll_turn
poll_turns limit id [] w s = (s, ok w)
poll_turns limit id (turn ∷ rest) w s =
    then_rest (poll_turn limit id turn w s) (poll_turns limit id rest)

-- The end of the process: what `wait4` returned or its error, the clock, the verdict of the system,
-- and what the service did to the tables before it.
pub record Exit : Type 0 where
  pub usage : AppResult WaitUsage
  pub now : Clock
  pub verdict : Verdict
  pub before : Store → Store

-- `cancel_started.is_some() || repo.is_cancel_requested(..)?`
unfoldable pub was_cancelled : String → Watch → Store → AppResult Bool
was_cancelled id w s = if is_some w.cancel_started then ok true else is_cancel_requested id s

-- The turn of the loop in which the process has ended.
unfoldable pub finish : Limit → String → Exit → Watch → Store → AppResult CompletionUpdate
unfolding was_cancelled
finish limit id exit w s = do
  usage ← exit.usage
  cancelled ← was_cancelled id w s
  ok (
      classify_completion exit.verdict usage (exit.now 0 - limit.start) (is_some w.timeout_started)
        cancelled (exit.now 1))

-- `supervise_wait`
unfoldable pub supervise_wait :
    Limit → String → List Turn → Exit → Store → Progress CompletionUpdate
unfolding poll_turns finish
supervise_wait limit id turns exit s =
    then_rest (poll_turns limit id turns fresh_watch s)
      λ w t. (exit.before t, finish limit id exit w (exit.before t))
