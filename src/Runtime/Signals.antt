-- ===== src/Runtime/Signals.antt =====
-- The signals that the watch of a task sends.
use execgo_runtime.Base.{◌-◌, ◌≡◌, Bool, true, ◌||◌, [], ◌∷◌, arith, is_some, if◌then◌else◌, leb}
use execgo_runtime.Errors.{ok, err}
use execgo_runtime.Runtime.Dispatch.{Progress}
use execgo_runtime.Runtime.Watch.{sigterm, sigkill, Watch, Limit, Turn, past, next_watch}

-- The signals of a watch are those of its flags: nothing before the limit or a kill request, then one
-- SIGTERM, and after it at most one SIGKILL.
pub record IsOrderly (w : Watch) : Type 0 where
  pub asked : w.term_sent ≡ (is_some w.timeout_started || is_some w.cancel_started)
  pub killed : w.kill_sent ≡ true → w.term_sent ≡ true
  pub signals :
      w.signals
      ≡ (if w.kill_sent then sigkill ∷ sigterm ∷ [] else if w.term_sent then sigterm ∷ [] else [])

-- After a turn of an orderly watch in which the wall time is over or a kill is requested, SIGTERM has
-- been sent; and after one in which the grace period since the earlier timeout or request is over,
-- SIGKILL has been sent too.
pub next_watch_sends :
    (limit : Limit) (turn : Turn) (cancel_requested : Bool) (w : Watch)
    → IsOrderly w
    → let next = next_watch limit turn cancel_requested w in
      ((leb limit.wall_time_ms (turn.now 0 - limit.start) || cancel_requested) ≡ true
        → next.term_sent ≡ true)
      × ((past limit.grace_ms (turn.now 5) w.timeout_started
              || past limit.grace_ms (turn.now 6) w.cancel_started)
            ≡ true
          → (next.term_sent ≡ true) × (next.kill_sent ≡ true))
unfolding next_watch
next_watch_sends limit turn cancel_requested w o =
    let asked = o.asked in
    let killed = o.killed in
    (
      ground (arith, asked, killed),
      λ h. (ground (arith, asked, killed), ground (arith, asked, killed)),
    )

-- The same of a watch that did not fail.
abbrev pub EndsOrderly : Progress Watch → Type 0
EndsOrderly (t, ok w) = IsOrderly w
EndsOrderly (t, err e) = Unit
