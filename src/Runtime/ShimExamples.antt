-- ===== src/Runtime/ShimExamples.antt =====
-- The theorems about the shim at concrete inputs: a workload that exits with code 0 after one turn of
-- the watch.
use execgo_runtime.Base.{◌+◌, ◌-◌, ◌≡◌, ◌↔◌, ◌||◌, refl, true, false, some, none, [], ◌∷◌, leb}
use execgo_runtime.Errors.{ok}
use execgo_runtime.Types.Status.{TaskStatus, is_terminal}
use execgo_runtime.Repo.Rows.{Store}
use execgo_runtime.Repo.Examples.{accepted}
use execgo_runtime.Runtime.Classify.{WaitUsage, Verdict, is_number, classify_completion}
use execgo_runtime.Runtime.Watch.{Limit, Turn, fresh_watch, past, next_watch}
use execgo_runtime.Runtime.Shim.{Host, run_internal_shim}
use execgo_runtime.Runtime.Ending.{HasEnded, EndsTask, run_internal_shim-EndsTask}
use execgo_runtime.Runtime.Final.{classify_completion_lem}
use execgo_runtime.Runtime.Signals.{IsOrderly, next_watch_sends}
use execgo_runtime.Runtime.Returns.{IsCooperative, run_internal_shim_returns}

abbrev clean_exit : WaitUsage
clean_exit = record {
  exit_code = some 0;
  exit_signal = none;
  user_cpu_ms = some 12;
  system_cpu_ms = some 3;
  max_rss_bytes = some 4096;
}

abbrev verdict : Verdict
verdict = record { sigxcpu = 24; memory_peak = none; oom_killed = false }

abbrev turn : Turn
turn = record { now = λ k. 5000 + k; before = λ s. s }

abbrev pub host : Host
host = record {
  spawn_task_process =
      λ task plan. ok (record { pid = 100; pgid = 100; script_path = none; cgroup_dir = none });
  clock = λ k. 100 + k;
  write_result = λ task. ok tt;
  termination_grace_ms = 1000;
  turns = turn ∷ [];
  exit = record { usage = ok clean_exit; now = λ k. 6000 + k; verdict = verdict; before = λ s. s };
}

cooperative : IsCooperative host "t1"
cooperative = record {
  turns = ((λ s h. h), tt);
  exit = λ s h. h;
  usage = clean_exit;
  waited = refl;
  duration = refl;
  written = λ task. refl;
}

run_internal_shim_returns_example :
    (t : Store) × (run_internal_shim host "t1" accepted ≡ (t, ok tt)) × HasEnded "t1" accepted t
run_internal_shim_returns_example = run_internal_shim_returns host "t1" accepted cooperative refl

run_internal_shim-EndsTask_example : EndsTask "t1" accepted (run_internal_shim host "t1" accepted)
run_internal_shim-EndsTask_example = run_internal_shim-EndsTask host "t1" accepted

abbrev late : Verdict
late = record verdict { oom_killed = true }

classify_completion_lem_example :
    let u = classify_completion late clean_exit 900 false true 7000 in
    (is_terminal u.status ≡ true)
    × ((u.status ≡ TaskStatus.success) ↔ (
        (false ≡ false)
        × (true ≡ false)
        × (late.oom_killed ≡ false)
        × (is_number late.sigxcpu clean_exit.exit_signal ≡ false)
        × (clean_exit.exit_code ≡ some 0)))
    × ((u.error ≡ none) ↔ (u.status ≡ TaskStatus.success))
    × ((u.status ≡ TaskStatus.cancelled) ↔ ((false ≡ false) × (true ≡ true)))
classify_completion_lem_example = classify_completion_lem late clean_exit 900 false true 7000

abbrev limit : Limit
limit = record { start = 100; wall_time_ms = 3000; grace_ms = 1000 }

fresh-IsOrderly : IsOrderly fresh_watch
fresh-IsOrderly = record { asked = refl; killed = λ h. h; signals = refl }

next_watch_sends_example :
    let next = next_watch limit turn false fresh_watch in
    ((leb limit.wall_time_ms (turn.now 0 - limit.start) || false) ≡ true → next.term_sent ≡ true)
    × ((past limit.grace_ms (turn.now 5) fresh_watch.timeout_started
            || past limit.grace_ms (turn.now 6) fresh_watch.cancel_started)
          ≡ true
        → (next.term_sent ≡ true) × (next.kill_sent ≡ true))
next_watch_sends_example = next_watch_sends limit turn false fresh_watch fresh-IsOrderly
