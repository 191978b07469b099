-- ===== src/Runtime/Reached/Tasks.antt =====
-- The shim, a kill and a submission as sequences of the transitions of the repository.
use execgo_runtime.Base.{
  ◌+◌, String, ◌≡◌, refl, Bool-cases, Option, List, [], ◌∷◌, All, inl, inr, ap, ◌∙◌,
}
use execgo_runtime.Errors.{AppResult-cases, ok, >>=-eq-ok, ok_injective}
use execgo_runtime.Types.Status.{is_terminal}
use execgo_runtime.Types.Plan.{ExecutionPlan}
use execgo_runtime.Types.Request.{SubmitTaskRequest, SubmitTaskResponse}
use execgo_runtime.Repo.Rows.{TaskRecord, Store, CompletionUpdate}
use execgo_runtime.Repo.Writes.{
  get_task, insert_task, is_cancel_requested, set_cancel_requested, is_accepted,
}
use execgo_runtime.Repo.Effects.{Write, apply}
use execgo_runtime.Repo.Consistent.{Step, Reach, here, next}
use execgo_runtime.Runtime.Dispatch.{cancelled_before}
use execgo_runtime.Runtime.Watch.{
  Limit, Turn, Watch, fresh_watch, times_out, turn_write, poll_turn, poll_turns, supervise_wait,
  finish,
}
use execgo_runtime.Runtime.Shim.{
  Host, SpawnedProcess, plan_of, end_task, watch_task, run_spawned, launch_task, run_task,
  run_internal_shim,
}
use execgo_runtime.Runtime.Kill.{
  Killer, Others, check_owner, stop_task, request_kill, kill_owned, kill_task,
}
use execgo_runtime.Runtime.Service
use execgo_runtime.Runtime.Service.{Service, submit_task, admit, prepare}
use execgo_runtime.Runtime.Reached.{Reaches, at, written, write-Reaches, rest-Reaches, if-Reaches}

-- What the other processes do to the tables is a sequence of transitions.
abbrev pub Keeps : (Store → Store) → Type 0
Keeps before = (x : Store) → Reach x (before x)

pub Reach-trans : {r s t : Store} → Reach r s → Reach s t → Reach r t
Reach-trans h here = h
Reach-trans h (next k step) = next (Reach-trans h k) step

module _ (r : Store) where
  turn_write-Reach :
      (limit : Limit) (id : String) (turn : Turn) (w : Watch) (s t : Store)
      → Reach r s
      → turn_write limit id turn w s ≡ ok t
      → Reach r t
  unfolding turn_write apply
  turn_write-Reach limit id turn w s t h e = elim (Bool-cases (times_out limit turn w)) [
    | inl late ↦
        next h (Step.write Write.time_out (λ k. turn.now (1 + k)) id (rw (late, turn_write) at e))
    | inr early ↦ let e' = rw (early, turn_write) at e in let same : s ≡ t = cc in rw (← same) h
  ]

  poll_turn-Reaches :
      (limit : Limit) (id : String) (turn : Turn) (w : Watch) (s : Store)
      → Keeps turn.before
      → Reach r s
      → Reaches r (poll_turn limit id turn w s)
  unfolding poll_turn
  poll_turn-Reaches limit id turn w s keeps h =
      let moved = Reach-trans h (keeps s) in
      elim (AppResult-cases (is_cancel_requested id (turn.before s))) [
        | inl (c, e) ↦
            rw (poll_turn, e)
              (written r (turn_write limit id turn w (turn.before s)) (turn.before s) _ moved
                (λ t e. turn_write-Reach limit id turn w (turn.before s) t moved e)
                (λ t k. at r t _ k))
        | inr (m, e) ↦ rw (poll_turn, e) (at r (turn.before s) _ moved)
      ]

  poll_turns-Reaches :
      (limit : Limit) (id : String) (turns : List Turn) (w : Watch) (s : Store)
      → All (λ (turn : Turn). Keeps turn.before) turns
      → Reach r s
      → Reaches r (poll_turns limit id turns w s)
  unfolding poll_turns
  poll_turns-Reaches limit id [] w s keeps h = at r s _ h
  poll_turns-Reaches limit id (turn ∷ rest) w s keeps h =
      rest-Reaches r (poll_turn limit id turn w s) (poll_turns limit id rest)
        (poll_turn-Reaches limit id turn w s keeps.0 h)
        (λ w t k. poll_turns-Reaches limit id rest w t keeps.1 k)

  end_task-Reaches :
      (host : Host) (id : String) (u : CompletionUpdate) (s : Store)
      → Reach r s
      → Reaches r (end_task host id u s)
  unfolding end_task apply
  end_task-Reaches host id u s h =
      write-Reaches r (Write.complete u) (λ k. host.clock (10 + k)) id s _ h (λ t k. at r t _ k)

  module _ (host : Host) (keeps : All (λ (turn : Turn). Keeps turn.before) host.turns)
      (keeps_exit : Keeps host.exit.before) where
    watch_task-Reaches :
        (plan : ExecutionPlan) (started : TaskRecord) (s : Store)
        → Reach r s
        → Reaches r (watch_task host plan started s)
    unfolding watch_task supervise_wait
    watch_task-Reaches plan started s h =
        let limit : Limit = record {
          start = host.clock 3;
          wall_time_ms = plan.resource_enforcement.wall_time_ms;
          grace_ms = host.termination_grace_ms;
        } in
        rest-Reaches r (supervise_wait limit started.task_id host.turns host.exit s)
          (end_task host started.task_id)
          (rest-Reaches r (poll_turns limit started.task_id host.turns fresh_watch s)
            (λ w t.
              (host.exit.before t, finish limit started.task_id host.exit w (host.exit.before t)))
            (poll_turns-Reaches limit started.task_id host.turns fresh_watch s keeps h)
            (λ w t k. at r (host.exit.before t) _ (Reach-trans k (keeps_exit t))))
          (λ u t k. end_task-Reaches host started.task_id u t k)

    run_spawned-Reaches :
        (task : TaskRecord) (process : SpawnedProcess) (s : Store)
        → Reach r s
        → Reaches r (run_spawned host task process s)
    unfolding run_spawned apply
    run_spawned-Reaches task process s h =
        write-Reaches r (Write.start process.pid process.pgid process.script_path)
          (λ k. host.clock (1 + k)) task.task_id s _ h
          (λ t k. elim (AppResult-cases (get_task task.task_id t)) [
            | inl (started, e) ↦ rw e (watch_task-Reaches (plan_of task) started t k)
            | inr (m, e) ↦ rw e (at r t _ k)
          ])

    launch_task-Reaches :
        (task : TaskRecord) (s : Store) → Reach r s → Reaches r (launch_task host task s)
    unfolding launch_task
    launch_task-Reaches task s h =
        elim (AppResult-cases (host.spawn_task_process task (plan_of task))) [
          | inl (process, e) ↦ rw (launch_task, e) (run_spawned-Reaches task process s h)
          | inr (m, e) ↦ rw (launch_task, e) (end_task-Reaches host task.task_id _ s h)
        ]

    pub run_internal_shim-Reaches :
        (id : String) (s : Store) → Reach r s → Reaches r (run_internal_shim host id s)
    unfolding run_internal_shim run_task
    run_internal_shim-Reaches id s h = elim (AppResult-cases (get_task id s)) [
      | inl (task, e) ↦
          rw (run_internal_shim, e)
            (if-Reaches r (is_terminal task.status) (s, ok tt) _ (at r s _ h)
              (if-Reaches r _ _ _ (end_task-Reaches host task.task_id _ s h)
                (launch_task-Reaches task s h)))
      | inr (m, e) ↦ rw (run_internal_shim, e) (at r s _ h)
    ]

  stop_task-Reaches :
      (killer : Killer) (between : Others) (id : String) (updated : TaskRecord) (s : Store)
      → Reach r s
      → Reaches r (stop_task killer between id updated s)
  unfolding stop_task apply
  stop_task-Reaches killer between id updated s h =
      if-Reaches r (is_accepted updated) _ _
        (write-Reaches r (Write.cancel cancelled_before) (λ k. killer.clock (2 + k)) id s _ h
          (λ t k. at r t _ k))
        (at r s _ h)

  request_kill-Reaches :
      (killer : Killer) (between : Others) (id : String) (s : Store)
      → Keeps (between 1)
      → Reach r s
      → Reaches r (request_kill killer between id s)
  unfolding request_kill apply
  request_kill-Reaches killer between id s keeps h =
      elim (AppResult-cases (set_cancel_requested killer.clock id s)) [
        | inl ((task, t), e) ↦
            let stored : apply Write.request_cancel killer.clock id s ≡ ok t = rw e refl in
            rw (request_kill, e)
              (stop_task-Reaches killer between id task (between 1 t) (
                Reach-trans (next h (Step.write Write.request_cancel killer.clock id stored))
                  (keeps t)))
        | inr (m, e) ↦ rw (request_kill, e) (at r s _ h)
      ]

  pub kill_task-Reaches :
      (killer : Killer) (between : Others) (id : String) (caller : Option String) (s : Store)
      → Keeps (between 0)
      → Keeps (between 1)
      → Reach r s
      → Reaches r (kill_task killer between id caller s)
  unfolding kill_task kill_owned
  kill_task-Reaches killer between id caller s keeps keeps_more h =
      elim (AppResult-cases (get_task id s)) [
        | inr (m, e) ↦ rw (kill_task, e) (at r s _ h)
        | inl (task, e) ↦ elim (AppResult-cases (check_owner task caller)) [
          | inr (m, denied) ↦ rw (kill_task, e, denied) (at r s _ h)
          | inl (x, allowed) ↦
              rw (kill_task, e, allowed)
                (if-Reaches r (is_terminal task.status) (s, _) _ (at r s _ h)
                  (request_kill-Reaches killer between id (between 0 s) keeps_more
                    (Reach-trans h (keeps s))))
        ]
      ]

pub submit_task-Reach :
    (service : Service) (host : Service.Host) (between : Store → Store)
    (request : SubmitTaskRequest) (s t : Store) (response : SubmitTaskResponse)
    → Keeps between
    → submit_task service host between request s ≡ ok (t, response)
    → Reach s t
unfolding submit_task
submit_task-Reach service host between request s t response keeps h =
    let (plan, p, h₁) = >>=-eq-ok (admit service request s) _ (t, response) h in
    let (new, q, h₂) = >>=-eq-ok (prepare service host request plan) _ (t, response) h₁ in
    let (u, inserted, h₃) = >>=-eq-ok (insert_task host.clock new (between s)) _ (t, response) h₂ in
    let same : u ≡ t = ap (λ z. z.0) (ok_injective h₃) in
    next (keeps s) (Step.insert new host.clock (inserted ∙ ap ok same))
