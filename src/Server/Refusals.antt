-- ===== src/Server/Refusals.antt =====
-- Which responses leave the tables as they were.
use execgo_runtime.Base.{
  ℕ, ◌+◌, ◌≤◌, ◌<◌, String, ◌≡◌, refl, ap, ◌∙◌, Bool-cases, Option, Option-cases, some, inl, inr,
  arith, map_option, ◌⊎◌,
}
use execgo_runtime.Errors.{AppResult, ok, err, AppResult-cases, ◌>>=◌, status_code, into_response}
use execgo_runtime.Types.Status.{is_terminal}
use execgo_runtime.Repo.Rows.{Clock, TaskRecord, Store, find_row}
use execgo_runtime.Repo.Writes
use execgo_runtime.Repo.Writes.{is_accepted, cancel_requested}
use execgo_runtime.Repo.Effects.{Write, apply}
use execgo_runtime.Repo.Finish.{cancelled_row}
use execgo_runtime.Repo.Lifecycle.{row-apply}
use execgo_runtime.Repo.Totality.{apply_total}
use execgo_runtime.Runtime.Kill
use execgo_runtime.Runtime.Kill.{
  nobody_else, Killer, Signalled, check_owner, stop_task, kill_owned, request_kill, signal_target,
}
use execgo_runtime.Runtime.Stop.{kill_refused, kill_ended, kill_open}
use execgo_runtime.Runtime.Stopping.{get_task-found, has_row-found, request_row}
use execgo_runtime.Runtime.Dispatch.{cancelled_before}
use execgo_runtime.Runtime.Reads.{Output, read_output_preview, build_status_response}
use execgo_runtime.Types.Request.{SubmitTaskRequest}
use execgo_runtime.Runtime.Service.{quiet, submit_task}
use execgo_runtime.Server.{
  Server, Request, create_task, get_task, kill_task, get_events, runtime_info, runtime_capabilities,
  runtime_config, runtime_resources, healthz, readyz, metrics, Body, task_status, respond, json,
  signal_task_termination, caller_owner, killer, create, kill, handle,
}

-- The result is a success or an error of the server itself.
abbrev pub Internal {ℓ} : {A : Type ℓ} → AppResult A → Type 0
Internal (ok a) = Unit
Internal (err e) = status_code e ≡ 500

>>=-Internal :
    {A B : Type 0} (m : AppResult A) (f : A → AppResult B)
    → Internal m
    → ((a : A) → Internal (f a))
    → Internal (m >>= f)
>>=-Internal (ok a) f h k = k a
>>=-Internal (err e) f h k = h

read_output_preview-Internal : (output : Output) (n : ℕ) → Internal (read_output_preview output n)
unfolding read_output_preview status_code
read_output_preview-Internal Output.missing n = tt
read_output_preview-Internal (Output.unreadable e) n = refl
read_output_preview-Internal (Output.contents len read) n = tt

build_status_response-Internal :
    (output : String → Output) (now : ℕ) (task : TaskRecord)
    → Internal (build_status_response output now task)
unfolding build_status_response
build_status_response-Internal output now task =
    >>=-Internal _ _ (read_output_preview-Internal (output task.stdout_path) task.stdout_max_bytes)
      λ stdout.
        >>=-Internal _ _
          (read_output_preview-Internal (output task.stderr_path) task.stderr_max_bytes)
          (λ stderr. tt)

signal_task_termination-Internal :
    (signal : Signalled → Option String) (target : Signalled)
    → Internal (signal_task_termination signal target)
unfolding signal_task_termination status_code
signal_task_termination-Internal signal Signalled.nobody = tt
signal_task_termination-Internal signal (Signalled.group pgid) =
    elim (Option-cases (signal (Signalled.group pgid))) [
      | inl e ↦ rw (signal_task_termination, e) tt
      | inr (m, e) ↦ rw (signal_task_termination, e) refl
    ]
signal_task_termination-Internal signal (Signalled.process pid) =
    elim (Option-cases (signal (Signalled.process pid))) [
      | inl e ↦ rw (signal_task_termination, e) tt
      | inr (m, e) ↦ rw (signal_task_termination, e) refl
    ]

get_task-found_row :
    (id : String) (s : Store) (row : TaskRecord)
    → Writes.get_task id s ≡ ok row
    → find_row id s.tasks ≡ some row
unfolding Writes.get_task
get_task-found_row id s row h = ground arith

-- The result of a kill that changes the tables is a success or an error of the server itself.
module _ (killer : Killer) (signals : (target : Signalled) → Internal (killer.signal target))
    (outputs : (task : TaskRecord) → Internal (killer.read_output task)) where
  get_task_status-Internal :
      (id : String) (s : Store) (row : TaskRecord)
      → find_row id s.tasks ≡ some row
      → Internal (Kill.get_task_status killer id s)
  unfolding Kill.get_task_status
  get_task_status-Internal id s row found =
      rw (get_task-found id s row found, Kill.get_task_status)
        (>>=-Internal _ _ (outputs row) (λ x. tt))

  stop_task-Internal :
      (id : String) (row : TaskRecord) (s : Store)
      → find_row id s.tasks ≡ some row
      → Internal (stop_task killer nobody_else id row s).1
  unfolding stop_task apply
  stop_task-Internal id row s found = elim (Bool-cases (is_accepted row)) [
    | inl waits ↦
        let clock : Clock = λ k. killer.clock (2 + k) in
        let present = has_row-found id s row found in
        let (t, done) = apply_total (Write.cancel cancelled_before) clock id s present refl in
        let left =
          row-apply (Write.cancel cancelled_before) clock id s t done
          ∙ ap (map_option (cancelled_row id cancelled_before (killer.clock 2))) found in
        rw (waits, stop_task, done)
          (get_task_status-Internal id t (cancelled_row id cancelled_before (killer.clock 2) row)
            left)
    | inr runs ↦
        rw (runs, stop_task)
          (>>=-Internal _ _ (signals (signal_target row))
            (λ x. get_task_status-Internal id s row found))
  ]

  kill_task-Internal :
      (id : String) (caller : Option String) (s : Store)
      → ((Kill.kill_task killer nobody_else id caller s).0 ≡ s)
        ⊎ Internal (Kill.kill_task killer nobody_else id caller s).1
  unfolding Kill.kill_task
  kill_task-Internal id caller s = elim (AppResult-cases (Writes.get_task id s)) [
    | inr (e, missing) ↦ inl (rw (missing, Kill.kill_task) refl)
    | inl (row, present) ↦
        let found = get_task-found_row id s row present in
        elim (AppResult-cases (check_owner row caller)) [
          | inr (e, denied) ↦
              inl (ap (λ p. p.0) (kill_refused killer nobody_else id caller s row found e denied))
          | inl (x, allowed) ↦ elim (Bool-cases (is_terminal row.status)) [
            | inl ended ↦ inl (kill_ended killer nobody_else id caller s row found ended)
            | inr open_task ↦
                let (t, done, moved) = request_row killer.clock id s row found in
                inr (
                  rw
                    (kill_open killer nobody_else id caller s row found t
                      (cancel_requested (killer.clock 0) row) allowed open_task done)
                    (stop_task-Internal id (cancel_requested (killer.clock 0) row) t moved))
          ]
        ]
  ]

-- What an internal result is answered with.
respond-Internal : (r : AppResult Body) → Internal r → ((respond r).0 ≡ 200) ⊎ ((respond r).0 ≡ 500)
unfolding into_response
respond-Internal (ok body) h = inl refl
respond-Internal (err e) h = inr h

json-Internal : {A : Type 0} (f : A → Body) (m : AppResult A) → Internal m → Internal (json f m)
json-Internal f (ok a) h = tt
json-Internal f (err e) h = h

module _ (server : Server) (s : Store) where
  create_refused :
      (payload : SubmitTaskRequest)
      → 400 ≤ (create server payload s).1.0
      → (create server payload s).0 ≡ s
  unfolding create
  create_refused payload refusal =
      elim (AppResult-cases (submit_task server.service server.host quiet payload s)) [
        | inl (p, done) ↦
            let answered : (create server payload s).1.0 ≡ 200 = rw (create, done) refl in
            absurd (omega arith)
        | inr (e, failed) ↦ rw (create, failed) refl
      ]

  killer-Internal : (task : TaskRecord) → Internal ((killer server).read_output task)
  unfolding killer
  killer-Internal task =
      >>=-Internal _ _ (build_status_response-Internal server.output server.now task) (λ x. tt)

  kill_refused_client :
      (id : String) (header : Option String)
      → 400 ≤ (kill server id header s).1.0
      → (kill server id header s).1.0 < 500
      → (kill server id header s).0 ≡ s
  unfolding kill killer
  kill_refused_client id header low high =
      elim (kill_task-Internal (killer server) (signal_task_termination-Internal server.signal)
        killer-Internal id (caller_owner header) s) [
          | inl same ↦ same
          | inr inner ↦
              let result =
                (Kill.kill_task (killer server) nobody_else id (caller_owner header) s).1 in
              let shown =
                >>=-Internal result (build_status_response server.output server.now) inner
                  (build_status_response-Internal server.output server.now) in
              elim (respond-Internal
                (json task_status (result >>= build_status_response server.output server.now))
                (json-Internal task_status _ shown)) [
                  | inl e ↦ absurd (omega arith)
                  | inr e ↦ absurd (omega arith)
                ]
        ]

  -- A request whose response has the status of a client error, 400 to 499, leaves the tables as they
  -- were, whichever handler it goes to.
  pub handle_refused :
      (request : Request)
      → 400 ≤ (handle server request s).1.0
      → (handle server request s).1.0 < 500
      → (handle server request s).0 ≡ s
  unfolding handle
  handle_refused (create_task payload) low high = create_refused payload low
  handle_refused (kill_task id header) low high = kill_refused_client id header low high
  handle_refused (get_task id) low high = refl
  handle_refused (get_events id) low high = refl
  handle_refused runtime_info low high = refl
  handle_refused runtime_capabilities low high = refl
  handle_refused runtime_config low high = refl
  handle_refused runtime_resources low high = refl
  handle_refused healthz low high = refl
  handle_refused readyz low high = refl
  handle_refused metrics low high = refl
