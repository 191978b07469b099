-- ===== src/Program.antt =====
-- The program as a whole: the operations of src/runtime.rs and the handlers of src/server.rs, one
-- after the other in any order, on the tables of one database.
mod Examples
use execgo_runtime.Base.{Option, ℕ, String, ◌≡◌, refl, ap, ◌∙◌, List, All, inl, inr}
use execgo_runtime.Errors.{AppResult-cases, ok, err}
use execgo_runtime.Types.Request.{SubmitTaskRequest, SubmitTaskResponse}
use execgo_runtime.Ledger.{ResourceLedger}
use execgo_runtime.Repo.Rows.{TaskRecord, Store}
use execgo_runtime.Repo.Consistent.{Reach, here, IsConsistent, Reach-IsConsistent}
use execgo_runtime.Repo.History.{Continues, Reach-Continues}
use execgo_runtime.Runtime.Service
use execgo_runtime.Runtime.Service.{Service, submit_task, quiet}
use execgo_runtime.Runtime.Kill
use execgo_runtime.Runtime.Kill.{Killer, Others, nobody_else}
use execgo_runtime.Runtime.Dispatch.{System, dispatch_once_sync}
use execgo_runtime.Runtime.Watch.{Turn}
use execgo_runtime.Runtime.Shim
use execgo_runtime.Runtime.Shim.{run_internal_shim}
use execgo_runtime.Runtime.Recovery.{Restart, recover}
use execgo_runtime.Runtime.Gc.{Removal, gc_pass}
use execgo_runtime.Runtime.Reached.{dispatch_once_sync-Reaches}
use execgo_runtime.Runtime.Reached.Restarts.{recover-Reaches, gc_pass-Reach}
use execgo_runtime.Runtime.Reached.Tasks.{
  Keeps, Reach-trans, run_internal_shim-Reaches, kill_task-Reaches, submit_task-Reach,
}
use execgo_runtime.Server.{
  Server, Request, create_task, get_task, kill_task, get_events, runtime_info, runtime_capabilities,
  runtime_config, runtime_resources, healthz, readyz, metrics, create, kill, killer, caller_owner,
  handle,
}

-- One operation, from the tables before it to the tables after it. A shim shares the tables with the
-- service: what the service does between its turns is any sequence of transitions. So is what the
-- others do between the transactions of a submission or of a kill that is not alone.
pub data Action (s t : Store) : Type 0 where
  request : (server : Server) (request : Request) → (handle server request s).0 ≡ t → Action s t
  submission :
      (service : Service) (host : Service.Host) (between : Store → Store)
      (payload : SubmitTaskRequest) (response : SubmitTaskResponse)
      → Keeps between
      → submit_task service host between payload s ≡ ok (t, response)
      → Action s t
  cancellation :
      (killer : Killer) (between : Others) (id : String) (caller : Option String)
      → Keeps (between 0)
      → Keeps (between 1)
      → (Kill.kill_task killer between id caller s).0 ≡ t
      → Action s t
  dispatch :
      (system : System) (ledger : ResourceLedger) (max_queued_tasks : ℕ)
      → (dispatch_once_sync system ledger max_queued_tasks s).0 ≡ t
      → Action s t
  shim :
      (host : Shim.Host) (id : String)
      → All (λ (turn : Turn). Keeps turn.before) host.turns
      → Keeps host.exit.before
      → (run_internal_shim host id s).0 ≡ t
      → Action s t
  restart : (restart : Restart) → (recover restart s).0 ≡ t → Action s t
  collect : (remove : TaskRecord → Removal) (cutoff : ℕ) → gc_pass remove cutoff s ≡ t → Action s t

-- Operations, one after the other.
pub data Runs (s : Store) : Store → Type 0 where
  start : Runs s s
  then : {t u : Store} → Runs s t → Action t u → Runs s u

module _ (server : Server) (s : Store) where
  create-Reach : (payload : SubmitTaskRequest) → Reach s (create server payload s).0
  unfolding create
  create-Reach payload =
      elim (AppResult-cases (submit_task server.service server.host quiet payload s)) [
        | inl ((t, response), done) ↦
            rw (create, done)
              (submit_task-Reach server.service server.host quiet payload s t response (λ x. here)
                done)
        | inr (e, failed) ↦ rw (create, failed) here
      ]

  handle-Reach : (request : Request) → Reach s (handle server request s).0
  unfolding handle kill
  handle-Reach (create_task payload) = create-Reach payload
  handle-Reach (kill_task id header) =
      (kill_task-Reaches s (killer server) nobody_else id (caller_owner header) s (λ x. here)
        (λ x. here) here).steps
  handle-Reach (get_task id) = here
  handle-Reach (get_events id) = here
  handle-Reach runtime_info = here
  handle-Reach runtime_capabilities = here
  handle-Reach runtime_config = here
  handle-Reach runtime_resources = here
  handle-Reach healthz = here
  handle-Reach readyz = here
  handle-Reach metrics = here

Action-Reach : {s t : Store} → Action s t → Reach s t
Action-Reach {s} (request server q e) = rw (← e) (handle-Reach server s q)
Action-Reach {s} {t} (submission service host between payload response keeps e) =
    submit_task-Reach service host between payload s t response keeps e
Action-Reach {s} (cancellation killer between id caller keeps keeps_more e) =
    rw (← e) ((kill_task-Reaches s killer between id caller s keeps keeps_more here).steps)
Action-Reach {s} (dispatch system ledger n e) =
    rw (← e) ((dispatch_once_sync-Reaches s s here system ledger n).steps)
Action-Reach {s} (shim host id keeps keeps_exit e) =
    rw (← e) ((run_internal_shim-Reaches s host keeps keeps_exit id s here).steps)
Action-Reach {s} (restart r e) = rw (← e) ((recover-Reaches s s here r).steps)
Action-Reach {s} (collect remove cutoff e) = rw (← e) (gc_pass-Reach s s here remove cutoff)

-- From consistent tables, any sequence of requests to the server, submissions and kills with whatever
-- the others do between their transactions, cycles of the dispatcher, shims with whatever the service
-- does between their turns, restarts and garbage collections, each with any answers of the system,
-- with failures or without, leaves consistent tables: task identifiers are
-- unique, every event belongs to a task of the table, and the events stand in the order of their
-- numbers, all below the next number.
pub Runs-IsConsistent : {s t : Store} → IsConsistent s → Runs s t → IsConsistent t
Runs-IsConsistent c start = c
Runs-IsConsistent c (then runs action) =
    Reach-IsConsistent (Runs-IsConsistent c runs) (Action-Reach action)

Runs-Reach : {s t : Store} → Runs s t → Reach s t
Runs-Reach start = here
Runs-Reach (then runs action) = Reach-trans (Runs-Reach runs) (Action-Reach action)

-- No operation rewrites the history: whatever requests, cycles, shims, restarts and garbage
-- collections lie between two states, the next event number has not fallen, and every event of the
-- later log whose number was given out before the earlier state is an event of the earlier log, so a
-- number is never used again and a stored event is never altered.
pub Runs-Continues : {s t : Store} → Runs s t → Continues s t
Runs-Continues runs = Reach-Continues (Runs-Reach runs)
