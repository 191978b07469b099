-- ===== src/Program/Examples.antt =====
-- A run of the program from the empty tables.
use execgo_runtime.Base.{◌≡◌, refl}
use execgo_runtime.Repo.Rows.{Store, empty}
use execgo_runtime.Repo.Consistent.{here, IsConsistent}
use execgo_runtime.Repo.History.{Continues}
use execgo_runtime.Repo.Examples.{empty-IsConsistent}
use execgo_runtime.Policy.Examples.{adaptive_request}
use execgo_runtime.Runtime.Examples.{working, two_slots, restart, queue, submits}
use execgo_runtime.Runtime.ShimExamples
use execgo_runtime.Runtime.Dispatch.{dispatch_once_sync}
use execgo_runtime.Runtime.Shim.{run_internal_shim}
use execgo_runtime.Runtime.Recovery.{recover}
use execgo_runtime.Runtime.Gc.{Removal, gc_pass}
use execgo_runtime.Server.{create_task, create, handle}
use execgo_runtime.Server.Examples.{server}
use execgo_runtime.Program.{Action, Runs, start, then, Runs-IsConsistent, Runs-Continues}

-- A task is submitted and dispatched, its shim runs, the service starts again, and the old tasks are
-- collected.
abbrev submitted : Store
submitted = (handle server (create_task adaptive_request) empty).0

abbrev dispatched : Store
dispatched = (dispatch_once_sync working two_slots 16 submitted).0

abbrev ended : Store
ended = (run_internal_shim ShimExamples.host "t9" dispatched).0

abbrev restarted : Store
restarted = (recover restart ended).0

abbrev collected : Store
collected = gc_pass (λ task. Removal.removed) 9000 restarted

run : Runs empty collected
run =
    then
      (then
        (then
          (then (then start (Action.request server (create_task adaptive_request) refl))
            (Action.dispatch working two_slots 16 refl))
          (Action.shim ShimExamples.host "t9" ((λ s. here), tt) (λ s. here) refl))
        (Action.restart restart refl))
      (Action.collect (λ task. Removal.removed) 9000 refl)

Runs-IsConsistent_example : IsConsistent collected
Runs-IsConsistent_example = Runs-IsConsistent empty-IsConsistent run

stored : (handle server (create_task adaptive_request) empty).0 ≡ queue
unfolding handle create
stored = rw (submits, handle, create) refl

-- The run after the submission.
later : Runs submitted collected
later =
    then
      (then
        (then (then start (Action.dispatch working two_slots 16 refl))
          (Action.shim ShimExamples.host "t9" ((λ s. here), tt) (λ s. here) refl))
        (Action.restart restart refl))
      (Action.collect (λ task. Removal.removed) 9000 refl)

Runs-Continues_example : Continues submitted collected
Runs-Continues_example = Runs-Continues later
