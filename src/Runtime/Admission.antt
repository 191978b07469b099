-- ===== src/Runtime/Admission.antt =====
-- What a submission that succeeds leaves in the table, and how long the queue grows.
use execgo_runtime.Base.{
  unwrap_or, ℕ, ◌+◌, ◌≤◌, ◌<◌, String, ◌≡◌, refl, ap, ◌∙◌, Bool, true, false, not, Bool-cases, some,
  List, [], ◌∷◌, ◌++◌, arith, inl, inr, keep, length-append, leb,
}
use execgo_runtime.Errors.{ok_injective, queue_full, AppError, ok, guard, >>=-eq-ok}
use execgo_runtime.Types.Status.{TaskStatus}
use execgo_runtime.Types.Limits.{from_limits}
use execgo_runtime.Types.Plan.{ExecutionPlan}
use execgo_runtime.Types.Request
use execgo_runtime.Types.Request.{SubmitTaskRequest, SubmitTaskResponse}
use execgo_runtime.Types.Submission.{IsSubmission, validate-IsSubmission}
use execgo_runtime.Types.Sandbox.{join, resolve_workspace_dir}
use execgo_runtime.Policy.{resolve_execution_plan}
use execgo_runtime.Ledger.{ensure_within_capacity, ensure_within_tenant_quota}
use execgo_runtime.Repo.Rows.{
  TaskRecord, NewTaskRecord, Store, Clock, has_row, has_active_reservation, insert_event_tx,
}
use execgo_runtime.Repo.Writes.{insert_task, insert_events, insert_degraded, new_row}
use execgo_runtime.Repo.Queries.{count_accepted, count_by_status, same_status}
use execgo_runtime.Repo.Lifecycle.{tasks-insert_event_tx}
use execgo_runtime.Runtime.Service.{
  quiet, Service, Host, admit, prepare, new_record, request_tenant, submit_task,
}

tasks-insert_degraded :
    (new : NewTaskRecord) (time : ℕ) (s t : Store)
    → insert_degraded new time s ≡ ok t
    → t.tasks ≡ s.tasks
unfolding insert_degraded
tasks-insert_degraded new time s t h = elim (Bool-cases new.execution_plan.degraded) [
  | inl e ↦ tasks-insert_event_tx new.task_id _ _ _ _ s t (rw (e, insert_degraded) at h)
  | inr e ↦ let h' = rw (e, insert_degraded) at h in let same : s ≡ t = cc in rw same refl
]

-- The events of a new task leave the rows as they are.
tasks-insert_events :
    (new : NewTaskRecord) (clock : Clock) (s t : Store)
    → insert_events new clock s ≡ ok t
    → t.tasks ≡ s.tasks
unfolding insert_events
tasks-insert_events new clock s t h =
    let (s₁, p₁, h₁) = >>=-eq-ok (insert_event_tx new.task_id _ _ _ _ s) _ t h in
    let (s₂, p₂, h₂) = >>=-eq-ok (insert_event_tx new.task_id _ _ _ _ s₁) _ t h₁ in
    let (s₃, p₃, h₃) = >>=-eq-ok (insert_event_tx new.task_id _ _ _ _ s₂) _ t h₂ in
    tasks-insert_degraded new (clock 4) s₃ t h₃
    ∙ tasks-insert_event_tx new.task_id _ _ _ _ s₂ s₃ p₃
    ∙ tasks-insert_event_tx new.task_id _ _ _ _ s₁ s₂ p₂
    ∙ tasks-insert_event_tx new.task_id _ _ _ _ s s₁ p₁

insert_task-row :
    (clock : Clock) (new : NewTaskRecord) (s t : Store)
    → insert_task clock new s ≡ ok t
    → (has_row new.task_id s.tasks ≡ false) × (t.tasks ≡ s.tasks ++ new_row new (clock 0) ∷ [])
unfolding insert_task
insert_task-row clock new s t h = (
  ground arith,
  tasks-insert_events new clock (record s { tasks = s.tasks ++ new_row new (clock 0) ∷ [] }) t
      (ground arith),
)

-- What the checks of a submission guarantee, with the plan that they yield.
record IsAdmitted (service : Service) (request : SubmitTaskRequest) (s : Store)
    (plan : ExecutionPlan) : Type 0 where
  valid : Request.validate request ≡ ok tt
  planned :
      resolve_execution_plan request service.capabilities service.default_capability_mode ≡ ok plan
  capacity : ensure_within_capacity service.ledger (from_limits request.limits) ≡ ok tt
  tenant :
      ensure_within_tenant_quota service.ledger
        (request_tenant request)
        (from_limits request.limits)
      ≡ ok tt
  queue : count_accepted s < service.max_queued_tasks

guard-true : (b : Bool) (e : AppError) → guard b e ≡ ok tt → b ≡ true
guard-true true e h = refl
guard-true false e h = cc

admit-IsAdmitted :
    (service : Service) (request : SubmitTaskRequest) (s : Store) (plan : ExecutionPlan)
    → admit service request s ≡ ok plan
    → IsAdmitted service request s plan
unfolding admit
admit-IsAdmitted service request s plan h =
    let (x₁, p₁, h₁) = >>=-eq-ok (Request.validate request) _ plan h in
    let (found, p₂, h₂) =
      >>=-eq-ok
        (resolve_execution_plan request service.capabilities service.default_capability_mode) _ plan
        h₁ in
    let (x₃, p₃, h₃) =
      >>=-eq-ok (ensure_within_capacity service.ledger (from_limits request.limits)) _ plan h₂ in
    let (x₄, p₄, h₄) =
      >>=-eq-ok
        (ensure_within_tenant_quota service.ledger (request_tenant request)
          (from_limits request.limits))
        _ plan h₃ in
    let (x₅, p₅, h₅) =
      >>=-eq-ok (guard (not (leb service.max_queued_tasks (count_accepted s))) queue_full) _ plan
        h₄ in
    let same : found ≡ plan = cc in
    let room = guard-true (not (leb service.max_queued_tasks (count_accepted s))) queue_full p₅ in
    record {
      valid = p₁;
      planned = p₂ ∙ ap ok same;
      capacity = p₃;
      tenant = p₄;
      queue = ground arith;
    }

pub prepare-request :
    (service : Service) (host : Host) (request : SubmitTaskRequest) (plan : ExecutionPlan)
    (new : NewTaskRecord)
    → prepare service host request plan ≡ ok new
    → (new.request ≡ request)
      × (new.execution_plan ≡ plan)
      × (new.task_id ≡ unwrap_or host.generate_task_id request.task_id)
unfolding prepare
prepare-request service host request plan new h =
    let (workspace, p, h₁) = >>=-eq-ok (resolve_workspace_dir _ request.sandbox) _ new h in
    let (x, q, h₂) = >>=-eq-ok (host.create_files _) _ new h₁ in
    let same : new_record request plan (unwrap_or host.generate_task_id request.task_id)
          (join service.tasks_dir (unwrap_or host.generate_task_id request.task_id)) workspace
        ≡ new =
      cc in
    rw (← same) (refl, refl, refl)

keep-append :
    {A : Type 0} (p : A → Bool) (xs ys : List A) → keep p (xs ++ ys) ≡ keep p xs ++ keep p ys
keep-append p [] ys = refl
keep-append p (x ∷ xs) ys = ground (arith, keep-append p xs ys)

-- A new accepted row counts one more.
count_accepted-append :
    (row : TaskRecord) (s t : Store)
    → row.status ≡ TaskStatus.accepted
    → t.tasks ≡ s.tasks ++ row ∷ []
    → count_accepted t ≡ count_accepted s + 1
unfolding count_by_status
count_accepted-append row s t accepted appended =
    rw
      (
        appended,
        keep-append (λ task. same_status TaskStatus.accepted task.status) s.tasks (row ∷ []),
      )
      (length-append (keep _ s.tasks) _ ∙ rw accepted refl)

-- What a successful submission leaves in the table.
pub record IsSubmitted (service : Service) (between : Store → Store) (request : SubmitTaskRequest)
    (s t : Store) (id : String) : Type 0 where
  pub fresh : has_row id (between s).tasks ≡ false
  pub row : TaskRecord
  pub appended : t.tasks ≡ (between s).tasks ++ row ∷ []
  pub named : row.task_id ≡ id
  pub waits : row.status ≡ TaskStatus.accepted
  pub unreserved : has_active_reservation row ≡ false
  pub execution : row.execution ≡ request.execution
  pub limits : row.limits ≡ request.limits
  pub plan : ExecutionPlan
  pub planned :
      resolve_execution_plan request service.capabilities service.default_capability_mode ≡ ok plan
  pub kept : row.execution_plan ≡ some plan
  pub fits : ensure_within_capacity service.ledger (from_limits request.limits) ≡ ok tt
  pub valid : IsSubmission request
  pub room : count_accepted s < service.max_queued_tasks
  pub alone :
      count_accepted (between s) ≤ count_accepted s → count_accepted t ≤ service.max_queued_tasks
  pub grown : count_accepted t ≡ count_accepted (between s) + 1

-- A submission that succeeds, whatever the others do to the tables between its count of the queue and
-- its insertion, was a valid one whose reservation fits the runtime, and the queue of accepted tasks
-- had room when it was counted. It adds, after the rows that are there at the insertion, one row:
-- under the identifier of the response, which no task had, accepted and without a reservation, with
-- the execution and the limits of the request and the plan that the negotiation yields; and the queue
-- is one task longer than at the insertion, which is no longer than the service allows where the
-- others did not lengthen it.
pub submit_task-IsSubmitted :
    (service : Service) (host : Host) (between : Store → Store) (request : SubmitTaskRequest)
    (s t : Store) (response : SubmitTaskResponse)
    → submit_task service host between request s ≡ ok (t, response)
    → IsSubmitted service between request s t response.task_id
unfolding submit_task
submit_task-IsSubmitted service host between request s t response h =
    let (plan, p₁, h₁) = >>=-eq-ok (admit service request s) _ (t, response) h in
    let (new, p₂, h₂) = >>=-eq-ok (prepare service host request plan) _ (t, response) h₁ in
    let (u, p₃, h₃) = >>=-eq-ok (insert_task host.clock new (between s)) _ (t, response) h₂ in
    let admitted = admit-IsAdmitted service request s plan p₁ in
    let (same_request, same_plan, same_id) = prepare-request service host request plan new p₂ in
    let (fresh, appended) = insert_task-row host.clock new (between s) u p₃ in
    let ended = ok_injective h₃ in
    let same_store : u ≡ t = ap (λ p. p.0) ended in
    let same_name : new.task_id ≡ response.task_id = ap (λ p. p.1.task_id) ended in
    let room = admitted.queue in
    let added : t.tasks ≡ (between s).tasks ++ new_row new (host.clock 0) ∷ [] =
      rw same_store at appended in
    let grown = count_accepted-append (new_row new (host.clock 0)) (between s) t refl added in
    record {
      fresh = rw same_name at fresh;
      row = new_row new (host.clock 0);
      appended = added;
      named = same_name;
      waits = refl;
      unreserved = refl;
      execution = ap (λ (q : SubmitTaskRequest). q.execution) same_request;
      limits = ap (λ (q : SubmitTaskRequest). q.limits) same_request;
      plan = plan;
      planned = admitted.planned;
      kept = ap some same_plan;
      fits = admitted.capacity;
      valid = validate-IsSubmission request admitted.valid;
      room = room;
      alone = λ others. omega (arith, grown, room, others);
      grown = grown;
    }

-- Two submissions can overfill the queue: where the queue has one free place, and the second one
-- counts it before the first one inserts its row and succeeds after that, the queue is longer than the
-- service allows.
pub submit_task-overfills :
    (service : Service) (host host₂ : Host) (request request₂ : SubmitTaskRequest) (s t u : Store)
    (response response₂ : SubmitTaskResponse)
    → count_accepted s + 1 ≡ service.max_queued_tasks
    → submit_task service host quiet request s ≡ ok (t, response)
    → submit_task service host₂ (λ x. t) request₂ s ≡ ok (u, response₂)
    → service.max_queued_tasks < count_accepted u
submit_task-overfills service host host₂ request request₂ s t u response response₂ full h h₂ =
    let first = (submit_task-IsSubmitted service host quiet request s t response h).grown in
    let second = (submit_task-IsSubmitted service host₂ (λ x. t) request₂ s u response₂ h₂).grown in
    omega (arith, full, first, second)
