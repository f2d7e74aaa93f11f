-- ===== src/Worker/Service.antt =====
-- infrastructure/worker/service and pkg/executror_registry: the tasks that a worker accepts. A cancel
-- function is named by a number, and an executor by the type parameter `Executor`.
use distributed_workflow_orc.Prelude.{
  ℕ, ◌≡◌, Bool, true, false, not, Option, none, some, List, [], ◌∷◌, ◌++◌, String, Map, lookup,
  insert, delete, has, arith, eq_refl, ◌==◌, if◌then◌else◌,
}
use distributed_workflow_orc.Prelude.Int.{ℤ}
use distributed_workflow_orc.Prelude.Results.{Result, ok, err}
use distributed_workflow_orc.Prelude.Maps.{has-insert}
use distributed_workflow_orc.Domain.Task.{TaskSpec}
use distributed_workflow_orc.Scheduler.Queue.{DispatchRequest}

-- `unique`: the tasks in flight, each with the cancel function of its attempt, once it has begun.
abbrev pub InFlight : Type 0
InFlight = Map (Option ℕ)

-- `Add`: the answer, and the tasks in flight.
unfoldable pub add : String → InFlight → Bool × InFlight
add id items = if has id items then (false, items) else (true, insert id none items)

abbrev pub remove : String → InFlight → InFlight
remove id items = delete id items

abbrev pub set_cancel : String → ℕ → InFlight → InFlight
set_cancel id cancel items = insert id (some cancel) items

-- The function that `Cancel` calls, or `none` where it answers `false`.
unfoldable pub cancel : String → InFlight → Option ℕ
cancel id items = elim (lookup id items) [ none ↦ none | some c ↦ c ]

-- `CancelTasks`: the answers, and the cancel functions called, in order.
unfoldable pub cancel_tasks : List String → InFlight → Map Bool × List ℕ
unfolding cancel
cancel_tasks task_ids items = go task_ids []
  where
    go : List String → Map Bool → Map Bool × List ℕ
    go [] answers = (answers, [])
    go (id ∷ ids) answers = elim (cancel id items) [
      | none ↦ go ids (insert id false answers)
      | some c ↦ let (rest, calls) = go ids (insert id true answers) in (rest, c ∷ calls)
    ]

-- `models.TaskInfo`; the source leaves out the type of the spec.
pub record TaskInfo : Type 0 where
  pub id : String
  pub workflow_id : String
  pub spec : TaskSpec
  pub timeout_in_seconds : ℤ

pub data DispatchError : Type 0 where
  worker_suspended worker_pool_is_full : DispatchError
  get_executor_error : String → DispatchError

abbrev pub task_info : DispatchRequest → TaskInfo
task_info req = record {
  id = req.task_id;
  workflow_id = req.workflow_id;
  spec = record { type = ""; payload = req.payload };
  timeout_in_seconds = req.timeout_seconds;
}

-- A control plane's answer to `Register`.
pub data RegisterAnswer : Type 0 where
  accepted unreachable : RegisterAnswer
  rejected : (reason : String) → RegisterAnswer

-- `register`: whether it returns no error.
unfoldable pub is_registered : RegisterAnswer → Bool
is_registered accepted = true
is_registered _ = false

module _ (Executor : Type 0) where
  -- `submitted` is what the pool took, in order.
  pub record WorkerService : Type 0 where
    pub executors : Map Executor
    pub in_flight : InFlight
    pub suspended : Bool
    pub submitted : List (TaskInfo × Executor)

  -- `Registry.Register` and `Registry.Get`.
  abbrev pub register_executor : String → Executor → WorkerService → WorkerService
  register_executor task_type ex ws = record ws { executors = insert task_type ex ws.executors }

  unfoldable pub get_executor : String → WorkerService → Result DispatchError Executor
  get_executor task_type ws = elim (lookup task_type ws.executors) [
    | none ↦ err (get_executor_error task_type)
    | some ex ↦ ok ex
  ]

  -- What `DispatchTask` does with an executor in hand; `has_room` is the answer of `TrySubmit`.
  unfoldable pub submit_with :
      Bool → DispatchRequest → Executor → WorkerService → WorkerService × Option DispatchError
  submit_with has_room req ex ws =
      if not has_room
      then (record ws { in_flight = remove req.task_id ws.in_flight }, some worker_pool_is_full)
      else (record ws { submitted = ws.submitted ++ (task_info req, ex) ∷ [] }, none)

  unfoldable pub dispatch_new :
      Bool → DispatchRequest → WorkerService → WorkerService × Option DispatchError
  unfolding get_executor submit_with
  dispatch_new has_room req ws = elim (get_executor req.type ws) [
    | err e ↦ (ws, some e)
    | ok ex ↦ submit_with has_room req ex ws
  ]

  unfoldable pub dispatch_task :
      Bool → DispatchRequest → WorkerService → WorkerService × Option DispatchError
  unfolding add dispatch_new
  dispatch_task has_room req ws =
      let (fresh, items) = add req.task_id ws.in_flight in
      if ws.suspended
      then (ws, some worker_suspended)
      else if not fresh
      then (ws, none)
      else dispatch_new has_room req (record ws { in_flight = items })

  -- `OnDone` of a tracked task, with whether `Do` returned no error.
  unfoldable pub on_done : String → Bool → WorkerService → WorkerService
  on_done task_id succeeded ws =
      if succeeded then record ws { in_flight = remove task_id ws.in_flight } else ws

  -- `sendHeartbeat`: `beaten` tells that the heartbeat returned no error, and `answer` what a new
  -- registration is answered.
  unfoldable pub send_heartbeat : Bool → RegisterAnswer → WorkerService → WorkerService
  unfolding is_registered
  send_heartbeat beaten answer ws =
      if beaten
      then ws
      else if not (is_registered answer)
      then record ws { suspended = true }
      else record ws { suspended = false }

  dispatched_in_flight :
      (has_room : Bool) (req : DispatchRequest) (ws : WorkerService)
      → (dispatch_task has_room req ws).1 ≡ none
      → has req.task_id (dispatch_task has_room req ws).0.in_flight ≡ true
  unfolding dispatch_task add dispatch_new submit_with get_executor
  dispatched_in_flight has_room req ws h =
      ground (arith, has-insert req.task_id req.task_id none ws.in_flight, eq_refl req.task_id)

  accepted_awake :
      (has_room : Bool) (req : DispatchRequest) (ws : WorkerService)
      → (dispatch_task has_room req ws).1 ≡ none
      → (dispatch_task has_room req ws).0.suspended ≡ false
  unfolding dispatch_task add dispatch_new submit_with get_executor
  accepted_awake has_room req ws h = ground arith

  repeated :
      (again : Bool) (req : DispatchRequest) (ws : WorkerService)
      → ws.suspended ≡ false
      → has req.task_id ws.in_flight ≡ true
      → dispatch_task again req ws ≡ (ws, none)
  unfolding dispatch_task add
  repeated again req ws awake known = ground arith

  -- A dispatch of another task is answered by what the service had before.
  apart_answer :
      (has_room again : Bool) (req req' : DispatchRequest) (ws : WorkerService)
      → (dispatch_task has_room req ws).1 ≡ none
      → (req.task_id == req'.task_id) ≡ false
      → (dispatch_task again req' (dispatch_task has_room req ws).0).1
        ≡ (dispatch_task again req' ws).1
  unfolding dispatch_task add dispatch_new submit_with get_executor
  apart_answer has_room again req req' ws h apart =
      ground (arith, has-insert req.task_id req'.task_id none ws.in_flight)

  -- After a dispatch that returned no error, another one of the same task id, of whatever workflow,
  -- returns none too, and changes nothing: the pool gets no second copy. One of another task id is
  -- answered as it would have been without the first.
  pub dispatch_task-idempotent :
      (has_room again : Bool) (req same other : DispatchRequest) (ws : WorkerService)
      → (dispatch_task has_room req ws).1 ≡ none
      → same.task_id ≡ req.task_id
      → (req.task_id == other.task_id) ≡ false
      → let after = (dispatch_task has_room req ws).0 in
        (dispatch_task again same after ≡ (after, none))
        × ((dispatch_task again other after).1 ≡ (dispatch_task again other ws).1)
  dispatch_task-idempotent has_room again req same other ws h one_id apart = (
    repeated again same (dispatch_task has_room req ws).0 (accepted_awake has_room req ws h)
        (rw one_id (dispatched_in_flight has_room req ws h)),
    apart_answer has_room again req other ws h apart,
  )

  -- A dispatch that returns an error gives the pool nothing.
  pub dispatch_task-refused :
      (has_room : Bool) (req : DispatchRequest) (ws : WorkerService) (e : DispatchError)
      → (dispatch_task has_room req ws).1 ≡ some e
      → (dispatch_task has_room req ws).0.submitted ≡ ws.submitted
  unfolding dispatch_task add dispatch_new submit_with get_executor
  dispatch_task-refused has_room req ws e h = ground arith

  -- A new task of a type with no executor is refused, but stays in flight: the next dispatch of it
  -- returns no error, though the pool has been given nothing.
  pub dispatch_task-unknown_type :
      (has_room again : Bool) (req : DispatchRequest) (ws : WorkerService)
      → ws.suspended ≡ false
      → has req.task_id ws.in_flight ≡ false
      → lookup req.type ws.executors ≡ none
      → let (after, error) = dispatch_task has_room req ws in
        (error ≡ some (get_executor_error req.type))
        × (after.submitted ≡ ws.submitted)
        × (dispatch_task again req after ≡ (after, none))
  unfolding dispatch_task add dispatch_new get_executor
  dispatch_task-unknown_type has_room again req ws awake fresh unknown =
      ground (arith, has-insert req.task_id req.task_id none ws.in_flight, eq_refl req.task_id)
