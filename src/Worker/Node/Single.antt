-- ===== src/Worker/Node/Single.antt =====
-- infrastructure/worker/service and pkg/worker_pool: how many copies of a task a worker can hold.
use distributed_workflow_orc.Prelude.{
  ℕ, ◌+◌, ◌≤◌, ◌≡◌, Bool, false, none, some, List, [], ◌∷◌, Map, has, if◌then◌else◌, lookup, arith,
  Option-cases, Bool-cases, inl, inr, String, ◌==◌, eq_iff, insert, ltb, length,
}
use distributed_workflow_orc.Prelude.Maps.{has-insert, has-lookup, lookup-delete}
use distributed_workflow_orc.Scheduler.Queue.{DispatchRequest}
use distributed_workflow_orc.Worker.Service.{
  InFlight, TaskInfo, dispatch_task, dispatch_new, submit_with, get_executor, on_done, task_info,
  add, remove,
}
use distributed_workflow_orc.Pool.LinkedQueue.{Holds}
use distributed_workflow_orc.Pool.PriorityQueue.{PoolJob, HeapPackage}
use distributed_workflow_orc.Pool.PriorityQueue.Timed.{IsHeapPackage}
use distributed_workflow_orc.Pool.WorkerPool.{
  Action, act_submit, act_receive, act_count_in, act_finish, act_count_out, act_fetch, act_send,
  act_look, act_take_due, act_pass_on, act, or_same, take_out, try_submit, finish, move_to_retry,
  new_worker_pool, or_default,
}
use distributed_workflow_orc.Pool.WorkerPool.Counts.{count, kept, count-append}
use distributed_workflow_orc.Pool.WorkerPool.Quiet.{
  Same, receive-Same, count_in-Same, count_out-Same, fetch-Same, send-Same, look-Same,
  take_due-Same, pass_on-Same,
}
use distributed_workflow_orc.Pool.WorkerPool.Valid.{IsSound}
use distributed_workflow_orc.Pool.WorkerPool.Laws.{act-IsSound, new_worker_pool-IsSound}
use distributed_workflow_orc.Worker.Node.{
  Node, node_dispatch, node_act, is_tried, Event, dispatched, acted, beaten, happen, history,
  new_node,
}

abbrev pub is_task : String → TaskInfo → Bool
is_task id task = task.id == id

has-delete :
    (k j : String) (items : InFlight)
    → has j (remove k items) ≡ (if k == j then false else has j items)
has-delete k j items =
    ground (arith, has-lookup j (remove k items), lookup-delete k j items, has-lookup j items)

module _ (Executor : Type 0) (heap : HeapPackage) where
  -- Of each task, at most one copy is not done, and none if it is not in flight.
  abbrev IsSingle : Node Executor heap → Type 0
  IsSingle n =
      (id : String)
      → count TaskInfo (is_task id) n.pool.submitted
        ≤ count TaskInfo (is_task id) n.pool.done + (if has id n.service.in_flight then 1 else 0)

  tried-some :
      (req : DispatchRequest) (n : Node Executor heap) (ex : Executor)
      → n.service.suspended ≡ false
      → has req.task_id n.service.in_flight ≡ false
      → lookup req.type n.service.executors ≡ some ex
      → IsSingle n
      → IsSingle (node_dispatch Executor heap req n).0
  unfolding node_dispatch is_tried dispatch_task dispatch_new submit_with get_executor add
      try_submit
  tried-some req n ex on new known h id =
      let before = h id in
      let in_flight = has-insert req.task_id id none n.service.in_flight in
      elim (Bool-cases (ltb (length n.pool.job_chan) n.pool.capacity)) [
        | inl room ↦
            let more = count-append TaskInfo (is_task id) n.pool.submitted (task_info req ∷ []) in
            ground (arith, in_flight, more, eq_iff req.task_id id)
        | inr full ↦
            let removed = has-delete req.task_id id (insert req.task_id none n.service.in_flight) in
            ground (arith, in_flight, removed, eq_iff req.task_id id)
      ]

  dispatch-IsSingle :
      (req : DispatchRequest) (n : Node Executor heap)
      → IsSingle n
      → IsSingle (node_dispatch Executor heap req n).0
  unfolding node_dispatch is_tried dispatch_task dispatch_new get_executor add
  dispatch-IsSingle req n h id = elim (Bool-cases n.service.suspended) [
    | inl off ↦ ground (arith, h id)
    | inr on ↦ elim (Bool-cases (has req.task_id n.service.in_flight)) [
      | inl old ↦ ground (arith, h id)
      | inr new ↦ elim (Option-cases (lookup req.type n.service.executors)) [
        | inr (ex, known) ↦ tried-some req n ex on new known h id
        | inl unknown ↦ ground (arith, h id, has-insert req.task_id id none n.service.in_flight)
      ]
    ]
  ]

  quiet-IsSingle :
      (n : Node Executor heap) (a : Action TaskInfo heap)
      → Same TaskInfo heap n.pool (or_same TaskInfo heap n.pool (act TaskInfo heap a n.pool))
      → IsSingle n
      → IsSingle (record n { pool = or_same TaskInfo heap n.pool (act TaskInfo heap a n.pool) })
  quiet-IsSingle n a (submitted, done) h id = rw (submitted, done) (h id)

  finish-IsSingle :
      (i : ℕ) (succeeded : Bool) (now wait : ℕ) (n : Node Executor heap)
      → IsSingle n
      → IsSingle (node_act Executor heap (act_finish i succeeded now wait) n)
  unfolding node_act act finish move_to_retry on_done
  finish-IsSingle i succeeded now wait n h id =
      elim (Option-cases (take_out TaskInfo heap i n.pool.working)) [
        | inl out ↦ ground (arith, h id)
        | inr ((j, rest), e) ↦ elim (Bool-cases succeeded) [
          | inr failed ↦ ground (arith, h id)
          | inl ok ↦
              let more = count-append TaskInfo (is_task id) n.pool.done (j.task ∷ []) in
              let gone = has-delete j.task.id id n.service.in_flight in
              ground (arith, h id, more, gone, eq_iff j.task.id id)
        ]
      ]

  act-IsSingle :
      (a : Action TaskInfo heap) (n : Node Executor heap)
      → IsSingle n
      → IsSingle (node_act Executor heap a n)
  unfolding node_act act
  act-IsSingle (act_submit task) n h = h
  act-IsSingle (act_finish i succeeded now wait) n h = finish-IsSingle i succeeded now wait n h
  act-IsSingle act_receive n h = quiet-IsSingle n act_receive (receive-Same TaskInfo heap n.pool) h
  act-IsSingle (act_count_in i) n h =
      quiet-IsSingle n (act_count_in i) (count_in-Same TaskInfo heap i n.pool) h
  act-IsSingle act_count_out n h =
      quiet-IsSingle n act_count_out (count_out-Same TaskInfo heap n.pool) h
  act-IsSingle act_fetch n h = quiet-IsSingle n act_fetch (fetch-Same TaskInfo heap n.pool) h
  act-IsSingle act_send n h = quiet-IsSingle n act_send (send-Same TaskInfo heap n.pool) h
  act-IsSingle act_take_due n h =
      quiet-IsSingle n act_take_due (take_due-Same TaskInfo heap n.pool) h
  act-IsSingle act_pass_on n h = quiet-IsSingle n act_pass_on (pass_on-Same TaskInfo heap n.pool) h
  act-IsSingle (act_look now) n h =
      quiet-IsSingle n (act_look now) (look-Same TaskInfo heap now n.pool) h

  history-IsSingle :
      (events : List (Event Executor heap)) (n : Node Executor heap)
      → IsSingle n
      → IsSingle (history Executor heap events n)
  unfolding history happen
  history-IsSingle [] n h = h
  history-IsSingle (dispatched req ∷ events) n h =
      history-IsSingle events (node_dispatch Executor heap req n).0 (dispatch-IsSingle req n h)
  history-IsSingle (acted a ∷ events) n h =
      history-IsSingle events (node_act Executor heap a n) (act-IsSingle a n h)
  history-IsSingle (beaten suspended ∷ events) n h =
      history-IsSingle events (record n { service = record n.service { suspended = suspended } }) h

  new_node-IsSingle :
      (executors : Map Executor) (worker_count capacity : ℕ)
      → IsSingle (new_node Executor heap executors worker_count capacity)
  unfolding new_node new_worker_pool
  new_node-IsSingle executors worker_count capacity id = omega arith

  module _ (laws : IsHeapPackage TaskInfo heap) (crew_size capacity : ℕ) where
    abbrev IsSoundNode : Node Executor heap → Type 0
    IsSoundNode n = IsSound TaskInfo heap laws crew_size capacity n.pool

    dispatch-IsSoundNode :
        (req : DispatchRequest) (n : Node Executor heap)
        → IsSoundNode n
        → IsSoundNode (node_dispatch Executor heap req n).0
    unfolding node_dispatch act
    dispatch-IsSoundNode req n s = elim (Bool-cases (is_tried Executor heap req n.service)) [
      | inr other ↦ rw other s
      | inl tried ↦
          rw tried (
            act-IsSound TaskInfo heap laws crew_size capacity (act_submit (task_info req)) n.pool s)
    ]

    act-IsSoundNode :
        (a : Action TaskInfo heap) (n : Node Executor heap)
        → IsSoundNode n
        → IsSoundNode (node_act Executor heap a n)
    unfolding node_act
    act-IsSoundNode (act_submit task) n s = s
    act-IsSoundNode (act_finish i succeeded now wait) n s =
        act-IsSound TaskInfo heap laws crew_size capacity (act_finish i succeeded now wait) n.pool s
    act-IsSoundNode act_receive n s =
        act-IsSound TaskInfo heap laws crew_size capacity act_receive n.pool s
    act-IsSoundNode (act_count_in i) n s =
        act-IsSound TaskInfo heap laws crew_size capacity (act_count_in i) n.pool s
    act-IsSoundNode act_count_out n s =
        act-IsSound TaskInfo heap laws crew_size capacity act_count_out n.pool s
    act-IsSoundNode act_fetch n s =
        act-IsSound TaskInfo heap laws crew_size capacity act_fetch n.pool s
    act-IsSoundNode act_send n s =
        act-IsSound TaskInfo heap laws crew_size capacity act_send n.pool s
    act-IsSoundNode act_take_due n s =
        act-IsSound TaskInfo heap laws crew_size capacity act_take_due n.pool s
    act-IsSoundNode act_pass_on n s =
        act-IsSound TaskInfo heap laws crew_size capacity act_pass_on n.pool s
    act-IsSoundNode (act_look now) n s =
        act-IsSound TaskInfo heap laws crew_size capacity (act_look now) n.pool s

    history-IsSoundNode :
        (events : List (Event Executor heap)) (n : Node Executor heap)
        → IsSoundNode n
        → IsSoundNode (history Executor heap events n)
    unfolding history happen
    history-IsSoundNode [] n s = s
    history-IsSoundNode (dispatched req ∷ events) n s =
        history-IsSoundNode events (node_dispatch Executor heap req n).0
          (dispatch-IsSoundNode req n s)
    history-IsSoundNode (acted a ∷ events) n s =
        history-IsSoundNode events (node_act Executor heap a n) (act-IsSoundNode a n s)
    history-IsSoundNode (beaten suspended ∷ events) n s =
        history-IsSoundNode events
          (record n { service = record n.service { suspended = suspended } }) s

  -- Whatever is dispatched to a new worker and however its pool runs, at most one copy of a task is in
  -- the pool at any point, in the queues, the channel and the hands of the goroutines together; and
  -- none if the task is not in flight.
  pub history-single :
      (laws : IsHeapPackage TaskInfo heap) (executors : Map Executor) (worker_count capacity : ℕ)
      (events : List (Event Executor heap)) (id : String)
      → (xs : List (PoolJob TaskInfo)) × Holds
          (PoolJob TaskInfo)
          (history Executor heap events
            (new_node Executor heap executors worker_count capacity)).pool.jobs_q
          xs
        × (kept TaskInfo heap
              (is_task id)
              xs
              (history Executor heap events
                (new_node Executor heap executors worker_count capacity)).pool
            ≤ (if has id
                  (history Executor heap events
                    (new_node Executor heap executors worker_count capacity)).service.in_flight
                then 1
                else 0))
  unfolding new_node
  history-single laws executors worker_count capacity events id =
      let new = new_node Executor heap executors worker_count capacity in
      let (xs, h) =
        history-IsSoundNode laws (or_default TaskInfo heap worker_count 5)
          (or_default TaskInfo heap capacity 128) events new
          (new_worker_pool-IsSound TaskInfo heap laws worker_count capacity) in
      let single =
        history-IsSingle events new (new_node-IsSingle executors worker_count capacity) id in
      (xs, h.held, omega (arith, single, h.conserved (is_task id)))
