-- ===== src/Pool/WorkerPool.antt =====
-- pkg/worker_pool/worker_pool.go: the channel, the queues and the goroutines, each at the point that
-- it has reached. One action is what a goroutine does between two points where another may run.
pub mod Counts
pub mod Valid
mod Retries
pub mod Laws
pub mod Progress
pub mod Quiet
use distributed_workflow_orc.Prelude.{
  is_some, ℕ, zero, suc, ◌+◌, ◌-◌, ◌≡◌, Bool, true, false, ◌&&◌, Option, none, some, List, [], ◌∷◌,
  ◌++◌, ltb, leb, eqb, length, if◌then◌else◌,
}
use distributed_workflow_orc.Prelude.Int.{pos}
use distributed_workflow_orc.Pool.LinkedQueue
use distributed_workflow_orc.Pool.LinkedQueue.{LinkedQueue, new_linked_queue}
use distributed_workflow_orc.Pool.PriorityQueue.{PoolJob, PriorityQueue, HeapPackage}
use distributed_workflow_orc.Pool.PriorityQueue.Timed
use distributed_workflow_orc.Pool.PriorityQueue.Timed.{new_priority_queue}

module _ (V : Type 0) (heap : HeapPackage) where
  -- The workers: `idle` of them wait at the channel, those of `received` have a job that is not
  -- counted yet, those of `working` run one, and `leaving` have still to count themselves out. The
  -- loop over the jobs may hold one (`in_hand`); the loop over the retries may have seen that an item
  -- is due, at a time (`seen_due`), or hold a job that was (`moving`). `submitted` and `done` are the
  -- tasks that were taken in, and those that ran without an error, so far.
  pub record WorkerPool : Type 0 where
    pub worker_count : ℕ
    pub capacity : ℕ
    pub jobs_q : LinkedQueue (PoolJob V)
    pub retry_q : PriorityQueue V
    pub job_chan : List (PoolJob V)
    pub busy_count : ℕ
    pub idle : ℕ
    pub received : List (PoolJob V)
    pub working : List (PoolJob V)
    pub leaving : ℕ
    pub in_hand : Option (PoolJob V)
    pub seen_due : Option ℕ
    pub moving : Option (PoolJob V × ℕ)
    pub submitted : List V
    pub done : List V

  abbrev pub or_default : ℕ → ℕ → ℕ
  or_default n default_value = if eqb n 0 then default_value else n

  -- `NewWorkerPool`, with what the options set or 0, and `Start`.
  unfoldable pub new_worker_pool : ℕ → ℕ → WorkerPool
  unfolding new_linked_queue
  new_worker_pool worker_count capacity = record {
    worker_count = or_default worker_count 5;
    capacity = or_default capacity 128;
    jobs_q = new_linked_queue (PoolJob V);
    retry_q = record { items = []; seq = 0 };
    job_chan = [];
    busy_count = 0;
    idle = or_default worker_count 5;
    received = [];
    working = [];
    leaving = 0;
    in_hand = none;
    seen_due = none;
    moving = none;
    submitted = [];
    done = [];
  }

  -- `TrySubmit`: the answer, and the pool. `Submit` waits until this succeeds.
  unfoldable pub try_submit : V → WorkerPool → Bool × WorkerPool
  try_submit task p =
      if ltb (length p.job_chan) p.capacity
      then (
        true,
        record p {
          job_chan = p.job_chan ++ record { task = task; wait_to_time = 0 } ∷ [];
          submitted = p.submitted ++ task ∷ [];
        },
      )
      else (false, p)

  -- The job at a place of a list, and the others.
  abbrev pub take_out : ℕ → List (PoolJob V) → Option (PoolJob V × List (PoolJob V))
  take_out n [] = none
  take_out zero (j ∷ js) = some (j, js)
  take_out (suc n) (j ∷ js) = elim (take_out n js) [
    | none ↦ none
    | some (k, rest) ↦ some (k, j ∷ rest)
  ]

  -- `moveToRetry`, at the time `now`, for a task that waits `wait`.
  unfoldable pub move_to_retry : ℕ → ℕ → PoolJob V → WorkerPool → WorkerPool
  unfolding Timed.enqueue
  move_to_retry now wait job p =
      let later = record job { wait_to_time = now + wait } in
      record p {
        retry_q =
            Timed.enqueue V heap
              (record { value = later; index = pos 0; wait_to_time = now + wait }) p.retry_q;
      }

  -- A worker takes a job from the channel, which is not closed.
  unfoldable pub receive : WorkerPool → Option WorkerPool
  receive p = elim p.job_chan [
    | [] ↦ none
    | j ∷ js ↦
        if eqb p.idle 0
        then none
        else some (record p { job_chan = js; idle = p.idle - 1; received = p.received ++ j ∷ [] })
  ]

  -- `wp.busyCount.Add(1)`, by the worker at a place of `received`.
  unfoldable pub count_in : ℕ → WorkerPool → Option WorkerPool
  count_in n p = elim (take_out n p.received) [
    | none ↦ none
    | some (j, rest) ↦
        some (record p {
          received = rest;
          working = p.working ++ j ∷ [];
          busy_count = p.busy_count + 1;
        })
  ]

  -- `Do` returns, with an error or not, and `OnDone` with it.
  unfoldable pub finish : ℕ → Bool → ℕ → ℕ → WorkerPool → Option WorkerPool
  unfolding move_to_retry
  finish n succeeded now wait p = elim (take_out n p.working) [
    | none ↦ none
    | some (j, rest) ↦
        let out = record p { working = rest; leaving = p.leaving + 1 } in
        some (
          if succeeded
          then record out { done = out.done ++ j.task ∷ [] }
          else move_to_retry now wait j out)
  ]

  -- `wp.busyCount.Add(-1)`.
  unfoldable pub count_out : WorkerPool → Option WorkerPool
  count_out p =
      if eqb p.leaving 0
      then none
      else some
          (record p { leaving = p.leaving - 1; idle = p.idle + 1; busy_count = p.busy_count - 1 })

  abbrev taken_in_hand :
      WorkerPool → Option (PoolJob V) × LinkedQueue (PoolJob V) → Option WorkerPool
  taken_in_hand p (none, q) = none
  taken_in_hand p (some j, q) = some (record p { jobs_q = q; in_hand = some j })

  -- The first half of a round of `jobsLoop`, and the second, which waits for room.
  unfoldable pub fetch : WorkerPool → Option WorkerPool
  unfolding LinkedQueue.dequeue
  fetch p = elim p.in_hand [
    | some j ↦ none
    | none ↦ taken_in_hand p (LinkedQueue.dequeue (PoolJob V) p.jobs_q)
  ]

  unfoldable pub send : WorkerPool → Option WorkerPool
  send p = elim p.in_hand [
    | none ↦ none
    | some j ↦
        if ltb (length p.job_chan) p.capacity
        then some (record p { job_chan = p.job_chan ++ j ∷ []; in_hand = none })
        else none
  ]

  -- The inner loop of `retryLoop`: it sees an item that is due; it takes one; it passes it on.
  unfoldable pub look : ℕ → WorkerPool → Option WorkerPool
  unfolding Timed.top
  look now p = elim (Timed.top V heap p.retry_q) [
    | none ↦ none
    | some item ↦ elim p.moving [
      | some held ↦ none
      | none ↦
          if is_some p.seen_due
          then none
          else if leb item.wait_to_time now
          then some (record p { seen_due = some now })
          else none
    ]
  ]

  abbrev taken_to_move : ℕ → WorkerPool → Option (PoolJob V) × PriorityQueue V → WorkerPool
  taken_to_move now p (none, q) = record p { seen_due = none }
  taken_to_move now p (some j, q) = record p {
    retry_q = q;
    seen_due = none;
    moving = some (j, now);
  }

  unfoldable pub take_due : WorkerPool → Option WorkerPool
  unfolding Timed.dequeue
  take_due p = elim p.seen_due [
    | none ↦ none
    | some now ↦ elim p.moving [
      | some held ↦ none
      | none ↦ some (taken_to_move now p (Timed.dequeue V heap p.retry_q))
    ]
  ]

  unfoldable pub pass_on : WorkerPool → Option WorkerPool
  unfolding LinkedQueue.queue
  pass_on p = elim p.moving [
    | none ↦ none
    | some (j, now) ↦
        some (record p { jobs_q = LinkedQueue.queue (PoolJob V) j p.jobs_q; moving = none })
  ]

  pub data Action : Type 0 where
    act_submit : V → Action
    act_receive : Action
    act_count_in : ℕ → Action
    act_finish : ℕ → Bool → ℕ → ℕ → Action
    act_count_out act_fetch act_send act_take_due act_pass_on : Action
    act_look : ℕ → Action

  -- What an action makes of the pool; `none` if it cannot be taken.
  unfoldable pub act : Action → WorkerPool → Option WorkerPool
  unfolding try_submit receive count_in finish count_out fetch send look take_due pass_on
  act (act_submit task) p = some (try_submit task p).1
  act act_receive p = receive p
  act (act_count_in n) p = count_in n p
  act (act_finish n succeeded now wait) p = finish n succeeded now wait p
  act act_count_out p = count_out p
  act act_fetch p = fetch p
  act act_send p = send p
  act (act_look now) p = look now p
  act act_take_due p = take_due p
  act act_pass_on p = pass_on p

  -- Actions in turn; one that cannot be taken is passed over.
  abbrev pub or_same : WorkerPool → Option WorkerPool → WorkerPool
  or_same p none = p
  or_same p (some p') = p'

  unfoldable pub run : List Action → WorkerPool → WorkerPool
  unfolding act
  run [] p = p
  run (a ∷ actions) p = run actions (or_same p (act a p))

  -- The condition under which `Stop` goes on to close the channels.
  unfoldable pub stop_ready : WorkerPool → Bool
  unfolding Timed.size
  stop_ready p =
      eqb p.jobs_q.size 0
      && eqb (Timed.size V heap p.retry_q) 0
      && eqb (length p.job_chan) 0
      && eqb p.busy_count 0
