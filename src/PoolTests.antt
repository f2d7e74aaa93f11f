-- ===== src/PoolTests.antt =====
-- The worker pool and a worker's tasks on small inputs.
use distributed_workflow_orc.Prelude.{
  ℕ, ◌+◌, ◌≤◌, ◌≡◌, ◌⊎◌, refl, Bool, true, false, none, some, List, [], ◌∷◌, length, eqb,
}
use distributed_workflow_orc.Prelude.Int.{pos}
use distributed_workflow_orc.Pool.LinkedQueue
use distributed_workflow_orc.Pool.LinkedQueue.{
  Op, enqueue, take_first, new_linked_queue, replay, Holds,
}
use distributed_workflow_orc.Pool.PriorityQueue
use distributed_workflow_orc.Pool.PriorityQueue.{
  PoolJob, ItemPq, PriorityQueue, Call, call_swap, call_push, call_pop, calls, IsIndexed,
  calls-IsIndexed,
}
use distributed_workflow_orc.Pool.PriorityQueue.Selection.{selection}
use distributed_workflow_orc.Pool.PriorityQueue.Selection.Package.{selection-IsHeapPackage}
use distributed_workflow_orc.Pool.WorkerPool
use distributed_workflow_orc.Pool.WorkerPool.{
  WorkerPool, Action, act_submit, act_receive, act_count_in, act_finish, act_count_out, act_fetch,
  act_send, act_take_due, act_pass_on, act_look, new_worker_pool, or_default, stop_ready,
}
use distributed_workflow_orc.Pool.WorkerPool.Counts.{count, kept}
use distributed_workflow_orc.Pool.WorkerPool.Laws.{
  run-conserves, run-bounds, run-not_early, stop_ready-all_done,
}
use distributed_workflow_orc.Pool.WorkerPool.Progress.{run-progress, CanMove}

abbrev some_ops : List (Op ℕ)
some_ops = enqueue 3 ∷ take_first ∷ take_first ∷ enqueue 4 ∷ enqueue 5 ∷ take_first ∷ []

run-new_refines_example :
    ((LinkedQueue.run ℕ some_ops (new_linked_queue ℕ)).0 ≡ (replay ℕ some_ops []).0)
    × Holds ℕ (LinkedQueue.run ℕ some_ops (new_linked_queue ℕ)).1 (replay ℕ some_ops []).1
    × ((LinkedQueue.run ℕ some_ops (new_linked_queue ℕ)).1.size ≡ length (replay ℕ some_ops []).1)
run-new_refines_example = LinkedQueue.run-new_refines ℕ some_ops

some_answers : (LinkedQueue.run ℕ some_ops (new_linked_queue ℕ)).0 ≡ some 3 ∷ none ∷ some 4 ∷ []
unfolding LinkedQueue.run new_linked_queue
some_answers = refl

abbrev item_at : ℕ → ItemPq ℕ
item_at time = record {
  value = record { task = time; wait_to_time = time };
  index = pos 0;
  wait_to_time = time;
}

abbrev empty_queue : PriorityQueue ℕ
empty_queue = record { items = []; seq = 0 }

abbrev some_calls : List (Call ℕ)
some_calls =
    call_push (item_at 9)
    ∷ call_push (item_at 4)
    ∷ call_swap 0 1
    ∷ call_push (item_at 6)
    ∷ call_pop
    ∷ []

calls-IsIndexed_example : IsIndexed ℕ (calls ℕ some_calls empty_queue)
calls-IsIndexed_example = calls-IsIndexed ℕ some_calls empty_queue tt

-- Task 7 fails once and waits from time 10 to 15; task 8 is behind it.
abbrev first_actions : List (Action ℕ selection)
first_actions =
    act_submit 7
    ∷ act_submit 8
    ∷ act_receive
    ∷ act_count_in 0
    ∷ act_finish 0 false 10 5
    ∷ act_count_out
    ∷ act_look 20
    ∷ act_take_due
    ∷ []

abbrev all_actions : List (Action ℕ selection)
all_actions =
    act_submit 7
    ∷ act_receive
    ∷ act_count_in 0
    ∷ act_finish 0 false 10 5
    ∷ act_count_out
    ∷ act_look 20
    ∷ act_take_due
    ∷ act_pass_on
    ∷ act_fetch
    ∷ act_send
    ∷ act_receive
    ∷ act_count_in 0
    ∷ act_finish 0 true 30 0
    ∷ act_count_out
    ∷ []

abbrev first_pool : WorkerPool ℕ selection
first_pool = WorkerPool.run ℕ selection first_actions (new_worker_pool ℕ selection 2 0)

abbrev last_pool : WorkerPool ℕ selection
last_pool = WorkerPool.run ℕ selection all_actions (new_worker_pool ℕ selection 0 1)

abbrev is_seven : ℕ → Bool
is_seven n = eqb n 7

run-conserves_example :
    (xs : List (PoolJob ℕ)) × Holds (PoolJob ℕ) first_pool.jobs_q xs
    × (count ℕ is_seven first_pool.submitted
        ≡ count ℕ is_seven first_pool.done + kept ℕ selection is_seven xs first_pool)
run-conserves_example =
    run-conserves ℕ selection (selection-IsHeapPackage ℕ) 2 0 first_actions is_seven

run-bounds_example :
    (first_pool.busy_count ≡ length first_pool.working + first_pool.leaving)
    × (first_pool.busy_count ≤ 2)
    × (length first_pool.job_chan ≤ 128)
run-bounds_example = run-bounds ℕ selection (selection-IsHeapPackage ℕ) 2 0 first_actions

seven_taken : first_pool.moving ≡ some (record { task = 7; wait_to_time = 15 }, 20)
unfolding WorkerPool.run new_worker_pool PriorityQueue.len PriorityQueue.push PriorityQueue.less
    PriorityQueue.pop PriorityQueue.swap
seven_taken = refl

run-not_early_example : 15 ≤ 20
run-not_early_example =
    run-not_early ℕ selection (selection-IsHeapPackage ℕ) 2 0 first_actions
      (record { task = 7; wait_to_time = 15 }) 20 seven_taken

last_ready : stop_ready ℕ selection last_pool ≡ true
unfolding WorkerPool.run new_worker_pool stop_ready PriorityQueue.len PriorityQueue.push
    PriorityQueue.less PriorityQueue.pop PriorityQueue.swap
last_ready = refl

last_empty : (last_pool.in_hand ≡ none) × (last_pool.moving ≡ none) × (last_pool.received ≡ [])
unfolding WorkerPool.run new_worker_pool PriorityQueue.len PriorityQueue.push PriorityQueue.less
    PriorityQueue.pop PriorityQueue.swap
last_empty = (refl, refl, refl)

stop_ready-all_done_example : count ℕ is_seven last_pool.submitted ≡ count ℕ is_seven last_pool.done
stop_ready-all_done_example =
    stop_ready-all_done ℕ selection (selection-IsHeapPackage ℕ) 0 1 all_actions is_seven last_ready
      last_empty.0 last_empty.1 last_empty.2

-- `Stop` may go on while a worker holds task 7, before it has counted itself in.
stop_ready-too_early :
    (stop_ready ℕ selection (
        WorkerPool.run ℕ selection
          (act_submit 7 ∷ act_receive ∷ [])
          (new_worker_pool ℕ selection 0 0))
      ≡ true)
    × ((WorkerPool.run ℕ selection
          (act_submit 7 ∷ act_receive ∷ [])
          (new_worker_pool ℕ selection 0 0)).done
        ≡ [])
unfolding WorkerPool.run new_worker_pool stop_ready
stop_ready-too_early = (refl, refl)

run-progress_example :
    (count ℕ is_seven first_pool.submitted ≡ count ℕ is_seven first_pool.done)
    ⊎ CanMove ℕ selection first_pool
run-progress_example =
    run-progress ℕ selection (selection-IsHeapPackage ℕ) 2 0 first_actions is_seven
