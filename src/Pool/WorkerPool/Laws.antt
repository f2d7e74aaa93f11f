-- ===== src/Pool/WorkerPool/Laws.antt =====
-- pkg/worker_pool/worker_pool.go: where the tasks of a pool are, at any point of a run.
use distributed_workflow_orc.Prelude.{
  ℕ, ◌+◌, ◌≤◌, ◌≡◌, refl, ap, Bool, true, none, some, List, [], ◌∷◌, arith, length,
}
use mathlib.Core.Option.{none-ne-some}
use distributed_workflow_orc.Pool.WorkerPool.{
  or_default, WorkerPool, act_submit, act_receive, act_count_in, act_finish, act_count_out,
  act_fetch, act_send, act_take_due, act_pass_on, act_look, new_worker_pool, act, run, or_same,
  Action, stop_ready,
}
use distributed_workflow_orc.Pool.LinkedQueue.{Holds, new_linked_queue-Holds, size-Holds}
use distributed_workflow_orc.Pool.PriorityQueue.{PoolJob, HeapPackage}
use distributed_workflow_orc.Pool.PriorityQueue.Timed
use distributed_workflow_orc.Pool.PriorityQueue.Timed.{
  count_items, IsHeapPackage, due, mistimed, is_of, new_priority_queue, new_priority_queue-IsHeap,
  enqueue-IsHeap, count-enqueue, dequeue-some,
}
use distributed_workflow_orc.Pool.WorkerPool.Counts.{
  count, count_jobs, count_held, count_moving, count_jobs-empty, count_items-empty, kept,
}
use distributed_workflow_orc.Pool.WorkerPool.Valid.{
  IsSound, try_submit-IsValid, receive-IsSound, count_in-IsSound, count_out-IsSound, fetch-IsSound,
  send-IsSound, pass_on-IsSound,
}
use distributed_workflow_orc.Pool.WorkerPool.Retries.{
  finish-IsSound, look-IsSound, take_due-IsSound,
}

module _ (V : Type 0) (heap : HeapPackage) where
  module _ (laws : IsHeapPackage V heap) (crew_size capacity : ℕ) where
    pub act-IsSound :
        (a : Action V heap) (p : WorkerPool V heap)
        → IsSound V heap laws crew_size capacity p
        → IsSound V heap laws crew_size capacity (or_same V heap p (act V heap a p))
    unfolding act
    act-IsSound (act_submit task) p (xs, h) =
        (xs, try_submit-IsValid V heap laws crew_size capacity task xs p h)
    act-IsSound act_receive p s = receive-IsSound V heap laws crew_size capacity p s
    act-IsSound (act_count_in n) p s = count_in-IsSound V heap laws crew_size capacity n p s
    act-IsSound (act_finish n succeeded now wait) p s =
        finish-IsSound V heap laws crew_size capacity n succeeded now wait p s
    act-IsSound act_count_out p s = count_out-IsSound V heap laws crew_size capacity p s
    act-IsSound act_fetch p s = fetch-IsSound V heap laws crew_size capacity p s
    act-IsSound act_send p s = send-IsSound V heap laws crew_size capacity p s
    act-IsSound (act_look now) p s = look-IsSound V heap laws crew_size capacity now p s
    act-IsSound act_take_due p s = take_due-IsSound V heap laws crew_size capacity p s
    act-IsSound act_pass_on p s = pass_on-IsSound V heap laws crew_size capacity p s

    pub run-IsSound :
        (actions : List (Action V heap)) (p : WorkerPool V heap)
        → IsSound V heap laws crew_size capacity p
        → IsSound V heap laws crew_size capacity (run V heap actions p)
    unfolding run
    run-IsSound [] p s = s
    run-IsSound (a ∷ actions) p s =
        run-IsSound actions (or_same V heap p (act V heap a p)) (act-IsSound a p s)

  pub nothing_kept :
      (p : WorkerPool V heap) (xs : List (PoolJob V)) (test : V → Bool)
      → Holds (PoolJob V) p.jobs_q xs
      → p.busy_count ≡ length p.working + p.leaving
      → count V test p.submitted ≡ count V test p.done + kept V heap test xs p
      → stop_ready V heap p ≡ true
      → p.in_hand ≡ none
      → p.moving ≡ none
      → p.received ≡ []
      → count V test p.submitted ≡ count V test p.done
  unfolding kept stop_ready Timed.size
  nothing_kept p xs test held busy conserved ready in_hand moving received =
      let size = size-Holds (PoolJob V) p.jobs_q xs held in
      let queue_empty : p.jobs_q.size ≡ 0 = ground arith in
      let retries_empty : length p.retry_q.items ≡ 0 = ground arith in
      let channel_empty : length p.job_chan ≡ 0 = ground arith in
      let none_busy : p.busy_count ≡ 0 = ground arith in
      omega (
        arith,
        conserved,
        count_jobs-empty V test p.job_chan channel_empty,
        count_jobs-empty V test xs (omega (arith, size, queue_empty)),
        count_items-empty V (is_of V test) p.retry_q.items retries_empty,
        count_jobs-empty V test p.working (omega (arith, busy, none_busy)),
        ap (count_jobs V test) received,
        ap (count_held V test) in_hand,
        ap (count_moving V test) moving,
      )

  module _ (laws : IsHeapPackage V heap) where
    pub new_worker_pool-IsSound :
        (worker_count capacity : ℕ)
        → IsSound V heap laws
            (or_default V heap worker_count 5)
            (or_default V heap capacity 128)
            (new_worker_pool V heap worker_count capacity)
    unfolding new_worker_pool kept
    new_worker_pool-IsSound worker_count capacity = (
      [],
      record {
        held = new_linked_queue-Holds (PoolJob V);
        heaped = laws.empty-IsHeap;
        conserved = λ test. refl;
        busy = refl;
        crew = omega arith;
        sized = (refl, refl);
        room = omega arith;
        timed = refl;
        seen = λ now e. absurd (none-ne-some now e);
        moved = λ job now e. absurd (none-ne-some (job, now) e);
      },
    )

    pub run-new_IsSound :
        (worker_count capacity : ℕ) (actions : List (Action V heap))
        → IsSound V heap laws
            (or_default V heap worker_count 5)
            (or_default V heap capacity 128)
            (run V heap actions (new_worker_pool V heap worker_count capacity))
    run-new_IsSound worker_count capacity actions =
        run-IsSound laws (or_default V heap worker_count 5) (or_default V heap capacity 128) actions
          (new_worker_pool V heap worker_count capacity)
          (new_worker_pool-IsSound worker_count capacity)

    -- At any point of a run of a new pool, a task that was submitted has run without an error, or is in
    -- exactly one place: the channel, the queue, the retries, a worker's hand or a loop's; counted for
    -- the tasks that pass a test, and with the list that the queue holds.
    pub run-conserves :
        (worker_count capacity : ℕ) (actions : List (Action V heap)) (test : V → Bool)
        → (xs : List (PoolJob V)) × Holds
            (PoolJob V)
            (run V heap actions (new_worker_pool V heap worker_count capacity)).jobs_q
            xs
          × (count V test
                (run V heap actions (new_worker_pool V heap worker_count capacity)).submitted
              ≡ count V test
                  (run V heap actions (new_worker_pool V heap worker_count capacity)).done
                + kept V heap test xs
                    (run V heap actions (new_worker_pool V heap worker_count capacity)))
    run-conserves worker_count capacity actions test =
        let (xs, h) = run-new_IsSound worker_count capacity actions in
        (xs, h.held, h.conserved test)

    -- At any point of a run of a new pool, `BusyCount` is the number of the workers that have counted
    -- themselves in and not out, at most as many as there are, and the channel holds at most its
    -- capacity; a count or a capacity of 0 stands for 5 and for 128.
    pub run-bounds :
        (worker_count capacity : ℕ) (actions : List (Action V heap))
        → ((run V heap actions (new_worker_pool V heap worker_count capacity)).busy_count
            ≡ length (run V heap actions (new_worker_pool V heap worker_count capacity)).working
              + (run V heap actions (new_worker_pool V heap worker_count capacity)).leaving)
          × ((run V heap actions (new_worker_pool V heap worker_count capacity)).busy_count
              ≤ or_default V heap worker_count 5)
          × (length (run V heap actions (new_worker_pool V heap worker_count capacity)).job_chan
              ≤ or_default V heap capacity 128)
    run-bounds worker_count capacity actions =
        let (xs, h) = run-new_IsSound worker_count capacity actions in
        (h.busy, omega (arith, h.busy, h.crew, h.sized.0), omega (arith, h.room, h.sized.1))

    -- At any point of a run of a new pool, a job that the loop over the retries has taken is one whose
    -- time had come when the loop looked, whatever was put among the retries since.
    pub run-not_early :
        (worker_count capacity : ℕ) (actions : List (Action V heap)) (job : PoolJob V) (now : ℕ)
        → (run V heap actions (new_worker_pool V heap worker_count capacity)).moving
          ≡ some (job, now)
        → job.wait_to_time ≤ now
    run-not_early worker_count capacity actions job now e =
        let (xs, h) = run-new_IsSound worker_count capacity actions in h.moved job now e

    -- If `Stop` may go on at some point of a run of a new pool, and no loop holds a job and no worker
    -- one that it has not counted, then all tasks that were submitted have run without an error.
    pub stop_ready-all_done :
        (worker_count capacity : ℕ) (actions : List (Action V heap)) (test : V → Bool)
        → stop_ready V heap (run V heap actions (new_worker_pool V heap worker_count capacity))
          ≡ true
        → (run V heap actions (new_worker_pool V heap worker_count capacity)).in_hand ≡ none
        → (run V heap actions (new_worker_pool V heap worker_count capacity)).moving ≡ none
        → (run V heap actions (new_worker_pool V heap worker_count capacity)).received ≡ []
        → count V test (run V heap actions (new_worker_pool V heap worker_count capacity)).submitted
          ≡ count V test (run V heap actions (new_worker_pool V heap worker_count capacity)).done
    stop_ready-all_done worker_count capacity actions test ready in_hand moving received =
        let (xs, h) = run-new_IsSound worker_count capacity actions in
        nothing_kept (run V heap actions (new_worker_pool V heap worker_count capacity)) xs test
          h.held h.busy (h.conserved test) ready in_hand moving received
