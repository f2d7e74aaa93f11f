-- ===== src/Pool/WorkerPool/Progress.antt =====
-- pkg/worker_pool/worker_pool.go: a pool with work left always has something to do.
use distributed_workflow_orc.Prelude.{
  is_some, ◌⊎◌, ℕ, ◌<◌, ◌≡◌, refl, ap, subst, Bool, true, false, none, some, List, [], ◌∷◌, arith,
  eqb, ltb, length, Option-cases, is_some, Bool-cases, List-cases, inl, inr,
}
use distributed_workflow_orc.Pool.WorkerPool.{
  or_default, WorkerPool, act_submit, act_receive, act_count_in, act_finish, act_count_out,
  act_fetch, act_send, act_take_due, act_pass_on, act_look, take_out, new_worker_pool, receive,
  count_in, finish, count_out, fetch, send, look, take_due, pass_on, act, run, Action,
}
use distributed_workflow_orc.Pool.LinkedQueue.{dequeue-Holds}
use distributed_workflow_orc.Pool.PriorityQueue.{ItemPq, PoolJob, HeapPackage}
use distributed_workflow_orc.Pool.PriorityQueue.Timed
use distributed_workflow_orc.Pool.PriorityQueue.Timed.{
  count_items, IsHeapPackage, due, mistimed, is_of, new_priority_queue, new_priority_queue-IsHeap,
  enqueue-IsHeap, count-enqueue, dequeue-some,
}
use distributed_workflow_orc.Pool.WorkerPool.Counts.{
  count, count_jobs, count_held, count_moving, kept,
}
use distributed_workflow_orc.Pool.WorkerPool.Valid.{IsValid, fetch-some}
use distributed_workflow_orc.Pool.WorkerPool.Laws.{run-new_IsSound}

module _ (V : Type 0) (heap : HeapPackage) where
  abbrev pub is_submit : Action V heap → Bool
  is_submit (act_submit task) = true
  is_submit _ = false

  -- Something other than a submission can happen.
  abbrev pub CanMove : WorkerPool V heap → Type 0
  CanMove p = (a : Action V heap) × (is_submit a ≡ false) × (is_some (act V heap a p) ≡ true)

  take_first :
      (js : List (PoolJob V)) (j : PoolJob V) (rest : List (PoolJob V))
      → js ≡ j ∷ rest
      → take_out V heap 0 js ≡ some (j, rest)
  take_first js j rest e = rw e refl

  move_leaving : (p : WorkerPool V heap) → eqb p.leaving 0 ≡ false → CanMove p
  unfolding act count_out
  move_leaving p e = (act_count_out, refl, ground arith)

  move_working :
      (p : WorkerPool V heap) (j : PoolJob V) (rest : List (PoolJob V))
      → p.working ≡ j ∷ rest
      → CanMove p
  unfolding act finish
  move_working p j rest e =
      let first = take_first p.working j rest e in (act_finish 0 true 0 0, refl, ground arith)

  move_received :
      (p : WorkerPool V heap) (j : PoolJob V) (rest : List (PoolJob V))
      → p.received ≡ j ∷ rest
      → CanMove p
  unfolding act count_in
  move_received p j rest e =
      let first = take_first p.received j rest e in (act_count_in 0, refl, ground arith)

  move_channel :
      (p : WorkerPool V heap) (j : PoolJob V) (rest : List (PoolJob V))
      → p.job_chan ≡ j ∷ rest
      → eqb p.idle 0 ≡ false
      → CanMove p
  unfolding act receive
  move_channel p j rest e free = (act_receive, refl, ground arith)

  move_in_hand :
      (p : WorkerPool V heap) (j : PoolJob V)
      → p.in_hand ≡ some j
      → ltb (length p.job_chan) p.capacity ≡ true
      → CanMove p
  unfolding act send
  move_in_hand p j e room = (act_send, refl, ground arith)

  move_moving : (p : WorkerPool V heap) (m : PoolJob V × ℕ) → p.moving ≡ some m → CanMove p
  unfolding act pass_on
  move_moving p (j, now) e = (act_pass_on, refl, ground arith)

  -- With an item among the retries, the loop over them can look, or take one.
  move_retries :
      (p : WorkerPool V heap) (x : ItemPq V) (xs : List (ItemPq V))
      → p.retry_q.items ≡ x ∷ xs
      → p.moving ≡ none
      → CanMove p
  unfolding act look take_due Timed.top
  move_retries p x xs e free = elim (Option-cases p.seen_due) [
    | inr (now, looked) ↦ (act_take_due, refl, ground arith)
    | inl new ↦
        let root : Timed.top V heap p.retry_q ≡ some x = rw (e, Timed.top) refl in
        (act_look x.wait_to_time, refl, ground arith)
  ]

  module _ (laws : IsHeapPackage V heap) (crew_size capacity : ℕ) where
    move_queue :
        (p : WorkerPool V heap) (x : PoolJob V) (xs : List (PoolJob V))
        → IsValid V heap laws crew_size capacity (x ∷ xs) p
        → p.in_hand ≡ none
        → CanMove p
    unfolding act fetch
    move_queue p x xs h free =
        let (first, rest) = dequeue-Holds (PoolJob V) p.jobs_q x xs h.held in
        (act_fetch, refl, rw (fetch-some V heap laws crew_size capacity p x free first) refl)

    nothing_left :
        (p : WorkerPool V heap) (test : V → Bool)
        → IsValid V heap laws crew_size capacity [] p
        → p.job_chan ≡ []
        → p.retry_q.items ≡ []
        → p.received ≡ []
        → p.working ≡ []
        → p.in_hand ≡ none
        → p.moving ≡ none
        → count V test p.submitted ≡ count V test p.done
    unfolding kept
    nothing_left p test h chan items received working in_hand moving = omega (
      arith,
      h.conserved test,
      ap (count_jobs V test) chan,
      ap (count_items V (is_of V test)) items,
      ap (count_jobs V test) received,
      ap (count_jobs V test) working,
      ap (count_held V test) in_hand,
      ap (count_moving V test) moving,
    )

    -- The loops and the queues, once the workers are idle and the channel is empty.
    loops_move :
        (p : WorkerPool V heap) (xs : List (PoolJob V)) (test : V → Bool)
        → IsValid V heap laws crew_size capacity xs p
        → 0 < capacity
        → p.job_chan ≡ []
        → p.received ≡ []
        → p.working ≡ []
        → (count V test p.submitted ≡ count V test p.done) ⊎ CanMove p
    loops_move p xs test h room chan received working = elim (Option-cases p.in_hand) [
      | inr (j, e) ↦ inr (move_in_hand p j e (ground (arith, h.sized.1, ap length chan)))
      | inl no_hand ↦ elim (Option-cases p.moving) [
        | inr (m, e) ↦ inr (move_moving p m e)
        | inl no_move ↦ elim (List-cases p.retry_q.items) [
          | inr (x, items, e) ↦ inr (move_retries p x items e no_move)
          | inl no_items ↦ elim (List-cases xs) [
            | inr (x, rest, e) ↦ inr (
                move_queue p x rest (subst (λ ys. IsValid V heap laws crew_size capacity ys p) e h)
                  no_hand)
            | inl e ↦ inl (
                nothing_left p test (subst (λ ys. IsValid V heap laws crew_size capacity ys p) e h)
                  chan no_items received working no_hand no_move)
          ]
        ]
      ]
    ]

    moves :
        (p : WorkerPool V heap) (xs : List (PoolJob V)) (test : V → Bool)
        → IsValid V heap laws crew_size capacity xs p
        → 0 < crew_size
        → 0 < capacity
        → (count V test p.submitted ≡ count V test p.done) ⊎ CanMove p
    moves p xs test h crew room = elim (Bool-cases (eqb p.leaving 0)) [
      | inr e ↦ inr (move_leaving p e)
      | inl none_leave ↦ elim (List-cases p.working) [
        | inr (j, rest, e) ↦ inr (move_working p j rest e)
        | inl none_work ↦ elim (List-cases p.received) [
          | inr (j, rest, e) ↦ inr (move_received p j rest e)
          | inl none_received ↦ elim (List-cases p.job_chan) [
            | inl chan ↦ loops_move p xs test h room chan none_received none_work
            | inr (j, rest, e) ↦ inr (
                move_channel p j rest e (
                  ground (
                    arith,
                    h.crew,
                    h.sized.0,
                    none_leave,
                    ap length none_work,
                    ap length none_received,
                  )))
          ]
        ]
      ]
    ]

  -- A pool does not get stuck: at any point of a run of a new pool, all tasks that were submitted
  -- have run without an error, or something other than a submission can happen.
  pub run-progress :
      (laws : IsHeapPackage V heap) (worker_count capacity : ℕ) (actions : List (Action V heap))
      (test : V → Bool)
      → (count V test (run V heap actions (new_worker_pool V heap worker_count capacity)).submitted
          ≡ count V test (run V heap actions (new_worker_pool V heap worker_count capacity)).done)
        ⊎ CanMove (run V heap actions (new_worker_pool V heap worker_count capacity))
  run-progress laws worker_count capacity actions test =
      let (xs, h) = run-new_IsSound V heap laws worker_count capacity actions in
      moves laws (or_default V heap worker_count 5) (or_default V heap capacity 128)
        (run V heap actions (new_worker_pool V heap worker_count capacity)) xs test h (ground arith)
        (ground arith)
