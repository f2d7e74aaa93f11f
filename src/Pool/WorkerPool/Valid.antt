-- ===== src/Pool/WorkerPool/Valid.antt =====
-- pkg/worker_pool/worker_pool.go: the channel, the workers and the loop over the jobs.
use distributed_workflow_orc.Prelude.{
  ℕ, ◌+◌, ◌<◌, ◌≤◌, ◌≡◌, ap, Bool, Option, none, some, length-append, List, [], ◌∷◌, ◌++◌, arith,
  eqb, ltb, length, Option-cases, Bool-cases, List-cases, inl, inr,
}
use mathlib.Core.Option.{none-ne-some}
use distributed_workflow_orc.Pool.WorkerPool.{
  WorkerPool, take_out, try_submit, receive, count_in, count_out, fetch, send, pass_on, or_same,
}
use distributed_workflow_orc.Pool.LinkedQueue
use distributed_workflow_orc.Pool.LinkedQueue.{
  Holds, new_linked_queue-Holds, queue-Holds, dequeue-Holds, dequeue-empty, size-Holds,
}
use distributed_workflow_orc.Pool.PriorityQueue.{PoolJob, HeapPackage}
use distributed_workflow_orc.Pool.PriorityQueue.Timed.{count_items, IsHeapPackage, due, mistimed}
use distributed_workflow_orc.Pool.WorkerPool.Counts.{
  count, count_jobs, count_held, count_moving, count-append, count_jobs-append, count_jobs-take_out,
  length-take_out, kept,
}

module _ (V : Type 0) (heap : HeapPackage) where
  -- A pool that has been made with these sizes.
  module _ (laws : IsHeapPackage V heap) (crew_size capacity : ℕ) where
    pub record IsValid (xs : List (PoolJob V)) (p : WorkerPool V heap) : Type 0 where
      pub held : Holds (PoolJob V) p.jobs_q xs
      pub heaped : laws.IsHeap p.retry_q
      pub conserved :
          (test : V → Bool) → count V test p.submitted ≡ count V test p.done + kept V heap test xs p
      pub busy : p.busy_count ≡ length p.working + p.leaving
      pub crew : p.idle + length p.received + length p.working + p.leaving ≡ p.worker_count
      pub sized : (p.worker_count ≡ crew_size) × (p.capacity ≡ capacity)
      pub room : length p.job_chan ≤ p.capacity
      pub timed : count_items V (mistimed V) p.retry_q.items ≡ 0
      pub seen : (now : ℕ) → p.seen_due ≡ some now → 0 < count_items V (due V now) p.retry_q.items
      pub moved : (job : PoolJob V) (now : ℕ) → p.moving ≡ some (job, now) → job.wait_to_time ≤ now

    pub try_submit-IsValid :
        (task : V) (xs : List (PoolJob V)) (p : WorkerPool V heap)
        → IsValid xs p
        → IsValid xs (try_submit V heap task p).1
    unfolding try_submit kept
    try_submit-IsValid task xs p h = elim (Bool-cases (ltb (length p.job_chan) p.capacity)) [
      | inr e ↦ rw e h
      | inl e ↦ rw e (record {
        conserved = λ test. omega (
          arith,
          h.conserved test,
          count-append V test p.submitted (task ∷ []),
          count_jobs-append V test p.job_chan (record { task = task; wait_to_time = 0 } ∷ []),
        );
        sized = h.sized;
        room =
            ground
              (arith, length-append p.job_chan (record { task = task; wait_to_time = 0 } ∷ []));
        held = h.held;
        heaped = h.heaped;
        busy = h.busy;
        crew = h.crew;
        timed = h.timed;
        seen = h.seen;
        moved = h.moved;
      })
    ]

    -- The pool is valid, with some list in its queue.
    abbrev pub IsSound : WorkerPool V heap → Type 0
    IsSound p = (xs : List (PoolJob V)) × IsValid xs p

    pub same-IsSound :
        (p : WorkerPool V heap) (after : Option (WorkerPool V heap))
        → after ≡ none
        → IsSound p
        → IsSound (or_same V heap p after)
    same-IsSound p after e s = rw e s

    pub receive-IsSound :
        (p : WorkerPool V heap) → IsSound p → IsSound (or_same V heap p (receive V heap p))
    unfolding receive kept
    receive-IsSound p (xs, h) = elim (List-cases p.job_chan) [
      | inl e ↦ same-IsSound p (receive V heap p) (ground arith) (xs, h)
      | inr (j, js, e) ↦ elim (Bool-cases (eqb p.idle 0)) [
        | inr some_idle ↦
            rw (e, receive)
              (rw some_idle (
                xs,
                record {
                  conserved = λ test. omega (
                    arith,
                    h.conserved test,
                    ap (count_jobs V test) e,
                    count_jobs-append V test p.received (j ∷ []),
                  );
                  crew = ground (arith, h.crew, length-append p.received (j ∷ []));
                  sized = h.sized;
                  room = ground (arith, h.room, ap length e);
                  held = h.held;
                  heaped = h.heaped;
                  busy = h.busy;
                  timed = h.timed;
                  seen = h.seen;
                  moved = h.moved;
                },
              ))
        | inl none_idle ↦ same-IsSound p (receive V heap p) (ground arith) (xs, h)
      ]
    ]

    pub count_in-IsSound :
        (n : ℕ) (p : WorkerPool V heap)
        → IsSound p
        → IsSound (or_same V heap p (count_in V heap n p))
    unfolding count_in kept
    count_in-IsSound n p (xs, h) = elim (Option-cases (take_out V heap n p.received)) [
      | inl e ↦ same-IsSound p (count_in V heap n p) (ground arith) (xs, h)
      | inr ((j, rest), e) ↦
          let fewer = length-take_out V heap n p.received j rest e in
          let more = length-append p.working (j ∷ []) in
          rw (e, count_in)
            (
              xs,
              record {
                conserved = λ test. omega (
                  arith,
                  h.conserved test,
                  count_jobs-take_out V heap test n p.received j rest e,
                  count_jobs-append V test p.working (j ∷ []),
                );
                busy = omega (arith, h.busy, more);
                crew = omega (arith, h.crew, fewer, more);
                held = h.held;
                heaped = h.heaped;
                sized = h.sized;
                room = h.room;
                timed = h.timed;
                seen = h.seen;
                moved = h.moved;
              },
            )
    ]

    pub count_out-IsSound :
        (p : WorkerPool V heap) → IsSound p → IsSound (or_same V heap p (count_out V heap p))
    unfolding count_out kept
    count_out-IsSound p (xs, h) = elim (Bool-cases (eqb p.leaving 0)) [
      | inr e ↦ rw e (
        xs,
        record {
          conserved = h.conserved;
          busy = ground (arith, h.busy);
          crew = ground (arith, h.crew);
          held = h.held;
          heaped = h.heaped;
          sized = h.sized;
          room = h.room;
          timed = h.timed;
          seen = h.seen;
          moved = h.moved;
        },
      )
      | inl e ↦ same-IsSound p (count_out V heap p) (ground arith) (xs, h)
    ]

    pub fetch-some :
        (p : WorkerPool V heap) (x : PoolJob V)
        → p.in_hand ≡ none
        → (LinkedQueue.dequeue (PoolJob V) p.jobs_q).0 ≡ some x
        → fetch V heap p
          ≡ some
              (record p { jobs_q = (LinkedQueue.dequeue (PoolJob V) p.jobs_q).1; in_hand = some x })
    unfolding fetch
    fetch-some p x free first = ground arith

    pub fetch-IsSound :
        (p : WorkerPool V heap) → IsSound p → IsSound (or_same V heap p (fetch V heap p))
    unfolding fetch kept
    fetch-IsSound p ([], h) = elim (Option-cases p.in_hand) [
      | inl e ↦
          same-IsSound p (fetch V heap p)
            (ground (arith, dequeue-empty (PoolJob V) p.jobs_q h.held)) ([], h)
      | inr (j, e) ↦ same-IsSound p (fetch V heap p) (ground arith) ([], h)
    ]
    fetch-IsSound p (x ∷ xs, h) = elim (Option-cases p.in_hand) [
      | inl e ↦
          let (first, rest) = dequeue-Holds (PoolJob V) p.jobs_q x xs h.held in
          rw (fetch-some p x e first) (
            xs,
            record {
              held = rest;
              conserved = λ test. omega (arith, h.conserved test, ap (count_held V test) e);
              heaped = h.heaped;
              busy = h.busy;
              crew = h.crew;
              sized = h.sized;
              room = h.room;
              timed = h.timed;
              seen = h.seen;
              moved = h.moved;
            },
          )
      | inr (j, e) ↦ same-IsSound p (fetch V heap p) (ground arith) (x ∷ xs, h)
    ]

    pub send-IsSound :
        (p : WorkerPool V heap) → IsSound p → IsSound (or_same V heap p (send V heap p))
    unfolding send kept
    send-IsSound p (xs, h) = elim (Option-cases p.in_hand) [
      | inl e ↦ same-IsSound p (send V heap p) (ground arith) (xs, h)
      | inr (j, e) ↦ elim (Bool-cases (ltb (length p.job_chan) p.capacity)) [
        | inr full ↦ same-IsSound p (send V heap p) (ground arith) (xs, h)
        | inl free ↦
            rw (e, send)
              (rw free (
                xs,
                record {
                  conserved = λ test. omega (
                    arith,
                    h.conserved test,
                    ap (count_held V test) e,
                    count_jobs-append V test p.job_chan (j ∷ []),
                  );
                  sized = h.sized;
                  room = ground (arith, length-append p.job_chan (j ∷ []));
                  held = h.held;
                  heaped = h.heaped;
                  busy = h.busy;
                  crew = h.crew;
                  timed = h.timed;
                  seen = h.seen;
                  moved = h.moved;
                },
              ))
      ]
    ]

    pub pass_on-IsSound :
        (p : WorkerPool V heap) → IsSound p → IsSound (or_same V heap p (pass_on V heap p))
    unfolding pass_on kept
    pass_on-IsSound p (xs, h) = elim (Option-cases p.moving) [
      | inl e ↦ same-IsSound p (pass_on V heap p) (ground arith) (xs, h)
      | inr ((j, now), e) ↦
          rw (e, pass_on)
            (
              xs ++ j ∷ [],
              record {
                held = queue-Holds (PoolJob V) j p.jobs_q xs h.held;
                conserved = λ test. omega (
                  arith,
                  h.conserved test,
                  ap (count_moving V test) e,
                  count_jobs-append V test xs (j ∷ []),
                );
                moved = λ job now e. absurd (none-ne-some (job, now) e);
                heaped = h.heaped;
                busy = h.busy;
                crew = h.crew;
                sized = h.sized;
                room = h.room;
                timed = h.timed;
                seen = h.seen;
              },
            )
    ]
