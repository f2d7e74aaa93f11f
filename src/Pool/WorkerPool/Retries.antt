-- ===== src/Pool/WorkerPool/Retries.antt =====
-- pkg/worker_pool/worker_pool.go: the end of a task and the loop over the retries.
use distributed_workflow_orc.Prelude.{
  is_some, ◌⊎◌, ℕ, ◌+◌, ◌<◌, ◌≤◌, ◌≡◌, ap, subst, Bool, true, Option, none, some, some-injective,
  [], ◌∷◌, arith, leb, if◌then◌else◌, Option-cases, Bool-cases, List-cases, inl, inr,
}
use mathlib.Core.Option.{none-ne-some}
use distributed_workflow_orc.Pool.WorkerPool.{
  pos, WorkerPool, take_out, finish, look, take_due, or_same, move_to_retry,
}
use distributed_workflow_orc.Pool.PriorityQueue.{ItemPq, PoolJob, HeapPackage}
use distributed_workflow_orc.Pool.PriorityQueue.Timed
use distributed_workflow_orc.Pool.PriorityQueue.Timed.{
  count_items, IsHeapPackage, due, mistimed, is_of, new_priority_queue, new_priority_queue-IsHeap,
  enqueue-IsHeap, count-enqueue, dequeue-some,
}
use distributed_workflow_orc.Pool.WorkerPool.Counts.{
  count_moving, count-append, count_jobs-take_out, length-take_out, kept,
}
use distributed_workflow_orc.Pool.WorkerPool.Valid.{IsSound, same-IsSound}

module _ (V : Type 0) (heap : HeapPackage) where
  module _ (laws : IsHeapPackage V heap) (crew_size capacity : ℕ) where
    pub finish-IsSound :
        (n : ℕ) (succeeded : Bool) (now wait : ℕ) (p : WorkerPool V heap)
        → IsSound V heap laws crew_size capacity p
        → IsSound V heap laws crew_size capacity
            (or_same V heap p (finish V heap n succeeded now wait p))
    unfolding finish kept move_to_retry
    finish-IsSound n succeeded now wait p (xs, h) =
        elim (Option-cases (take_out V heap n p.working)) [
          | inl e ↦
              same-IsSound V heap laws crew_size capacity p (finish V heap n succeeded now wait p)
                (ground arith) (xs, h)
          | inr ((j, rest), e) ↦
              let fewer = length-take_out V heap n p.working j rest e in
              elim (Bool-cases succeeded) [
                | inl ok ↦
                    rw (e, finish)
                      (rw ok (
                        xs,
                        record {
                          conserved = λ test. omega (
                            arith,
                            h.conserved test,
                            count_jobs-take_out V heap test n p.working j rest e,
                            count-append V test p.done (j.task ∷ []),
                          );
                          busy = omega (arith, h.busy, fewer);
                          crew = omega (arith, h.crew, fewer);
                          held = h.held;
                          heaped = h.heaped;
                          sized = h.sized;
                          room = h.room;
                          timed = h.timed;
                          seen = h.seen;
                          moved = h.moved;
                        },
                      ))
                | inr failed ↦
                    let later : PoolJob V = record j { wait_to_time = now + wait } in
                    let item : ItemPq V = record {
                      value = later;
                      index = pos 0;
                      wait_to_time = now + wait;
                    } in
                    let more = λ (test : PoolJob V → ℕ → Bool).
                      count-enqueue V heap laws test item p.retry_q in
                    rw (e, finish)
                      (rw failed (
                        xs,
                        record {
                          heaped = enqueue-IsHeap V heap laws item p.retry_q h.heaped;
                          conserved = λ test. omega (
                            arith,
                            h.conserved test,
                            count_jobs-take_out V heap test n p.working j rest e,
                            more (is_of V test),
                          );
                          busy = omega (arith, h.busy, fewer);
                          crew = omega (arith, h.crew, fewer);
                          timed = ground (arith, more (mistimed V), h.timed);
                          seen = λ at looked. omega (arith, more (due V at), h.seen at looked);
                          held = h.held;
                          sized = h.sized;
                          room = h.room;
                          moved = h.moved;
                        },
                      ))
              ]
        ]

    -- The root is one of the items.
    top-due :
        (now : ℕ) (p : WorkerPool V heap) (item : ItemPq V)
        → Timed.top V heap p.retry_q ≡ some item
        → leb item.wait_to_time now ≡ true
        → 0 < count_items V (due V now) p.retry_q.items
    unfolding Timed.top
    top-due now p item e le = elim (List-cases p.retry_q.items) [
      | inl empty ↦ absurd (none-ne-some item (rw (empty, Timed.top) at e))
      | inr (x, xs, full) ↦
          let same : some x ≡ some item = rw (full, Timed.top) at e in
          let at_root = some-injective x item same in rw full (ground (arith, at_root))
    ]

    look-cases :
        (now : ℕ) (p : WorkerPool V heap)
        → (look V heap now p ≡ none)
          ⊎ ((0 < count_items V (due V now) p.retry_q.items)
              × (look V heap now p ≡ some (record p { seen_due = some now })))
    unfolding look
    look-cases now p = elim (Option-cases (Timed.top V heap p.retry_q)) [
      | inl e ↦ inl (ground arith)
      | inr (item, e) ↦ elim (Bool-cases (leb item.wait_to_time now)) [
        | inr later ↦ inl (ground arith)
        | inl past ↦ elim (Option-cases p.moving) [
          | inr (held, busy) ↦ inl (ground arith)
          | inl free ↦ elim (Bool-cases (is_some p.seen_due)) [
            | inl seen ↦ inl (ground arith)
            | inr new ↦ inr (top-due now p item e past, ground arith)
          ]
        ]
      ]
    ]

    pub look-IsSound :
        (now : ℕ) (p : WorkerPool V heap)
        → IsSound V heap laws crew_size capacity p
        → IsSound V heap laws crew_size capacity (or_same V heap p (look V heap now p))
    unfolding kept
    look-IsSound now p (xs, h) = elim (look-cases now p) [
      | inl e ↦ same-IsSound V heap laws crew_size capacity p (look V heap now p) e (xs, h)
      | inr (found, e) ↦ rw e (
        xs,
        record {
          seen = λ at looked.
              subst (λ t. 0 < count_items V (due V t) p.retry_q.items)
                (some-injective now at looked) found;
          held = h.held;
          heaped = h.heaped;
          conserved = h.conserved;
          busy = h.busy;
          crew = h.crew;
          sized = h.sized;
          room = h.room;
          timed = h.timed;
          moved = h.moved;
        },
      )
    ]

    take_due-none :
        (p : WorkerPool V heap) (now : ℕ)
        → p.seen_due ≡ some now
        → p.moving ≡ none
        → (Timed.dequeue V heap p.retry_q).0 ≡ none
        → take_due V heap p ≡ some (record p { seen_due = none })
    unfolding take_due
    take_due-none p now looked free answer = ground arith

    take_due-some :
        (p : WorkerPool V heap) (now : ℕ) (j : PoolJob V)
        → p.seen_due ≡ some now
        → p.moving ≡ none
        → (Timed.dequeue V heap p.retry_q).0 ≡ some j
        → take_due V heap p
          ≡ some (record p {
            retry_q = (Timed.dequeue V heap p.retry_q).1;
            seen_due = none;
            moving = some (j, now);
          })
    unfolding take_due
    take_due-some p now j looked free answer = ground arith

    -- An item that bears the time of its job.
    moved_past :
        (x : ItemPq V) (j job : PoolJob V) (now at : ℕ)
        → x.value ≡ j
        → ◌≡◌ {A = ℕ} (if mistimed V x.value x.wait_to_time then 1 else 0) 0
        → x.wait_to_time ≤ now
        → (◌≡◌ {A = Option (PoolJob V × ℕ)} (some (j, now)) (some (job, at)))
        → job.wait_to_time ≤ at
    moved_past x j job now at value timed past e = ground arith

    pub take_due-IsSound :
        (p : WorkerPool V heap)
        → IsSound V heap laws crew_size capacity p
        → IsSound V heap laws crew_size capacity (or_same V heap p (take_due V heap p))
    unfolding take_due kept
    take_due-IsSound p (xs, h) = elim (Option-cases p.seen_due) [
      | inl e ↦
          same-IsSound V heap laws crew_size capacity p (take_due V heap p) (ground arith) (xs, h)
      | inr (now, looked) ↦ elim (Option-cases p.moving) [
        | inr (held, e) ↦
            same-IsSound V heap laws crew_size capacity p (take_due V heap p) (ground arith) (xs, h)
        | inl free ↦ elim (Option-cases (Timed.dequeue V heap p.retry_q).0) [
          | inl answer ↦ rw (take_due-none p now looked free answer) (
            xs,
            record {
              seen = λ at e. absurd (none-ne-some at e);
              held = h.held;
              heaped = h.heaped;
              conserved = h.conserved;
              busy = h.busy;
              crew = h.crew;
              sized = h.sized;
              room = h.room;
              timed = h.timed;
              moved = h.moved;
            },
          )
          | inr (j, answer) ↦
              let (x, value, heaped, counts, least) =
                dequeue-some V heap laws p.retry_q j h.heaped answer in
              let past = least now (h.seen now looked) in
              rw (take_due-some p now j looked free answer) (
                xs,
                record {
                  heaped = heaped;
                  conserved = λ test. omega (
                    arith,
                    h.conserved test,
                    ap (count_moving V test) free,
                    counts (is_of V test),
                    ap {B = ℕ} (λ (v : PoolJob V). if test v.task then 1 else 0) value,
                  );
                  timed = omega (arith, counts (mistimed V), h.timed);
                  seen = λ at e. absurd (none-ne-some at e);
                  moved = λ job at e.
                      moved_past x j job now at value (omega (arith, counts (mistimed V), h.timed))
                        past e;
                  held = h.held;
                  busy = h.busy;
                  crew = h.crew;
                  sized = h.sized;
                  room = h.room;
                },
              )
        ]
      ]
    ]
