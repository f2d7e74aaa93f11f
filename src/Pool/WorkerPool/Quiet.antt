-- ===== src/Pool/WorkerPool/Quiet.antt =====
-- pkg/worker_pool/worker_pool.go: the actions that take in no task and end none.
use distributed_workflow_orc.Prelude.{ℕ, ◌≡◌, arith}
use distributed_workflow_orc.Pool.PriorityQueue.{HeapPackage}
use distributed_workflow_orc.Pool.WorkerPool.{
  WorkerPool, or_same, receive, count_in, count_out, fetch, send, look, take_due, pass_on,
}

module _ (V : Type 0) (heap : HeapPackage) where
  -- The same tasks taken in, and the same ended.
  abbrev pub Same : WorkerPool V heap → WorkerPool V heap → Type 0
  Same p p' = (p'.submitted ≡ p.submitted) × (p'.done ≡ p.done)

  pub receive-Same : (p : WorkerPool V heap) → Same p (or_same V heap p (receive V heap p))
  unfolding receive
  receive-Same p = (ground arith, ground arith)

  pub count_in-Same :
      (i : ℕ) (p : WorkerPool V heap) → Same p (or_same V heap p (count_in V heap i p))
  unfolding count_in
  count_in-Same i p = (ground arith, ground arith)

  pub count_out-Same : (p : WorkerPool V heap) → Same p (or_same V heap p (count_out V heap p))
  unfolding count_out
  count_out-Same p = (ground arith, ground arith)

  pub fetch-Same : (p : WorkerPool V heap) → Same p (or_same V heap p (fetch V heap p))
  unfolding fetch
  fetch-Same p = (ground arith, ground arith)

  pub send-Same : (p : WorkerPool V heap) → Same p (or_same V heap p (send V heap p))
  unfolding send
  send-Same p = (ground arith, ground arith)

  pub look-Same : (now : ℕ) (p : WorkerPool V heap) → Same p (or_same V heap p (look V heap now p))
  unfolding look
  look-Same now p = (ground arith, ground arith)

  pub take_due-Same : (p : WorkerPool V heap) → Same p (or_same V heap p (take_due V heap p))
  unfolding take_due
  take_due-Same p = (ground arith, ground arith)

  pub pass_on-Same : (p : WorkerPool V heap) → Same p (or_same V heap p (pass_on V heap p))
  unfolding pass_on
  pass_on-Same p = (ground arith, ground arith)
