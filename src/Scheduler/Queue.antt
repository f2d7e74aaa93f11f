-- ===== src/Scheduler/Queue.antt =====
-- infrastructure/control-plane/scheduler/queue.go, and the jobs that it holds.
use distributed_workflow_orc.Prelude.{
  ℕ, ◌+◌, ◌-◌, ◌≡◌, refl, sym, ap, ◌∙◌, Option, List, [], ◌∷◌, ◌++◌, String, arith, length, take,
  drop, if◌then◌else◌, ltb, take-append-drop, length-append, map,
}
use distributed_workflow_orc.Prelude.Int.{ℤ}

-- `protogen.DispatchRequest`.
pub record DispatchRequest : Type 0 where
  pub task_id : String
  pub workflow_id : String
  pub type : String
  pub payload : String
  pub timeout_seconds : ℤ

-- The task that the closure `OnDispatched` of the engine has captured.
pub record TaskRef : Type 0 where
  pub workflow_id : String
  pub task_id : String

pub record Job : Type 0 where
  pub id : String
  pub workflow_id : String
  pub request : DispatchRequest
  pub on_dispatched : Option TaskRef

pub record ReadyQueue : Type 0 where
  pub items : List Job

unfoldable pub new_ready_queue : ReadyQueue
new_ready_queue = record { items = [] }

unfoldable pub push : Job → ReadyQueue → ReadyQueue
push job q = record { items = q.items ++ job ∷ [] }

-- `q.PopBatch(n)`: the batch, and the queue without it.
unfoldable pub pop_batch : ℕ → ReadyQueue → List Job × ReadyQueue
pop_batch n q =
    let n' = if ltb (length q.items) n then length q.items else n in
    (take n' q.items, record { items = drop n' q.items })

-- An operation on the queue, by an engine or by a tick.
pub data QueueOp : Type 0 where
  op_push : Job → QueueOp
  op_pop : ℕ → QueueOp

-- The batches that a sequence of operations takes, in order, and the queue after it.
unfoldable pub operate_queue : List QueueOp → ReadyQueue → List (List Job) × ReadyQueue
operate_queue [] q = ([], q)
operate_queue (op_push job ∷ ops) q = operate_queue ops (push job q)
operate_queue (op_pop n ∷ ops) q =
    let (batch, left) = pop_batch n q in
    let (batches, last) = operate_queue ops left in (batch ∷ batches, last)

abbrev pub pushed_of : List QueueOp → List Job
pushed_of [] = []
pushed_of (op_push job ∷ ops) = job ∷ pushed_of ops
pushed_of (op_pop n ∷ ops) = pushed_of ops

-- The sizes of the batches when `waiting` jobs are queued: all that was asked for, or all there are.
abbrev pub sizes_of : ℕ → List QueueOp → List ℕ
sizes_of waiting [] = []
sizes_of waiting (op_push job ∷ ops) = sizes_of (waiting + 1) ops
sizes_of waiting (op_pop n ∷ ops) =
    (if ltb waiting n then waiting else n) ∷ sizes_of (waiting - n) ops

abbrev pub concat : List (List Job) → List Job
concat [] = []
concat (batch ∷ batches) = batch ++ concat batches

length-take :
    (n : ℕ) (xs : List Job) → length (take n xs) ≡ (if ltb (length xs) n then length xs else n)
length-take Prim.Native.Nat.zero xs = ground arith
length-take (Prim.Native.Nat.suc n) [] = ground arith
length-take (Prim.Native.Nat.suc n) (x ∷ xs) = ground (arith, length-take n xs)

length-drop : (n : ℕ) (xs : List Job) → length (drop n xs) ≡ length xs - n
length-drop Prim.Native.Nat.zero xs = omega arith
length-drop (Prim.Native.Nat.suc n) [] = omega arith
length-drop (Prim.Native.Nat.suc n) (x ∷ xs) = omega (arith, length-drop n xs)

append_assoc : (xs ys zs : List Job) → (xs ++ ys) ++ zs ≡ xs ++ (ys ++ zs)
append_assoc [] ys zs = refl
append_assoc (x ∷ xs) ys zs = ap (λ ws. x ∷ ws) (append_assoc xs ys zs)

append_nil : (xs : List Job) → xs ++ [] ≡ xs
append_nil [] = refl
append_nil (x ∷ xs) = ap (λ ws. x ∷ ws) (append_nil xs)

pub pop_batch-append :
    (n : ℕ) (q : ReadyQueue) → (pop_batch n q).0 ++ (pop_batch n q).1.items ≡ q.items
unfolding pop_batch
pop_batch-append n q =
    take-append-drop (if ltb (length q.items) n then length q.items else n) q.items

pop_batch-length :
    (n : ℕ) (q : ReadyQueue)
    → (length (pop_batch n q).0 ≡ (if ltb (length q.items) n then length q.items else n))
      × (length (pop_batch n q).1.items ≡ length q.items - n)
unfolding pop_batch
pop_batch-length n q =
    let m = if ltb (length q.items) n then length q.items else n in
    (ground (arith, length-take m q.items), ground (arith, length-drop m q.items))

-- From any queue, a sequence of `Push` and `PopBatch` takes the jobs in the order in which they
-- came: the batches, one after the other, and then the jobs left are those queued at the start and
-- those pushed, none lost or doubled. Each batch has as many jobs as were asked for, or all that were
-- queued where these are fewer.
pub operate_queue-fifo :
    (ops : List QueueOp) (q : ReadyQueue)
    → (concat (operate_queue ops q).0 ++ (operate_queue ops q).1.items ≡ q.items ++ pushed_of ops)
      × (map length (operate_queue ops q).0 ≡ sizes_of (length q.items) ops)
unfolding operate_queue push
operate_queue-fifo [] q = (sym (append_nil q.items), refl)
operate_queue-fifo (op_push job ∷ ops) q =
    let (order, sizes) = operate_queue-fifo ops (push job q) in
    (
      order ∙ append_assoc q.items (job ∷ []) (pushed_of ops),
      sizes ∙ ap (λ k. sizes_of k ops) (omega (arith, length-append {0} q.items (job ∷ []))),
    )
operate_queue-fifo (op_pop n ∷ ops) q =
    let (batch, left) = pop_batch n q in
    let (order, sizes) = operate_queue-fifo ops left in
    let (taken, kept) = pop_batch-length n q in
    (
      append_assoc batch (concat (operate_queue ops left).0) (operate_queue ops left).1.items
          ∙ ap (λ rest. batch ++ rest) order
          ∙ sym (append_assoc batch left.items (pushed_of ops))
          ∙ ap (λ js. js ++ pushed_of ops) (pop_batch-append n q),
      rw (taken, sizes, kept) refl,
    )
