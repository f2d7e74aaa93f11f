-- ===== src/Pool/PriorityQueue/Timed.antt =====
-- pkg/worker_pool/priority_queue.go: the operations that call `container/heap`. Each but `Update`
-- holds the mutex.
use distributed_workflow_orc.Prelude.{
  ℕ, ◌+◌, ◌%◌, ◌^◌, ◌<◌, ◌≤◌, ◌≡◌, sym, Bool, not, Option, none, some, List, [], ◌∷◌, arith, leb,
  eqb, length, All, if◌then◌else◌, Bool-cases, inl, inr, List-cases, some-injective, ap,
}
use mathlib.Core.Option.{none-ne-some}
use distributed_workflow_orc.Pool.PriorityQueue.{
  PoolJob, ItemPq, PriorityQueue, HeapPackage, queue_interface, get_elem?, set,
}

module _ (V : Type 0) where
  -- How many of the items pass a test, which does not look at the index.
  abbrev pub count_items : (PoolJob V → ℕ → Bool) → List (ItemPq V) → ℕ
  count_items test [] = 0
  count_items test (x ∷ xs) = (if test x.value x.wait_to_time then 1 else 0) + count_items test xs

  -- What `container/heap` promises of a queue whose `Less` compares the times.
  pub record IsHeapPackage (heap : HeapPackage) : Type 1 where
    pub IsHeap : PriorityQueue V → Type 0
    pub empty-IsHeap : IsHeap (record { items = []; seq = 0 })
    pub init-IsHeap : IsHeap (heap.init_heap (queue_interface V) (record { items = []; seq = 0 }))
    -- `Less` and the items alone decide.
    pub seq-IsHeap : (pq : PriorityQueue V) (n : ℕ) → IsHeap pq → IsHeap (record pq { seq = n })
    pub push-IsHeap :
        (x : ItemPq V) (pq : PriorityQueue V)
        → IsHeap pq
        → IsHeap (heap.push_heap (queue_interface V) x pq)
    pub count-push :
        (test : PoolJob V → ℕ → Bool) (x : ItemPq V) (pq : PriorityQueue V)
        → count_items test (heap.push_heap (queue_interface V) x pq).items
          ≡ (if test x.value x.wait_to_time then 1 else 0) + count_items test pq.items
    pub root_least :
        (pq : PriorityQueue V) (x : ItemPq V) (xs : List (ItemPq V))
        → IsHeap pq
        → pq.items ≡ x ∷ xs
        → All (λ y. x.wait_to_time ≤ y.wait_to_time) pq.items
    pub pop_some :
        (pq : PriorityQueue V)
        → IsHeap pq
        → 0 < length pq.items
        → (x : ItemPq V) × ((heap.pop_heap (queue_interface V) pq).0 ≡ some x)
    pub pop-IsHeap :
        (pq : PriorityQueue V) → IsHeap pq → IsHeap (heap.pop_heap (queue_interface V) pq).1
    pub pop_least :
        (pq : PriorityQueue V) (x : ItemPq V)
        → IsHeap pq
        → (heap.pop_heap (queue_interface V) pq).0 ≡ some x
        → All (λ y. x.wait_to_time ≤ y.wait_to_time) pq.items
    pub count-pop :
        (test : PoolJob V → ℕ → Bool) (pq : PriorityQueue V) (x : ItemPq V)
        → IsHeap pq
        → (heap.pop_heap (queue_interface V) pq).0 ≡ some x
        → count_items test pq.items
          ≡ (if test x.value x.wait_to_time then 1 else 0)
            + count_items test (heap.pop_heap (queue_interface V) pq).1.items

  -- The items that are due at a time, and those whose job bears another time than they do.
  abbrev pub due : ℕ → PoolJob V → ℕ → Bool
  due now job wait_to_time = leb wait_to_time now

  abbrev pub mistimed : PoolJob V → ℕ → Bool
  mistimed job wait_to_time = not (eqb job.wait_to_time wait_to_time)

  abbrev pub is_of : (V → Bool) → PoolJob V → ℕ → Bool
  is_of test job wait_to_time = test job.task

  least_due :
      (w now : ℕ) (xs : List (ItemPq V))
      → All (λ y. w ≤ y.wait_to_time) xs
      → 0 < count_items (due now) xs
      → w ≤ now
  least_due w now [] h some_due = absurd (omega arith)
  least_due w now (x ∷ xs) h some_due = elim (Bool-cases (leb x.wait_to_time now)) [
    | inl e ↦ ground (arith, h.0)
    | inr e ↦ least_due w now xs h.1 (ground arith)
  ]

  abbrev value_of : Option (ItemPq V) → Option (PoolJob V)
  value_of none = none
  value_of (some x) = some x.value

  module _ (heap : HeapPackage) where
    unfoldable pub new_priority_queue : PriorityQueue V
    new_priority_queue = heap.init_heap (queue_interface V) (record { items = []; seq = 0 })

    -- `Top`: the item at the root.
    unfoldable pub top : PriorityQueue V → Option (ItemPq V)
    top pq = elim pq.items [ [] ↦ none | x ∷ xs ↦ some x ]

    -- `Update`, for the item at the index `i`: the time of the item stays.
    unfoldable pub update : ℕ → PoolJob V → PriorityQueue V → PriorityQueue V
    update i value pq = elim (get_elem? V pq.items i) [
      | none ↦ pq
      | some x ↦
          heap.fix_heap (queue_interface V) i
            (record pq { items = set V pq.items i (record x { value = value }) })
    ]

    -- `seq` is a `uint64`.
    unfoldable pub enqueue : ItemPq V → PriorityQueue V → PriorityQueue V
    enqueue item pq =
        heap.push_heap (queue_interface V) item (record pq { seq = (pq.seq + 1) % 2 ^ 64 })

    unfoldable pub dequeue : PriorityQueue V → Option (PoolJob V) × PriorityQueue V
    dequeue pq = elim pq.items [
      | [] ↦ (none, pq)
      | x ∷ xs ↦ let (item, rest) = heap.pop_heap (queue_interface V) pq in (value_of item, rest)
    ]

    unfoldable pub peek : PriorityQueue V → Option (PoolJob V)
    peek pq = elim pq.items [ [] ↦ none | x ∷ xs ↦ some x.value ]

    unfoldable pub size : PriorityQueue V → ℕ
    size pq = length pq.items

    module _ (laws : IsHeapPackage heap) where
      pub new_priority_queue-IsHeap : laws.IsHeap new_priority_queue
      unfolding new_priority_queue
      new_priority_queue-IsHeap = laws.init-IsHeap

      pub enqueue-IsHeap :
          (x : ItemPq V) (pq : PriorityQueue V) → laws.IsHeap pq → laws.IsHeap (enqueue x pq)
      unfolding enqueue
      enqueue-IsHeap x pq h = laws.push-IsHeap x _ (laws.seq-IsHeap pq _ h)

      pub count-enqueue :
          (test : PoolJob V → ℕ → Bool) (x : ItemPq V) (pq : PriorityQueue V)
          → count_items test (enqueue x pq).items
            ≡ (if test x.value x.wait_to_time then 1 else 0) + count_items test pq.items
      unfolding enqueue
      count-enqueue test x pq = laws.count-push test x _

      dequeue-node :
          (pq : PriorityQueue V) (y : ItemPq V) (ys : List (ItemPq V))
          → pq.items ≡ y ∷ ys
          → dequeue pq ≡ (
            value_of (heap.pop_heap (queue_interface V) pq).0,
            (heap.pop_heap (queue_interface V) pq).1,
          )
      unfolding dequeue
      dequeue-node pq y ys e =
          ap
            (λ (items : List (ItemPq V)).
              elim items as (λ i. Option (PoolJob V) × PriorityQueue V) [
                | [] ↦ (none, pq)
                | x ∷ xs ↦
                    let (item, rest) = heap.pop_heap (queue_interface V) pq in (value_of item, rest)
              ])
            e

      -- A `Dequeue` that answers takes one item out: the one with the least time, which is due if
      -- any is.
      pub dequeue-some :
          (pq : PriorityQueue V) (job : PoolJob V)
          → laws.IsHeap pq
          → (dequeue pq).0 ≡ some job
          → (x : ItemPq V) × (x.value ≡ job)
            × laws.IsHeap (dequeue pq).1
            × ((test : PoolJob V → ℕ → Bool)
                → count_items test pq.items
                  ≡ (if test x.value x.wait_to_time then 1 else 0)
                    + count_items test (dequeue pq).1.items)
            × ((now : ℕ) → 0 < count_items (due now) pq.items → x.wait_to_time ≤ now)
      unfolding dequeue
      dequeue-some pq job h answer = elim (List-cases pq.items) [
        | inl empty ↦ absurd (none-ne-some job (rw (empty, dequeue) at answer))
        | inr (y, ys, e) ↦
            let (x, popped) = laws.pop_some pq h (rw e (omega arith)) in
            let node = dequeue-node pq y ys e in
            let same : some x.value ≡ some job =
              rw (ap value_of (sym popped), ← ap (λ p. p.0) node) answer in
            rw node (
              x,
              some-injective x.value job same,
              laws.pop-IsHeap pq h,
              λ test. laws.count-pop test pq x h popped,
              λ now. least_due x.wait_to_time now pq.items (laws.pop_least pq x h popped),
            )
      ]
