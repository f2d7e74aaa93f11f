-- ===== src/Pool/PriorityQueue.antt =====
-- pkg/worker_pool/priority_queue.go: the methods that `container/heap` calls, and those that call it.
-- An index out of range, which panics in Go, leaves the queue as it is.
pub mod Timed
pub mod Selection
use distributed_workflow_orc.Prelude.{
  sym, subst, List-cases, Option-cases, ℕ, zero, suc, ◌+◌, ◌-◌, ◌%◌, ◌^◌, ◌<◌, ◌≤◌, ◌≡◌, refl, ◌∙◌,
  Bool, true, false, Option, none, some, List, [], ◌∷◌, ◌++◌, arith, ltb, leb, eqb, length, All,
  length-append, if◌then◌else◌, Bool-cases, inl, inr,
}
use distributed_workflow_orc.Prelude.Int.{ℤ, pos, negsuc}

-- `heap.Interface`, as the library's functions take it.
pub record Interface (S X : Type 0) : Type 0 where
  pub len_of : S → ℕ
  pub less_of : ℕ → ℕ → S → Bool
  pub swap_of : ℕ → ℕ → S → S
  pub push_of : X → S → S
  pub pop_of : S → Option X × S

-- `heap.Init`, `heap.Push`, `heap.Pop` and `heap.Fix`.
pub record HeapPackage : Type 1 where
  pub init_heap : {S X : Type 0} → Interface S X → S → S
  pub push_heap : {S X : Type 0} → Interface S X → X → S → S
  pub pop_heap : {S X : Type 0} → Interface S X → S → Option X × S
  pub fix_heap : {S X : Type 0} → Interface S X → ℕ → S → S

module _ (V : Type 0) where
  -- A `Job` of the pool; the time is in nanoseconds.
  pub record PoolJob : Type 0 where
    pub task : V
    pub wait_to_time : ℕ

  pub record ItemPq : Type 0 where
    pub value : PoolJob
    pub index : ℤ
    pub wait_to_time : ℕ

  pub record PriorityQueue : Type 0 where
    pub items : List ItemPq
    pub seq : ℕ

  abbrev pub get_elem? : List ItemPq → ℕ → Option ItemPq
  get_elem? [] i = none
  get_elem? (x ∷ xs) zero = some x
  get_elem? (x ∷ xs) (suc i) = get_elem? xs i

  abbrev pub set : List ItemPq → ℕ → ItemPq → List ItemPq
  set [] i v = []
  set (x ∷ xs) zero v = v ∷ xs
  set (x ∷ xs) (suc i) v = x ∷ set xs i v

  unfoldable pub len : PriorityQueue → ℕ
  len pq = length pq.items

  unfoldable pub less : ℕ → ℕ → PriorityQueue → Bool
  less i j pq = elim (get_elem? pq.items i) [
    | none ↦ false
    | some x ↦ elim (get_elem? pq.items j) [
      | none ↦ false
      | some y ↦ ltb x.wait_to_time y.wait_to_time
    ]
  ]

  unfoldable pub swap : ℕ → ℕ → PriorityQueue → PriorityQueue
  swap i j pq = elim (get_elem? pq.items i) [
    | none ↦ pq
    | some x ↦ elim (get_elem? pq.items j) [
      | none ↦ pq
      | some y ↦ record pq {
        items = set (set pq.items i (record y { index = pos i })) j (record x { index = pos j });
      }
    ]
  ]

  -- `Push`, for an item; anything else is ignored.
  unfoldable pub push : ItemPq → PriorityQueue → PriorityQueue
  push item pq = record pq {
    items = pq.items ++ record item { index = pos (length pq.items) } ∷ [];
  }

  abbrev pub last_of : ItemPq → List ItemPq → ItemPq
  last_of x [] = x
  last_of x (y ∷ ys) = last_of y ys

  abbrev pub but_last : ItemPq → List ItemPq → List ItemPq
  but_last x [] = []
  but_last x (y ∷ ys) = x ∷ but_last y ys

  -- `Pop`: the last item, with the index -1, and the queue without it.
  unfoldable pub pop : PriorityQueue → Option ItemPq × PriorityQueue
  pop pq = elim pq.items [
    | [] ↦ (none, pq)
    | x ∷ xs ↦
        (some (record (last_of x xs) { index = negsuc 0 }), record pq { items = but_last x xs })
  ]

  -- Each item knows where it stands.
  abbrev pub IsIndexedFrom : ℕ → List ItemPq → Type 0
  IsIndexedFrom n [] = Unit
  IsIndexedFrom n (x ∷ xs) = (x.index ≡ pos n) × IsIndexedFrom (n + 1) xs

  abbrev pub IsIndexed : PriorityQueue → Type 0
  IsIndexed pq = IsIndexedFrom 0 pq.items

  IsIndexedFrom-set :
      (n i : ℕ) (xs : List ItemPq) (v : ItemPq)
      → v.index ≡ pos (n + i)
      → IsIndexedFrom n xs
      → IsIndexedFrom n (set xs i v)
  IsIndexedFrom-set n i [] v e h = tt
  IsIndexedFrom-set n zero (x ∷ xs) v e h = (ground (arith, e), h.1)
  IsIndexedFrom-set n (suc i) (x ∷ xs) v e h =
      (h.0, IsIndexedFrom-set (n + 1) i xs v (ground (arith, e)) h.1)

  IsIndexedFrom-snoc :
      (n : ℕ) (xs : List ItemPq) (v : ItemPq)
      → v.index ≡ pos (n + length xs)
      → IsIndexedFrom n xs
      → IsIndexedFrom n (xs ++ v ∷ [])
  IsIndexedFrom-snoc n [] v e h = (ground (arith, e), tt)
  IsIndexedFrom-snoc n (x ∷ xs) v e h =
      (h.0, IsIndexedFrom-snoc (n + 1) xs v (ground (arith, e)) h.1)

  IsIndexedFrom-but_last :
      (n : ℕ) (x : ItemPq) (xs : List ItemPq)
      → IsIndexedFrom n (x ∷ xs)
      → IsIndexedFrom n (but_last x xs)
  IsIndexedFrom-but_last n x [] h = tt
  IsIndexedFrom-but_last n x (y ∷ ys) h = (h.0, IsIndexedFrom-but_last (n + 1) y ys h.1)

  -- What the library does to the queue between two calls of the methods, it does by `Swap`.
  pub swap-IsIndexed : (i j : ℕ) (pq : PriorityQueue) → IsIndexed pq → IsIndexed (swap i j pq)
  unfolding swap
  swap-IsIndexed i j pq h = elim (Option-cases (get_elem? pq.items i)) [
    | inl out ↦ rw (out, swap) h
    | inr (x, at_i) ↦ elim (Option-cases (get_elem? pq.items j)) [
      | inl out ↦ rw (at_i, swap) (rw out h)
      | inr (y, at_j) ↦
          rw (at_i, swap)
            (rw at_j (
              IsIndexedFrom-set 0 j (set pq.items i (record y { index = pos i }))
                (record x { index = pos j }) (ground arith)
                (IsIndexedFrom-set 0 i pq.items (record y { index = pos i }) (ground arith) h)))
    ]
  ]

  -- A way through the methods `Swap`, `Push` and `Pop`, in any order.
  pub data Call : Type 0 where
    call_swap : ℕ → ℕ → Call
    call_push : ItemPq → Call
    call_pop : Call

  unfoldable pub calls : List Call → PriorityQueue → PriorityQueue
  unfolding swap push pop
  calls [] pq = pq
  calls (call_swap i j ∷ cs) pq = calls cs (swap i j pq)
  calls (call_push item ∷ cs) pq = calls cs (push item pq)
  calls (call_pop ∷ cs) pq = calls cs (pop pq).1

  push-IsIndexed : (item : ItemPq) (pq : PriorityQueue) → IsIndexed pq → IsIndexed (push item pq)
  unfolding push
  push-IsIndexed item pq h =
      IsIndexedFrom-snoc 0 pq.items (record item { index = pos (length pq.items) }) (ground arith) h

  pop-IsIndexed : (pq : PriorityQueue) → IsIndexed pq → IsIndexed (pop pq).1
  unfolding pop
  pop-IsIndexed pq h = elim (List-cases pq.items) [
    | inl empty ↦ subst IsIndexed (sym (pop-empty empty)) h
    | inr (x, xs, e) ↦ rw (e, pop) (IsIndexedFrom-but_last 0 x xs (subst (IsIndexedFrom 0) e h))
  ]
    where
      pop-empty : pq.items ≡ [] → (pop pq).1 ≡ pq
      pop-empty e = ground arith

  -- However `container/heap` calls `Swap`, `Push` and `Pop`, the field `index` of each item says
  -- where it stands; so `Update` mends the heap at the item that it was given.
  pub calls-IsIndexed :
      (cs : List Call) (pq : PriorityQueue) → IsIndexed pq → IsIndexed (calls cs pq)
  unfolding calls
  calls-IsIndexed [] pq h = h
  calls-IsIndexed (call_swap i j ∷ cs) pq h =
      calls-IsIndexed cs (swap i j pq) (swap-IsIndexed i j pq h)
  calls-IsIndexed (call_push item ∷ cs) pq h =
      calls-IsIndexed cs (push item pq) (push-IsIndexed item pq h)
  calls-IsIndexed (call_pop ∷ cs) pq h = calls-IsIndexed cs (pop pq).1 (pop-IsIndexed pq h)

  abbrev pub queue_interface : Interface PriorityQueue ItemPq
  queue_interface = record {
    len_of = len;
    less_of = less;
    swap_of = swap;
    push_of = push;
    pop_of = pop;
  }
