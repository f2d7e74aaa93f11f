-- ===== src/Pool/LinkedQueue.antt =====
-- pkg/worker_pool/linked_queue.go: the linked list on a heap of cells, against a plain list. Each
-- operation holds the mutex.
use Prim.Native.Nat.{ℕ}
use distributed_workflow_orc.Prelude.{
  false, suc, ◌+◌, ◌-◌, ◌<◌, ◌≡◌, refl, subst, ◌∙◌, Option, none, some, length-append, List, [],
  ◌∷◌, ◌++◌, arith, eqb, length, if◌then◌else◌,
}

module _ (V : Type 0) where
  pub record Item : Type 0 where
    pub value : V
    pub next_item : Option ℕ

  -- A pointer is a number, and `fresh` the next that `&Item{…}` gives.
  pub record LinkedQueue : Type 0 where
    pub cells : ℕ → Option Item
    pub fresh : ℕ
    pub head : Option ℕ
    pub tail : Option ℕ
    pub size : ℕ

  abbrev pub write : ℕ → Item → (ℕ → Option Item) → ℕ → Option Item
  write p item cells q = if eqb p q then some item else cells q

  -- `p.next = next`, for a pointer that is not nil.
  abbrev pub set_next : Option ℕ → Option ℕ → (ℕ → Option Item) → ℕ → Option Item
  set_next none next_item cells = cells
  set_next (some p) next_item cells = elim (cells p) [
    | none ↦ cells
    | some item ↦ write p (record item { next_item = next_item }) cells
  ]

  unfoldable pub new_linked_queue : LinkedQueue
  new_linked_queue = record { cells = λ p. none; fresh = 0; head = none; tail = none; size = 0 }

  -- `Queue`, once the item stands in its cell.
  unfoldable pub append_item : ℕ → LinkedQueue → LinkedQueue
  append_item p q = elim q.head [
    | none ↦ record q { head = some p; tail = some p; size = q.size + 1 }
    | some h ↦ record q {
      cells = set_next q.tail (some p) q.cells;
      tail = some p;
      size = q.size + 1;
    }
  ]

  unfoldable pub queue : V → LinkedQueue → LinkedQueue
  unfolding append_item
  queue value q = append_item q.fresh (record q {
    cells = write q.fresh (record { value = value; next_item = none }) q.cells;
    fresh = q.fresh + 1;
  })

  abbrev pub tail_after : Option ℕ → Option ℕ → Option ℕ
  tail_after none tail = none
  tail_after (some h) tail = tail

  -- `Dequeue`, for the item that the head points to.
  unfoldable pub remove_item : ℕ → Item → LinkedQueue → LinkedQueue
  remove_item h item q = record q {
    head = item.next_item;
    tail = tail_after item.next_item q.tail;
    cells = write h (record item { next_item = none }) q.cells;
    size = q.size - 1;
  }

  -- The value, or `none` for `false`. A dangling head would be a nil pointer, and answers `none` too.
  unfoldable pub dequeue : LinkedQueue → Option V × LinkedQueue
  unfolding remove_item
  dequeue q = elim q.head [
    | none ↦ (none, q)
    | some h ↦ elim (q.cells h) [
      | none ↦ (none, q)
      | some item ↦ (some item.value, remove_item h item q)
    ]
  ]

  -- From the cell `a` to the cell `b` stand `x` and the values of `xs`. A later cell has a larger
  -- address.
  abbrev Linked : (ℕ → Option Item) → ℕ → ℕ → V → List V → Type 0
  Linked cells a b x [] = (a ≡ b) × (cells a ≡ some (record { value = x; next_item = none }))
  Linked cells a b x (y ∷ ys) =
      (n : ℕ) × (a < n)
      × (cells a ≡ some (record { value = x; next_item = some n }))
      × Linked cells n b y ys

  -- The queue holds the values of the list, head first.
  abbrev pub Holds : LinkedQueue → List V → Type 0
  Holds q [] = (q.head ≡ none) × (q.tail ≡ none) × (q.size ≡ 0)
  Holds q (x ∷ xs) =
      (a : ℕ) × (b : ℕ) × (q.head ≡ some a)
      × (q.tail ≡ some b)
      × Linked q.cells a b x xs
      × (b < q.fresh)
      × (q.size ≡ suc (length xs))

  Linked-le :
      (cells : ℕ → Option Item) (a b : ℕ) (x : V) (xs : List V) → Linked cells a b x xs → a < suc b
  Linked-le cells a b x [] (e, _) = omega arith
  Linked-le cells a b x (y ∷ ys) (n, lt, _, rest) = omega (arith, Linked-le cells n b y ys rest)

  -- A write below the first cell, or past the last, is not seen.
  Linked-write_below :
      (cells : ℕ → Option Item) (p : ℕ) (item : Item) (a b : ℕ) (x : V) (xs : List V)
      → p < a
      → Linked cells a b x xs
      → Linked (write p item cells) a b x xs
  Linked-write_below cells p item a b x [] lt (e, at) = (e, ground arith)
  Linked-write_below cells p item a b x (y ∷ ys) lt (n, less, at, rest) =
      (n, less, ground arith, Linked-write_below cells p item n b y ys (omega arith) rest)

  Linked-write_above :
      (cells : ℕ → Option Item) (p : ℕ) (item : Item) (a b : ℕ) (x : V) (xs : List V)
      → b < p
      → Linked cells a b x xs
      → Linked (write p item cells) a b x xs
  Linked-write_above cells p item a b x [] lt (e, at) = (e, ground arith)
  Linked-write_above cells p item a b x (y ∷ ys) lt (n, less, at, rest) =
      let below = Linked-le cells n b y ys rest in
      (n, less, ground arith, Linked-write_above cells p item n b y ys lt rest)

  set_next-at :
      (cells : ℕ → Option Item) (b : ℕ) (item : Item) (next_item : Option ℕ)
      → cells b ≡ some item
      → (c : ℕ)
      → set_next (some b) next_item cells c
        ≡ (if eqb b c then some (record item { next_item = next_item }) else cells c)
  set_next-at cells b item next_item e c = rw (e, set_next) refl

  -- Hanging a new cell to the last one.
  Linked-snoc :
      (cells : ℕ → Option Item) (p : ℕ) (v : V) (a b : ℕ) (x : V) (xs : List V)
      → b < p
      → cells p ≡ some (record { value = v; next_item = none })
      → Linked cells a b x xs
      → Linked (set_next (some b) (some p) cells) a p x (xs ++ v ∷ [])
  Linked-snoc cells p v a b x [] lt new (e, at) =
      let last = subst (λ c. cells c ≡ some (record { value = x; next_item = none })) e at in
      let seen = set_next-at cells b (record { value = x; next_item = none }) (some p) last in
      (p, omega (arith, e), ground (arith, seen a), (refl, ground (arith, seen p)))
  Linked-snoc cells p v a b x (y ∷ ys) lt new (n, less, at, rest) =
      let below = Linked-le cells n b y ys rest in
      (
        n,
        less,
        set_next_other cells b a (some p) (ground arith) ∙ at,
        Linked-snoc cells p v n b y ys lt new rest,
      )
    where
      set_next_other :
          (cells : ℕ → Option Item) (b a : ℕ) (next_item : Option ℕ)
          → eqb b a ≡ false
          → set_next (some b) next_item cells a ≡ cells a
      set_next_other cells b a next_item ne = ground arith

  -- `Queue` appends to the list that the queue holds.
  pub queue-Holds :
      (v : V) (q : LinkedQueue) (xs : List V) → Holds q xs → Holds (queue v q) (xs ++ v ∷ [])
  unfolding queue append_item
  queue-Holds v q [] (head, tail, size) =
      rw (head, append_item)
        (q.fresh, q.fresh, refl, refl, (refl, ground arith), omega arith, omega (arith, size))
  queue-Holds v q (x ∷ xs) (a, b, head, tail, linked, fresh, size) =
      let item : Item = record { value = v; next_item = none } in
      rw (head, append_item)
        (rw tail (
          a,
          q.fresh,
          head,
          refl,
          Linked-snoc (write q.fresh item q.cells) q.fresh v a b x xs fresh (ground arith)
              (Linked-write_above q.cells q.fresh item a b x xs fresh linked),
          omega arith,
          omega (arith, size, length-append xs (v ∷ [])),
        ))

  -- `Dequeue` takes the first of the list that the queue holds, and answers `false` when it is empty.
  pub dequeue-empty : (q : LinkedQueue) → Holds q [] → dequeue q ≡ (none, q)
  unfolding dequeue
  dequeue-empty q (head, tail, size) = ground arith

  pub dequeue-Holds :
      (q : LinkedQueue) (x : V) (xs : List V)
      → Holds q (x ∷ xs)
      → ((dequeue q).0 ≡ some x) × Holds (dequeue q).1 xs
  unfolding dequeue remove_item
  dequeue-Holds q x [] (a, b, head, tail, (e, at), fresh, size) =
      rw (head, dequeue) (rw at (refl, (refl, refl, omega (arith, size))))
  dequeue-Holds q x (y ∷ ys) (a, b, head, tail, (n, less, at, rest), fresh, size) =
      rw (head, dequeue)
        (rw at (
          refl,
          (
            n,
            b,
            refl,
            tail,
            Linked-write_below q.cells a _ n b y ys less rest,
            fresh,
            omega (arith, size),
          ),
        ))

  pub size-Holds : (q : LinkedQueue) (xs : List V) → Holds q xs → q.size ≡ length xs
  size-Holds q [] (head, tail, size) = size
  size-Holds q (x ∷ xs) (a, b, head, tail, linked, fresh, size) = size

  pub new_linked_queue-Holds : Holds new_linked_queue []
  unfolding new_linked_queue
  new_linked_queue-Holds = (refl, refl, refl)

  pub data Op : Type 0 where
    enqueue : V → Op
    take_first : Op

  -- What a run of operations answers, and what it leaves.
  unfoldable pub run : List Op → LinkedQueue → List (Option V) × LinkedQueue
  unfolding queue dequeue
  run [] q = ([], q)
  run (enqueue v ∷ ops) q = run ops (queue v q)
  run (take_first ∷ ops) q =
      let (answer, q') = dequeue q in let (answers, last) = run ops q' in (answer ∷ answers, last)

  -- The same operations on a list.
  abbrev pub uncons : List V → Option V × List V
  uncons [] = (none, [])
  uncons (x ∷ xs) = (some x, xs)

  unfoldable pub replay : List Op → List V → List (Option V) × List V
  replay [] xs = ([], xs)
  replay (enqueue v ∷ ops) xs = replay ops (xs ++ v ∷ [])
  replay (take_first ∷ ops) xs =
      let (answers, last) = replay ops (uncons xs).1 in ((uncons xs).0 ∷ answers, last)

  run_refines :
      (ops : List Op) (q : LinkedQueue) (xs : List V)
      → Holds q xs
      → ((run ops q).0 ≡ (replay ops xs).0) × Holds (run ops q).1 (replay ops xs).1
  unfolding run replay
  run_refines [] q xs h = (refl, h)
  run_refines (enqueue v ∷ ops) q xs h =
      run_refines ops (queue v q) (xs ++ v ∷ []) (queue-Holds v q xs h)
  run_refines (take_first ∷ ops) q [] h =
      let (answers, last) = run_refines ops (dequeue q).1 [] (rw (dequeue-empty q h) h) in
      (ground (arith, dequeue-empty q h, answers), last)
  run_refines (take_first ∷ ops) q (x ∷ xs) h =
      let (first, rest) = dequeue-Holds q x xs h in
      let (answers, last) = run_refines ops (dequeue q).1 xs rest in
      (ground (arith, first, answers), last)

  -- From a new queue, any sequence of `Queue` and `Dequeue` is answered as a list that is appended to
  -- at its end and taken from at its front, and the queue then holds that list, with its length for
  -- `Size`.
  pub run-new_refines :
      (ops : List Op)
      → ((run ops new_linked_queue).0 ≡ (replay ops []).0)
        × Holds (run ops new_linked_queue).1 (replay ops []).1
        × ((run ops new_linked_queue).1.size ≡ length (replay ops []).1)
  run-new_refines ops =
      let (answers, held) = run_refines ops new_linked_queue [] new_linked_queue-Holds in
      (answers, held, size-Holds (run ops new_linked_queue).1 (replay ops []).1 held)
