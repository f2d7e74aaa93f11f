-- ===== src/Pool/PriorityQueue/Selection/Order.antt =====
-- pkg/worker_pool/priority_queue.go: the order that the stand-in for container/heap keeps.
use distributed_workflow_orc.Prelude.{
  ℕ, zero, suc, ◌<◌, ◌≤◌, ◌≡◌, refl, sym, ◌∙◌, subst, Bool, true, false, some, some-injective, List,
  [], ◌∷◌, arith, eqb, length, All, Bool-cases, inl, inr, Option-cases,
}
use mathlib.Core.Option.{none-ne-some}
use distributed_workflow_orc.Prelude.Int.{pos}
use distributed_workflow_orc.Pool.PriorityQueue.{
  PoolJob, ItemPq, PriorityQueue, queue_interface, get_elem?, set, swap, less,
}
use distributed_workflow_orc.Pool.PriorityQueue.Timed.{count_items}
use distributed_workflow_orc.Pool.PriorityQueue.Selection.{
  step, settle, get-set, swapped, count-swap,
}

module _ (V : Type 0) where
  -- The root is no later than the items past `j`.
  abbrev pub IsLow : ℕ → PriorityQueue V → Type 0
  IsLow j pq =
      (i : ℕ) (x y : ItemPq V)
      → get_elem? V pq.items 0 ≡ some x
      → get_elem? V pq.items i ≡ some y
      → j < i
      → x.wait_to_time ≤ y.wait_to_time

  less-both :
      (i j : ℕ) (pq : PriorityQueue V)
      → less V i j pq ≡ true
      → (x : ItemPq V) × (y : ItemPq V) × (get_elem? V pq.items i ≡ some x)
        × (get_elem? V pq.items j ≡ some y)
        × (x.wait_to_time < y.wait_to_time)
  unfolding less
  less-both i j pq e = elim (Option-cases (get_elem? V pq.items i)) [
    | inl out ↦ absurd (ground arith)
    | inr (x, at_i) ↦ elim (Option-cases (get_elem? V pq.items j)) [
      | inl out ↦ absurd (ground arith)
      | inr (y, at_j) ↦ (x, y, at_i, at_j, ground arith)
    ]
  ]

  not_less :
      (i : ℕ) (pq : PriorityQueue V) (x y : ItemPq V)
      → less V i 0 pq ≡ false
      → get_elem? V pq.items 0 ≡ some x
      → get_elem? V pq.items i ≡ some y
      → x.wait_to_time ≤ y.wait_to_time
  unfolding less
  not_less i pq x y e at_0 at_i = ground arith

  swap-IsLow :
      (j : ℕ) (pq : PriorityQueue V)
      → less V (suc j) 0 pq ≡ true
      → IsLow (suc j) pq
      → IsLow j (swap V 0 (suc j) pq)
  swap-IsLow j pq e low i a b at_0 at_i past =
      let (y, x, at_j, at_root, lt) = less-both (suc j) 0 pq e in
      let new = set V pq.items 0 (record y { index = pos 0 }) in
      let is = swapped V 0 (suc j) pq x y at_root at_j in
      let first = get-set V new (suc j) 0 (record x { index = pos (suc j) }) in
      let ith = get-set V new (suc j) i (record x { index = pos (suc j) }) in
      let first_new = get-set V pq.items 0 0 (record y { index = pos 0 }) in
      let ith_new = get-set V pq.items 0 i (record y { index = pos 0 }) in
      let at_0' : get_elem? V (set V new (suc j) (record x { index = pos (suc j) })) 0 ≡ some a =
        subst (λ (q : PriorityQueue V). get_elem? V q.items 0 ≡ some a) is at_0 in
      let at_i' : get_elem? V (set V new (suc j) (record x { index = pos (suc j) })) i ≡ some b =
        subst (λ (q : PriorityQueue V). get_elem? V q.items i ≡ some b) is at_i in
      let y' : ItemPq V = record y { index = pos 0 } in
      let x' : ItemPq V = record x { index = pos (suc j) } in
      let head : get_elem? V (set V new (suc j) x') 0 ≡ some y' =
        ground (arith, first, first_new, at_root) in
      let a_is : y' ≡ a = some-injective y' a (sym head ∙ at_0') in
      let after : x.wait_to_time ≤ b.wait_to_time = elim (Bool-cases (eqb i (suc j))) [
        | inl here ↦
            let at : suc j ≡ i = ground arith in
            let there : get_elem? V (set V new (suc j) x') i ≡ some x' =
              subst (λ k. get_elem? V (set V new (suc j) x') k ≡ some x') at
                (ground (
                  arith,
                  get-set V new (suc j) (suc j) x',
                  get-set V pq.items 0 (suc j) y',
                  at_j,
                )) in
            let b_is = some-injective x' b (sym there ∙ at_i') in ground (arith, b_is)
        | inr later ↦
            let old : get_elem? V pq.items i ≡ some b = ground (arith, at_i', ith, ith_new) in
            low i x b at_root old (ground arith)
      ] in
      ground (arith, a_is)

  step-IsLow :
      (j : ℕ) (pq : PriorityQueue V)
      → IsLow (suc j) pq
      → IsLow j (step (queue_interface V) (suc j) pq)
  step-IsLow j pq low = elim (Bool-cases (less V (suc j) 0 pq)) [
    | inl e ↦ rw e (swap-IsLow j pq e low)
    | inr e ↦ rw e (λ i x y at_0 at_i past. elim (Bool-cases (eqb i (suc j))) [
      | inl here ↦ not_less i pq x y (ground arith) at_0 at_i
      | inr later ↦ low i x y at_0 at_i (ground arith)
    ])
  ]

  pub settle-IsLow :
      (j : ℕ) (pq : PriorityQueue V) → IsLow j pq → IsLow 0 (settle (queue_interface V) j pq)
  settle-IsLow zero pq low = low
  settle-IsLow (suc j) pq low =
      settle-IsLow j (step (queue_interface V) (suc j) pq) (step-IsLow j pq low)

  pub count-settle :
      (test : PoolJob V → ℕ → Bool) (j : ℕ) (pq : PriorityQueue V)
      → count_items V test (settle (queue_interface V) j pq).items ≡ count_items V test pq.items
  count-settle test zero pq = refl
  count-settle test (suc j) pq =
      count-settle test j (step (queue_interface V) (suc j) pq)
      ∙ elim (Bool-cases (less V (suc j) 0 pq)) [
        | inl e ↦ rw e (count-swap V test 0 (suc j) pq)
        | inr e ↦ rw e refl
      ]

  get_elem-inside :
      (xs : List (ItemPq V)) (i : ℕ) (y : ItemPq V) → get_elem? V xs i ≡ some y → i < length xs
  get_elem-inside [] i y e = absurd (none-ne-some y e)
  get_elem-inside (x ∷ xs) zero y e = omega arith
  get_elem-inside (x ∷ xs) (suc i) y e = omega (arith, get_elem-inside xs i y e)

  pub length-IsLow : (pq : PriorityQueue V) → IsLow (length pq.items) pq
  length-IsLow pq i x y at_0 at_i past = absurd (omega (arith, get_elem-inside pq.items i y at_i))

  All-elements :
      (P : ItemPq V → Type 0) (xs : List (ItemPq V))
      → ((i : ℕ) (y : ItemPq V) → get_elem? V xs i ≡ some y → P y)
      → All P xs
  All-elements P [] h = tt
  All-elements P (x ∷ xs) h = (h 0 x refl, All-elements P xs (λ i y e. h (suc i) y e))

  pub root-All :
      (pq : PriorityQueue V) (x : ItemPq V) (xs : List (ItemPq V))
      → IsLow 0 pq
      → pq.items ≡ x ∷ xs
      → All (λ y. x.wait_to_time ≤ y.wait_to_time) pq.items
  root-All pq x xs low e =
      All-elements (λ y. x.wait_to_time ≤ y.wait_to_time) pq.items
        (λ i y at_i. elim (Bool-cases (eqb i 0)) [
          | inl here ↦
              let first : i ≡ 0 = ground arith in
              let at_root = subst (λ k. get_elem? V pq.items k ≡ some y) first at_i in
              let same : x ≡ y = some-injective x y (rw e at at_root) in ground (arith, same)
          | inr later ↦ low i x y (rw e refl) at_i (ground arith)
        ])
