-- ===== src/Pool/PriorityQueue/Selection/Popped.antt =====
-- pkg/worker_pool/priority_queue.go: `Push` and `Pop` of the queue, as container/heap uses them.
use distributed_workflow_orc.Prelude.{
  ℕ, ◌+◌, ◌-◌, ◌≡◌, refl, sym, ap, ◌∙◌, subst, Bool, some, some-injective, List, [], ◌∷◌, ◌++◌,
  arith, length, inl, inr, List-cases,
}
use mathlib.Core.Option.{none-ne-some}
use distributed_workflow_orc.Prelude.Int.{negsuc}
use distributed_workflow_orc.Pool.PriorityQueue.{
  PoolJob, ItemPq, PriorityQueue, get_elem?, last_of, but_last, pop,
}
use distributed_workflow_orc.Pool.PriorityQueue.Timed.{count_items}
use distributed_workflow_orc.Pool.PriorityQueue.Selection.{one}

module _ (V : Type 0) where
  pub get_elem-last_of :
      (x : ItemPq V) (xs : List (ItemPq V))
      → get_elem? V (x ∷ xs) (length xs) ≡ some (last_of V x xs)
  get_elem-last_of x [] = refl
  get_elem-last_of x (y ∷ ys) = get_elem-last_of y ys

  count-but_last :
      (test : PoolJob V → ℕ → Bool) (x : ItemPq V) (xs : List (ItemPq V))
      → count_items V test (x ∷ xs)
        ≡ one V test (last_of V x xs) + count_items V test (but_last V x xs)
  count-but_last test x [] = refl
  count-but_last test x (y ∷ ys) = omega (arith, count-but_last test y ys)

  pub count-append :
      (test : PoolJob V → ℕ → Bool) (xs : List (ItemPq V)) (v : ItemPq V)
      → count_items V test (xs ++ v ∷ []) ≡ one V test v + count_items V test xs
  count-append test [] v = omega arith
  count-append test (x ∷ xs) v = omega (arith, count-append test xs v)

  -- `Pop` of a queue whose last item is known.
  pub pop-last :
      (q : PriorityQueue V) (l : ItemPq V)
      → get_elem? V q.items (length q.items - 1) ≡ some l
      → ((pop V q).0 ≡ some (record l { index = negsuc 0 }))
        × ((test : PoolJob V → ℕ → Bool)
            → count_items V test q.items ≡ one V test l + count_items V test (pop V q).1.items)
  unfolding pop
  pop-last q l at_last = elim (List-cases q.items) [
    | inl e ↦ absurd (none-ne-some l (rw e at at_last))
    | inr (x, xs, e) ↦
        let shorter : length (x ∷ xs) - 1 ≡ length xs = omega arith in
        let at_end : get_elem? V (x ∷ xs) (length xs) ≡ some l =
          subst (λ k. get_elem? V (x ∷ xs) k ≡ some l) shorter (rw e at at_last) in
        let same : last_of V x xs ≡ l = some-injective _ l (sym (get_elem-last_of x xs) ∙ at_end) in
        rw (e, pop)
          (
            ap (λ (z : ItemPq V). some (record z { index = negsuc 0 })) same,
            λ test.
                count-but_last test x xs
                ∙ ap (λ (z : ItemPq V). one V test z + count_items V test (but_last V x xs)) same,
          )
  ]
