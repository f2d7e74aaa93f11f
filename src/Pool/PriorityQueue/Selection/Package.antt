-- ===== src/Pool/PriorityQueue/Selection/Package.antt =====
-- pkg/worker_pool/priority_queue.go: the stand-in does what is asked of container/heap.
use distributed_workflow_orc.Prelude.{
  ℕ, suc, ◌+◌, ◌-◌, ◌<◌, ◌≤◌, ◌≡◌, refl, sym, ap, ◌∙◌, subst, Bool, none, some, some-injective,
  List, [], ◌∷◌, arith, length, All, inl, inr, List-cases,
}
use mathlib.Core.Option.{none-ne-some}
use distributed_workflow_orc.Prelude.Int.{pos, negsuc}
use distributed_workflow_orc.Pool.PriorityQueue.{
  PoolJob, ItemPq, PriorityQueue, queue_interface, get_elem?, set, last_of, swap, len, pop, push,
}
use distributed_workflow_orc.Pool.PriorityQueue.Timed.{count_items, IsHeapPackage}
use distributed_workflow_orc.Pool.PriorityQueue.Selection.{
  pop_selected, selection, get-set, length-set, one, swapped, not_swapped, count-swap,
}
use distributed_workflow_orc.Pool.PriorityQueue.Selection.Order.{
  IsLow, settle-IsLow, count-settle, length-IsLow, root-All,
}
use distributed_workflow_orc.Pool.PriorityQueue.Selection.Popped.{
  get_elem-last_of, count-append, pop-last,
}

module _ (V : Type 0) where
  -- The root, once it has changed places with the last item.
  root-last :
      (pq : PriorityQueue V) (x : ItemPq V) (xs : List (ItemPq V))
      → pq.items ≡ x ∷ xs
      → get_elem? V
          (swap V 0 (length pq.items - 1) pq).items
          (length (swap V 0 (length pq.items - 1) pq).items - 1)
        ≡ some (record x { index = pos (length pq.items - 1) })
  root-last pq x xs e =
      let at_0 : get_elem? V pq.items 0 ≡ some x = rw e refl in
      let long : length pq.items ≡ suc (length xs) = rw e refl in
      let shorter : length pq.items - 1 ≡ length xs = omega (arith, long) in
      let at_end : get_elem? V pq.items (length pq.items - 1) ≡ some (last_of V x xs) =
        subst (λ k. get_elem? V pq.items k ≡ some (last_of V x xs)) (sym shorter)
          (rw e (get_elem-last_of V x xs)) in
      let l = last_of V x xs in
      let n = length pq.items - 1 in
      let l' : ItemPq V = record l { index = pos 0 } in
      let x' : ItemPq V = record x { index = pos n } in
      rw (swapped V 0 n pq x l at_0 at_end) (
        rw (length-set V (set V pq.items 0 l') n x', length-set V pq.items 0 l')
          (ground
            (arith, get-set V (set V pq.items 0 l') n n x', get-set V pq.items 0 n l', at_end)))

  popped :
      (pq : PriorityQueue V) (x : ItemPq V) (xs : List (ItemPq V))
      → pq.items ≡ x ∷ xs
      → ((pop_selected (queue_interface V) pq).0 ≡ some (record x { index = negsuc 0 }))
        × ((test : PoolJob V → ℕ → Bool)
            → count_items V test pq.items
              ≡ one V test x + count_items V test (pop_selected (queue_interface V) pq).1.items)
  unfolding len
  popped pq x xs e =
      let q = swap V 0 (length pq.items - 1) pq in
      let (answer, counts) =
        pop-last V q (record x { index = pos (length pq.items - 1) }) (root-last pq x xs e) in
      (
        answer,
        λ test. omega (
          arith,
          count-swap V test 0 (length pq.items - 1) pq,
          counts test,
          count-settle V test (length (pop V q).1.items) (pop V q).1,
        ),
      )

  pop_selected-empty :
      (pq : PriorityQueue V) → pq.items ≡ [] → (pop_selected (queue_interface V) pq).0 ≡ none
  unfolding pop len
  pop_selected-empty pq e =
      rw (not_swapped V 0 (length pq.items - 1) pq (inl (rw e refl))) (rw (e, pop) refl)

  -- What was popped, when something was.
  popped-is :
      (pq : PriorityQueue V) (x : ItemPq V)
      → (pop_selected (queue_interface V) pq).0 ≡ some x
      → (y : ItemPq V) × (ys : List (ItemPq V)) × (pq.items ≡ y ∷ ys)
        × (record y { index = negsuc 0 } ≡ x)
  popped-is pq x answer = elim (List-cases pq.items) [
    | inl e ↦ absurd (none-ne-some x (sym (pop_selected-empty pq e) ∙ answer))
    | inr (y, ys, e) ↦ (y, ys, e, some-injective _ x (sym (popped pq y ys e).0 ∙ answer))
  ]

  pop_selected-some :
      (pq : PriorityQueue V)
      → 0 < length pq.items
      → (x : ItemPq V) × ((pop_selected (queue_interface V) pq).0 ≡ some x)
  pop_selected-some pq h = elim (List-cases pq.items) [
    | inl e ↦ absurd (omega (arith, ap length e))
    | inr (y, ys, e) ↦ (record y { index = negsuc 0 }, (popped pq y ys e).0)
  ]

  pop_selected-least :
      (pq : PriorityQueue V) (x : ItemPq V)
      → IsLow V 0 pq
      → (pop_selected (queue_interface V) pq).0 ≡ some x
      → All (λ y. x.wait_to_time ≤ y.wait_to_time) pq.items
  pop_selected-least pq x h answer =
      let (y, ys, e, same) = popped-is pq x answer in
      subst (λ (z : ItemPq V). All (λ y. z.wait_to_time ≤ y.wait_to_time) pq.items) same
        (root-All V pq y ys h e)

  count-pop_selected :
      (test : PoolJob V → ℕ → Bool) (pq : PriorityQueue V) (x : ItemPq V)
      → (pop_selected (queue_interface V) pq).0 ≡ some x
      → count_items V test pq.items
        ≡ one V test x + count_items V test (pop_selected (queue_interface V) pq).1.items
  count-pop_selected test pq x answer =
      let (y, ys, e, same) = popped-is pq x answer in
      (popped pq y ys e).1 test
      ∙ ap
          (λ (z : ItemPq V).
            one V test z + count_items V test (pop_selected (queue_interface V) pq).1.items)
          same

  pub selection-IsHeapPackage : IsHeapPackage V selection
  unfolding len push
  selection-IsHeapPackage = record {
    IsHeap = IsLow V 0;
    empty-IsHeap = λ i x y at_0 i_at past. absurd (none-ne-some x at_0);
    init-IsHeap = λ i x y at_0 at_i past. absurd (none-ne-some x at_0);
    seq-IsHeap = λ pq n h. h;
    push-IsHeap = λ x pq h.
        settle-IsLow V (length (push V x pq).items) (push V x pq) (length-IsLow V (push V x pq));
    count-push = λ test x pq.
        count-settle V test (length (push V x pq).items) (push V x pq)
        ∙ count-append V test pq.items (record x { index = pos (length pq.items) });
    root_least = root-All V;
    pop_some = λ pq h some_item. pop_selected-some pq some_item;
    pop-IsHeap =
        λ pq h. settle-IsLow V _ _ (length-IsLow V (pop V (swap V 0 (length pq.items - 1) pq)).1);
    pop_least = pop_selected-least;
    count-pop = λ test pq x h answer. count-pop_selected test pq x answer;
  }
