-- ===== src/Pool/PriorityQueue/Selection.antt =====
-- A package that keeps the least item at the root by comparing every other item with it. It stands in
-- for the package of pkg/worker_pool/priority_queue.go, which is not part of the repository.
pub mod Order
pub mod Popped
pub mod Package
use distributed_workflow_orc.Prelude.{
  ℕ, zero, suc, ◌+◌, ◌-◌, ◌<◌, ◌≤◌, ◌≡◌, refl, sym, ap, ◌∙◌, subst, Bool, true, false, Option, none,
  some, some-injective, is_some, List, [], ◌∷◌, ◌++◌, arith, eqb, length, All, if◌then◌else◌,
  Bool-cases, ◌⊎◌, inl, inr, List-cases, Option-cases,
}
use mathlib.Core.Option.{none-ne-some}
use distributed_workflow_orc.Prelude.Int.{pos, negsuc}
use distributed_workflow_orc.Pool.PriorityQueue.{
  Interface, HeapPackage, PoolJob, ItemPq, PriorityQueue, queue_interface, get_elem?, set, last_of,
  but_last, swap, less, len, pop, push,
}
use distributed_workflow_orc.Pool.PriorityQueue.Timed.{count_items, IsHeapPackage}

module _ {S X : Type 0} (h : Interface S X) where
  abbrev pub step : ℕ → S → S
  step i s = if h.less_of i 0 s then h.swap_of 0 i s else s

  abbrev pub settle : ℕ → S → S
  settle zero s = s
  settle (suc j) s = settle j (step (suc j) s)

  abbrev pub push_selected : X → S → S
  push_selected x s = settle (h.len_of (h.push_of x s)) (h.push_of x s)

  abbrev pub pop_selected : S → Option X × S
  pop_selected s =
      let (x, rest) = h.pop_of (h.swap_of 0 (h.len_of s - 1) s) in (x, settle (h.len_of rest) rest)

abbrev pub selection : HeapPackage
selection = record {
  init_heap = λ h s. settle h (h.len_of s) s;
  push_heap = λ h. push_selected h;
  pop_heap = λ h. pop_selected h;
  fix_heap = λ h i s. settle h (h.len_of s) s;
}

module _ (V : Type 0) where
  pub get-set :
      (xs : List (ItemPq V)) (i j : ℕ) (v : ItemPq V)
      → get_elem? V (set V xs i v) j ≡ (
          if eqb i j
          then (if is_some (get_elem? V xs j) then some v else none)
          else get_elem? V xs j)
  get-set [] i j v = ground arith
  get-set (x ∷ xs) zero zero v = refl
  get-set (x ∷ xs) zero (suc j) v = ground arith
  get-set (x ∷ xs) (suc i) zero v = ground arith
  get-set (x ∷ xs) (suc i) (suc j) v = ground (arith, get-set xs i j v)

  pub length-set : (xs : List (ItemPq V)) (i : ℕ) (v : ItemPq V) → length (set V xs i v) ≡ length xs
  length-set [] i v = refl
  length-set (x ∷ xs) zero v = refl
  length-set (x ∷ xs) (suc i) v = ap suc (length-set xs i v)

  abbrev pub one : (PoolJob V → ℕ → Bool) → ItemPq V → ℕ
  one test x = if test x.value x.wait_to_time then 1 else 0

  pub count-set :
      (test : PoolJob V → ℕ → Bool) (xs : List (ItemPq V)) (i : ℕ) (v y : ItemPq V)
      → get_elem? V xs i ≡ some y
      → count_items V test (set V xs i v) + one test y ≡ count_items V test xs + one test v
  count-set test [] i v y e = absurd (none-ne-some y e)
  count-set test (x ∷ xs) zero v y e = rw (some-injective x y e) (omega arith)
  count-set test (x ∷ xs) (suc i) v y e = omega (arith, count-set test xs i v y e)

  pub swapped :
      (i j : ℕ) (pq : PriorityQueue V) (x y : ItemPq V)
      → get_elem? V pq.items i ≡ some x
      → get_elem? V pq.items j ≡ some y
      → swap V i j pq ≡ record pq {
        items =
            set V (set V pq.items i (record y { index = pos i })) j (record x { index = pos j });
      }
  unfolding swap
  swapped i j pq x y at_i at_j = ground arith

  pub not_swapped :
      (i j : ℕ) (pq : PriorityQueue V)
      → (is_some (get_elem? V pq.items i) ≡ false) ⊎ (is_some (get_elem? V pq.items j) ≡ false)
      → swap V i j pq ≡ pq
  unfolding swap
  not_swapped i j pq (inl out) = ground arith
  not_swapped i j pq (inr out) = ground arith

  -- What stands at `j` once `y` is written to `i`.
  pub between :
      (test : PoolJob V → ℕ → Bool) (xs : List (ItemPq V)) (i j : ℕ) (y : ItemPq V)
      → get_elem? V xs j ≡ some y
      → (z : ItemPq V) × (get_elem? V (set V xs i (record y { index = pos i })) j ≡ some z)
        × (one test z ≡ one test y)
  between test xs i j y e = elim (Bool-cases (eqb i j)) [
    | inl same ↦ (
      record y { index = pos i },
      ground (arith, get-set xs i j (record y { index = pos i })),
      refl,
    )
    | inr other ↦ (y, ground (arith, get-set xs i j (record y { index = pos i })), refl)
  ]

  pub count-swap :
      (test : PoolJob V → ℕ → Bool) (i j : ℕ) (pq : PriorityQueue V)
      → count_items V test (swap V i j pq).items ≡ count_items V test pq.items
  count-swap test i j pq = elim (Option-cases (get_elem? V pq.items i)) [
    | inl out ↦
        ap (λ (q : PriorityQueue V). count_items V test q.items)
          (not_swapped i j pq (inl (rw out refl)))
    | inr (x, at_i) ↦ elim (Option-cases (get_elem? V pq.items j)) [
      | inl out ↦
          ap (λ (q : PriorityQueue V). count_items V test q.items)
            (not_swapped i j pq (inr (rw out refl)))
      | inr (y, at_j) ↦
          let (z, there, same) = between test pq.items i j y at_j in
          ap (λ (q : PriorityQueue V). count_items V test q.items) (swapped i j pq x y at_i at_j)
          ∙ omega (
            arith,
            count-set test pq.items i (record y { index = pos i }) x at_i,
            count-set test (set V pq.items i (record y { index = pos i })) j
                (record x { index = pos j }) z there,
            same,
          )
    ]
  ]
