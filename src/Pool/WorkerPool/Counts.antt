-- ===== src/Pool/WorkerPool/Counts.antt =====
-- pkg/worker_pool/worker_pool.go: how many tasks there are in each part of a pool.
use distributed_workflow_orc.Prelude.{
  ℕ, zero, suc, ◌+◌, ◌≡◌, refl, Bool, Option, none, some, some-injective, List, [], ◌∷◌, ◌++◌,
  arith, length, if◌then◌else◌, Option-cases, inl, inr,
}
use mathlib.Core.Option.{none-ne-some}
use distributed_workflow_orc.Pool.WorkerPool.{WorkerPool, take_out}
use distributed_workflow_orc.Pool.PriorityQueue.{ItemPq, PoolJob, HeapPackage}
use distributed_workflow_orc.Pool.PriorityQueue.Timed.{count_items, is_of}

module _ (V : Type 0) where
  -- How many tasks, or jobs, pass a test.
  abbrev pub count : (V → Bool) → List V → ℕ
  count test [] = 0
  count test (v ∷ vs) = (if test v then 1 else 0) + count test vs

  abbrev pub count_jobs : (V → Bool) → List (PoolJob V) → ℕ
  count_jobs test [] = 0
  count_jobs test (j ∷ js) = (if test j.task then 1 else 0) + count_jobs test js

  abbrev pub count_held : (V → Bool) → Option (PoolJob V) → ℕ
  count_held test none = 0
  count_held test (some j) = if test j.task then 1 else 0

  abbrev pub count_moving : (V → Bool) → Option (PoolJob V × ℕ) → ℕ
  count_moving test none = 0
  count_moving test (some (j, now)) = if test j.task then 1 else 0

  pub count-append :
      (test : V → Bool) (xs ys : List V) → count test (xs ++ ys) ≡ count test xs + count test ys
  count-append test [] ys = omega arith
  count-append test (x ∷ xs) ys = omega (arith, count-append test xs ys)

  pub count_jobs-append :
      (test : V → Bool) (xs ys : List (PoolJob V))
      → count_jobs test (xs ++ ys) ≡ count_jobs test xs + count_jobs test ys
  count_jobs-append test [] ys = omega arith
  count_jobs-append test (x ∷ xs) ys = omega (arith, count_jobs-append test xs ys)

  pub count_jobs-empty :
      (test : V → Bool) (js : List (PoolJob V)) → length js ≡ 0 → count_jobs test js ≡ 0
  count_jobs-empty test [] e = refl
  count_jobs-empty test (j ∷ js) e = absurd (omega (arith, e))

  pub count_items-empty :
      (test : PoolJob V → ℕ → Bool) (items : List (ItemPq V))
      → length items ≡ 0
      → count_items V test items ≡ 0
  count_items-empty test [] e = refl
  count_items-empty test (x ∷ xs) e = absurd (omega (arith, e))

module _ (V : Type 0) (heap : HeapPackage) where
  -- What is taken out of a list was in it.
  pub count_jobs-take_out :
      (test : V → Bool) (n : ℕ) (js : List (PoolJob V)) (j : PoolJob V) (rest : List (PoolJob V))
      → take_out V heap n js ≡ some (j, rest)
      → count_jobs V test js ≡ (if test j.task then 1 else 0) + count_jobs V test rest
  count_jobs-take_out test n [] j rest e = absurd (none-ne-some (j, rest) e)
  count_jobs-take_out test zero (k ∷ ks) j rest e = ground (arith, e)
  count_jobs-take_out test (suc n) (k ∷ ks) j rest e = elim (Option-cases (take_out V heap n ks)) [
    | inl out ↦ absurd (none-ne-some (j, rest) (rw out at e))
    | inr ((l, others), at) ↦
        let ih = count_jobs-take_out test n ks l others at in
        let same = some-injective _ _ (rw at at e) in ground (arith, ih, same)
  ]

  pub length-take_out :
      (n : ℕ) (js : List (PoolJob V)) (j : PoolJob V) (rest : List (PoolJob V))
      → take_out V heap n js ≡ some (j, rest)
      → length js ≡ suc (length rest)
  length-take_out n [] j rest e = absurd (none-ne-some (j, rest) e)
  length-take_out zero (k ∷ ks) j rest e = ground (arith, e)
  length-take_out (suc n) (k ∷ ks) j rest e = elim (Option-cases (take_out V heap n ks)) [
    | inl out ↦ absurd (none-ne-some (j, rest) (rw out at e))
    | inr ((l, others), at) ↦
        let ih = length-take_out n ks l others at in
        let same = some-injective _ _ (rw at at e) in ground (arith, ih, same)
  ]

  -- The tasks that the pool has, with those of the list that its queue holds.
  unfoldable pub kept : (V → Bool) → List (PoolJob V) → WorkerPool V heap → ℕ
  kept test xs p =
      count_jobs V test p.job_chan
      + count_jobs V test xs
      + count_items V (is_of V test) p.retry_q.items
      + count_jobs V test p.received
      + count_jobs V test p.working
      + count_held V test p.in_hand
      + count_moving V test p.moving
