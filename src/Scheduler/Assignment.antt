-- ===== src/Scheduler/Assignment.antt =====
-- infrastructure/control-plane/scheduler/scheduler.go: the choice of a worker.
use distributed_workflow_orc.Prelude.{
  ◌≡◌, refl, sym, subst, inl, inr, Bool, true, false, not, List, [], ◌∷◌, String, arith, length,
  contains, Memᴰ, All, if◌then◌else◌, Bool-cases, List-cases,
}
use distributed_workflow_orc.Prelude.Int.{ℤ, ltb_ℤ}
use distributed_workflow_orc.Prelude.Results.{Result, ok, err, ok_injective, err-ne-ok}
use distributed_workflow_orc.Cluster.WorkerNode.{WorkerNode}

pub data SelectError : Type 0 where
  empty_workers index_out_of_range : SelectError
  no_worker_for : String → SelectError

-- The type `float64`, with the operations that the source applies to it.
pub record Floats : Type 1 where
  pub Float : Type 0
  pub of_int : ℤ → Float
  pub div : Float → Float → Float
  pub lt : Float → Float → Bool
  pub eq : Float → Float → Bool

abbrev pub SortSlice : Type 0
SortSlice = (WorkerNode → WorkerNode → Bool) → List WorkerNode → List WorkerNode

-- `sort.Slice` permutes: what it returns was given, and something is returned if something was given.
pub record IsSort (sort : SortSlice) : Type 0 where
  pub members :
      (less : WorkerNode → WorkerNode → Bool) (xs : List WorkerNode) (w : WorkerNode)
      → Memᴰ w (sort less xs)
      → Memᴰ w xs
  pub same_length :
      (less : WorkerNode → WorkerNode → Bool) (xs : List WorkerNode)
      → length (sort less xs) ≡ length xs

unfoldable pub candidates : String → List WorkerNode → List WorkerNode
candidates task_type [] = []
candidates task_type (w ∷ workers) =
    let rest = candidates task_type workers in
    if contains w.capabilities task_type then w ∷ rest else rest

-- `candidates[0].ID`.
abbrev first_id : List WorkerNode → Result SelectError String
first_id [] = err index_out_of_range
first_id (w ∷ workers) = ok w.id

in_front :
    (w : WorkerNode) (task_type : String) (v : WorkerNode) (workers : List WorkerNode)
    → contains v.capabilities task_type ≡ true
    → (Memᴰ w (candidates task_type workers)
        → Memᴰ w workers × (contains w.capabilities task_type ≡ true))
    → Memᴰ w (v ∷ candidates task_type workers)
    → Memᴰ w (v ∷ workers) × (contains w.capabilities task_type ≡ true)
in_front w task_type v workers c before (Memᴰ.head e) =
    (Memᴰ.head e, subst (λ (z : WorkerNode). contains z.capabilities task_type ≡ true) (sym e) c)
in_front w task_type v workers c before (Memᴰ.tail later) =
    let (m, d) = before later in (Memᴰ.tail m, d)

mem-candidates :
    (task_type : String) (w : WorkerNode) (workers : List WorkerNode)
    → Memᴰ w (candidates task_type workers)
    → Memᴰ w workers × (contains w.capabilities task_type ≡ true)
unfolding candidates
mem-candidates task_type w [] h = elim h [ ]
mem-candidates task_type w (v ∷ workers) h = elim (Bool-cases (contains v.capabilities task_type)) [
  | inr other ↦
      let (m, c) = mem-candidates task_type w workers (
        subst
          (λ b.
            Memᴰ w (if b then v ∷ candidates task_type workers else candidates task_type workers))
          other h) in
      (Memᴰ.tail m, c)
  | inl capable ↦ in_front w task_type v workers capable (mem-candidates task_type w workers) (
      subst
        (λ b. Memᴰ w (if b then v ∷ candidates task_type workers else candidates task_type workers))
        capable h)
]

no_candidates :
    (task_type : String) (workers : List WorkerNode)
    → candidates task_type workers ≡ []
    → All (λ w. contains w.capabilities task_type ≡ false) workers
unfolding candidates
no_candidates task_type [] h = tt
no_candidates task_type (w ∷ workers) h = elim (Bool-cases (contains w.capabilities task_type)) [
  | inl capable ↦ absurd (cc (rw (capable, candidates) at h))
  | inr other ↦ (other, no_candidates task_type workers (rw (other, candidates) at h))
]

module _ (floats : Floats) (sort : SortSlice) where
  -- The comparison that `sort.Slice` is given: the less loaded first, then the larger.
  unfoldable pub less_loaded : WorkerNode → WorkerNode → Bool
  less_loaded w1 w2 =
      let load1 = floats.div (floats.of_int w1.running_tasks) (floats.of_int w1.capacity) in
      let load2 = floats.div (floats.of_int w2.running_tasks) (floats.of_int w2.capacity) in
      if not (floats.eq load1 load2) then floats.lt load1 load2 else ltb_ℤ w2.capacity w1.capacity

  unfoldable pub select_candidate : String → List WorkerNode → Result SelectError String
  unfolding less_loaded
  select_candidate task_type [] = err (no_worker_for task_type)
  select_candidate task_type (w ∷ workers) = first_id (sort less_loaded (w ∷ workers))

  unfoldable pub select_worker : List WorkerNode → String → Result SelectError String
  unfolding candidates select_candidate
  select_worker [] task_type = err empty_workers
  select_worker (w ∷ workers) task_type =
      select_candidate task_type (candidates task_type (w ∷ workers))

  first_id-mem :
      (id : String) (ws : List WorkerNode)
      → first_id ws ≡ ok id
      → (w : WorkerNode) × Memᴰ w ws × (w.id ≡ id)
  first_id-mem id [] h = absurd (err-ne-ok _ id h)
  first_id-mem id (w ∷ ws) h = (w, Memᴰ.head refl, ok_injective w.id id h)

  -- The worker that is chosen is one of those given, and can do tasks of the type.
  pub select_worker-capable :
      (workers : List WorkerNode) (task_type id : String)
      → IsSort sort
      → select_worker workers task_type ≡ ok id
      → (w : WorkerNode) × Memᴰ w workers × (w.id ≡ id) × (contains w.capabilities task_type ≡ true)
  unfolding select_worker select_candidate
  select_worker-capable [] task_type id good h = absurd (err-ne-ok _ id h)
  select_worker-capable (v ∷ workers) task_type id good h =
      elim (List-cases (candidates task_type (v ∷ workers))) [
        | inl none_capable ↦ absurd (err-ne-ok _ id (rw (none_capable, select_candidate) at h))
        | inr (c, cs, e) ↦
            let (w, m, same) =
              first_id-mem id (sort less_loaded (c ∷ cs)) (rw (e, select_candidate) at h) in
            let (there, capable) =
              mem-candidates task_type w (v ∷ workers)
                (subst (Memᴰ w) (sym e) (good.members less_loaded (c ∷ cs) w m)) in
            (w, there, same, capable)
      ]

  first_id-fails : (e : SelectError) (ws : List WorkerNode) → first_id ws ≡ err e → length ws ≡ 0
  first_id-fails e [] h = refl
  first_id-fails e (w ∷ ws) h = absurd (err-ne-ok e w.id (sym h))

  -- The choice fails only if no worker given can do tasks of the type.
  pub select_worker-fails :
      (workers : List WorkerNode) (task_type : String) (e : SelectError)
      → IsSort sort
      → select_worker workers task_type ≡ err e
      → All (λ w. contains w.capabilities task_type ≡ false) workers
  unfolding select_worker select_candidate
  select_worker-fails [] task_type e good h = tt
  select_worker-fails (v ∷ workers) task_type e good h =
      elim (List-cases (candidates task_type (v ∷ workers))) [
        | inl none_capable ↦ no_candidates task_type (v ∷ workers) none_capable
        | inr (c, cs, same) ↦ absurd (
            omega (
              arith,
              first_id-fails e (sort less_loaded (c ∷ cs)) (rw (same, select_candidate) at h),
              good.same_length less_loaded (c ∷ cs),
            ))
      ]
