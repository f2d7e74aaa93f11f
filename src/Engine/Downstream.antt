-- ===== src/Engine/Downstream.antt =====
-- infrastructure/control-plane/engine/engine.go: the tasks that `cancelDownstream` comes to.
use distributed_workflow_orc.Prelude.{
  some-injective, ℕ, zero, suc, ◌≡◌, refl, subst, sym, ◌∙◌, ◌⊎◌, inl, inr, true, [], ◌∷◌, ◌++◌,
  List, String, Map, lookup, some, arith, Bool-cases, String-cases, List-cases, ap, contains, Memᴰ,
  All, AllValues, length, eq_refl, All-append,
}
use distributed_workflow_orc.Prelude.Int.{ℤ}
use distributed_workflow_orc.Prelude.Maps.{has-lookup}
use mathlib.Core.Option.{none-ne-some}
use distributed_workflow_orc.Domain.TaskStatus
use distributed_workflow_orc.Domain.Cycle.Graph.{Dep, Needs}
use distributed_workflow_orc.Domain.Dag.{
  IsKeyed, Distinct, IsKeyed-lookup, IsKeyed-map_values, Distinct-map_values, lookup-before,
}
use distributed_workflow_orc.Domain.Task.{Task, is_finished}
use distributed_workflow_orc.Engine.State.{update_task_status}
use distributed_workflow_orc.Engine.Cancel.{Pass, cancel_pass, cancel_round, cancel_loop, cascade}
use distributed_workflow_orc.Engine.Evolve.{Every}
use distributed_workflow_orc.Engine.Cascade.{cancel_one, cancel_pass-map_values}

Memᴰ-contains : (d : String) (xs : List String) → contains xs d ≡ true → Memᴰ d xs
Memᴰ-contains d [] h = absurd (cc)
Memᴰ-contains d (x ∷ xs) h = elim (String-cases x d) [
  | inl (e, hit) ↦ Memᴰ.head (sym e)
  | inr (_, miss) ↦ Memᴰ.tail (Memᴰ-contains d xs (ground arith))
]

Every-AllValues : (P : Task → Type 0) (m : Map Task) → Distinct m → Every P m → AllValues P m
Every-AllValues P [] d h = tt
Every-AllValues P ((k, t) ∷ m) d h = (
  h k t (rw (eq_refl k) refl),
  Every-AllValues P m d.1 (λ u s e. h u s (elim (String-cases k u) [
    | inr (_, miss) ↦ rw miss e
    | inl (p, hit) ↦ absurd (none-ne-some s (ground (arith, p, d.0, has-lookup k m)))
  ])),
)

module _ (m : Map Task) where
  Needs-cons : (u v w : String) → Dep m v u → Needs m v w → Needs m u w
  Needs-cons u v w d Needs.here = Needs.next Needs.here d
  Needs-cons u v w d (Needs.next p q) = Needs.next (Needs-cons u v _ d p) q

module _ (now : ℤ) where
  cancel_pass-queue :
      (P : String → Type 0) (id : String) (m : Map Task)
      → AllValues (λ t. contains t.depends_on id ≡ true → P t.id) m
      → All P (cancel_pass now id m).queue
  unfolding cancel_pass update_task_status
  cancel_pass-queue P id [] h = tt
  cancel_pass-queue P id ((k, t) ∷ m) h = elim (Bool-cases (is_finished t)) [
    | inl done ↦ rw (done, cancel_pass) (cancel_pass-queue P id m h.1)
    | inr left ↦ elim (Bool-cases (contains t.depends_on id)) [
      | inr miss ↦ rw (left, miss, cancel_pass) (cancel_pass-queue P id m h.1)
      | inl hit ↦ elim (Bool-cases (update_task_status now TaskStatus.cancelled t).2) [
        | inl granted ↦ rw (left, hit, granted, cancel_pass) (h.0 hit, cancel_pass-queue P id m h.1)
        | inr refused ↦ rw (left, hit, refused, cancel_pass) (cancel_pass-queue P id m h.1)
      ]
    ]
  ]

module _ (now : ℤ) (root : String) (m : Map Task) where
  -- The state of the loop, against the tasks `m` that it started from.
  record Behind (queue : List String) (tasks : Map Task) : Type 0 where
    queued : All (λ id. Needs m id root) queue
    keyed : IsKeyed tasks
    distinct : Distinct tasks
    behind :
        (u : String) (t' : Task)
        → lookup u tasks ≡ some t'
        → (t : Task) × (lookup u m ≡ some t)
          × (t'.depends_on ≡ t.depends_on)
          × ((t' ≡ t) ⊎ ((v : String) × Dep m v u × Needs m v root))

  cancel_pass-Behind :
      (id : String) (rest : List String) (tasks : Map Task)
      → Behind (id ∷ rest) tasks
      → Behind (rest ++ (cancel_pass now id tasks).queue) (cancel_pass now id tasks).tasks
  cancel_pass-Behind id rest tasks h = record {
    queued =
        All-append (λ j. Needs m j root) rest (cancel_pass now id tasks).queue h.queued.1
          (cancel_pass-queue now (λ j. Needs m j root) id tasks
            (Every-AllValues (λ t. contains t.depends_on id ≡ true → Needs m t.id root) tasks
              h.distinct
              (λ u t e hit.
                subst (λ j. Needs m j root) (sym (IsKeyed-lookup u tasks h.keyed e))
                  (Needs-cons m u id root (dep_of u t e hit) h.queued.0))));
    keyed =
        rw (cancel_pass-map_values now id tasks)
          (IsKeyed-map_values (cancel_one id) same_id same_deps tasks h.keyed);
    distinct =
        rw (cancel_pass-map_values now id tasks)
          (Distinct-map_values (cancel_one id) same_id same_deps tasks h.distinct);
    behind = λ u t' e'.
        let (s, there, image) =
          lookup-before (cancel_one id) same_id same_deps u tasks t'
            (subst (λ z. lookup u z ≡ some t') (cancel_pass-map_values now id tasks) e') in
        let (t, found, deps, before) = h.behind u s there in
        (
          t,
          found,
          ap (λ (z : Task). z.depends_on) image ∙ same_deps s ∙ deps,
          elim (touched s) [
            | inl spared ↦ elim before [
              | inl same ↦ inl (image ∙ spared ∙ same)
              | inr chain ↦ inr chain
            ]
            | inr hit ↦ inr (id, dep_of u s there hit, h.queued.0)
          ],
        );
  }
    where
      same_id : (t : Task) → (cancel_one id t).id ≡ t.id
      same_id t = ground arith

      same_deps : (t : Task) → (cancel_one id t).depends_on ≡ t.depends_on
      same_deps t = ground arith

      touched : (t : Task) → (cancel_one id t ≡ t) ⊎ (contains t.depends_on id ≡ true)
      touched t = elim (Bool-cases (contains t.depends_on id)) [
        | inl hit ↦ inr hit
        | inr miss ↦ inl (ground arith)
      ]

      dep_of :
          (u : String) (t : Task)
          → lookup u tasks ≡ some t
          → contains t.depends_on id ≡ true
          → Dep m id u
      dep_of u t e hit =
          let (s, found, deps, _) = h.behind u t e in
          (s, found, subst (Memᴰ id) deps (Memᴰ-contains id t.depends_on hit))

  cancel_loop-Behind :
      (fuel : ℕ) (c : Pass)
      → Behind c.queue c.tasks
      → Behind (cancel_loop now fuel c).queue (cancel_loop now fuel c).tasks
  unfolding cancel_loop cancel_round
  cancel_loop-Behind zero c h = h
  cancel_loop-Behind (suc fuel) c h = elim (List-cases c.queue) [
    | inl empty ↦ rw (empty, cancel_loop) h
    | inr (id, rest, e) ↦
        rw (e, cancel_loop)
          (cancel_loop-Behind fuel (cancel_round now id rest c)
            (cancel_pass-Behind id rest c.tasks (subst (λ q. Behind q c.tasks) e h)))
  ]

  -- `cancelDownstream` leaves a task as it is, unless one of its dependencies is the root or waits
  -- for it, directly or not. The tasks are given with each under its id, no id twice.
  pub cascade-touches_dependents :
      (u : String) (t t' : Task)
      → IsKeyed m
      → Distinct m
      → lookup u m ≡ some t
      → lookup u (cascade now root m).tasks ≡ some t'
      → (t' ≡ t) ⊎ ((v : String) × Dep m v u × Needs m v root)
  unfolding cascade
  cascade-touches_dependents u t t' keyed distinct found after =
      let h =
        cancel_loop-Behind (suc (length m))
          (record { tasks = m; events = []; running = []; queue = root ∷ [] })
          (record {
            queued = (Needs.here, tt);
            keyed = keyed;
            distinct = distinct;
            behind = λ u t e. (t, e, refl, inl refl);
          }) in
      let (s, before, _, outcome) = h.behind u t' after in
      let same : s ≡ t = some-injective s t (sym before ∙ found) in
      elim outcome [ inl spared ↦ inl (spared ∙ same) | inr chain ↦ inr chain ]
