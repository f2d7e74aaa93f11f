-- ===== src/Domain/Build/Valid.antt =====
-- common/domain/workflow.go: what `NewWorkflow` returns.
use mathlib.Core.WellFounded.{Acc}
use distributed_workflow_orc.Prelude.{
  ℕ, ◌≡◌, refl, sym, ap, subst, ◌∙◌, ◌⊎◌, inl, inr, true, false, List, [], ◌∷◌, String, arith, Map,
  has, All-map, AllValues, length, eq_refl,
}
use distributed_workflow_orc.Prelude.Int.{ℤ}
use distributed_workflow_orc.Prelude.Maps.{AllValues-lookup}
use distributed_workflow_orc.Prelude.Results.{
  ok, err, ◌>>=◌, >>=-eq-ok, Result-cases, ok_injective, err_injective, err-ne-ok,
}
use distributed_workflow_orc.Domain.WorkflowStatus
use distributed_workflow_orc.Domain.Task.{Task}
use distributed_workflow_orc.Domain.Workflow.{Workflow}
use distributed_workflow_orc.Domain.Cycle.{
  Verdict, acyclic, cycle_detected, crashed, ran_out, validate_tasks_cycle,
}
use distributed_workflow_orc.Domain.Cycle.Graph.{Dep, IsClosed, IsOnCycle}
use distributed_workflow_orc.Domain.Cycle.Colouring.{Judged, validate_from-Judged, whites_at_first}
use distributed_workflow_orc.Domain.Dag.{IsKeyed, IsKeyed-lookup, Distinct, IsDag, IsDag-map_values}
use distributed_workflow_orc.Domain.Build.{
  BuildError, tasks_cycle, Index, register, resolve_dependencies, of_verdict, stamp, assemble,
  new_workflow,
}
use distributed_workflow_orc.Domain.Build.Indexing.{
  is_fault, register-no_fault, resolve_dependencies-no_fault, IsIndex, register-IsIndex, IsResolved,
  resolve_dependencies-IsResolved,
}

IsKeyed-known :
    (m all : Map Task)
    → IsKeyed m
    → ((j : String) → has j m ≡ true → has j all ≡ true)
    → AllValues (λ t. has t.id all ≡ true) m
IsKeyed-known [] all h sub = tt
IsKeyed-known ((k, t) ∷ m) all h sub = (
  subst (λ j. has j all ≡ true) h.0 (sub k (ground (arith, eq_refl k))),
  IsKeyed-known m all h.1 (λ j e. sub j (ground (arith))),
)

-- The search of `validateTasksCycle` ends, meets no nil pointer, and finds a cycle exactly when
-- the dependencies have one: else every task is well-founded.
pub validate_tasks_cycle_decides :
    (tasks : Map Task)
    → IsKeyed tasks
    → Distinct tasks
    → IsClosed tasks
    → ((validate_tasks_cycle tasks ≡ acyclic) × IsDag tasks)
      ⊎ ((id u : String) × (validate_tasks_cycle tasks ≡ cycle_detected id) × IsOnCycle tasks u)
unfolding validate_tasks_cycle
validate_tasks_cycle_decides tasks keyed distinct closed = go (validate_tasks_cycle tasks) refl (
    validate_from-Judged tasks closed (length tasks) (omega (arith, whites_at_first tasks)) tasks
      (IsKeyed-known tasks tasks keyed (λ j h. h)))
  where
    go :
        (v : Verdict)
        → validate_tasks_cycle tasks ≡ v
        → Judged tasks closed tasks v
        → ((validate_tasks_cycle tasks ≡ acyclic) × IsDag tasks)
          ⊎ ((id u : String) × (validate_tasks_cycle tasks ≡ cycle_detected id) × IsOnCycle tasks u)
    go acyclic e h = inl (
      e,
      record {
        keyed = keyed;
        distinct = distinct;
        closed = closed;
        founded = λ u t found.
            subst (Acc (Dep tasks)) (IsKeyed-lookup u tasks keyed found)
              (AllValues-lookup _ u tasks h found);
      },
    )
    go (cycle_detected id) e (u, c) = inr (id, u, e, c)
    go crashed e h = absurd h
    go ran_out e h = absurd h

-- The graph that the search is run on.
resolved-IsClosed : (ids m : Map Task) → IsResolved ids ids m → IsClosed m
resolved-IsClosed ids m h u t found =
    All-map (λ d k. h.same_ids d ∙ k) t.depends_on (AllValues-lookup _ u m h.deps_known found)

abbrev empty_index : ℕ → Index
empty_index n = record { by_name = []; by_id = []; next_uuid = n }

empty_index-IsIndex : (n : ℕ) → IsIndex (empty_index n)
empty_index-IsIndex n = record { known = tt; keyed = tt; distinct = tt }

module _ (new_uuid : ℕ → String) (now : ℤ) (n : ℕ) (tenant_id name : String)
    (tasks : List Task) where
  -- A request that is built went through the three checks.
  new_workflow-eq-ok :
      (w : Workflow)
      → new_workflow new_uuid now n tenant_id name tasks ≡ ok w
      → (ix : Index) × (m : Map Task) × IsKeyed m
        × Distinct m
        × IsClosed m
        × (of_verdict (validate_tasks_cycle m) (assemble new_uuid now tenant_id name ix.next_uuid m)
            ≡ ok w)
  unfolding new_workflow
  new_workflow-eq-ok w e =
      let (ix, indexed, after) = >>=-eq-ok (register new_uuid tasks (empty_index n)) _ e in
      let (m, resolved, judged) = >>=-eq-ok (resolve_dependencies ix.by_name ix.by_id) _ after in
      let valid =
        register-IsIndex new_uuid tasks (empty_index n) ix (empty_index-IsIndex n) indexed in
      let good =
        resolve_dependencies-IsResolved ix.by_name ix.by_id valid.known ix.by_id m resolved in
      (
        ix,
        m,
        good.keyed valid.keyed,
        good.distinct valid.distinct,
        resolved-IsClosed ix.by_id m good,
        judged,
      )

  -- A workflow that `NewWorkflow` returns is a graph with no cycle, whose dependencies are all ids
  -- of its own tasks, and it is pending.
  pub new_workflow-IsDag :
      (w : Workflow)
      → new_workflow new_uuid now n tenant_id name tasks ≡ ok w
      → IsDag w.tasks × (w.status ≡ WorkflowStatus.pending)
  unfolding assemble
  new_workflow-IsDag w e =
      let (ix, m, keyed, distinct, closed, judged) = new_workflow-eq-ok w e in
      elim (validate_tasks_cycle_decides m keyed distinct closed) [
        | inl (passed, dag) ↦
            let same = ok_injective _ w (rw passed at judged) in
            (
              subst (λ (z : Workflow). IsDag z.tasks) same
                  (IsDag-map_values (stamp (new_uuid ix.next_uuid) now) (λ t. refl) (λ t. refl) m
                    dag),
              sym (ap (λ (z : Workflow). z.status) same),
            )
        | inr (id, u, found, _) ↦ absurd (err-ne-ok _ w (rw found at judged))
      ]

  -- `NewWorkflow` always answers: the search never runs out of fuel, and no nil pointer is read.
  pub new_workflow_answers :
      (e : BuildError)
      → new_workflow new_uuid now n tenant_id name tasks ≡ err e
      → is_fault e ≡ false
  unfolding new_workflow
  new_workflow_answers e h = elim (Result-cases (register new_uuid tasks (empty_index n))) [
    | inr (f, refused) ↦
        subst (λ g. is_fault g ≡ false) (err_injective f e (rw (refused, ◌>>=◌) at h))
          (register-no_fault new_uuid tasks (empty_index n) f refused)
    | inl (ix, indexed) ↦ elim (Result-cases (resolve_dependencies ix.by_name ix.by_id)) [
      | inr (f, refused) ↦
          subst (λ g. is_fault g ≡ false) (err_injective f e (rw (indexed, refused, ◌>>=◌) at h))
            (resolve_dependencies-no_fault ix.by_name ix.by_id f refused)
      | inl (m, resolved) ↦
          let valid =
            register-IsIndex new_uuid tasks (empty_index n) ix (empty_index-IsIndex n) indexed in
          let good =
            resolve_dependencies-IsResolved ix.by_name ix.by_id valid.known ix.by_id m resolved in
          elim (validate_tasks_cycle_decides m (good.keyed valid.keyed)
            (good.distinct valid.distinct) (resolved-IsClosed ix.by_id m good)) [
              | inl (passed, _) ↦ absurd (cc (rw (indexed, resolved, passed, ◌>>=◌) at h))
              | inr (id, u, found, _) ↦
                  subst (λ g. is_fault g ≡ false)
                    (err_injective (tasks_cycle id) e (rw (indexed, resolved, found, ◌>>=◌) at h))
                    refl
            ]
    ]
  ]
