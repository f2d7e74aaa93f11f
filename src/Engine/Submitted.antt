-- ===== src/Engine/Submitted.antt =====
-- common/domain/workflow.go: the statuses of the tasks that `NewWorkflow` is given and returns.
use distributed_workflow_orc.Prelude.{
  arith, ℕ, ◌≡◌, subst, inl, inr, List, [], ◌∷◌, String, Map, insert, has, All, AllValues,
  Bool-cases,
}
use distributed_workflow_orc.Prelude.Int.{ℤ}
use distributed_workflow_orc.Prelude.Maps.{AllValues-insert, AllValues-lookup, AllValues-map_values}
use distributed_workflow_orc.Prelude.Results.{ok, >>=-eq-ok, ok_injective, err-ne-ok}
use distributed_workflow_orc.Domain.TaskStatus
use distributed_workflow_orc.Domain.Task.{Task}
use distributed_workflow_orc.Domain.Workflow.{Workflow}
use distributed_workflow_orc.Domain.Cycle.{
  Verdict, acyclic, cycle_detected, crashed, ran_out, validate_tasks_cycle,
}
use distributed_workflow_orc.Domain.Build.{
  Index, assign_id, register, resolve_names, resolve_dependencies, of_verdict, stamp, assemble,
  new_workflow,
}
use distributed_workflow_orc.Domain.Build.Valid.{new_workflow-IsDag}
use distributed_workflow_orc.Engine.WellFormed.Submission.{IsNew}

abbrev IsPending : Task → Type 0
IsPending t = t.status ≡ TaskStatus.pending

assign_id-IsPending :
    (new_uuid : ℕ → String) (n : ℕ) (t : Task) → IsPending t → IsPending (assign_id new_uuid n t).0
unfolding assign_id
assign_id-IsPending new_uuid n t h = ground arith

register-IsPending :
    (new_uuid : ℕ → String) (tasks : List Task) (ix ix' : Index)
    → All IsPending tasks
    → AllValues IsPending ix.by_id
    → register new_uuid tasks ix ≡ ok ix'
    → AllValues IsPending ix'.by_id
unfolding register
register-IsPending new_uuid [] ix ix' h known e =
    subst (λ (z : Index). AllValues IsPending z.by_id) (ok_injective ix ix' e) known
register-IsPending new_uuid (t ∷ ts) ix ix' h known e =
    let (t', n) = assign_id new_uuid ix.next_uuid t in
    elim (Bool-cases (has t'.name ix.by_name)) [
      | inl doubled ↦ absurd (err-ne-ok _ ix' (rw (doubled, register) at e))
      | inr named ↦ elim (Bool-cases (has t'.id ix.by_id)) [
        | inl doubled ↦ absurd (err-ne-ok _ ix' (rw (named, doubled, register) at e))
        | inr fresh ↦
            register-IsPending new_uuid ts
              (record {
                by_name = insert t'.name t'.id ix.by_name;
                by_id = insert t'.id t' ix.by_id;
                next_uuid = n;
              })
              ix' h.1
              (AllValues-insert IsPending t'.id t' ix.by_id
                (assign_id-IsPending new_uuid ix.next_uuid t h.0) known)
              (rw (named, fresh, register) at e)
      ]
    ]

resolve_dependencies-IsPending :
    (by_name : Map String) (m m' : Map Task)
    → AllValues IsPending m
    → resolve_dependencies by_name m ≡ ok m'
    → AllValues IsPending m'
unfolding resolve_dependencies
resolve_dependencies-IsPending by_name [] m' h e =
    subst (AllValues IsPending) (ok_injective [] m' e) tt
resolve_dependencies-IsPending by_name ((k, t) ∷ m) m' h e =
    let (resolved, _, after) = >>=-eq-ok (resolve_names by_name t.depends_on) _ e in
    let (rest, found, done) = >>=-eq-ok (resolve_dependencies by_name m) _ after in
    subst (AllValues IsPending) (ok_injective _ m' done)
      (h.0, resolve_dependencies-IsPending by_name m rest h.1 found)

pub of_verdict-same : (v : Verdict) (w w' : Workflow) → of_verdict v w ≡ ok w' → w ≡ w'
of_verdict-same acyclic w w' e = ok_injective w w' e
of_verdict-same (cycle_detected id) w w' e = absurd (err-ne-ok _ w' e)
of_verdict-same crashed w w' e = absurd (err-ne-ok _ w' e)
of_verdict-same ran_out w w' e = absurd (err-ne-ok _ w' e)

module _ (new_uuid : ℕ → String) (now : ℤ) (n : ℕ) (tenant_id name : String)
    (tasks : List Task) where
  -- A workflow that `NewWorkflow` returns for PENDING tasks is one that `SubmitWorkflow` may be
  -- given: it has no cycle, every task of it is PENDING, and so is it.
  pub new_workflow-IsNew :
      (w : Workflow)
      → All IsPending tasks
      → new_workflow new_uuid now n tenant_id name tasks ≡ ok w
      → IsNew w
  unfolding new_workflow assemble stamp
  new_workflow-IsNew w h e =
      let (dag, status) = new_workflow-IsDag new_uuid now n tenant_id name tasks w e in
      let (ix, indexed, after) = >>=-eq-ok (register new_uuid tasks _) _ e in
      let (m, resolved, judged) = >>=-eq-ok (resolve_dependencies ix.by_name ix.by_id) _ after in
      let pending =
        resolve_dependencies-IsPending ix.by_name ix.by_id m
          (register-IsPending new_uuid tasks _ ix h tt indexed) resolved in
      let same =
        of_verdict-same (validate_tasks_cycle m)
          (assemble new_uuid now tenant_id name ix.next_uuid m) w judged in
      record {
        dag = dag;
        unstarted = λ u t found.
            AllValues-lookup IsPending u w.tasks
              (subst (λ (z : Workflow). AllValues IsPending z.tasks) same
                (AllValues-map_values IsPending IsPending (stamp (new_uuid ix.next_uuid) now) m
                  (λ t p. p) pending))
              found;
        status = status;
      }
