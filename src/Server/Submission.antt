-- ===== src/Server/Submission.antt =====
-- infrastructure/control-plane/server/grpc_orchestration_server.go: a workflow that was submitted, as
-- `GetWorkflow` shows it.
use distributed_workflow_orc.Prelude.{
  ℕ, ◌≡◌, refl, sym, ◌∙◌, ap, inl, inr, Option, none, some, List, [], ◌∷◌, String, lookup,
  Option-cases, Bool-cases, ◌&&◌, ◌==◌, arith, if◌then◌else◌,
}
use distributed_workflow_orc.Prelude.Int.{ℤ}
use distributed_workflow_orc.Prelude.Maps.{lookup-insert}
use distributed_workflow_orc.Prelude.Results.{
  Result, ok, err, Result-cases, ok_injective, err-ne-ok, >>=-eq-ok,
}
use distributed_workflow_orc.Domain.WorkflowStatus
use distributed_workflow_orc.Domain.WorkflowStatus.{WorkflowStatus}
use distributed_workflow_orc.Domain.Task.{Task}
use distributed_workflow_orc.Domain.Workflow.{Workflow, update_workflow_status}
use distributed_workflow_orc.Domain.Cycle.{validate_tasks_cycle}
use distributed_workflow_orc.Domain.Build.{new_workflow, register, resolve_dependencies, assemble}
use distributed_workflow_orc.Engine.State.{
  Work, start, set_workflow_status, start_running, mark_one, mark_all, mark_ready_tasks, any_ready,
  recompute_ready_tasks,
}
use distributed_workflow_orc.Engine.Submitted.{of_verdict-same}
use distributed_workflow_orc.Engine.Handlers.{
  Engine, submit_work, submit_workflow, get_workflow, commit,
}
use distributed_workflow_orc.Server.Orchestration.{
  Code, not_found, TaskSubmission, domain_tasks, submit_workflow_answer, get_workflow_answer,
  workflow_response, WorkflowStatusResponse,
}

-- The same workflow, by its id and its name.
abbrev Same : Workflow → Workflow → Type 0
Same w w' = (w'.id ≡ w.id) × (w'.name ≡ w.name)

Same-trans : (a b c : Workflow) → Same a b → Same b c → Same a c
Same-trans a b c (ab, ab_name) (bc, bc_name) = (bc ∙ ab, bc_name ∙ ab_name)

module _ (seconds : ℤ → ℤ) (now : ℤ) where
  set_workflow_status-Same :
      (s : WorkflowStatus) (work : Work) → Same work.wf (set_workflow_status now s work).wf
  unfolding set_workflow_status update_workflow_status
  set_workflow_status-Same s work =
      elim (Option-cases (WorkflowStatus.can_transit_to work.wf.status s)) [
        | inl fine ↦ (ground arith, ground arith)
        | inr (failure, e) ↦ (ground arith, ground arith)
      ]

  mark_one-Same : (id : String) (work : Work) → Same work.wf (mark_one seconds now id work).wf
  unfolding mark_one
  mark_one-Same id work = elim (Option-cases (lookup id work.wf.tasks)) [
    | inl missing ↦ (ground arith, ground arith)
    | inr (t, found) ↦ (ground arith, ground arith)
  ]

  mark_all-Same :
      (ids : List String) (work : Work) → Same work.wf (mark_all seconds now ids work).wf
  unfolding mark_all
  mark_all-Same [] work = (refl, refl)
  mark_all-Same (id ∷ ids) work =
      Same-trans work.wf (mark_one seconds now id work).wf
        (mark_all seconds now ids (mark_one seconds now id work)).wf (mark_one-Same id work)
        (mark_all-Same ids (mark_one seconds now id work))

  start_running-Same :
      (ready : List String) (work : Work) → Same work.wf (start_running now ready work).wf
  unfolding start_running
  start_running-Same ready work =
      elim (Bool-cases
        (any_ready ready && WorkflowStatus.is_status work.wf.status WorkflowStatus.pending)) [
          | inl starts ↦ rw starts (set_workflow_status-Same WorkflowStatus.running work)
          | inr stays ↦ rw stays (refl, refl)
        ]

  submit_work-Same : (work : Work) → Same work.wf (submit_work seconds now work).wf
  unfolding submit_work mark_ready_tasks
  submit_work-Same work =
      let ready = recompute_ready_tasks work.wf.tasks work.wf.tasks in
      Same-trans work.wf (start_running now ready work).wf
        (mark_all seconds now ready (start_running now ready work)).wf
        (start_running-Same ready work) (mark_all-Same ready (start_running now ready work))

new_workflow-name :
    (new_uuid : ℕ → String) (now : ℤ) (n : ℕ) (tenant_id name : String) (tasks : List Task)
    (w : Workflow)
    → new_workflow new_uuid now n tenant_id name tasks ≡ ok w
    → w.name ≡ name
unfolding new_workflow assemble
new_workflow-name new_uuid now n tenant_id name tasks w e =
    let (ix, indexed, after) = >>=-eq-ok (register new_uuid tasks _) _ e in
    let (m, resolved, judged) = >>=-eq-ok (resolve_dependencies ix.by_name ix.by_id) _ after in
    ap (λ (z : Workflow). z.name)
      (sym (
        of_verdict-same (validate_tasks_cycle m)
          (assemble new_uuid now tenant_id name ix.next_uuid m) w judged))

module _ (new_uuid : ℕ → String) (seconds : ℤ → ℤ) (now : ℤ) where
  abbrev answer_of : Option Workflow → Result Code WorkflowStatusResponse
  answer_of none = err not_found
  answer_of (some w) = ok (workflow_response w)

  get-lookup :
      (j : String) (e : Engine) → get_workflow_answer j e ≡ answer_of (lookup j e.workflows)
  unfolding get_workflow_answer get_workflow
  get-lookup j e = elim (Option-cases (lookup j e.workflows)) [
    | inl missing ↦ ground arith
    | inr (w, found) ↦ ground arith
  ]

  get-submitted :
      (w : Workflow) (e : Engine) (j : String)
      → get_workflow_answer j (submit_workflow seconds now w e).0 ≡ (
          if w.id == j
          then ok (workflow_response (submit_work seconds now (start w)).wf)
          else get_workflow_answer j e)
  unfolding submit_workflow commit
  get-submitted w e j =
      get-lookup j (submit_workflow seconds now w e).0
      ∙ ap answer_of (lookup-insert w.id j (submit_work seconds now (start w)).wf e.workflows)
      ∙ elim (Bool-cases (w.id == j)) [
        | inl own ↦ rw own refl
        | inr other ↦ rw other (sym (get-lookup j e))
      ]

  -- When `SubmitWorkflow` answers an id, `GetWorkflow` of that id answers a workflow that has it and
  -- the name that was asked for, and of any other id what it answered before.
  pub submit_workflow_answer-get :
      (n : ℕ) (name : String) (tasks : List TaskSubmission) (e e' : Engine) (id j : String)
      → submit_workflow_answer new_uuid seconds now n name tasks e ≡ ok (id, e')
      → (r : WorkflowStatusResponse) × (r.workflow_id ≡ id)
        × (r.name ≡ name)
        × (get_workflow_answer j e' ≡ (if id == j then ok r else get_workflow_answer j e))
  unfolding submit_workflow_answer submit_workflow workflow_response
  submit_workflow_answer-get n name tasks e e' id j answered =
      elim (Result-cases (new_workflow new_uuid now n "admin" name (domain_tasks tasks))) [
        | inr (failure, refused) ↦
            absurd (err-ne-ok _ (id, e') (rw (refused, submit_workflow_answer) at answered))
        | inl (w, made) ↦
            let same = ok_injective _ (id, e') (rw (made, submit_workflow_answer) at answered) in
            let same_id : w.id ≡ id = ap (λ (p : String × Engine). p.0) same in
            let same_engine : (submit_workflow seconds now w e).0 ≡ e' =
              ap (λ (p : String × Engine). p.1) same in
            let (kept_id, kept_name) = submit_work-Same seconds now (start w) in
            (
              workflow_response (submit_work seconds now (start w)).wf,
              kept_id ∙ same_id,
              kept_name ∙ new_workflow-name new_uuid now n "admin" name (domain_tasks tasks) w made,
              rw (← same_engine, ← same_id) (get-submitted w e j),
            )
      ]
