-- ===== src/Domain/WorkflowStatus.antt =====
-- common/domain/workflow_status.go: the state machine of a whole workflow.
use distributed_workflow_orc.Prelude.{
  ℕ, ◌≡◌, ◌≢◌, Bool, true, false, ◌||◌, Option, none, some, String, arith, eqb, if◌then◌else◌,
}
use distributed_workflow_orc.Domain.TaskStatus.{
  TransitError, transit_to_same_status, transit_not_allowed,
}

pub data WorkflowStatus : Type 0 where
  pending running succeeded failed cancelled : WorkflowStatus

abbrev pub code : WorkflowStatus → ℕ
code pending = 0
code running = 1
code succeeded = 2
code failed = 3
code cancelled = 4

-- `==` on two statuses.
abbrev pub is_status : WorkflowStatus → WorkflowStatus → Bool
is_status s t = eqb (code s) (code t)

-- `workflowStatusesGraph`; an entry that the literal leaves out is `false`.
abbrev pub workflow_statuses_graph : WorkflowStatus → WorkflowStatus → Bool
workflow_statuses_graph pending running = true
workflow_statuses_graph pending cancelled = true
workflow_statuses_graph running succeeded = true
workflow_statuses_graph running failed = true
workflow_statuses_graph running cancelled = true
workflow_statuses_graph _ _ = false

unfoldable pub can_transit_to : WorkflowStatus → WorkflowStatus → Option TransitError
can_transit_to s new_status =
    if is_status s new_status
    then some transit_to_same_status
    else if workflow_statuses_graph s new_status
    then none
    else some transit_not_allowed

unfoldable pub is_terminated : WorkflowStatus → Bool
is_terminated s = is_status s succeeded || is_status s failed || is_status s cancelled

unfoldable pub to_string : WorkflowStatus → String
to_string pending = "PENDING"
to_string running = "RUNNING"
to_string succeeded = "SUCCEEDED"
to_string failed = "FAILED"
to_string cancelled = "CANCELLED"

-- A terminated status admits no move.
pub terminated_absorbs : (s t : WorkflowStatus) → is_terminated s ≡ true → can_transit_to s t ≢ none
unfolding is_terminated can_transit_to
terminated_absorbs s t h k = ground arith
