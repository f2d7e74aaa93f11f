-- ===== src/Domain/TaskStatus.antt =====
-- common/domain/task_status.go: the state machine of one task.
use distributed_workflow_orc.Prelude.{
  ℕ, ◌<◌, ◌≡◌, ◌⊎◌, Bool, true, false, ◌||◌, Option, none, some, String, arith, eqb, if◌then◌else◌,
}

pub data TaskStatus : Type 0 where
  pending ready dispatched running succeeded failed retrying cancelled unknown : TaskStatus

-- The byte behind each constant.
abbrev pub code : TaskStatus → ℕ
code pending = 0
code ready = 1
code dispatched = 2
code running = 3
code succeeded = 4
code failed = 5
code retrying = 6
code cancelled = 7
code unknown = 8

-- `==` on two statuses.
abbrev pub is_status : TaskStatus → TaskStatus → Bool
is_status s t = eqb (code s) (code t)

pub data TransitError : Type 0 where
  transit_to_same_status transit_not_allowed : TransitError

-- `taskStatusesGraph`; an entry that the literal leaves out is `false`.
abbrev pub task_statuses_graph : TaskStatus → TaskStatus → Bool
task_statuses_graph pending ready = true
task_statuses_graph pending cancelled = true
task_statuses_graph ready dispatched = true
task_statuses_graph ready cancelled = true
task_statuses_graph dispatched running = true
task_statuses_graph dispatched succeeded = true
task_statuses_graph dispatched failed = true
task_statuses_graph dispatched cancelled = true
task_statuses_graph dispatched ready = true
task_statuses_graph running succeeded = true
task_statuses_graph running cancelled = true
task_statuses_graph running failed = true
task_statuses_graph running ready = true
task_statuses_graph failed retrying = true
task_statuses_graph retrying dispatched = true
task_statuses_graph retrying running = true
task_statuses_graph _ _ = false

-- `none` is Go's nil error.
unfoldable pub can_transit_to : TaskStatus → TaskStatus → Option TransitError
can_transit_to s new_status =
    if is_status s new_status
    then some transit_to_same_status
    else if task_statuses_graph s new_status
    then none
    else some transit_not_allowed

unfoldable pub is_terminated : TaskStatus → Bool
is_terminated s = is_status s succeeded || is_status s failed || is_status s cancelled

unfoldable pub to_string : TaskStatus → String
to_string pending = "PENDING"
to_string ready = "READY"
to_string dispatched = "DISPATCHED"
to_string running = "RUNNING"
to_string succeeded = "SUCCEEDED"
to_string failed = "FAILED"
to_string retrying = "RETRYING"
to_string cancelled = "CANCELLED"
to_string unknown = "UNKNOWN"

-- The statuses that the engine and the workers ask for: all but RETRYING, PENDING and UNKNOWN.
abbrev pub is_target : TaskStatus → Bool
is_target pending = false
is_target retrying = false
is_target unknown = false
is_target _ = true

-- A terminated status admits no move, but for that of a failed task to RETRYING.
pub terminated_only_retries :
    (s t : TaskStatus)
    → is_terminated s ≡ true
    → can_transit_to s t ≡ none
    → (s ≡ failed) × (t ≡ retrying)
unfolding is_terminated can_transit_to
terminated_only_retries s t h k = ground arith

-- How many attempts apart, a task's place in its life; a move of an attempt raises it.
abbrev pub rank : TaskStatus → ℕ
rank pending = 0
rank ready = 1
rank dispatched = 2
rank running = 3
rank _ = 4

-- A move to a status that the engine asks for goes forward, takes a task back to READY from a
-- worker, or takes a RETRYING one to a worker.
pub can_transit_to-rank :
    (s t : TaskStatus)
    → can_transit_to s t ≡ none
    → is_target t ≡ true
    → (rank s < rank t)
      ⊎ ((t ≡ ready) × ((s ≡ dispatched) ⊎ (s ≡ running)))
      ⊎ ((s ≡ retrying) × ((t ≡ dispatched) ⊎ (t ≡ running)))
unfolding can_transit_to
can_transit_to-rank s t h k = ground arith
