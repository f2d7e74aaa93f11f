-- ===== src/Engine/Notices.antt =====
-- infrastructure/control-plane/engine/engine.go: which workers `CancelWorkflow` tells of which tasks,
-- through `notifyWorkersOfCancellation`.
use distributed_workflow_orc.Prelude.{
  ℕ, ◌+◌, sym, ◌≡◌, refl, ◌∙◌, inl, inr, true, false, [], ◌∷◌, ◌++◌, List, String, Map, lookup,
  insert, none, some, Bool, arith, Bool-cases, Option-cases, if◌then◌else◌, ap, ◌==◌, ◌&&◌, eq_iff,
  is_some, ◌≤◌,
}
use distributed_workflow_orc.Prelude.Int.{ℤ}
use distributed_workflow_orc.Prelude.Results.{ok_injective, ok}
use distributed_workflow_orc.Domain.Task.{Task, is_finished}
use distributed_workflow_orc.Domain.Workflow.{Workflow}
use distributed_workflow_orc.Engine.State.{RunningTaskRef, start, set_workflow_status}
use distributed_workflow_orc.Engine.Cancel.{
  is_at_worker, refs_of, cancel_task_into, cancel_every, group_by_worker,
  notify_workers_of_cancellation,
}
use distributed_workflow_orc.Engine.Handlers.{
  Engine, cancel_workflow, cancel_workflow_work, commit, notify,
}
use distributed_workflow_orc.Engine.Effects.{is_held_by}

abbrev pub bit : Bool → ℕ
bit true = 1
bit false = 0

-- How often a text is in a list, and how often calls tell a worker of a task.
abbrev pub count_id : String → List String → ℕ
count_id task_id [] = 0
count_id task_id (x ∷ xs) = bit (x == task_id) + count_id task_id xs

abbrev pub count_told : String → String → Map (List String) → ℕ
count_told worker_id task_id [] = 0
count_told worker_id task_id ((k, ids) ∷ calls) =
    (if k == worker_id then count_id task_id ids else 0) + count_told worker_id task_id calls

-- How many tasks have an id and are with a worker.
abbrev pub count_held : String → String → Map Task → ℕ
count_held worker_id task_id [] = 0
count_held worker_id task_id ((k, t) ∷ m) =
    bit (is_held_by worker_id t && t.id == task_id) + count_held worker_id task_id m

abbrev is_ref : String → String → RunningTaskRef → Bool
is_ref worker_id task_id r = r.worker_id == worker_id && r.task_id == task_id

abbrev count_refs : String → String → List RunningTaskRef → ℕ
count_refs worker_id task_id [] = 0
count_refs worker_id task_id (r ∷ refs) =
    bit (is_ref worker_id task_id r) + count_refs worker_id task_id refs

count_refs-append :
    (w u : String) (xs ys : List RunningTaskRef)
    → count_refs w u (xs ++ ys) ≡ count_refs w u xs + count_refs w u ys
count_refs-append w u [] ys = omega arith
count_refs-append w u (x ∷ xs) ys = omega (arith, count_refs-append w u xs ys)

count_id-append :
    (u : String) (xs ys : List String) → count_id u (xs ++ ys) ≡ count_id u xs + count_id u ys
count_id-append u [] ys = omega arith
count_id-append u (x ∷ xs) ys = omega (arith, count_id-append u xs ys)

-- A new entry, and a longer one, count for one more.
count_told-insert_new :
    (w u worker_id task_id : String) (m : Map (List String))
    → lookup worker_id m ≡ none
    → count_told w u (insert worker_id (task_id ∷ []) m)
      ≡ count_told w u m + bit (worker_id == w && task_id == u)
unfolding insert
count_told-insert_new w u worker_id task_id [] h = ground arith
count_told-insert_new w u worker_id task_id ((k, ids) ∷ m) h =
    ground (arith, count_told-insert_new w u worker_id task_id m)

count_told-insert_more :
    (w u worker_id task_id : String) (ids : List String) (m : Map (List String))
    → lookup worker_id m ≡ some ids
    → count_told w u (insert worker_id (ids ++ task_id ∷ []) m)
      ≡ count_told w u m + bit (worker_id == w && task_id == u)
unfolding insert
count_told-insert_more w u worker_id task_id ids [] h = absurd (cc)
count_told-insert_more w u worker_id task_id ids ((k, old) ∷ m) h = ground (
  arith,
  eq_iff k worker_id,
  count_id-append u ids (task_id ∷ []),
  count_told-insert_more w u worker_id task_id ids m,
)

group_by_worker-count :
    (w u : String) (refs : List RunningTaskRef) (m : Map (List String))
    → count_told w u (group_by_worker refs m) ≡ count_told w u m + count_refs w u refs
unfolding group_by_worker
group_by_worker-count w u [] m = omega arith
group_by_worker-count w u (r ∷ refs) m = elim (Option-cases (lookup r.worker_id m)) [
  | inl missing ↦
      rw (missing, group_by_worker)
        (omega (
          arith,
          group_by_worker-count w u refs (insert r.worker_id (r.task_id ∷ []) m),
          count_told-insert_new w u r.worker_id r.task_id m missing,
        ))
  | inr (ids, found) ↦
      rw (found, group_by_worker)
        (omega (
          arith,
          group_by_worker-count w u refs (insert r.worker_id (ids ++ r.task_id ∷ []) m),
          count_told-insert_more w u r.worker_id r.task_id ids m found,
        ))
]

notify_workers_of_cancellation-count :
    (w u : String) (refs : List RunningTaskRef)
    → count_told w u (notify_workers_of_cancellation true refs) ≡ count_refs w u refs
unfolding notify_workers_of_cancellation
notify_workers_of_cancellation-count w u [] = refl
notify_workers_of_cancellation-count w u (r ∷ refs) =
    group_by_worker-count w u (r ∷ refs) [] ∙ omega arith

refs_of-count :
    (w u : String) (t : Task) → count_refs w u (refs_of t) ≡ bit (is_held_by w t && t.id == u)
unfolding refs_of is_at_worker
refs_of-count w u t = ground arith

finished_held : (w : String) (t : Task) → is_finished t ≡ true → is_held_by w t ≡ false
unfolding is_finished
finished_held w t h = ground arith

cancel_every-count :
    (now : ℤ) (w u : String) (m : Map Task)
    → count_refs w u (cancel_every now m).running ≡ count_held w u m
unfolding cancel_every cancel_task_into
cancel_every-count now w u [] = refl
cancel_every-count now w u ((k, t) ∷ m) = elim (Bool-cases (is_finished t)) [
  | inl over ↦
      rw (over, cancel_every)
        (rw (finished_held w t over) (omega (arith, cancel_every-count now w u m)))
  | inr open_task ↦
      rw (open_task, cancel_every)
        (omega (
          arith,
          count_refs-append w u (refs_of t) (cancel_every now m).running,
          refs_of-count w u t,
          cancel_every-count now w u m,
        ))
]

-- How many calls a worker gets.
abbrev pub count_calls : String → Map (List String) → ℕ
count_calls worker_id [] = 0
count_calls worker_id ((k, ids) ∷ calls) = bit (k == worker_id) + count_calls worker_id calls

count_calls-insert :
    (w k : String) (ids : List String) (m : Map (List String))
    → count_calls w (insert k ids m)
      ≡ count_calls w m + (if is_some (lookup k m) then 0 else bit (k == w))
unfolding insert
count_calls-insert w k ids [] = ground arith
count_calls-insert w k ids ((j, old) ∷ m) = ground (arith, count_calls-insert w k ids m)

count_calls-missing : (w : String) (m : Map (List String)) → lookup w m ≡ none → count_calls w m ≡ 0
count_calls-missing w [] h = refl
count_calls-missing w ((k, ids) ∷ m) h = ground (arith, count_calls-missing w m)

count_calls-insert-le :
    (w k : String) (ids : List String) (m : Map (List String))
    → count_calls w m ≤ 1
    → count_calls w (insert k ids m) ≤ 1
count_calls-insert-le w k ids m one =
    ground (arith, eq_iff k w, count_calls-insert w k ids m, count_calls-missing w m)

group_by_worker-one :
    (w : String) (refs : List RunningTaskRef) (m : Map (List String))
    → count_calls w m ≤ 1
    → count_calls w (group_by_worker refs m) ≤ 1
unfolding group_by_worker
group_by_worker-one w [] m one = one
group_by_worker-one w (r ∷ refs) m one = elim (Option-cases (lookup r.worker_id m)) [
  | inl missing ↦
      rw (missing, group_by_worker)
        (group_by_worker-one w refs (insert r.worker_id (r.task_id ∷ []) m)
          (count_calls-insert-le w r.worker_id (r.task_id ∷ []) m one))
  | inr (ids, found) ↦
      rw (found, group_by_worker)
        (group_by_worker-one w refs (insert r.worker_id (ids ++ r.task_id ∷ []) m)
          (count_calls-insert-le w r.worker_id (ids ++ r.task_id ∷ []) m one))
]

notify_workers_of_cancellation-one :
    (w : String) (refs : List RunningTaskRef)
    → count_calls w (notify_workers_of_cancellation true refs) ≤ 1
unfolding notify_workers_of_cancellation
notify_workers_of_cancellation-one w [] = omega arith
notify_workers_of_cancellation-one w (r ∷ refs) = group_by_worker-one w (r ∷ refs) [] (omega arith)

count_told-append :
    (w u : String) (xs ys : Map (List String))
    → count_told w u (xs ++ ys) ≡ count_told w u xs + count_told w u ys
count_told-append w u [] ys = omega arith
count_told-append w u ((k, ids) ∷ xs) ys = omega (arith, count_told-append w u xs ys)

count_calls-append :
    (w : String) (xs ys : Map (List String))
    → count_calls w (xs ++ ys) ≡ count_calls w xs + count_calls w ys
count_calls-append w [] ys = omega arith
count_calls-append w ((k, ids) ∷ xs) ys = omega (arith, count_calls-append w xs ys)

module _ (seconds : ℤ → ℤ) (now : ℤ) where
  cancel_workflow_work-running :
      (wf : Workflow)
      → (cancel_workflow_work seconds now (start wf)).running ≡ (cancel_every now wf.tasks).running
  unfolding cancel_workflow_work set_workflow_status
  cancel_workflow_work-running wf = refl

  cancel_workflow-notified :
      (e e' : Engine) (id : String) (wf : Workflow)
      → e.has_notifier ≡ true
      → lookup id e.workflows ≡ some wf
      → cancel_workflow seconds now id e ≡ ok e'
      → e'.notified
        ≡ e.notified ++ notify_workers_of_cancellation true (cancel_every now wf.tasks).running
  unfolding cancel_workflow commit notify
  cancel_workflow-notified e e' id wf notifies known answer =
      let result = ok_injective _ e' (rw (known, cancel_workflow) at answer) in
      ap (λ (z : Engine). z.notified) (sym result)
      ∙ rw (notifies, cancel_workflow_work-running wf) refl

  -- With a notifier, `CancelWorkflow` that returns no error tells a worker of a task id as often as
  -- tasks of the workflow had that id, were assigned to that worker and were DISPATCHED or RUNNING:
  -- so, where no two tasks have one id, of each task that the worker had, once, and of nothing else. All
  -- that a worker is told goes in one call.
  pub cancel_workflow-tells :
      (e e' : Engine) (id worker_id task_id : String) (wf : Workflow)
      → e.has_notifier ≡ true
      → lookup id e.workflows ≡ some wf
      → cancel_workflow seconds now id e ≡ ok e'
      → (count_told worker_id task_id e'.notified
          ≡ count_told worker_id task_id e.notified + count_held worker_id task_id wf.tasks)
        × (count_calls worker_id e'.notified ≤ count_calls worker_id e.notified + 1)
  cancel_workflow-tells e e' id worker_id task_id wf notifies known answer =
      let refs = (cancel_every now wf.tasks).running in
      let calls = notify_workers_of_cancellation true refs in
      rw (cancel_workflow-notified e e' id wf notifies known answer) (
        omega (
          arith,
          count_told-append worker_id task_id e.notified calls,
          notify_workers_of_cancellation-count worker_id task_id refs,
          cancel_every-count now worker_id task_id wf.tasks,
        ),
        omega (
          arith,
          count_calls-append worker_id e.notified calls,
          notify_workers_of_cancellation-one worker_id refs,
        ),
      )
