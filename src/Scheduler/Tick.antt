-- ===== src/Scheduler/Tick.antt =====
-- infrastructure/control-plane/scheduler/scheduler.go: one tick, which hands the jobs of a batch to
-- workers or puts them back.
pub mod Fates
use distributed_workflow_orc.Prelude.{
  ℕ, ◌+◌, ◌≡◌, refl, sym, subst, ◌∙◌, inl, inr, Bool, Option, none, some, List, [], ◌∷◌, ◌++◌,
  String, arith, length, Option-cases, ap, length-append,
}
use distributed_workflow_orc.Prelude.Results.{ok, err, Result-cases}
use distributed_workflow_orc.Cluster.WorkerNode.{WorkerNode}
use distributed_workflow_orc.Cluster.Registry.{WorkerRegistry, alive_workers, increment_running}
use distributed_workflow_orc.Scheduler.Queue.{
  DispatchRequest, TaskRef, Job, ReadyQueue, push, pop_batch, pop_batch-append,
}
use distributed_workflow_orc.Scheduler.Assignment.{Floats, SortSlice, select_worker}

-- A call of `Dispatch`: the worker and the request.
abbrev pub DispatchCall : Type 0
DispatchCall = String × DispatchRequest

-- What a tick works on: the queue and the registry, with the calls of `Dispatch` and the runs of
-- `OnDispatched` so far, in order.
pub record Tick : Type 0 where
  pub queue : ReadyQueue
  pub registry : WorkerRegistry
  pub calls : List DispatchCall
  pub assigned : List (TaskRef × String)

pub data CommitError : Type 0 where
  failed_to_commit no_on_dispatched : String → CommitError

abbrev push_back : Job → Tick → Tick
push_back job s = record s { queue = push job s.queue }

abbrev after_commit : String → Job → Tick × Option CommitError → Tick
after_commit worker_id job (s, some e) = push_back job s
after_commit worker_id job (s, none) = record s {
  registry = increment_running worker_id s.registry;
}

-- `dispatch` is the remote call, which may answer each call in its own way, as it is given the calls
-- before: `none` for its error, or the field `Accepted` of the answer, which the source does not read.
module _ (dispatch : List DispatchCall → String → DispatchRequest → Option Bool) where
  unfoldable pub commit_assignment : Job → String → Tick → Tick × Option CommitError
  commit_assignment job worker_id s =
      let called = record s { calls = s.calls ++ (worker_id, job.request) ∷ [] } in
      elim (dispatch s.calls worker_id job.request) [
        | none ↦ (called, some (failed_to_commit job.id))
        | some accepted ↦ elim job.on_dispatched [
          | none ↦ (called, some (no_on_dispatched job.id))
          | some ref ↦ (record called { assigned = called.assigned ++ (ref, worker_id) ∷ [] }, none)
        ]
      ]

  module _ (floats : Floats) (sort : SortSlice) where
    -- The body of the loop of `assignOnce`.
    unfoldable pub assign_job : List WorkerNode → Job → Tick → Tick
    unfolding select_worker commit_assignment increment_running push
    assign_job workers job s = elim (select_worker floats sort workers job.request.type) [
      | err e ↦ push_back job s
      | ok worker_id ↦ after_commit worker_id job (commit_assignment job worker_id s)
    ]

    unfoldable pub assign_jobs : List WorkerNode → List Job → Tick → Tick
    unfolding assign_job
    assign_jobs workers [] s = s
    assign_jobs workers (job ∷ jobs) s = assign_jobs workers jobs (assign_job workers job s)

    unfoldable pub assign_once : Tick → Tick
    unfolding pop_batch assign_jobs alive_workers
    assign_once s =
        let (ready_jobs, rest) = pop_batch 50 s.queue in
        assign_jobs (alive_workers s.registry.workers) ready_jobs (record s { queue = rest })
