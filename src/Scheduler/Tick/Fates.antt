-- ===== src/Scheduler/Tick/Fates.antt =====
-- infrastructure/control-plane/scheduler/scheduler.go: what becomes of each job of a tick's batch.
use distributed_workflow_orc.Prelude.{◌≡◌, Bool, Option, none, some, List, [], ◌∷◌, ◌++◌, String}
use distributed_workflow_orc.Prelude.Results.{ok, err}
use distributed_workflow_orc.Cluster.WorkerNode.{WorkerNode}
use distributed_workflow_orc.Cluster.Registry.{WorkerRegistry, increment_running}
use distributed_workflow_orc.Scheduler.Queue.{DispatchRequest, TaskRef, Job}
use distributed_workflow_orc.Scheduler.Assignment.{Floats, SortSlice, select_worker}
use distributed_workflow_orc.Scheduler.Tick.{Tick, DispatchCall}

-- What becomes of a job: no worker is chosen for it; its call of `Dispatch` fails; the call succeeds,
-- but the job has no `OnDispatched`; or the call succeeds and `OnDispatched` is run.
pub data Fate : Type 0 where
  unplaced : Fate
  undelivered unset : String → Fate
  taken : TaskRef → String → Fate

abbrev pub called_for : Fate → Job → List DispatchCall
called_for unplaced job = []
called_for (undelivered worker_id) job = (worker_id, job.request) ∷ []
called_for (unset worker_id) job = (worker_id, job.request) ∷ []
called_for (taken ref worker_id) job = (worker_id, job.request) ∷ []

abbrev pub kept_for : Fate → Job → List Job
kept_for (taken ref worker_id) job = []
kept_for _ job = job ∷ []

abbrev pub assigned_for : Fate → List (TaskRef × String)
assigned_for (taken ref worker_id) = (ref, worker_id) ∷ []
assigned_for _ = []

abbrev pub Fates : Type 0
Fates = List (Job × Fate)

abbrev pub calls_of : Fates → List DispatchCall
calls_of [] = []
calls_of ((job, f) ∷ fs) = called_for f job ++ calls_of fs

abbrev pub kept_of : Fates → List Job
kept_of [] = []
kept_of ((job, f) ∷ fs) = kept_for f job ++ kept_of fs

abbrev pub assigned_of : Fates → List (TaskRef × String)
assigned_of [] = []
assigned_of ((job, f) ∷ fs) = assigned_for f ++ assigned_of fs

-- `IncrementRunning` for each assignment, in order.
abbrev pub incremented : List (TaskRef × String) → WorkerRegistry → WorkerRegistry
incremented [] r = r
incremented ((ref, worker_id) ∷ assignments) r =
    incremented assignments (increment_running worker_id r)

-- What the jobs of given fates do to a tick's state.
pub record HasHandled (fs : Fates) (s s' : Tick) : Type 0 where
  pub queue : s'.queue.items ≡ s.queue.items ++ kept_of fs
  pub calls : s'.calls ≡ s.calls ++ calls_of fs
  pub assigned : s'.assigned ≡ s.assigned ++ assigned_of fs
  pub registry : s'.registry ≡ incremented (assigned_of fs) s.registry

module _ (dispatch : List DispatchCall → String → DispatchRequest → Option Bool) (floats : Floats)
    (sort : SortSlice) where
  abbrev pub fate : List WorkerNode → List DispatchCall → Job → Fate
  fate workers calls job = elim (select_worker floats sort workers job.request.type) [
    | err e ↦ unplaced
    | ok worker_id ↦ elim (dispatch calls worker_id job.request) [
      | none ↦ undelivered worker_id
      | some accepted ↦ elim job.on_dispatched [
        | none ↦ unset worker_id
        | some ref ↦ taken ref worker_id
      ]
    ]
  ]

  -- The fates of a batch; each call of `Dispatch` comes after those of the jobs in front.
  abbrev pub fates : List WorkerNode → List DispatchCall → List Job → Fates
  fates workers calls [] = []
  fates workers calls (job ∷ jobs) =
      let f = fate workers calls job in (job, f) ∷ fates workers (calls ++ called_for f job) jobs

  -- One job, by its fate.
  abbrev Handled : Job → Fate → Tick → Tick → Type 0
  Handled job f s s' =
      (s'.queue.items ≡ s.queue.items ++ kept_for f job)
      × (s'.calls ≡ s.calls ++ called_for f job)
      × (s'.assigned ≡ s.assigned ++ assigned_for f)
      × (s'.registry ≡ incremented (assigned_for f) s.registry)
