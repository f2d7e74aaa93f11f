-- ===== src/Cluster/Registry.antt =====
-- infrastructure/control-plane/orchestration/registry.go. Times are in nanoseconds. The closures that
-- `Register` gives to the retry queue are named by their key, and a hook by its name.
use distributed_workflow_orc.Prelude.{
  ℕ, ◌+◌, ◌-◌, ◌≡◌, ◌≤◌, refl, ◌∙◌, inl, inr, Bool, true, false, not, Option, none, some, List, [],
  ◌∷◌, ◌++◌, String, Map, lookup, insert, All, arith, ltb, if◌then◌else◌, eq_refl, Option-cases,
  Bool-cases, map, ap, ◌==◌,
}
use distributed_workflow_orc.Prelude.Int.{ℤ, pos, add_ℤ}
use distributed_workflow_orc.Prelude.Results.{Result, ok, err}
use distributed_workflow_orc.Prelude.Maps.{lookup-insert}
use distributed_workflow_orc.Cluster.WorkerNode.{
  WorkerNode, WorkerStatus, alive, suspect, dead, is_status, is_alive, set_alive, set_suspect,
  set_dead,
}
use distributed_workflow_orc.Cluster.RetryQueue
use distributed_workflow_orc.Cluster.RetryQueue.{RetryQueue, new_retry_queue}

abbrev pub heartbeat_grace_period : ℕ
heartbeat_grace_period = 15000000000

-- `hook_calls` is what the hooks were called with, in order.
pub record WorkerRegistry : Type 0 where
  pub workers : Map WorkerNode
  pub retry_queue : RetryQueue
  pub on_dead_hooks : List String
  pub hook_calls : List (String × String)

unfoldable pub new_worker_registry : WorkerRegistry
new_worker_registry = record {
  workers = [];
  retry_queue = new_retry_queue;
  on_dead_hooks = [];
  hook_calls = [];
}

-- The entry that `Register` writes: `existing` with the new data, or the new node.
unfoldable pub registered : ℕ → WorkerNode → Option WorkerNode → WorkerNode
registered now w none = record w { last_heartbeat = now }
registered now w (some existing) = set_alive (record existing {
  address = w.address;
  labels = w.labels;
  capacity = w.capacity;
  capabilities = w.capabilities;
  last_heartbeat = now;
})

unfoldable pub register : ℕ → WorkerNode → WorkerRegistry → WorkerRegistry
unfolding registered RetryQueue.push
register now w r = record r {
  workers = insert w.id (registered now w (lookup w.id r.workers)) r.workers;
  retry_queue =
      RetryQueue.push now (record { key = w.id; timeout = heartbeat_grace_period }) r.retry_queue;
}

unfoldable pub on_worker_dead : String → WorkerRegistry → WorkerRegistry
on_worker_dead hook r = record r { on_dead_hooks = r.on_dead_hooks ++ hook ∷ [] }

-- The error is the id of the worker that was not found.
unfoldable pub heartbeat : ℕ → String → ℤ → WorkerRegistry → Result String WorkerRegistry
heartbeat now worker_id running_tasks r = elim (lookup worker_id r.workers) [
  | none ↦ err worker_id
  | some wnode ↦
      let beaten = record wnode { running_tasks = running_tasks; last_heartbeat = now } in
      ok (record r { workers = insert worker_id (set_alive beaten) r.workers })
]

-- `AliveWorkers`: the loop over the workers.
unfoldable pub alive_workers : Map WorkerNode → List WorkerNode
unfolding is_alive
alive_workers [] = []
alive_workers ((k, w) ∷ m) = let rest = alive_workers m in if is_alive w then w ∷ rest else rest

unfoldable pub increment_running : String → WorkerRegistry → WorkerRegistry
increment_running worker_id r = elim (lookup worker_id r.workers) [
  | none ↦ r
  | some wnode ↦ record r {
    workers =
        insert worker_id (record wnode { running_tasks = add_ℤ wnode.running_tasks (pos 1) })
          r.workers;
  }
]

unfoldable pub address_of : String → WorkerRegistry → String
address_of worker_id r = elim (lookup worker_id r.workers) [
  | none ↦ ""
  | some wnode ↦ wnode.address
]

-- The `switch` of `updateWorkerStatus`.
unfoldable pub set_status : WorkerStatus → WorkerNode → WorkerNode
set_status alive w = set_alive w
set_status suspect w = set_suspect w
set_status dead w = set_dead w

-- The hooks that a status calls.
unfoldable pub calls_for : WorkerStatus → String → List String → List (String × String)
calls_for dead worker_id hooks = map (λ hook. (hook, worker_id)) hooks
calls_for _ worker_id hooks = []

unfoldable pub update_worker_status : String → WorkerStatus → WorkerRegistry → WorkerRegistry
unfolding set_status calls_for
update_worker_status worker_id status r = elim (lookup worker_id r.workers) [
  | none ↦ r
  | some wnode ↦ record r {
    workers = insert worker_id (set_status status wnode) r.workers;
    hook_calls = r.hook_calls ++ calls_for status worker_id r.on_dead_hooks;
  }
]

-- `checkHeartbeat`: the registry, and whether the trigger is to run again.
unfoldable pub check_heartbeat : ℕ → String → WorkerRegistry → WorkerRegistry × Bool
unfolding update_worker_status
check_heartbeat now worker_id r = elim (lookup worker_id r.workers) [
  | none ↦ (r, false)
  | some worker ↦
      if is_status worker.status dead
      then (r, false)
      else if ltb heartbeat_grace_period (now - worker.last_heartbeat)
      then (if is_status worker.status alive
          then (update_worker_status worker_id suspect r, true)
          else (update_worker_status worker_id dead r, false))
      else (update_worker_status worker_id alive r, true)
]

-- The status of a worker after a check, from the one before and whether its heartbeat is late.
abbrev pub after_check : Bool → WorkerStatus → WorkerStatus
after_check late dead = dead
after_check true alive = suspect
after_check true suspect = dead
after_check false _ = alive

abbrev is_late : ℕ → WorkerNode → Bool
is_late now w = ltb heartbeat_grace_period (now - w.last_heartbeat)

append_nil : (xs : List (String × String)) → xs ++ [] ≡ xs
append_nil [] = refl
append_nil (x ∷ xs) = ap (λ ys. x ∷ ys) (append_nil xs)

set_status-status : (s : WorkerStatus) (w : WorkerNode) → set_status s w ≡ record w { status = s }
unfolding set_status
set_status-status s w = ground arith

updated :
    (id : String) (s : WorkerStatus) (w : WorkerNode) (r : WorkerRegistry)
    → lookup id r.workers ≡ some w
    → (lookup id (update_worker_status id s r).workers ≡ some (record w { status = s }))
      × ((update_worker_status id s r).hook_calls ≡ r.hook_calls ++ calls_for s id r.on_dead_hooks)
unfolding update_worker_status set_status
updated id s w r known =
    rw (known, update_worker_status)
      (
        lookup-insert id id (set_status s w) r.workers
            ∙ rw (eq_refl id) (ap some (set_status-status s w)),
        refl,
      )

pub check_heartbeat-moves :
    (now : ℕ) (id : String) (w : WorkerNode) (r : WorkerRegistry)
    → lookup id r.workers ≡ some w
    → (lookup id (check_heartbeat now id r).0.workers
        ≡ some (record w { status = after_check (is_late now w) w.status }))
      × ((check_heartbeat now id r).1 ≡ not (is_status (after_check (is_late now w) w.status) dead))
      × ((check_heartbeat now id r).0.hook_calls
          ≡ r.hook_calls
            ++ (if is_status w.status dead
                then []
                else calls_for (after_check (is_late now w) w.status) id r.on_dead_hooks))
unfolding check_heartbeat update_worker_status set_status calls_for
check_heartbeat-moves now id w r known =
    rw (known, check_heartbeat)
      (ground (
        arith,
        append_nil r.hook_calls,
        updated id suspect w r known,
        updated id dead w r known,
        updated id alive w r known,
      ))

-- A heartbeat of a known worker, whatever its status, makes it ALIVE at once, with the time and the
-- number of tasks that it reports, and leaves the other workers; no hook is called. A check that comes
-- within the grace period leaves the worker as the heartbeat made it.
pub heartbeat-check :
    (now later : ℕ) (id other : String) (running : ℤ) (w : WorkerNode) (r : WorkerRegistry)
    → lookup id r.workers ≡ some w
    → (id == other) ≡ false
    → later ≤ now + heartbeat_grace_period
    → (r' : WorkerRegistry) × (heartbeat now id running r ≡ ok r')
      × (lookup id r'.workers
          ≡ some (record w { running_tasks = running; last_heartbeat = now; status = alive }))
      × (lookup other r'.workers ≡ lookup other r.workers)
      × (r'.hook_calls ≡ r.hook_calls)
      × (lookup id (check_heartbeat later id r').0.workers
          ≡ some (record w { running_tasks = running; last_heartbeat = now; status = alive }))
unfolding heartbeat
heartbeat-check now later id other running w r known apart soon =
    let beaten = record w { running_tasks = running; last_heartbeat = now; status = alive } in
    let r' = record r { workers = insert id beaten r.workers } in
    let in_time : is_late later beaten ≡ false = ground arith in
    let stored : lookup id r'.workers ≡ some beaten =
      rw (lookup-insert id id beaten r.workers, eq_refl id) refl in
    (
      r',
      rw (known, heartbeat) refl,
      stored,
      rw (lookup-insert id other beaten r.workers, apart) refl,
      refl,
      (check_heartbeat-moves later id beaten r' stored).0 ∙ rw in_time refl,
    )

-- `AliveWorkers` lists only workers that are ALIVE.
pub alive_workers-All : (m : Map WorkerNode) → All (λ w. is_alive w ≡ true) (alive_workers m)
unfolding alive_workers
alive_workers-All [] = tt
alive_workers-All ((k, w) ∷ m) = elim (Bool-cases (is_alive w)) [
  | inr idle ↦ rw (idle, alive_workers) (alive_workers-All m)
  | inl fit ↦ rw (fit, alive_workers) (fit, alive_workers-All m)
]

-- The address of a worker is the one that it registered with last.
pub register-AddressOf :
    (now : ℕ) (w : WorkerNode) (r : WorkerRegistry) → address_of w.id (register now w r) ≡ w.address
unfolding register registered address_of
register-AddressOf now w r =
    rw
      (
        lookup-insert w.id w.id (registered now w (lookup w.id r.workers)) r.workers,
        eq_refl w.id,
        address_of,
      )
      (elim (Option-cases (lookup w.id r.workers)) [
        | inl fresh ↦ rw fresh refl
        | inr (existing, known) ↦ rw known refl
      ])
