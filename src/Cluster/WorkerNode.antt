-- ===== src/Cluster/WorkerNode.antt =====
-- common/domain/wokrer.go.
use distributed_workflow_orc.Prelude.{ℕ, Bool, List, String, Map, eqb}
use distributed_workflow_orc.Prelude.Int.{ℤ}

pub data WorkerStatus : Type 0 where
  alive suspect dead : WorkerStatus

abbrev pub code : WorkerStatus → ℕ
code alive = 0
code suspect = 1
code dead = 2

abbrev pub is_status : WorkerStatus → WorkerStatus → Bool
is_status s t = eqb (code s) (code t)

-- `LastHeartbeat` is in nanoseconds.
pub record WorkerNode : Type 0 where
  pub id : String
  pub address : String
  pub labels : Map String
  pub capabilities : List String
  pub capacity : ℤ
  pub running_tasks : ℤ
  pub last_heartbeat : ℕ
  pub status : WorkerStatus

unfoldable pub is_alive : WorkerNode → Bool
is_alive w = is_status w.status alive

abbrev pub set_alive : WorkerNode → WorkerNode
set_alive w = record w { status = alive }

abbrev pub set_suspect : WorkerNode → WorkerNode
set_suspect w = record w { status = suspect }

abbrev pub set_dead : WorkerNode → WorkerNode
set_dead w = record w { status = dead }

unfoldable pub to_string : WorkerStatus → String
to_string alive = "ALIVE"
to_string suspect = "SUSPECT"
to_string dead = "DEAD"
