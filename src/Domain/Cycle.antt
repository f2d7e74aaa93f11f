-- ===== src/Domain/Cycle.antt =====
-- common/domain/workflow.go: the colouring search for a cycle.
pub mod Graph
pub mod Colouring
use distributed_workflow_orc.Prelude.{
  ℕ, zero, suc, true, false, none, some, List, [], ◌∷◌, String, Map, lookup, if◌then◌else◌, length,
  eqb, ◌==◌,
}
use distributed_workflow_orc.Domain.Task.{Task}

-- `map[string]byte`: 0 for a key that is not there.
abbrev pub Colors : Type 0
Colors = String → ℕ

abbrev pub paint : Colors → String → ℕ → Colors
paint colors k c j = if k == j then c else colors j

-- `crash` is the nil pointer that `tasks[taskID]` yields for an id that is not there.
pub data Search : Type 0 where
  clear : Colors → Search
  cycle : Search
  crash : Search
  out_of_fuel : Search

-- `if err != nil { return err }` behind a search, before the statements that follow.
abbrev pub and_then : Search → (Colors → Search) → Search
and_then (clear colors) next = next colors
and_then cycle next = cycle
and_then crash next = crash
and_then out_of_fuel next = out_of_fuel

-- The loop over `DependsOn`, with the recursive call `visit` as an argument.
unfoldable pub scan_deps : (String → Colors → Search) → List String → Colors → Search
scan_deps visit [] colors = clear colors
scan_deps visit (task ∷ deps) colors = elim (eqb (colors task) 1) [
  | true ↦ cycle
  | false ↦ elim (eqb (colors task) 0) [
    | false ↦ scan_deps visit deps colors
    | true ↦ and_then (visit task colors) (scan_deps visit deps)
  ]
]

-- The last statement, `colors[taskID] = 2`.
unfoldable pub blacken : String → Search → Search
blacken task_id (clear colors) = clear (paint colors task_id 2)
blacken task_id other = other

unfoldable pub has_cycle : ℕ → Map Task → String → Colors → Search
unfolding scan_deps blacken
has_cycle zero tasks task_id colors = out_of_fuel
has_cycle (suc fuel) tasks task_id colors = elim (lookup task_id tasks) [
  | none ↦ crash
  | some t ↦
      blacken task_id
        (scan_deps (λ id c. has_cycle fuel tasks id c) t.depends_on (paint colors task_id 1))
]

pub data Verdict : Type 0 where
  acyclic : Verdict
  cycle_detected : String → Verdict
  crashed : Verdict
  ran_out : Verdict

-- What the loop does with the answer of one search; `rest` is its outcome on the entries left.
abbrev pub judge : String → Verdict → Search → Verdict
judge id rest (clear _) = rest
judge id rest cycle = cycle_detected id
judge id rest crash = crashed
judge id rest out_of_fuel = ran_out

-- The loop of `validateTasksCycle` over the map; each search starts with no colours.
unfoldable pub validate_from : ℕ → Map Task → Map Task → Verdict
unfolding has_cycle
validate_from fuel tasks [] = acyclic
validate_from fuel tasks ((k, t) ∷ rest) =
    judge t.id (validate_from fuel tasks rest) (has_cycle fuel tasks t.id (λ _. 0))

-- Each call paints a white id of the map, so the depth of the recursion is at most their number.
unfoldable pub validate_tasks_cycle : Map Task → Verdict
unfolding validate_from
validate_tasks_cycle tasks = validate_from (length tasks) tasks tasks
