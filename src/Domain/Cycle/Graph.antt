-- ===== src/Domain/Cycle/Graph.antt =====
-- The graph that `DependsOn` spans over a map of tasks, and what a cycle of it is.
use mathlib.Core.WellFounded.{Acc}
use distributed_workflow_orc.Prelude.{
  ◌≡◌, refl, sym, subst, ◌⊎◌, inl, inr, true, some, String, Map, Memᴰ, lookup, has, All,
}
use distributed_workflow_orc.Domain.Task.{Task}

module _ (tasks : Map Task) where
  -- `v` is one of the dependencies of `u`.
  abbrev pub Dep : String → String → Type 0
  Dep v u = (t : Task) × (lookup u tasks ≡ some t) × Memᴰ v t.depends_on

  -- `v` is `u`, or something that `u` waits for, directly or not.
  pub data Needs (u : String) : String → Type 0 where
    here : Needs u u
    next : {v w : String} → Needs u v → Dep w v → Needs u w

  -- `u` waits for itself.
  abbrev pub IsOnCycle : String → Type 0
  IsOnCycle u = (v : String) × Needs u v × Dep u v

  -- Every dependency is the id of a task.
  abbrev pub IsClosed : Type 0
  IsClosed =
      (u : String) (t : Task) → lookup u tasks ≡ some t → All (λ d. has d tasks ≡ true) t.depends_on

  -- The first link of a chain.
  Needs-first : {u v : String} → Needs u v → (u ≡ v) ⊎ ((w : String) × Dep w u × Needs w v)
  Needs-first here = inl refl
  Needs-first (next {v} {w = z} p d) = elim (Needs-first p) [
    | inl e ↦ inr (z, subst (Dep z) (sym e) d, here)
    | inr (w, first, rest) ↦ inr (w, first, next rest d)
  ]

  -- A chain of dependencies from a task that is well-founded ends, so it meets no cycle.
  pub not-IsOnCycle : (u : String) → Acc Dep u → ¬ IsOnCycle u
  not-IsOnCycle u (Acc.intro _ below) (v, chain, d) = elim (Needs-first chain) [
    | inl e ↦ let loop = subst (Dep u) (sym e) d in not-IsOnCycle u (below u loop) (u, here, loop)
    | inr (w, first, rest) ↦ not-IsOnCycle w (below w first) (u, next rest d, first)
  ]
