-- ===== src/Worker/Registration.antt =====
-- infrastructure/worker/executor/executor.go: what `RegisterExecutors` accepts and registers.
use distributed_workflow_orc.Prelude.{
  ◌≡◌, refl, ◌∙◌, sym, ap, true, ◌||◌, List, [], ◌∷◌, ◌++◌, String, Map, lookup, ◌==◌, Option, none,
  some, if◌then◌else◌, arith, Bool-cases, inl, inr, contains, eq_iff,
}
use distributed_workflow_orc.Prelude.Maps.{lookup-insert}
use distributed_workflow_orc.Prelude.Results.{Result, ok, err}
use distributed_workflow_orc.Worker.Executor.{
  Executor, shell_executor, http_executor, is_executor_exists, register_one, register_all,
  register_executors,
}

-- The first capability that is neither shell nor http.
abbrev pub first_unknown : List String → Option String
first_unknown [] = none
first_unknown (c ∷ cs) = if c == "shell" || c == "http" then first_unknown cs else some c

abbrev pub answer_to : List String → Result String (List String)
answer_to capabilities = elim (first_unknown capabilities) [
  | none ↦ ok capabilities
  | some c ↦ err c
]

-- Those before it, and the executor of each.
abbrev pub before_unknown : List String → List String
before_unknown [] = []
before_unknown (c ∷ cs) = if c == "shell" || c == "http" then c ∷ before_unknown cs else []

abbrev pub executor_named : String → Executor
executor_named c = if c == "shell" then shell_executor else http_executor

append_assoc :
    (xs : List String) (x : String) (ys : List String) → (xs ++ x ∷ []) ++ ys ≡ xs ++ x ∷ ys
append_assoc [] x ys = refl
append_assoc (z ∷ zs) x ys = ap (λ rest. z ∷ rest) (append_assoc zs x ys)

append_nil : (xs : List String) → xs ++ [] ≡ xs
append_nil [] = refl
append_nil (x ∷ xs) = ap (λ rest. x ∷ rest) (append_nil xs)

register_all-answer :
    (cs registered : List String) (registry : Map Executor)
    → (register_all cs registered registry).0
      ≡ elim (first_unknown cs) [ none ↦ ok (registered ++ cs) | some c ↦ err c ]
unfolding register_all is_executor_exists
register_all-answer [] registered registry = ap ok (sym (append_nil registered))
register_all-answer (c ∷ cs) registered registry = elim (Bool-cases (c == "shell" || c == "http")) [
  | inr unknown ↦ rw (unknown, first_unknown) refl
  | inl known ↦
      rw (known, first_unknown)
        (register_all-answer cs (registered ++ c ∷ []) (register_one c registry)
          ∙ ap
              (λ (all : List String).
                elim (first_unknown cs) as (λ o. Result String (List String)) [
                  | none ↦ ok all
                  | some unknown ↦ err unknown
                ])
              (append_assoc registered c cs))
]

lookup-register_one :
    (c j : String) (registry : Map Executor)
    → (c == "shell" || c == "http") ≡ true
    → lookup j (register_one c registry)
      ≡ (if c == j then some (executor_named j) else lookup j registry)
unfolding register_one
lookup-register_one c j registry known = ground (
  arith,
  lookup-insert c j shell_executor registry,
  lookup-insert c j http_executor registry,
  eq_iff c j,
  eq_iff c "shell",
  eq_iff j "shell",
  eq_iff c "http",
)

lookup-register_all :
    (cs registered : List String) (registry : Map Executor) (j : String)
    → lookup j (register_all cs registered registry).1
      ≡ (if contains (before_unknown cs) j then some (executor_named j) else lookup j registry)
unfolding register_all is_executor_exists
lookup-register_all [] registered registry j = refl
lookup-register_all (c ∷ cs) registered registry j =
    elim (Bool-cases (c == "shell" || c == "http")) [
      | inr unknown ↦ rw (unknown, before_unknown) refl
      | inl known ↦
          rw (known, before_unknown)
            (lookup-register_all cs (registered ++ c ∷ []) (register_one c registry) j
              ∙ ground (arith, lookup-register_one c j registry known))
    ]

-- `RegisterExecutors` answers the capabilities that it was given, or the first that is neither shell
-- nor http as an error; and those before it, all of them if there is none, are then registered, each
-- with its executor, and any other name is as it was.
pub register_executors-registers :
    (capabilities : List String) (registry : Map Executor) (j : String)
    → ((register_executors capabilities registry).0 ≡ answer_to capabilities)
      × (lookup j (register_executors capabilities registry).1 ≡ (
          if contains (before_unknown capabilities) j
          then some (executor_named j)
          else lookup j registry))
unfolding register_executors
register_executors-registers capabilities registry j =
    (register_all-answer capabilities [] registry, lookup-register_all capabilities [] registry j)
