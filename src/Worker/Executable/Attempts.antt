-- ===== src/Worker/Executable/Attempts.antt =====
-- infrastructure/worker/models and infrastructure/worker/service: the attempts of one task.
use distributed_workflow_orc.Prelude.{
  ◌⊎◌, has, ℕ, has, eq_refl, ◌⊎◌, ◌+◌, ◌≡◌, refl, true, false, not, ◌||◌, Option, none, some, List,
  [], ◌∷◌, ◌++◌, String, ◌==◌, arith, Option-cases, Bool-cases, inl, inr,
}
use distributed_workflow_orc.Prelude.Int.{ℤ, pos, eqb_ℤ, of_seconds}
use distributed_workflow_orc.Prelude.Maps.{has-lookup, lookup-delete, has-insert}
use distributed_workflow_orc.Domain.Task.{TaskSpec, TaskResult}
use distributed_workflow_orc.Worker.Service.{TaskInfo, InFlight, set_cancel, remove}
use distributed_workflow_orc.Worker.Executable.{
  ResultRequest, send_status, report_status, do_task, attempt, attempts, is_final, count_final,
}

report_status-is_final :
    (task : TaskInfo) (result : TaskResult)
    → is_final (send_status task (report_status result) (some result)) ≡ true
unfolding send_status report_status
report_status-is_final task result =
    elim (Bool-cases (not (eqb_ℤ result.exit_code (pos 0)) || not (result.error == ""))) [
      | inl failed ↦ rw failed refl
      | inr succeeded ↦ rw succeeded refl
    ]

has-remove : (id : String) (items : InFlight) → has id (remove id items) ≡ false
has-remove id items =
    rw (has-lookup id (remove id items), lookup-delete id id items, eq_refl id) refl

has-set_cancel :
    (id : String) (cancel : ℕ) (items : InFlight) → has id (set_cancel id cancel items) ≡ true
has-set_cancel id cancel items = rw (has-insert id id (some cancel) items, eq_refl id) refl

attempt-final :
    {E : Type 0} (cancel : ℕ) (execute : TaskSpec → ℤ → TaskResult × Option E) (task : TaskInfo)
    (items : InFlight)
    → has task.id items ≡ true
    → (((attempt cancel execute task items).1 ≡ none)
        × (count_final (attempt cancel execute task items).0 ≡ 1)
        × (has task.id (attempt cancel execute task items).2 ≡ false))
      ⊎ ((e : E) × ((attempt cancel execute task items).1 ≡ some e)
          × (count_final (attempt cancel execute task items).0 ≡ 0)
          × (has task.id (attempt cancel execute task items).2 ≡ true))
unfolding attempt do_task send_status report_status
attempt-final cancel execute task items there =
    elim (Option-cases (execute task.spec (of_seconds task.timeout_in_seconds)).1) [
      | inl e ↦ inl (
        ground arith,
        ground (
          arith,
          report_status-is_final task (execute task.spec (of_seconds task.timeout_in_seconds)).0,
        ),
        ground (arith, has-remove task.id (set_cancel task.id cancel items)),
      )
      | inr (failure, e) ↦
          inr (
            failure,
            ground arith,
            ground arith,
            ground (arith, has-set_cancel task.id cancel items),
          )
    ]

count_final-append :
    (xs ys : List ResultRequest) → count_final (xs ++ ys) ≡ count_final xs + count_final ys
count_final-append [] ys = omega arith
count_final-append (x ∷ xs) ys = omega (arith, count_final-append xs ys)

-- However the attempts of a task that is in flight go, it is in flight as long as no end of it has
-- been reported, and the end is reported at most once.
pub attempts-one_final :
    {E : Type 0} (runs : List (ℕ × (TaskSpec → ℤ → TaskResult × Option E))) (task : TaskInfo)
    (items : InFlight)
    → has task.id items ≡ true
    → ((count_final (attempts runs task items).0 ≡ 0)
        × (has task.id (attempts runs task items).1 ≡ true))
      ⊎ ((count_final (attempts runs task items).0 ≡ 1)
          × (has task.id (attempts runs task items).1 ≡ false))
unfolding attempts
attempts-one_final [] task items there = inl (refl, there)
attempts-one_final ((cancel, execute) ∷ runs) task items there =
    elim (attempt-final cancel execute task items there) [
      | inl (success, one, gone) ↦ inr (ground arith, ground arith)
      | inr (e, failure, zero_final, still) ↦
          let more =
            count_final-append (attempt cancel execute task items).0
              (attempts runs task (attempt cancel execute task items).2).0 in
          elim (attempts-one_final runs task (attempt cancel execute task items).2 still) [
            | inl (no_end, left) ↦ inl (ground arith, ground arith)
            | inr (one_end, left) ↦ inr (ground arith, ground arith)
          ]
    ]
