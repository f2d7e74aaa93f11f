-- ===== src/Engine/Evolve.antt =====
-- How the tasks of a workflow may change under the engine, and what every such change keeps.
use distributed_workflow_orc.Prelude.{
  All-map, ◌≡◌, refl, sym, subst, ◌∙◌, ◌⊎◌, inl, inr, Bool, true, false, none, some, some-injective,
  List, [], ◌∷◌, String, arith, Map, lookup, insert, has, map_values, Memᴰ, Option-cases,
  String-cases,
}
use distributed_workflow_orc.Prelude.Maps.{lookup-insert, lookup-map_values, has-lookup}
use distributed_workflow_orc.Domain.TaskStatus
use distributed_workflow_orc.Domain.TaskStatus.{
  TaskStatus, pending, ready, dispatched, running, succeeded, failed, retrying, cancelled, unknown,
  is_status, can_transit_to, is_target,
}
use distributed_workflow_orc.Domain.Task.{Task, is_finished}
use distributed_workflow_orc.Domain.Workflow.{all_deps_succeeded}
use distributed_workflow_orc.Domain.Cycle.Graph.{Dep}
use distributed_workflow_orc.Domain.Dag.{
  Distinct-insert, IsKeyed-lookup, IsKeyed-insert, IsKeyed, Distinct, IsDag,
}
use distributed_workflow_orc.Engine.State.{update_task_status}
use distributed_workflow_orc.Prelude.Int.{ℤ}
use mathlib.Core.WellFounded.Subrelation

-- The statuses that the engine gives: it never makes a task RETRYING.
abbrev pub is_sane : TaskStatus → Bool
is_sane retrying = false
is_sane unknown = false
is_sane _ = true

-- A task that was made READY at some time, and has not been cancelled.
abbrev pub is_started : TaskStatus → Bool
is_started ready = true
is_started dispatched = true
is_started running = true
is_started succeeded = true
is_started failed = true
is_started _ = false

-- A task that its dependents wait for in vain.
abbrev pub is_lost : TaskStatus → Bool
is_lost failed = true
is_lost cancelled = true
is_lost _ = false

-- A statement about every task that a key leads to.
abbrev pub Every : (Task → Type 0) → Map Task → Type 0
Every P m = (u : String) (t : Task) → lookup u m ≡ some t → P t

-- A change of one task, in a workflow whose tasks are `m`.
pub record Grows (m : Map Task) (t t' : Task) : Type 0 where
  pub same_id : t'.id ≡ t.id
  pub same_deps : t'.depends_on ≡ t.depends_on
  pub kept : is_finished t ≡ true → t'.status ≡ t.status
  pub sane : is_sane t.status ≡ true → is_sane t'.status ≡ true
  pub began :
      is_started t'.status ≡ true
      → (is_started t.status ≡ true) ⊎ (all_deps_succeeded t.depends_on m ≡ true)

pub Grows-refl : (m : Map Task) (t : Task) → Grows m t t
Grows-refl m t = record {
  same_id = refl;
  same_deps = refl;
  kept = λ _. refl;
  sane = λ h. h;
  began = inl;
}

-- The status after a request, granted or not.
abbrev pub moved : TaskStatus → TaskStatus → TaskStatus
moved a b = elim (can_transit_to a b) [ none ↦ b | some e ↦ a ]

-- An update writes the status alone.
pub update_task_status-moved :
    (now : ℤ) (s : TaskStatus) (t : Task)
    → (update_task_status now s t).0 ≡ record t { status = moved t.status s }
unfolding update_task_status can_transit_to
update_task_status-moved now s t = ground arith

pub moved_kept :
    (a s : TaskStatus) → is_target s ≡ true → TaskStatus.is_terminated a ≡ true → moved a s ≡ a
unfolding TaskStatus.is_terminated can_transit_to
moved_kept a s h k = ground arith

pub moved_sane :
    (a s : TaskStatus) → is_target s ≡ true → is_sane a ≡ true → is_sane (moved a s) ≡ true
unfolding can_transit_to
moved_sane a s h k = ground arith

pub moved_began :
    (a s : TaskStatus)
    → is_target s ≡ true
    → is_sane a ≡ true
    → is_started (moved a s) ≡ true
    → (is_started a ≡ true) ⊎ (s ≡ ready)
unfolding can_transit_to
moved_began a s h k b = ground arith

-- An update to a status that the engine asks for; READY, only once the dependencies succeeded.
pub moved-Grows :
    (m : Map Task) (s : TaskStatus) (t : Task)
    → is_target s ≡ true
    → is_sane t.status ≡ true
    → (s ≡ ready → (is_started t.status ≡ true) ⊎ (all_deps_succeeded t.depends_on m ≡ true))
    → Grows m t (record t { status = moved t.status s })
unfolding is_finished TaskStatus.is_terminated
moved-Grows m s t target sane allowed = record {
  same_id = refl;
  same_deps = refl;
  kept = λ h. moved_kept t.status s target h;
  sane = λ h. moved_sane t.status s target h;
  began = λ h. elim (moved_began t.status s target sane h) [ inl b ↦ inl b | inr e ↦ allowed e ];
}

-- The tasks before and after, key by key.
pub record Evolves (R : Task → Task → Type 0) (m m' : Map Task) : Type 0 where
  pub forth :
      (u : String) (t : Task) → lookup u m ≡ some t → (t' : Task) × (lookup u m' ≡ some t') × R t t'
  pub back :
      (u : String) (t' : Task) → lookup u m' ≡ some t' → (t : Task) × (lookup u m ≡ some t) × R t t'

pub Evolves-map_values :
    (R : Task → Task → Type 0) (f : Task → Task) (m : Map Task)
    → Every (λ t. R t (f t)) m
    → Evolves R m (map_values f m)
Evolves-map_values R f m h = record {
  forth = λ u t e. (f t, ground (arith, lookup-map_values f u m), h u t e);
  back = λ u t' e. elim (Option-cases (lookup u m)) [
    | inl missing ↦ absurd (ground (arith, lookup-map_values f u m))
    | inr (t, found) ↦
        let same : t' ≡ f t = ground (arith, lookup-map_values f u m) in
        (t, found, subst (R t) (sym same) (h u t found))
  ];
}

-- One task written back under its key.
pub Evolves-insert :
    (R : Task → Task → Type 0) (k : String) (t t' : Task) (m : Map Task)
    → lookup k m ≡ some t
    → R t t'
    → ((s : Task) → R s s)
    → Evolves R m (insert k t' m)
Evolves-insert R k t t' m found r same = record {
  forth = λ u s e. elim (String-cases k u) [
    | inl (p, hit) ↦ (
      t',
      rw (lookup-insert k u t' m, hit),
      subst (λ z. R z t')
          (some-injective t s (sym found ∙ subst (λ j. lookup j m ≡ some s) (sym p) e)) r,
    )
    | inr (p, miss) ↦ (s, rw (lookup-insert k u t' m, miss) e, same s)
  ];
  back = λ u s e. elim (String-cases k u) [
    | inl (p, hit) ↦ (
      t,
      subst (λ j. lookup j m ≡ some t) p found,
      subst (R t) (some-injective t' s (rw (lookup-insert k u t' m, hit) at e)) r,
    )
    | inr (p, miss) ↦ (s, rw (lookup-insert k u t' m, miss) at e, same s)
  ];
}

-- What holds of the tasks of every workflow, but that tasks may wait for a lost one that stands in
-- `queue`.
pub record IsSound (queue : List String) (m : Map Task) : Type 0 where
  pub dag : IsDag m
  pub sane : Every (λ t. is_sane t.status ≡ true) m
  -- A task is started only once its dependencies have succeeded.
  pub started : Every (λ t. is_started t.status ≡ true → all_deps_succeeded t.depends_on m ≡ true) m
  -- No unfinished task waits for a task that failed or was cancelled.
  pub unblocked :
      Every
        (λ t.
          is_finished t ≡ false
          → (d : String) (s : Task) → Memᴰ d t.depends_on
          → lookup d m ≡ some s
          → is_lost s.status ≡ true
          → Memᴰ d queue)
        m

module _ (m m' : Map Task) (grows : Evolves (Grows m) m m') where
  has-Evolves : (d : String) → has d m ≡ true → has d m' ≡ true
  has-Evolves d h = elim (Option-cases (lookup d m)) [
    | inl missing ↦ absurd (ground (arith, has-lookup d m))
    | inr (t, found) ↦
        let (t', found', _) = grows.forth d t found in ground (arith, has-lookup d m')
  ]

  Dep-Evolves : (v u : String) → Dep m' v u → Dep m v u
  Dep-Evolves v u (t', e, d) =
      let (t, found, g) = grows.back u t' e in (t, found, subst (Memᴰ v) g.same_deps d)

  pub IsDag-Evolves : IsKeyed m' → Distinct m' → IsDag m → IsDag m'
  IsDag-Evolves keyed distinct h = record {
    keyed = keyed;
    distinct = distinct;
    closed = λ u t' e.
        let (t, found, g) = grows.back u t' e in
        rw g.same_deps (All-map has-Evolves t.depends_on (h.closed u t found));
    founded = λ u t' e.
        let (t, found, g) = grows.back u t' e in
        Subrelation.accessible Dep-Evolves (h.founded u t found);
  }

  -- What has succeeded stays so.
  pub all_deps_succeeded-Evolves :
      (deps : List String) → all_deps_succeeded deps m ≡ true → all_deps_succeeded deps m' ≡ true
  unfolding all_deps_succeeded is_finished
  all_deps_succeeded-Evolves [] h = refl
  all_deps_succeeded-Evolves (d ∷ deps) h = elim (Option-cases (lookup d m)) [
    | inl missing ↦ absurd (cc (rw (missing, all_deps_succeeded) at h))
    | inr (t, found) ↦
        let (t', found', g) = grows.forth d t found in
        ground (arith, g.kept, all_deps_succeeded-Evolves deps)
  ]

  pub sane-Evolves :
      Every (λ t. is_sane t.status ≡ true) m → Every (λ t. is_sane t.status ≡ true) m'
  sane-Evolves h u t' e = let (t, found, g) = grows.back u t' e in g.sane (h u t found)

  pub started-Evolves :
      Every (λ t. is_started t.status ≡ true → all_deps_succeeded t.depends_on m ≡ true) m
      → Every (λ t. is_started t.status ≡ true → all_deps_succeeded t.depends_on m' ≡ true) m'
  started-Evolves h u t' e b =
      let (t, found, g) = grows.back u t' e in
      rw g.same_deps (
        all_deps_succeeded-Evolves t.depends_on
          (elim (g.began b) [ inl old ↦ h u t found old | inr now ↦ now ]))

-- A sound workflow stays sound, if its tasks only grow, the tasks newly lost stand in the queue, and
-- the queue gives up no id that an unfinished task depends on.
pub IsSound-Evolves :
    (q q' : List String) (m m' : Map Task)
    → Evolves (Grows m) m m'
    → IsKeyed m'
    → Distinct m'
    → ((u : String) (t t' : Task)
        → lookup u m ≡ some t
        → lookup u m' ≡ some t'
        → is_lost t'.status ≡ true
        → (is_lost t.status ≡ true) ⊎ Memᴰ u q')
    → Every
        (λ t. is_finished t ≡ false → (d : String) → Memᴰ d t.depends_on → Memᴰ d q → Memᴰ d q')
        m'
    → IsSound q m
    → IsSound q' m'
unfolding is_finished
IsSound-Evolves q q' m m' grows keyed distinct lost covered h = record {
  dag = IsDag-Evolves m m' grows keyed distinct h.dag;
  sane = sane-Evolves m m' grows h.sane;
  started = started-Evolves m m' grows h.started;
  unblocked = λ u t' e unfinished d s' dep found' gone.
      let (t, found, g) = grows.back u t' e in
      let (s, before, _) = grows.back d s' found' in
      elim (lost d s s' before found' gone) [
        | inr queued ↦ queued
        | inl old ↦ covered u t' e unfinished d dep (
            h.unblocked u t found (ground (arith, g.kept)) d s (subst (Memᴰ d) g.same_deps dep)
              before old)
      ];
}

-- One task written back.
pub insert-IsSound :
    (q : List String) (k : String) (t t' : Task) (m : Map Task)
    → lookup k m ≡ some t
    → Grows m t t'
    → (is_lost t'.status ≡ true → (is_lost t.status ≡ true) ⊎ Memᴰ k q)
    → IsSound [] m
    → IsSound q (insert k t' m)
insert-IsSound q k t t' m found grows lost h =
    IsSound-Evolves [] q m (insert k t' m)
      (Evolves-insert (Grows m) k t t' m found grows (Grows-refl m))
      (IsKeyed-insert k t' m (sym (grows.same_id ∙ IsKeyed-lookup k m h.dag.keyed found))
        h.dag.keyed)
      (Distinct-insert k t' m h.dag.distinct)
      (λ u s s' before after gone. elim (String-cases k u) [
        | inl (p, hit) ↦
            let same : t' ≡ s' = some-injective t' s' (rw (lookup-insert k u t' m, hit) at after) in
            let same_before : t ≡ s =
              some-injective t s (sym found ∙ subst (λ j. lookup j m ≡ some s) (sym p) before) in
            subst (λ j. (is_lost s.status ≡ true) ⊎ Memᴰ j q) p
              (subst (λ (z : Task). (is_lost z.status ≡ true) ⊎ Memᴰ k q) same_before
                (lost (subst (λ (z : Task). is_lost z.status ≡ true) (sym same) gone)))
        | inr (p, miss) ↦
            let same : s ≡ s' =
              some-injective s s' (sym before ∙ rw (lookup-insert k u t' m, miss) at after) in
            inl (subst (λ (z : Task). is_lost z.status ≡ true) (sym same) gone)
      ])
      (λ u s e left d dep queued. elim queued [ ]) h
