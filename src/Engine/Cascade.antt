-- ===== src/Engine/Cascade.antt =====
-- infrastructure/control-plane/engine/engine.go: the rounds of `cancelDownstream`.
use mathlib.Core.List.Memᴰ
use distributed_workflow_orc.Prelude.{
  length-append, ap, List-cases, some-injective, ◌==◌, ◌&&◌, not, some, eq_iff, ℕ, zero, suc, ◌+◌,
  ◌≤◌, ◌≡◌, refl, subst, inl, inr, Bool, true, false, List, [], ◌∷◌, ◌++◌, String, arith, Map,
  lookup, map_values, contains, length, Memᴰ, if◌then◌else◌, Bool-cases,
}
use distributed_workflow_orc.Prelude.Int.{ℤ}
use distributed_workflow_orc.Domain.TaskStatus
use distributed_workflow_orc.Domain.TaskStatus.{TaskStatus, cancelled}
use distributed_workflow_orc.Domain.Task.{Task, is_finished}
use distributed_workflow_orc.Domain.Dag.{
  IsKeyed-map_values, Distinct-map_values, IsKeyed-lookup, lookup-before,
}
use distributed_workflow_orc.Engine.State.{update_task_status}
use distributed_workflow_orc.Engine.Cancel.{Pass, cancel_pass, cancel_round, cancel_loop, cascade}
use distributed_workflow_orc.Engine.Evolve.{
  is_sane, is_lost, Grows, Grows-refl, moved, moved-Grows, Evolves-map_values, IsSound,
  IsSound-Evolves,
}
use distributed_workflow_orc.Prelude.Maps.{lookup-map_values}

-- What one round does to a task.
abbrev pub cancel_one : String → Task → Task
cancel_one id t =
    if is_finished t
    then t
    else if contains t.depends_on id
    then record t { status = moved t.status cancelled }
    else t

pub contains-Memᴰ : (d : String) (xs : List String) → Memᴰ d xs → contains xs d ≡ true
contains-Memᴰ d [] m = elim m [ ]
contains-Memᴰ d (x ∷ xs) (Memᴰ.head e) = ground (arith, eq_iff x d)
contains-Memᴰ d (x ∷ xs) (Memᴰ.tail m) = ground (arith, contains-Memᴰ d xs m)

Memᴰ-not_head :
    (id d : String) (deps rest : List String)
    → contains deps id ≡ false
    → Memᴰ d deps
    → Memᴰ d (id ∷ rest)
    → Memᴰ d rest
Memᴰ-not_head id d deps rest no_id dep (Memᴰ.head e) =
    absurd (cc (contains-Memᴰ id deps (subst (λ j. Memᴰ j deps) e dep)))
Memᴰ-not_head id d deps rest no_id dep (Memᴰ.tail m) = m

abbrev pub unfinished : Map Task → ℕ
unfinished [] = 0
unfinished ((k, t) ∷ m) = (if is_finished t then 0 else 1) + unfinished m

unfinished-le : (m : Map Task) → unfinished m ≤ length m
unfinished-le [] = omega arith
unfinished-le ((k, t) ∷ m) = ground (arith, unfinished-le m)

module _ (now : ℤ) (id : String) where
  pub cancel_pass-map_values :
      (m : Map Task) → (cancel_pass now id m).tasks ≡ map_values (cancel_one id) m
  unfolding cancel_pass update_task_status TaskStatus.can_transit_to is_finished
  cancel_pass-map_values [] = refl
  cancel_pass-map_values ((k, t) ∷ m) = ground (arith, cancel_pass-map_values m)

  -- A round queues as many ids as it finishes tasks.
  cancel_pass-unfinished :
      (m : Map Task)
      → length (cancel_pass now id m).queue + unfinished (cancel_pass now id m).tasks ≡ unfinished m
  unfolding cancel_pass update_task_status TaskStatus.can_transit_to is_finished
  cancel_pass-unfinished [] = refl
  cancel_pass-unfinished ((k, t) ∷ m) = ground (arith, cancel_pass-unfinished m)

  -- Whether a round cancels a task.
  abbrev is_cancelled : Task → Bool
  is_cancelled t =
      not (is_finished t) && contains t.depends_on id && (update_task_status now cancelled t).2

  queue-cancel_pass :
      (k : String) (t : Task) (m : Map Task)
      → (cancel_pass now id ((k, t) ∷ m)).queue ≡ (
          if is_cancelled t
          then t.id ∷ (cancel_pass now id m).queue
          else (cancel_pass now id m).queue)
  unfolding cancel_pass
  queue-cancel_pass k t m = ground arith

  lost_is_cancelled :
      (t : Task)
      → is_lost (cancel_one id t).status ≡ true
      → is_lost t.status ≡ false
      → is_cancelled t ≡ true
  unfolding update_task_status TaskStatus.can_transit_to is_finished
  lost_is_cancelled t h k = ground arith

  -- A task that a round loses is queued.
  pub mem-cancel_pass :
      (m : Map Task) (u : String) (t : Task)
      → lookup u m ≡ some t
      → is_lost (cancel_one id t).status ≡ true
      → is_lost t.status ≡ false
      → Memᴰ t.id (cancel_pass now id m).queue
  mem-cancel_pass [] u t e h k = absurd (cc)
  mem-cancel_pass ((j, s) ∷ m) u t e h k =
      rw (queue-cancel_pass j s m) (elim (Bool-cases (j == u)) [
        | inl hit ↦
            let same : s ≡ t = some-injective s t (rw hit at e) in
            rw same (rw (lost_is_cancelled t h k) (Memᴰ.head refl))
        | inr miss ↦
            let before = mem-cancel_pass m u t (rw miss at e) h k in
            elim (Bool-cases (is_cancelled s)) [
              | inl cancels ↦ rw cancels (Memᴰ.tail before)
              | inr spares ↦ rw spares before
            ]
      ])

abbrev FinishesDependents : String → Task → Type 0
FinishesDependents id t = is_finished (cancel_one id t) ≡ false → contains t.depends_on id ≡ false

cancel_one-finishes : (id : String) (t : Task) → is_sane t.status ≡ true → FinishesDependents id t
unfolding is_finished TaskStatus.can_transit_to
cancel_one-finishes id t sane h = ground arith

cancel_one-Grows :
    (m : Map Task) (id : String) (t : Task) → is_sane t.status ≡ true → Grows m t (cancel_one id t)
cancel_one-Grows m id t sane = elim (Bool-cases (is_finished t)) [
  | inl done ↦ rw (done, cancel_one) (Grows-refl m t)
  | inr left ↦ elim (Bool-cases (contains t.depends_on id)) [
    | inl hit ↦
        rw (left, hit, cancel_one) (moved-Grows m cancelled t refl sane (λ e. absurd (cc e)))
    | inr miss ↦ rw (left, miss, cancel_one) (Grows-refl m t)
  ]
]

module _ (now : ℤ) where
  -- One round keeps a workflow sound, with the queue that it leaves.
  cancel_pass-IsSound :
      (id : String) (rest : List String) (m : Map Task)
      → IsSound (id ∷ rest) m
      → IsSound (rest ++ (cancel_pass now id m).queue) (cancel_pass now id m).tasks
  cancel_pass-IsSound id rest m h = rw (cancel_pass-map_values now id m) (
      IsSound-Evolves (id ∷ rest) (rest ++ (cancel_pass now id m).queue) m
        (map_values (cancel_one id) m)
        (Evolves-map_values (Grows m) (cancel_one id) m
          (λ u t e. cancel_one-Grows m id t (h.sane u t e)))
        (IsKeyed-map_values (cancel_one id) same_id same_deps m h.dag.keyed)
        (Distinct-map_values (cancel_one id) same_id same_deps m h.dag.distinct)
        (λ u t t' e e' gone. elim (Bool-cases (is_lost t.status)) [
          | inl old ↦ inl old
          | inr alive ↦ inr (Memᴰ.append_right rest (newly_lost u t t' e e' gone alive))
        ])
        (λ u t' e' left d dep queued.
          let (t, found, same) = lookup-before (cancel_one id) same_id same_deps u m t' e' in
          let back = λ (P : Task → Type 0) (p : P t'). subst P same p in
          Memᴰ.append_left _ (
            Memᴰ-not_head id d t.depends_on rest
              (cancel_one-finishes id t (h.sane u t found) (back (λ z. is_finished z ≡ false) left))
              (subst (Memᴰ d) (same_deps t) (back (λ z. Memᴰ d z.depends_on) dep)) queued))
        h)
    where
      same_id : (t : Task) → (cancel_one id t).id ≡ t.id
      same_id t = ground arith

      same_deps : (t : Task) → (cancel_one id t).depends_on ≡ t.depends_on
      same_deps t = ground arith

      newly_lost :
          (u : String) (t t' : Task)
          → lookup u m ≡ some t
          → lookup u (map_values (cancel_one id) m) ≡ some t'
          → is_lost t'.status ≡ true
          → is_lost t.status ≡ false
          → Memᴰ u (cancel_pass now id m).queue
      newly_lost u t t' e e' gone alive =
          let same : t' ≡ cancel_one id t = ground (arith, lookup-map_values (cancel_one id) u m) in
          subst (λ j. Memᴰ j (cancel_pass now id m).queue) (IsKeyed-lookup u m h.dag.keyed e)
            (mem-cancel_pass now id m u t e
              (subst (λ (z : Task). is_lost z.status ≡ true) same gone) alive)

  -- With fuel for the queue and for every unfinished task, the loop ends with an empty queue.
  cancel_loop-IsSound :
      (fuel : ℕ) (c : Pass)
      → length c.queue + unfinished c.tasks ≤ fuel
      → IsSound c.queue c.tasks
      → ((cancel_loop now fuel c).queue ≡ []) × IsSound [] (cancel_loop now fuel c).tasks
  unfolding cancel_loop cancel_round
  cancel_loop-IsSound zero c w h = elim (List-cases c.queue) [
    | inl empty ↦ (empty, subst (λ q. IsSound q c.tasks) empty h)
    | inr (id, rest, e) ↦ absurd (omega (arith, ap length e))
  ]
  cancel_loop-IsSound (suc fuel) c w h = elim (List-cases c.queue) [
    | inl empty ↦ rw (empty, cancel_loop) (empty, subst (λ q. IsSound q c.tasks) empty h)
    | inr (id, rest, e) ↦
        rw (e, cancel_loop)
          (cancel_loop-IsSound fuel (cancel_round now id rest c)
            (omega (
              arith,
              length-append rest (cancel_pass now id c.tasks).queue,
              cancel_pass-unfinished now id c.tasks,
              ap length e,
            ))
            (cancel_pass-IsSound id rest c.tasks (subst (λ q. IsSound q c.tasks) e h)))
  ]

  -- `cancelDownstream` runs until its queue is empty; afterwards no unfinished task waits for one
  -- that failed or was cancelled, if before it only those behind the root did.
  pub cascade-IsSound :
      (root : String) (m : Map Task)
      → IsSound (root ∷ []) m
      → ((cascade now root m).queue ≡ []) × IsSound [] (cascade now root m).tasks
  unfolding cascade
  cascade-IsSound root m h =
      cancel_loop-IsSound (suc (length m))
        (record { tasks = m; events = []; running = []; queue = root ∷ [] })
        (omega (arith, unfinished-le m)) h
