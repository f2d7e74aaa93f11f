-- ===== src/Domain/Cycle/Colouring.antt =====
-- common/domain/workflow.go: the colours of the search, and the fuel that it uses.
use mathlib.Core.WellFounded.{Acc}
use native.Mathlib.Nat.{le_trans}
use distributed_workflow_orc.Prelude.{
  ℕ, zero, suc, ◌+◌, ◌≤◌, ◌<◌, ◌≡◌, subst, ◌∙◌, some-injective, All-mem, AllValues, length, eq_refl,
  refl, true, List, [], ◌∷◌, String, arith, ap, sym, Map, Memᴰ, lookup, has, keys, eqb, some, All,
  Bool-cases, Option-cases, String-cases, inl, inr, if◌then◌else◌, eq_iff,
}
use distributed_workflow_orc.Prelude.Maps.{has-lookup}
use distributed_workflow_orc.Domain.Task.{Task}
use distributed_workflow_orc.Domain.Cycle.{
  Colors, paint, and_then, Search, clear, cycle, crash, out_of_fuel, scan_deps, blacken, has_cycle,
  Verdict, acyclic, cycle_detected, crashed, ran_out, judge, validate_from,
}
use distributed_workflow_orc.Domain.Cycle.Graph.{Dep, Needs, here, next, IsOnCycle, IsClosed}

-- How many of the ids are white.
abbrev pub whites : List String → Colors → ℕ
whites [] c = 0
whites (k ∷ ks) c = (if eqb (c k) 0 then 1 else 0) + whites ks c

-- What a search does to colours that it does not own: black stays black, and nothing turns white
-- or grey.
pub record Keeps (c c' : Colors) : Type 0 where
  pub black : (j : String) → 2 ≤ c j → 2 ≤ c' j
  pub white : (j : String) → c' j ≡ 0 → c j ≡ 0
  pub grey : (j : String) → c' j ≡ 1 → c j ≡ 1

Keeps-refl : (c : Colors) → Keeps c c
Keeps-refl c = record { black = λ j h. h; white = λ j h. h; grey = λ j h. h }

Keeps-trans : {c d e : Colors} → Keeps c d → Keeps d e → Keeps c e
Keeps-trans p q = record {
  black = λ j h. q.black j (p.black j h);
  white = λ j h. p.white j (q.white j h);
  grey = λ j h. p.grey j (q.grey j h);
}

whites-le : (ks : List String) (c c' : Colors) → Keeps c c' → whites ks c' ≤ whites ks c
whites-le [] c c' p = omega arith
whites-le (k ∷ ks) c c' p = ground (arith, p.white k, whites-le ks c c' p)

whites-paint-le :
    (ks : List String) (c : Colors) (x : String) → whites ks (paint c x 1) ≤ whites ks c
whites-paint-le [] c x = omega arith
whites-paint-le (k ∷ ks) c x = ground (arith, whites-paint-le ks c x)

whites-paint :
    {V : Type 0} (m : Map V) (c : Colors) (x : String)
    → has x m ≡ true
    → c x ≡ 0
    → whites (keys m) (paint c x 1) < whites (keys m) c
whites-paint [] c x h e = ground arith
whites-paint ((k, v) ∷ m) c x h e = elim (String-cases k x) [
  | inl (p, q) ↦ ground (arith, whites-paint-le (keys m) c x, ap c p)
  | inr (p, q) ↦ ground (arith, whites-paint m c x, eq_iff x k, eq_iff k x)
]

module _ (tasks : Map Task) (closed : IsClosed tasks) where
  abbrev Settled : Colors → Type 0
  Settled c = (u : String) → 2 ≤ c u → Acc (Dep tasks) u

  abbrev GreyAbove : Colors → String → Type 0
  GreyAbove c x = (g : String) → c g ≡ 1 → Needs tasks g x

  -- What the search from `x` answers.
  abbrev Good : String → Colors → Search → Type 0
  Good x c (clear c') = Keeps c c' × Settled c' × (2 ≤ c' x)
  Good x c cycle = (u : String) × IsOnCycle tasks u
  Good x c crash = ⊥
  Good x c out_of_fuel = ⊥

  abbrev GoodScan : List String → Colors → Search → Type 0
  GoodScan deps c (clear c') = Keeps c c' × Settled c' × All (λ d. 2 ≤ c' d) deps
  GoodScan deps c cycle = (u : String) × IsOnCycle tasks u
  GoodScan deps c crash = ⊥
  GoodScan deps c out_of_fuel = ⊥

  abbrev IsVisit : ℕ → (String → Colors → Search) → Type 0
  IsVisit fuel visit =
      (x : String) (c : Colors)
      → c x ≡ 0
      → Settled c
      → GreyAbove c x
      → has x tasks ≡ true
      → whites (keys tasks) c ≤ fuel
      → Good x c (visit x c)

  GoodScan-cons :
      (d : String) (deps : List String) (c c' : Colors)
      → Keeps c c'
      → 2 ≤ c' d
      → (r : Search) → GoodScan deps c' r
      → GoodScan (d ∷ deps) c r
  GoodScan-cons d deps c c' keeps done (clear e) h =
      (Keeps-trans keeps h.0, h.1, (h.0.black d done, h.2))
  GoodScan-cons d deps c c' keeps done cycle h = h
  GoodScan-cons d deps c c' keeps done crash h = h
  GoodScan-cons d deps c c' keeps done out_of_fuel h = h

  -- A search of one dependency, and then the rest of the scan.
  and_then-GoodScan :
      (d : String) (deps : List String) (c : Colors) (r : Search) (rest : Colors → Search)
      → Good d c r
      → ((c' : Colors) → Keeps c c' → Settled c' → 2 ≤ c' d → GoodScan deps c' (rest c'))
      → GoodScan (d ∷ deps) c (and_then r rest)
  and_then-GoodScan d deps c (clear c') rest (keeps, settled, done) then_good =
      GoodScan-cons d deps c c' keeps done (rest c') (then_good c' keeps settled done)
  and_then-GoodScan d deps c cycle rest h _ = h
  and_then-GoodScan d deps c crash rest h _ = h
  and_then-GoodScan d deps c out_of_fuel rest h _ = h

  module _ (fuel : ℕ) (visit : String → Colors → Search) (visits : IsVisit fuel visit)
      (x : String) where
    scan_deps-GoodScan :
        (deps : List String) (c : Colors)
        → ((d : String) → Memᴰ d deps → Dep tasks d x)
        → All (λ d. has d tasks ≡ true) deps
        → Settled c
        → GreyAbove c x
        → whites (keys tasks) c ≤ fuel
        → GoodScan deps c (scan_deps visit deps c)
    unfolding scan_deps
    scan_deps-GoodScan [] c edge known s g w = (Keeps-refl c, s, tt)
    scan_deps-GoodScan (d ∷ deps) c edge known s g w =
        let edge' = λ (e : String) (m : Memᴰ e deps). edge e (Memᴰ.tail m) in
        elim (Bool-cases (eqb (c d) 1)) [
          | inl grey ↦
              rw (grey, scan_deps, GoodScan) (d, (x, g d (ground arith), edge d (Memᴰ.head refl)))
          | inr not_grey ↦ elim (Bool-cases (eqb (c d) 0)) [
            | inl white ↦
                rw (not_grey, white, scan_deps, GoodScan)
                  (and_then-GoodScan d deps c (visit d c) (scan_deps visit deps)
                    (visits d c (ground arith) s (λ j h. next (g j h) (edge d (Memᴰ.head refl)))
                      known.0 w)
                    (λ c' keeps settled done.
                      scan_deps-GoodScan deps c' edge' known.1 settled (λ j h. g j (keeps.grey j h))
                        (le_trans (whites-le (keys tasks) c c' keeps) w)))
            | inr not_white ↦
                rw (not_grey, not_white, scan_deps, GoodScan)
                  (GoodScan-cons d deps c c (Keeps-refl c) (ground arith) (scan_deps visit deps c)
                    (scan_deps-GoodScan deps c edge' known.1 s g w))
          ]
        ]

  -- The colours after the search from `x`, from those after the scan of its dependencies.
  blacken-Good :
      (x : String) (t : Task) (c : Colors)
      → lookup x tasks ≡ some t
      → c x ≡ 0
      → (r : Search) → GoodScan t.depends_on (paint c x 1) r
      → Good x c (blacken x r)
  unfolding blacken
  blacken-Good x t c found white (clear e) h = (
    record {
      black = λ j b. ground (arith, h.0.black j);
      white = λ j b. ground (arith, h.0.white j);
      grey = λ j b. ground (arith, h.0.grey j);
    },
    λ u b. elim (String-cases x u) [
      | inl (p, _) ↦ subst (Acc (Dep tasks)) p (
          Acc.intro x λ v (t', found', m). h.1 v (
            All-mem (λ d. 2 ≤ e d) t.depends_on h.2
              (subst (λ (z : Task). Memᴰ v z.depends_on) (some-injective t' t (sym found' ∙ found))
                m)))
      | inr (p, miss) ↦ h.1 u (rw miss at b)
    ],
    ground (arith, eq_refl x),
  )
  blacken-Good x t c found white cycle h = h
  blacken-Good x t c found white crash h = h
  blacken-Good x t c found white out_of_fuel h = h

  -- The search is right from any white task, with fuel for every white task.
  pub has_cycle-Good : (fuel : ℕ) → IsVisit fuel (λ id c. has_cycle fuel tasks id c)
  unfolding has_cycle
  has_cycle-Good zero x c white s g known w =
      absurd (omega (arith, whites-paint tasks c x known white))
  has_cycle-Good (suc fuel) x c white s g known w = elim (Option-cases (lookup x tasks)) [
    | inl missing ↦ absurd (ground (arith, has-lookup x tasks))
    | inr (t, found) ↦
        rw (found, has_cycle, Good)
          (blacken-Good x t c found white
            (scan_deps (λ id e. has_cycle fuel tasks id e) t.depends_on (paint c x 1))
            (scan_deps-GoodScan fuel (λ id e. has_cycle fuel tasks id e) (has_cycle-Good fuel) x
              t.depends_on (paint c x 1) (λ d m. (t, found, m)) (closed x t found)
              (λ u b. s u (ground arith))
              (λ j b. elim (String-cases x j) [
                | inl (p, _) ↦ subst (Needs tasks j) (sym p) here
                | inr (p, miss) ↦ g j (rw miss at b)
              ])
              (omega (arith, whites-paint tasks c x known white))))
  ]

  -- The id of every task is that of an entry.
  abbrev IsKnown : Map Task → Type 0
  IsKnown m = AllValues (λ t. has t.id tasks ≡ true) m

  abbrev pub Judged : Map Task → Verdict → Type 0
  Judged m acyclic = AllValues (λ t. Acc (Dep tasks) t.id) m
  Judged m (cycle_detected id) = (u : String) × IsOnCycle tasks u
  Judged m crashed = ⊥
  Judged m ran_out = ⊥

  Judged-cons :
      (k : String) (t : Task) (m : Map Task)
      → Acc (Dep tasks) t.id
      → (v : Verdict) → Judged m v
      → Judged ((k, t) ∷ m) v
  Judged-cons k t m a acyclic h = (a, h)
  Judged-cons k t m a (cycle_detected id) h = h
  Judged-cons k t m a crashed h = h
  Judged-cons k t m a ran_out h = h

  validate_step :
      (fuel : ℕ) (k : String) (t : Task) (m : Map Task) (r : Search)
      → Good t.id (λ _. 0) r
      → Judged m (validate_from fuel tasks m)
      → Judged ((k, t) ∷ m) (judge t.id (validate_from fuel tasks m) r)
  validate_step fuel k t m (clear c) h rest =
      Judged-cons k t m (h.1 t.id h.2) (validate_from fuel tasks m) rest
  validate_step fuel k t m cycle h rest = h
  validate_step fuel k t m crash h rest = h
  validate_step fuel k t m out_of_fuel h rest = h

  pub validate_from-Judged :
      (fuel : ℕ)
      → whites (keys tasks) (λ _. 0) ≤ fuel
      → (m : Map Task) → IsKnown m
      → Judged m (validate_from fuel tasks m)
  unfolding validate_from
  validate_from-Judged fuel w [] keyed = tt
  validate_from-Judged fuel w ((k, t) ∷ m) keyed =
      validate_step fuel k t m (has_cycle fuel tasks t.id (λ _. 0))
        (has_cycle-Good fuel t.id (λ _. 0) refl (λ u b. absurd (omega arith))
          (λ j b. absurd (omega arith)) keyed.0 w)
        (validate_from-Judged fuel w m keyed.1)

pub whites_at_first : (m : Map Task) → whites (keys m) (λ _. 0) ≡ length m
whites_at_first [] = refl
whites_at_first ((k, t) ∷ m) = omega (arith, whites_at_first m)
