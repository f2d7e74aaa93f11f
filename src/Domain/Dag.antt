-- ===== src/Domain/Dag.antt =====
-- What the engine relies on in the tasks of a workflow: each stands under its id, depends on tasks
-- of the same workflow only, and waits for nothing that waits for it.
use mathlib.Core.WellFounded.{Acc}
use mathlib.Core.WellFounded.Subrelation
use distributed_workflow_orc.Prelude.{
  String-cases, false, insert, has, ◌≡◌, refl, sym, subst, ◌∙◌, [], ◌∷◌, String, arith, Map, lookup,
  some, map_values, ◌==◌, ap, All-map, Memᴰ, Option-cases, inl, inr, Bool-cases, eq_iff,
}
use mathlib.Core.Option.{some-injective}
use distributed_workflow_orc.Prelude.Maps.{has-insert, lookup-map_values, has-map_values}
use distributed_workflow_orc.Domain.Task.{Task}
use distributed_workflow_orc.Domain.Cycle.Graph.{Dep, IsClosed}

-- Every task stands under its id.
abbrev pub IsKeyed : Map Task → Type 0
IsKeyed [] = Unit
IsKeyed ((k, t) ∷ m) = (k ≡ t.id) × IsKeyed m

pub IsKeyed-insert :
    (k : String) (t : Task) (m : Map Task) → k ≡ t.id → IsKeyed m → IsKeyed (insert k t m)
unfolding insert
IsKeyed-insert k t [] e h = (e, tt)
IsKeyed-insert k t ((j, w) ∷ m) e h = elim (Bool-cases (j == k)) [
  | inl hit ↦ rw hit ((eq_iff j k).0 hit ∙ e, h.1)
  | inr miss ↦ rw miss (h.0, IsKeyed-insert k t m e h.1)
]

-- No two entries have one key.
abbrev pub Distinct : Map Task → Type 0
Distinct [] = Unit
Distinct ((k, t) ∷ m) = (has k m ≡ false) × Distinct m

pub Distinct-insert : (k : String) (t : Task) (m : Map Task) → Distinct m → Distinct (insert k t m)
unfolding insert
Distinct-insert k t [] h = (refl, tt)
Distinct-insert k t ((j, w) ∷ m) h = elim (String-cases j k) [
  | inl (_, hit) ↦ rw hit h
  | inr (ne, miss) ↦
      rw miss
        (ground (arith, has-insert k j t m, eq_iff k j, eq_iff j k), Distinct-insert k t m h.1)
]

pub record IsDag (m : Map Task) : Type 0 where
  pub keyed : IsKeyed m
  pub distinct : Distinct m
  pub closed : IsClosed m
  pub founded : (u : String) (t : Task) → lookup u m ≡ some t → Acc (Dep m) u

pub IsKeyed-lookup :
    (u : String) (m : Map Task) {t : Task} → IsKeyed m → lookup u m ≡ some t → t.id ≡ u
IsKeyed-lookup u [] h e = absurd (cc)
IsKeyed-lookup u ((k, s) ∷ m) {t} h e = elim (Bool-cases (k == u)) [
  | inl hit ↦
      ap (λ (z : Task). z.id) (some-injective t s (sym e ∙ rw hit)) ∙ sym h.0 ∙ (eq_iff k u).0 hit
  | inr miss ↦ IsKeyed-lookup u m h.1 (rw miss at e)
]

-- A pass over the tasks that keeps ids and dependencies keeps the graph.
module _ (f : Task → Task) (same_id : (t : Task) → (f t).id ≡ t.id)
    (same_deps : (t : Task) → (f t).depends_on ≡ t.depends_on) where
  pub IsKeyed-map_values : (m : Map Task) → IsKeyed m → IsKeyed (map_values f m)
  IsKeyed-map_values [] h = tt
  IsKeyed-map_values ((k, t) ∷ m) h = (h.0 ∙ sym (same_id t), IsKeyed-map_values m h.1)

  pub Distinct-map_values : (m : Map Task) → Distinct m → Distinct (map_values f m)
  Distinct-map_values [] h = tt
  Distinct-map_values ((k, t) ∷ m) h = (has-map_values f k m ∙ h.0, Distinct-map_values m h.1)

  -- A task after the pass is the image of one before it.
  pub lookup-before :
      (u : String) (m : Map Task) (t : Task)
      → lookup u (map_values f m) ≡ some t
      → (s : Task) × (lookup u m ≡ some s) × (t ≡ f s)
  lookup-before u m t e = elim (Option-cases (lookup u m)) [
    | inl missing ↦ absurd (ground (arith, lookup-map_values f u m))
    | inr (s, found) ↦ (s, found, ground (arith, lookup-map_values f u m))
  ]

  Dep-before : (m : Map Task) (v u : String) → Dep (map_values f m) v u → Dep m v u
  Dep-before m v u (t, e, d) =
      let (s, found, same) = lookup-before u m t e in
      (s, found, subst (Memᴰ v) (ap (λ (z : Task). z.depends_on) same ∙ same_deps s) d)

  pub IsDag-map_values : (m : Map Task) → IsDag m → IsDag (map_values f m)
  IsDag-map_values m h = record {
    keyed = IsKeyed-map_values m h.keyed;
    distinct = Distinct-map_values m h.distinct;
    closed = λ u t e.
        let (s, found, same) = lookup-before u m t e in
        rw (same, same_deps s)
          (All-map (λ d k. has-map_values f d m ∙ k) s.depends_on (h.closed u s found));
    founded = λ u t e.
        let (s, found, same) = lookup-before u m t e in
        Subrelation.accessible (Dep-before m) (h.founded u s found);
  }
