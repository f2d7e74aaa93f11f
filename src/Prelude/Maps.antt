-- ===== src/Prelude/Maps.antt =====
-- A Go map with text keys: an association list, whose order is the one in which `range` visits it.
use Prim.Native.String.{String}
use mathlib.Core.Path.{◌≡◌, refl, subst}
use mathlib.Core.Logic.{inl, inr}
use mathlib.Core.Bool.{Bool, true, false, ◌||◌}
use mathlib.Core.Option
use mathlib.Core.Option.{Option, none, some, some-injective}
use mathlib.Core.List.{List, [], ◌∷◌}
use native.Mathlib.Omega.{arith}
use text.Mathlib.Text.{◌==◌}
use text.Mathlib.TextEquality.{eq_iff}
use distributed_workflow_orc.Prelude.Tests.{if◌then◌else◌, Bool-cases}

abbrev pub Map {ℓ} : Type ℓ → Type ℓ
Map V = List (String × V)

abbrev pub is_some {ℓ} : {A : Type ℓ} → Option A → Bool
is_some none = false
is_some (some a) = true

module _ {ℓ} {V : Type ℓ} where
  abbrev pub keys : Map V → List String
  keys [] = []
  keys ((j, v) ∷ m) = j ∷ keys m

  -- `m[k]`, with `none` for a missing key.
  abbrev pub lookup : String → Map V → Option V
  lookup k [] = none
  lookup k ((j, v) ∷ m) = if j == k then some v else lookup k m

  -- `_, ok := m[k]`.
  abbrev pub has : String → Map V → Bool
  has k [] = false
  has k ((j, v) ∷ m) = j == k || has k m

  -- `m[k] = v`.
  unfoldable pub insert : String → V → Map V → Map V
  insert k v [] = (k, v) ∷ []
  insert k v ((j, w) ∷ m) = if j == k then (j, v) ∷ m else (j, w) ∷ insert k v m

  -- `delete(m, k)`.
  unfoldable pub delete : String → Map V → Map V
  delete k [] = []
  delete k ((j, w) ∷ m) = let rest = delete k m in if j == k then rest else (j, w) ∷ rest

  pub lookup-insert :
      (k j : String) (v : V) (m : Map V)
      → lookup j (insert k v m) ≡ (if k == j then some v else lookup j m)
  unfolding insert
  lookup-insert k j v [] = refl
  lookup-insert k j v ((i, w) ∷ m) =
      ground (arith, eq_iff k j, eq_iff i k, eq_iff i j, lookup-insert k j v m)

  pub lookup-delete :
      (k j : String) (m : Map V) → lookup j (delete k m) ≡ (if k == j then none else lookup j m)
  unfolding delete
  lookup-delete k j [] = ground arith
  lookup-delete k j ((i, w) ∷ m) =
      ground (arith, eq_iff k j, eq_iff i k, eq_iff i j, lookup-delete k j m)

  pub has-lookup : (k : String) (m : Map V) → has k m ≡ is_some (lookup k m)
  has-lookup k [] = refl
  has-lookup k ((j, v) ∷ m) = ground (arith, has-lookup k m)

module _ {ℓ κ} {V : Type ℓ} {W : Type κ} where
  -- A loop over the values that replaces each in place.
  abbrev pub map_values : (V → W) → Map V → Map W
  map_values f [] = []
  map_values f ((j, v) ∷ m) = (j, f v) ∷ map_values f m

  pub lookup-map_values :
      (f : V → W) (k : String) (m : Map V) → lookup k (map_values f m) ≡ Option.map f (lookup k m)
  lookup-map_values f k [] = refl
  lookup-map_values f k ((j, v) ∷ m) = ground (arith, lookup-map_values f k m)

  pub has-map_values : (f : V → W) (k : String) (m : Map V) → has k (map_values f m) ≡ has k m
  has-map_values f k [] = refl
  has-map_values f k ((j, v) ∷ m) = rw (has-map_values f k m)

module _ {ℓ} {V : Type ℓ} where
  pub has-insert : (k j : String) (v : V) (m : Map V) → has j (insert k v m) ≡ k == j || has j m
  unfolding insert
  has-insert k j v [] = refl
  has-insert k j v ((i, w) ∷ m) =
      ground (arith, eq_iff k j, eq_iff i k, eq_iff i j, has-insert k j v m)

module _ {ℓ κ} {V : Type ℓ} (P : V → Type κ) where
  -- `P` holds of every value, under a key that another entry hides too.
  abbrev pub AllValues : Map V → Type κ
  AllValues [] = Unit
  AllValues ((j, v) ∷ m) = P v × AllValues m

  pub AllValues-lookup : (k : String) (m : Map V) {v : V} → AllValues m → lookup k m ≡ some v → P v
  AllValues-lookup k [] h e = absurd (cc)
  AllValues-lookup k ((j, w) ∷ m) h e = elim (Bool-cases (j == k)) [
    | inl hit ↦ subst P (some-injective _ _ (rw hit at e)) h.0
    | inr miss ↦ AllValues-lookup k m h.1 (rw miss at e)
  ]

  pub AllValues-insert :
      (k : String) (v : V) (m : Map V) → P v → AllValues m → AllValues (insert k v m)
  unfolding insert
  AllValues-insert k v [] p h = (p, tt)
  AllValues-insert k v ((j, w) ∷ m) p h = elim (Bool-cases (j == k)) [
    | inl hit ↦ rw hit (p, h.1)
    | inr miss ↦ rw miss (h.0, AllValues-insert k v m p h.1)
  ]

pub AllValues-mono {ℓ κ μ} :
    {V : Type ℓ} {P : V → Type κ} {Q : V → Type μ} (m : Map V)
    → ((v : V) → P v → Q v)
    → AllValues P m
    → AllValues Q m
AllValues-mono [] f h = tt
AllValues-mono ((j, v) ∷ m) f h = (f v h.0, AllValues-mono m f h.1)

pub AllValues-map_values {ℓ κ μ} :
    {V : Type ℓ} (P : V → Type κ) (Q : V → Type μ) (g : V → V) (m : Map V)
    → ((v : V) → P v → Q (g v))
    → AllValues P m
    → AllValues Q (map_values g m)
AllValues-map_values P Q g [] f h = tt
AllValues-map_values P Q g ((j, v) ∷ m) f h = (f v h.0, AllValues-map_values P Q g m f h.1)
