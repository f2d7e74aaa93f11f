-- ===== src/Domain/Build/Indexing.antt =====
-- The two loops of `NewWorkflow` before the search: names and ids, and names resolved to ids.
use distributed_workflow_orc.Prelude.{
  false, Bool, ℕ, ◌≡◌, refl, subst, ◌∙◌, true, List, [], ◌∷◌, String, arith, Map, lookup, insert,
  has, eq_refl, All, AllValues, Bool-cases, Option-cases, inl, inr,
}
use distributed_workflow_orc.Prelude.Maps.{
  has-insert, AllValues-insert, AllValues-mono, AllValues-lookup,
}
use distributed_workflow_orc.Prelude.Results.{
  Result-cases, err_injective, err, ok, ◌>>=◌, >>=-eq-ok, ok_injective, err-ne-ok,
}
use distributed_workflow_orc.Domain.Task.{Task}
use distributed_workflow_orc.Domain.Dag.{IsKeyed, IsKeyed-insert, Distinct, Distinct-insert}
use distributed_workflow_orc.Domain.Build.{
  BuildError, nil_pointer, no_fuel, Index, assign_id, register, resolve_names, resolve_dependencies,
}

-- The names lead to tasks, which stand under their ids.
pub record IsIndex (ix : Index) : Type 0 where
  pub known : AllValues (λ id. has id ix.by_id ≡ true) ix.by_name
  pub keyed : IsKeyed ix.by_id
  pub distinct : Distinct ix.by_id

IsIndex-add :
    (t : Task) (n : ℕ) (ix : Index)
    → IsIndex ix
    → IsIndex (record {
      by_name = insert t.name t.id ix.by_name;
      by_id = insert t.id t ix.by_id;
      next_uuid = n;
    })
IsIndex-add t n ix h = record {
  known =
      AllValues-insert _ t.name t.id ix.by_name
        (ground (arith, has-insert t.id t.id t ix.by_id, eq_refl t.id))
        (AllValues-mono ix.by_name (λ id k. ground (arith, has-insert t.id id t ix.by_id)) h.known);
  keyed = IsKeyed-insert t.id t ix.by_id refl h.keyed;
  distinct = Distinct-insert t.id t ix.by_id h.distinct;
}

pub register-IsIndex :
    (new_uuid : ℕ → String) (ts : List Task) (ix ix' : Index)
    → IsIndex ix
    → register new_uuid ts ix ≡ ok ix'
    → IsIndex ix'
unfolding register
register-IsIndex new_uuid [] ix ix' h e = subst IsIndex (ok_injective ix ix' e) h
register-IsIndex new_uuid (t ∷ ts) ix ix' h e =
    let (t', n) = assign_id new_uuid ix.next_uuid t in
    elim (Bool-cases (has t'.name ix.by_name)) [
      | inl dup ↦ absurd (err-ne-ok _ ix' (rw (dup, register) at e))
      | inr new_name ↦ elim (Bool-cases (has t'.id ix.by_id)) [
        | inl dup ↦ absurd (err-ne-ok _ ix' (rw (new_name, dup, register) at e))
        | inr new_id ↦
            register-IsIndex new_uuid ts
              (record {
                by_name = insert t'.name t'.id ix.by_name;
                by_id = insert t'.id t' ix.by_id;
                next_uuid = n;
              })
              ix' (IsIndex-add t' n ix h) (rw (new_name, new_id, register) at e)
      ]
    ]

module _ (by_name : Map String) (ids : Map Task)
    (known : AllValues (λ id. has id ids ≡ true) by_name) where
  resolve_names-known :
      (deps r : List String) → resolve_names by_name deps ≡ ok r → All (λ d. has d ids ≡ true) r
  unfolding resolve_names
  resolve_names-known [] r e = subst (All (λ d. has d ids ≡ true)) (ok_injective [] r e) tt
  resolve_names-known (d ∷ deps) r e = elim (Option-cases (lookup d by_name)) [
    | inl missing ↦ absurd (err-ne-ok _ r (rw (missing, resolve_names) at e))
    | inr (id, found) ↦
        let (rest, resolved, last) =
          >>=-eq-ok (resolve_names by_name deps) (λ rest. ok (id ∷ rest))
            (rw (found, resolve_names) at e) in
        subst (All (λ d. has d ids ≡ true)) (ok_injective (id ∷ rest) r last)
          (AllValues-lookup _ d by_name known found, resolve_names-known deps rest resolved)
  ]

-- Resolving keeps the ids, and leaves dependencies on ids alone.
pub record IsResolved (ids m m' : Map Task) : Type 0 where
  pub same_ids : (j : String) → has j m' ≡ has j m
  pub deps_known : AllValues (λ t. All (λ d. has d ids ≡ true) t.depends_on) m'
  pub keyed : IsKeyed m → IsKeyed m'
  pub distinct : Distinct m → Distinct m'

IsResolved-cons :
    (ids : Map Task) (k : String) (t : Task) (deps : List String) (m m' : Map Task)
    → All (λ d. has d ids ≡ true) deps
    → IsResolved ids m m'
    → IsResolved ids ((k, t) ∷ m) ((k, record t { depends_on = deps }) ∷ m')
IsResolved-cons ids k t deps m m' known h = record {
  same_ids = λ j. rw (h.same_ids j);
  deps_known = (known, h.deps_known);
  keyed = λ keyed. (keyed.0, h.keyed keyed.1);
  distinct = λ distinct. (h.same_ids k ∙ distinct.0, h.distinct distinct.1);
}

module _ (by_name : Map String) (ids : Map Task)
    (known : AllValues (λ id. has id ids ≡ true) by_name) where
  pub resolve_dependencies-IsResolved :
      (m m' : Map Task) → resolve_dependencies by_name m ≡ ok m' → IsResolved ids m m'
  unfolding resolve_dependencies
  resolve_dependencies-IsResolved [] m' e =
      subst (IsResolved ids []) (ok_injective [] m' e)
        (record { same_ids = λ j. refl; deps_known = tt; keyed = λ h. h; distinct = λ h. h })
  resolve_dependencies-IsResolved ((k, t) ∷ m) m' e =
      let (deps, named, after) =
        >>=-eq-ok (resolve_names by_name t.depends_on)
          (λ resolved. resolve_dependencies by_name m >>= λ rest.
            ok ((k, record t { depends_on = resolved }) ∷ rest))
          e in
      let (rest, resolved, last) =
        >>=-eq-ok (resolve_dependencies by_name m)
          (λ rest. ok ((k, record t { depends_on = deps }) ∷ rest)) after in
      subst (IsResolved ids ((k, t) ∷ m)) (ok_injective _ m' last) (
        IsResolved-cons ids k t deps m rest
          (resolve_names-known by_name ids known t.depends_on deps named)
          (resolve_dependencies-IsResolved m rest resolved))

-- An error that only the model has.
abbrev pub is_fault : BuildError → Bool
is_fault nil_pointer = true
is_fault no_fuel = true
is_fault _ = false

pub register-no_fault :
    (new_uuid : ℕ → String) (ts : List Task) (ix : Index) (e : BuildError)
    → register new_uuid ts ix ≡ err e
    → is_fault e ≡ false
unfolding register
register-no_fault new_uuid [] ix e h = cc
register-no_fault new_uuid (t ∷ ts) ix e h =
    let (t', n) = assign_id new_uuid ix.next_uuid t in
    elim (Bool-cases (has t'.name ix.by_name)) [
      | inl dup ↦ subst (λ g. is_fault g ≡ false) (err_injective _ e (rw (dup, register) at h)) refl
      | inr new_name ↦ elim (Bool-cases (has t'.id ix.by_id)) [
        | inl dup ↦
            subst (λ g. is_fault g ≡ false) (err_injective _ e (rw (new_name, dup, register) at h))
              refl
        | inr new_id ↦
            register-no_fault new_uuid ts
              (record {
                by_name = insert t'.name t'.id ix.by_name;
                by_id = insert t'.id t' ix.by_id;
                next_uuid = n;
              })
              e (rw (new_name, new_id, register) at h)
      ]
    ]

resolve_names-no_fault :
    (by_name : Map String) (deps : List String) (e : BuildError)
    → resolve_names by_name deps ≡ err e
    → is_fault e ≡ false
unfolding resolve_names
resolve_names-no_fault by_name [] e h = cc
resolve_names-no_fault by_name (d ∷ deps) e h = elim (Option-cases (lookup d by_name)) [
  | inl missing ↦
      subst (λ g. is_fault g ≡ false) (err_injective _ e (rw (missing, resolve_names) at h)) refl
  | inr (id, found) ↦ elim (Result-cases (resolve_names by_name deps)) [
    | inl (rest, named) ↦ absurd (cc (rw (found, named, resolve_names) at h))
    | inr (f, refused) ↦
        subst (λ g. is_fault g ≡ false)
          (err_injective f e (rw (found, refused, resolve_names) at h))
          (resolve_names-no_fault by_name deps f refused)
  ]
]

pub resolve_dependencies-no_fault :
    (by_name : Map String) (m : Map Task) (e : BuildError)
    → resolve_dependencies by_name m ≡ err e
    → is_fault e ≡ false
unfolding resolve_dependencies
resolve_dependencies-no_fault by_name [] e h = cc
resolve_dependencies-no_fault by_name ((k, t) ∷ m) e h =
    elim (Result-cases (resolve_names by_name t.depends_on)) [
      | inr (f, refused) ↦
          subst (λ g. is_fault g ≡ false)
            (err_injective f e (rw (refused, resolve_dependencies) at h))
            (resolve_names-no_fault by_name t.depends_on f refused)
      | inl (deps, named) ↦ elim (Result-cases (resolve_dependencies by_name m)) [
        | inl (rest, resolved) ↦ absurd (cc (rw (named, resolved, resolve_dependencies) at h))
        | inr (f, refused) ↦
            subst (λ g. is_fault g ≡ false)
              (err_injective f e (rw (named, refused, resolve_dependencies) at h))
              (resolve_dependencies-no_fault by_name m f refused)
      ]
    ]
