-- ===== src/Prelude/Results.antt =====
-- A Go result with an error: the value, or the error that is not nil.
use mathlib.Core.Path.{◌≡◌, refl, ap}
use mathlib.Core.Logic.{◌⊎◌, inl, inr, ◌≢◌}

pub data Result (E A : Type 0) : Type 0 where
  ok : A → Result E A
  err : E → Result E A

pub Result-cases :
    {E A : Type 0} (r : Result E A)
    → ((value : A) × (r ≡ ok value)) ⊎ ((failure : E) × (r ≡ err failure))
Result-cases (err failure) = inr (failure, refl)
Result-cases (ok value) = inl (value, refl)

-- Go's `if err != nil { return nil, err }` after a call.
infixl 5 ◌>>=◌
abbrev pub ◌>>=◌ : {E A B : Type 0} → Result E A → (A → Result E B) → Result E B
err failure >>= rest = err failure
ok value >>= rest = rest value

pub >>=-eq-ok :
    {E A B : Type 0} (first : Result E A) (rest : A → Result E B) {last : B}
    → (first >>= rest) ≡ ok last
    → (value : A) × (first ≡ ok value) × (rest value ≡ ok last)
>>=-eq-ok (err failure) rest returned = absurd (cc)
>>=-eq-ok (ok value) rest returned = (value, refl, returned)

module _ {E A : Type 0} where
  abbrev value_or : A → Result E A → A
  value_or d (ok a) = a
  value_or d (err e) = d

  pub ok_injective : (a b : A) → ◌≡◌ {A = Result E A} (ok a) (ok b) → a ≡ b
  ok_injective a b p = ap (value_or a) p

  pub err-ne-ok : (e : E) (a : A) → ◌≢◌ {A = Result E A} (err e) (ok a)
  err-ne-ok e a p = cc

  abbrev error_or : E → Result E A → E
  error_or d (ok a) = d
  error_or d (err e) = e

  pub err_injective : (d e : E) → ◌≡◌ {A = Result E A} (err d) (err e) → d ≡ e
  err_injective d e p = ap (error_or d) p
