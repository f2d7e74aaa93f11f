-- ===== src/Prelude/Int.antt =====
-- Signed integers over the native numbers, under the library's names.
use distributed_workflow_orc.Prelude.Tests.{ltb, leb, eqb, if◌then◌else◌}
use Prim.Native.Nat.{ℕ, suc, ◌+◌, ◌-◌, ◌*◌, ◌%◌, ◌^◌}
use mathlib.Core.Bool.{Bool, false}

-- `negsuc n` is -(n + 1).
pub data ℤ : Type 0 where
  pos : ℕ → ℤ
  negsuc : ℕ → ℤ

abbrev pub pos_part : ℤ → ℕ
pos_part (pos n) = n
pos_part (negsuc n) = 0

abbrev pub neg_part : ℤ → ℕ
neg_part (pos n) = 0
neg_part (negsuc n) = suc n

abbrev pub ltb_ℤ : ℤ → ℤ → Bool
ltb_ℤ a b = ltb (pos_part a + neg_part b) (pos_part b + neg_part a)

abbrev pub eqb_ℤ : ℤ → ℤ → Bool
eqb_ℤ (pos m) (pos n) = eqb m n
eqb_ℤ (negsuc m) (negsuc n) = eqb m n
eqb_ℤ _ _ = false

-- `m - n`.
abbrev pub diff_ℤ : ℕ → ℕ → ℤ
diff_ℤ m n = if leb n m then pos (m - n) else negsuc (n - m - 1)

abbrev pub add_ℤ : ℤ → ℤ → ℤ
add_ℤ a b = diff_ℤ (pos_part a + pos_part b) (neg_part a + neg_part b)

-- `k` times an integer; `k` is not 0.
abbrev pub scale_ℤ : ℕ → ℤ → ℤ
scale_ℤ k (pos n) = pos (n * k)
scale_ℤ k (negsuc n) = negsuc (n * k + k - 1)

-- What a conversion to a signed integer of `suc w` bits keeps.
abbrev pub wrap_ℤ : ℕ → ℤ → ℤ
wrap_ℤ w (pos n) =
    let r = n % 2 ^ (w + 1) in if ltb r (2 ^ w) then pos r else negsuc (2 ^ (w + 1) - 1 - r)
wrap_ℤ w (negsuc n) =
    let r = n % 2 ^ (w + 1) in if ltb r (2 ^ w) then negsuc r else pos (2 ^ (w + 1) - 1 - r)

-- `time.Duration(n) * time.Second`.
abbrev pub of_seconds : ℤ → ℤ
of_seconds n = wrap_ℤ 63 (scale_ℤ 1000000000 n)
