-- ===== src/Prelude/Signed.antt =====
-- The signed results of C functions. `negsuc n` is -(n + 1).
use Prim.Native.Nat.{ℕ, zero, suc, ◌+◌, ◌-◌, compare, Ordering}
use mathlib.Core.Bool.{Bool, true, false}

pub data ℤ : Type 0 where
  pos : ℕ → ℤ
  negsuc : ℕ → ℤ

-- -1 and -2.
abbrev pub minus_one : ℤ
minus_one = negsuc 0

abbrev pub minus_two : ℤ
minus_two = negsuc 1

-- `x < 0`
abbrev pub is_negative : ℤ → Bool
is_negative (pos n) = false
is_negative (negsuc n) = true

-- `x == k`, for a `k` that is not negative
abbrev pub equals : ℤ → ℕ → Bool
equals (pos n) k = elim (compare n k) [ Ordering.eq ↦ true | _ ↦ false ]
equals (negsuc n) k = false

abbrev pub negate : ℤ → ℤ
negate (pos zero) = pos zero
negate (pos (suc n)) = negsuc n
negate (negsuc n) = pos (suc n)

-- `m - n`
abbrev pub difference : ℕ → ℕ → ℤ
difference m n = elim (compare m n) [ Ordering.lt ↦ negsuc (n - suc m) | _ ↦ pos (m - n) ]

infixl 60 ◌+ℤ◌
abbrev pub ◌+ℤ◌ : ℤ → ℤ → ℤ
pos m +ℤ pos n = pos (m + n)
pos m +ℤ negsuc n = difference m (suc n)
negsuc m +ℤ pos n = difference n (suc m)
negsuc m +ℤ negsuc n = negsuc (suc (m + n))
