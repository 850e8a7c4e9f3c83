-- ===== src/Prelude/Decimal.antt =====
-- Decimal text of numbers: what `%d`, `std::to_string` and `stringstream <<` print and `atoi` and
-- `atoll` read.
use Prim.Native.Nat.{ℕ, zero, suc, ◌+◌, ◌-◌, ◌*◌, ◌/◌, ◌%◌, ◌<◌}
use mathlib.Core.Path.{◌≡◌, refl, ◌∙◌, ap}
use mathlib.Core.Bool.{false, Bool, true, ◌&&◌, ◌||◌}
use mathlib.Core.List.{[], ◌∷◌}
use mathlib.Core.Logic.{inl, inr}
use native.Mathlib.Omega.{arith}
use pic_bed.Prelude.Tests.{◌==◌, leb, ltb, if◌then◌else◌, Bool-cases}
use pic_bed.Prelude.Signed.{ℤ, pos, negsuc, negate}
use pic_bed.Prelude.Texts.{text_eq, codes, Text}

-- The digits of `n` in front of `acc`; `fuel` bounds their number.
digits_onto : ℕ → ℕ → Text → Text
digits_onto zero n acc = acc
digits_onto (suc fuel) n acc =
    let rest = digits_onto fuel (n / 10) ((b'0' + n % 10) ∷ acc) in
    if ltb n 10 then (b'0' + n) ∷ acc else rest

unfoldable pub to_decimal : ℕ → Text
unfolding digits_onto
to_decimal n = digits_onto (suc n) n []

-- A negative number has a minus sign.
unfoldable pub to_decimal_ℤ : ℤ → Text
unfolding to_decimal
to_decimal_ℤ (pos n) = to_decimal n
to_decimal_ℤ (negsuc n) = b'-' ∷ to_decimal (suc n)

abbrev is_digit : ℕ → Bool
is_digit c = leb b'0' c && leb c b'9'

-- The leading digits of a text, read onto `acc`.
unfoldable pub digits_value : ℕ → Text → ℕ
digits_value acc [] = acc
digits_value acc (c ∷ s) =
    let rest = digits_value (acc * 10 + (c - b'0')) s in if is_digit c then rest else acc

-- The number after an optional sign.
unfoldable pub signed_value : Text → ℤ
signed_value [] = pos 0
signed_value (c ∷ s) =
    if c == b'-'
    then negate (pos (digits_value 0 s))
    else if c == b'+'
    then pos (digits_value 0 s)
    else pos (digits_value 0 (c ∷ s))

-- `isspace`
abbrev pub is_space : ℕ → Bool
is_space c = c == 32 || (leb 9 c && leb c 13)

-- `atoi` and `atoll`, for numbers in their range.
unfoldable pub atoi : Text → ℤ
unfolding signed_value digits_value
atoi [] = pos 0
atoi (c ∷ s) = let rest = atoi s in if is_space c then rest else signed_value (c ∷ s)

digit_step :
    (n : ℕ) (acc : Text) → digits_value (n / 10) ((b'0' + n % 10) ∷ acc) ≡ digits_value n acc
unfolding digits_value
digit_step n acc = ground (arith, back n)
  where
    back : (n : ℕ) → n / 10 * 10 + (b'0' + n % 10 - b'0') ≡ n
    back n = omega arith

first_digit :
    (n : ℕ) (acc : Text) → ltb n 10 ≡ true → digits_value 0 ((b'0' + n) ∷ acc) ≡ digits_value n acc
unfolding digits_value
first_digit n acc h = ground (arith, back n)
  where
    back : (n : ℕ) → 0 * 10 + (b'0' + n - b'0') ≡ n
    back n = omega arith

digit_of_small : (n : ℕ) → ltb n 10 ≡ true → is_digit (b'0' + n) ≡ true
digit_of_small n h = ground arith

digits_value-digits_onto :
    (fuel n : ℕ) (acc : Text)
    → n < fuel
    → digits_value 0 (digits_onto fuel n acc) ≡ digits_value n acc
unfolding digits_onto
digits_value-digits_onto zero n acc h = elim h [ ]
digits_value-digits_onto (suc fuel) n acc h = elim (Bool-cases (ltb n 10)) [
  | inl small ↦ rw small (first_digit n acc small)
  | inr large ↦ rw large (
      digits_value-digits_onto fuel (n / 10) ((b'0' + n % 10) ∷ acc) (ground arith)
      ∙ digit_step n acc)
]

-- The printed text begins with a digit.
abbrev StartsWithDigit : Text → Type 0
StartsWithDigit [] = ⊥
StartsWithDigit (c ∷ s) = is_digit c ≡ true

digits_onto-StartsWithDigit :
    (fuel n : ℕ) (acc : Text) → n < fuel → StartsWithDigit (digits_onto fuel n acc)
unfolding digits_onto
digits_onto-StartsWithDigit zero n acc h = elim h [ ]
digits_onto-StartsWithDigit (suc fuel) n acc h = elim (Bool-cases (ltb n 10)) [
  | inl small ↦ rw small (digit_of_small n small)
  | inr large ↦
      rw large (digits_onto-StartsWithDigit fuel (n / 10) ((b'0' + n % 10) ∷ acc) (ground arith))
]

atoi-digits : (s : Text) → StartsWithDigit s → atoi s ≡ pos (digits_value 0 s)
unfolding atoi signed_value
atoi-digits [] h = absurd h
atoi-digits (c ∷ s) h = ground arith

-- Reading a printed number gives the number back.
pub atoi-to_decimal : (n : ℕ) → atoi (to_decimal n) ≡ pos n
unfolding to_decimal
atoi-to_decimal n =
    atoi-digits (digits_onto (suc n) n []) (digits_onto-StartsWithDigit (suc n) n [] (omega arith))
    ∙ ap pos (digits_value-digits_onto (suc n) n [] (omega arith) ∙ unfold digits_value in refl)

digit_first :
    (s : Text) → StartsWithDigit s → (text_eq s [] ≡ false) × (text_eq s (codes "OK") ≡ false)
digit_first [] h = absurd h
digit_first (c ∷ s) h = (refl, ground (arith, h))

-- A number has a digit, and it is not "OK".
pub to_decimal-nonempty :
    (n : ℕ) → (text_eq (to_decimal n) [] ≡ false) × (text_eq (to_decimal n) (codes "OK") ≡ false)
unfolding to_decimal
to_decimal-nonempty n =
    digit_first (digits_onto (suc n) n []) (digits_onto-StartsWithDigit (suc n) n [] (omega arith))

pub to_decimal_ℤ-pos : (n : ℕ) → to_decimal_ℤ (pos n) ≡ to_decimal n
unfolding to_decimal_ℤ
to_decimal_ℤ-pos n = refl
