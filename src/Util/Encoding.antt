-- ===== src/Util/Encoding.antt =====
-- URLEncode and URLDecode (base/util.cc).
use pic_bed.Prelude.{
  ℕ, zero, suc, ◌+◌, ◌-◌, ◌*◌, ◌/◌, ◌%◌, ◌^◌, ◌<◌, Bool, true, false, ◌&&◌, ◌||◌, Option, none,
  some, [], ◌∷◌, ◌++◌, Text, ◌≡◌, refl, ap, ◌∙◌, ltb, leb, ◌==◌, arith, if◌then◌else◌,
}

abbrev is_digit : ℕ → Bool
is_digit c = leb b'0' c && leb c b'9'

-- isalnum of the C locale
abbrev is_alnum : ℕ → Bool
is_alnum c = is_digit c || leb b'A' c && leb c b'Z' || leb b'a' c && leb c b'z'

-- ToHex
unfoldable pub to_hex : ℕ → ℕ
to_hex x = if ltb 9 x then x - 10 + b'A' else x + b'0'

-- FromHex, an unsigned char
unfoldable pub from_hex : ℕ → ℕ
from_hex x = if is_digit x then x - b'0' else (x + 256 - b'A' + 10) % 256

-- What URLEncode adds for a byte
unfoldable pub encoded : ℕ → Text
unfolding to_hex
encoded c = if is_alnum c then c ∷ [] else b'%' ∷ to_hex (c / 16) ∷ to_hex (c % 16) ∷ []

-- URLEncode
unfoldable pub url_encode : Text → Text
unfolding encoded
url_encode [] = []
url_encode (c ∷ s) = encoded c ++ url_encode s

-- `|` on the lowest `bits` bits
unfoldable pub bit_or : ℕ → ℕ → ℕ → ℕ
bit_or zero a b = 0
bit_or (suc bits) a b =
    (if a % 2 == 1 || b % 2 == 1 then 1 else 0) + 2 * bit_or bits (a / 2) (b / 2)

-- The byte of two hexadecimal digits
unfoldable pub hex_byte : ℕ → ℕ → ℕ
unfolding bit_or from_hex
hex_byte a b = bit_or 8 ((from_hex a * 16) % 256) (from_hex b)

-- The two characters behind a `%`: in[in.size()] is 0, and what lies behind it is not the string's.
unfoldable pub escaped : Text → Option ℕ
unfolding hex_byte
escaped [] = none
escaped (a ∷ []) = some (hex_byte a 0)
escaped (a ∷ b ∷ s) = some (hex_byte a b)

-- What URLDecode adds for the character `c` in front of `s`
unfoldable pub decoded_byte : ℕ → Text → Option ℕ
unfolding escaped
decoded_byte c s = if c == b'%' then escaped s else some (if c == b'+' then b' ' else c)

abbrev prepend : Option ℕ → Option Text → Option Text
prepend none rest = none
prepend (some c) none = none
prepend (some c) (some rest) = some (c ∷ rest)

-- The loop of URLDecode: `skipped` counts the characters that `ix += 2` passes over.
unfoldable pub decode_from : ℕ → Text → Option Text
unfolding decoded_byte
decode_from skipped [] = some []
decode_from (suc skipped) (c ∷ s) = decode_from skipped s
decode_from zero (c ∷ s) = prepend (decoded_byte c s) (decode_from (if c == b'%' then 2 else 0) s)

-- URLDecode; none where it reads behind the end of its string
unfoldable pub url_decode : Text → Option Text
unfolding decode_from
url_decode s = decode_from 0 s

-- Every element fits into a byte.
abbrev pub AreBytes : Text → Type 0
AreBytes [] = Unit {0}
AreBytes (c ∷ s) = (c < 256) × AreBytes s

from_hex-to_hex : (x : ℕ) → x < 16 → from_hex (to_hex x) ≡ x
unfolding from_hex to_hex
from_hex-to_hex x h = ground arith

bit_or-zero : (bits a : ℕ) → a < 2 ^ bits → bit_or bits a 0 ≡ a
unfolding bit_or
bit_or-zero zero a h = omega arith
bit_or-zero (suc bits) a h =
    let rest : bit_or bits (a / 2) 0 ≡ a / 2 = bit_or-zero bits (a / 2) (omega arith) in
    ground arith

lowest_bit : (a b : ℕ) → (if (2 * a) % 2 == 1 || b % 2 == 1 then 1 else 0) ≡ b % 2
lowest_bit a b = ground arith

bit_or-double : (bits a b : ℕ) → bit_or (suc bits) (2 * a) b ≡ b % 2 + 2 * bit_or bits a (b / 2)
unfolding bit_or
bit_or-double bits a b = let half : (2 * a) / 2 ≡ a = omega arith in rw (lowest_bit a b, half)

-- The four lowest bits of the one number, and those above of the other
bit_or-nibbles : (a b : ℕ) → a < 16 → b < 16 → bit_or 8 (a * 16) b ≡ a * 16 + b
bit_or-nibbles a b h k =
    let bits : a * 16 ≡ 2 * (2 * (2 * (2 * a))) = omega arith in
    let none_left : b / 2 / 2 / 2 / 2 ≡ 0 = omega arith in
    let sum : b % 2 + 2 * (b / 2 % 2 + 2 * (b / 2 / 2 % 2 + 2 * (b / 2 / 2 / 2 % 2 + 2 * a)))
        ≡ 2 * (2 * (2 * (2 * a))) + b =
      omega arith in
    rw
      (
        bits,
        bit_or-double 7 (2 * (2 * (2 * a))) b,
        bit_or-double 6 (2 * (2 * a)) (b / 2),
        bit_or-double 5 (2 * a) (b / 2 / 2),
        bit_or-double 4 a (b / 2 / 2 / 2),
        none_left,
        bit_or-zero 4 a h,
      )
      sum

hex_byte-to_hex : (c : ℕ) → c < 256 → hex_byte (to_hex (c / 16)) (to_hex (c % 16)) ≡ c
unfolding hex_byte
hex_byte-to_hex c h =
    let high : from_hex (to_hex (c / 16)) ≡ c / 16 = from_hex-to_hex (c / 16) (omega arith) in
    let low : from_hex (to_hex (c % 16)) ≡ c % 16 = from_hex-to_hex (c % 16) (omega arith) in
    let fits : (c / 16 * 16) % 256 ≡ c / 16 * 16 = omega arith in
    let sum : c / 16 * 16 + c % 16 ≡ c = omega arith in
    rw (high, low, fits, bit_or-nibbles (c / 16) (c % 16) (omega arith) (omega arith)) sum

not_special : (c : ℕ) → is_alnum c ≡ true → ((c == b'%') ≡ false) × ((c == b'+') ≡ false)
not_special c h = (ground arith, ground arith)

decode_from-encoded :
    (c : ℕ) (s : Text)
    → c < 256
    → decode_from 0 (encoded c ++ s) ≡ prepend (some c) (decode_from 0 s)
unfolding encoded decode_from decoded_byte escaped
decode_from-encoded c s h = by_case (is_alnum c) refl
  where
    by_case :
        (b : Bool)
        → is_alnum c ≡ b
        → decode_from 0 ((if b then c ∷ [] else b'%' ∷ to_hex (c / 16) ∷ to_hex (c % 16) ∷ []) ++ s)
          ≡ prepend (some c) (decode_from 0 s)
    by_case true e =
        let (percent, plus) = not_special c e in
        ap
          (λ (b : Bool).
            prepend (if b then escaped s else some (if c == b'+' then b' ' else c))
              (decode_from (if b then 2 else 0) s))
          percent
        ∙ ap (λ (b : Bool). prepend (some (if b then b' ' else c)) (decode_from 0 s)) plus
    by_case false e = ap (λ (n : ℕ). prepend (some n) (decode_from 0 s)) (hex_byte-to_hex c h)

-- Every string of bytes is read back from its encoding, which URLDecode never reads past.
pub url_decode-url_encode : (s : Text) → AreBytes s → url_decode (url_encode s) ≡ some s
unfolding url_decode url_encode
url_decode-url_encode [] h = refl
url_decode-url_encode (c ∷ s) h =
    decode_from-encoded c (url_encode s) h.0 ∙ ap (prepend (some c)) (url_decode-url_encode s h.1)
