-- ===== src/Pdu/Url.antt =====
-- idtourl and urltoid (base/util_pdu.cc): a number as text in base 36.
use pic_bed.Prelude.{
  ℕ, zero, suc, ◌+◌, ◌-◌, ◌*◌, ◌/◌, ◌%◌, ◌<◌, Bool, true, false, ◌&&◌, Option, none, some, [], ◌∷◌,
  Text, ◌≡◌, refl, ap, ◌∙◌, ltb, leb, ◌==◌, ==_iff, arith, if◌then◌else◌,
}

-- digits[d]
abbrev digit : ℕ → ℕ
digit d = if ltb d 10 then b'0' + d else b'a' + (d - 10)

-- The digits of `n` in front of `rest`; `fuel` stands for the 63 bytes of the array, which are more
-- than the seven digits of a 32-bit number.
unfoldable pub url_digits : ℕ → ℕ → Text → Text
url_digits zero n rest = rest
url_digits (suc fuel) n rest =
    let more = url_digits fuel (n / 36) (digit (n % 36) ∷ rest) in
    if n / 36 == 0 then digit (n % 36) ∷ rest else more

-- idtourl
unfoldable pub idtourl : ℕ → Text
idtourl id = b'1' ∷ url_digits 63 ((id * 2 + 56) % 4294967296) []

-- The value of a digit; other characters are skipped.
unfoldable pub digit_value : ℕ → Option ℕ
digit_value c =
    if leb b'0' c && leb c b'9'
    then some (c - b'0')
    else if leb b'a' c && leb c b'z'
    then some (c - b'a' + 10)
    else if leb b'A' c && leb c b'Z'
    then some (c - b'A' + 10)
    else none

abbrev step : ℕ → Option ℕ → ℕ
step number none = number
step number (some d) = (number * 36 + d) % 4294967296

-- The loop of urltoid, behind the first character
unfoldable pub url_number : ℕ → Text → ℕ
unfolding digit_value
url_number number [] = number
url_number number (c ∷ s) = url_number (step number (digit_value c)) s

-- urltoid
unfoldable pub urltoid : Text → ℕ
urltoid [] = ((0 + 4294967296 - 56) % 4294967296) / 2
urltoid (c ∷ s) = ((url_number 0 s + 4294967296 - 56) % 4294967296) / 2

digit_value-digit : (d : ℕ) → d < 36 → digit_value (digit d) ≡ some d
unfolding digit_value
digit_value-digit d h = ground arith

-- 36 ^ k
abbrev power : ℕ → ℕ
power zero = 1
power (suc k) = 36 * power k

step-digit :
    (k d n : ℕ) → d < 36 → (k * 36 + d) % 4294967296 ≡ n → step k (digit_value (digit d)) ≡ n
step-digit k d n h e = ap (step k) (digit_value-digit d h) ∙ e

url_number-url_digits :
    (fuel n : ℕ) (rest : Text)
    → n < 4294967296
    → n < power fuel
    → url_number 0 (url_digits fuel n rest) ≡ url_number n rest
unfolding url_number url_digits
url_number-url_digits zero n rest h f =
    let e : 0 ≡ n = omega arith in ap (λ (k : ℕ). url_number k rest) e
url_number-url_digits (suc fuel) n rest h f =
    last (n / 36 == 0) refl
      λ _. url_number-url_digits fuel (n / 36) (digit (n % 36) ∷ rest) (omega arith) (omega arith)
  where
    last :
        (b : Bool)
        → (n / 36 == 0) ≡ b
        → (Unit {0}
            → url_number 0 (url_digits fuel (n / 36) (digit (n % 36) ∷ rest))
              ≡ url_number (n / 36) (digit (n % 36) ∷ rest))
        → url_number 0
            (if b then digit (n % 36) ∷ rest else url_digits fuel (n / 36) (digit (n % 36) ∷ rest))
          ≡ url_number n rest
    last true e more =
        let z : n / 36 ≡ 0 = (==_iff (n / 36) 0).0 e in
        ap (λ (k : ℕ). url_number k rest) (step-digit 0 (n % 36) n (omega arith) (omega arith))
    last false e more =
        more tt
        ∙ ap (λ (k : ℕ). url_number k rest)
            (step-digit (n / 36) (n % 36) n (omega arith) (omega arith))

nothing_left : (n : ℕ) → url_number n [] ≡ n
unfolding url_number
nothing_left n = refl

halved :
    (id : ℕ) → id * 2 + 56 < 4294967296 → ((id * 2 + 56 + 4294967296 - 56) % 4294967296) / 2 ≡ id
halved id h = omega arith

-- An id is read back from its text, as long as twice the id and 56 are below 2 ^ 32.
pub urltoid-idtourl : (id : ℕ) → id * 2 + 56 < 4294967296 → urltoid (idtourl id) ≡ id
unfolding urltoid idtourl
urltoid-idtourl id h =
    let v : ℕ = (id * 2 + 56) % 4294967296 in
    let plain : v ≡ id * 2 + 56 = omega arith in
    let read : url_number 0 (url_digits 63 v []) ≡ url_number v [] =
      url_number-url_digits 63 v [] (omega arith) (omega arith) in
    ap (λ (n : ℕ). ((n + 4294967296 - 56) % 4294967296) / 2) (read ∙ nothing_left v ∙ plain)
    ∙ halved id h
