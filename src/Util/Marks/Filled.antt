-- ===== src/Util/Marks/Filled.antt =====
-- ReplaceMark of base/util.cc, called once for each mark of a text.
use pic_bed.Prelude.{
  ℕ, suc, ◌+◌, ◌%◌, ◌^◌, ◌<◌, false, some, List, [], ◌∷◌, ◌++◌, Text, take, drop, length,
  length-append, append_assoc, ◌≡◌, refl, ap, ◌∙◌, ◌==◌, arith,
}
use pic_bed.Util.Marks.{find_mark, replace_first, replaced, replace_mark, quoted}

abbrev pub IsPlain : Text → Type 0
IsPlain [] = Unit
IsPlain (c ∷ s) = ((c == b'?') ≡ false) × IsPlain s

-- Pieces with one mark behind each, and the end
abbrev pub marked : List (Text × Text) → Text → Text
marked [] end = end
marked ((piece, value) ∷ pieces) end = piece ++ b'?' ∷ marked pieces end

-- Pieces with its value behind each
abbrev pub filled : List (Text × Text) → Text → Text
filled [] end = end
filled ((piece, value) ∷ pieces) end = piece ++ quoted value ++ filled pieces end

-- The calls of ReplaceMark, one for each value
unfoldable pub fill : List (Text × Text) → Text × ℕ → Text × ℕ
fill [] s = s
fill ((piece, value) ∷ pieces) s = fill pieces (replace_mark value s)

abbrev pub ArePlain : List (Text × Text) → Type 0
ArePlain [] = Unit
ArePlain ((piece, value) ∷ pieces) = IsPlain piece × ArePlain pieces

find_mark-append : (p rest : Text) → IsPlain p → find_mark (p ++ b'?' ∷ rest) ≡ some (length p)
unfolding find_mark
find_mark-append [] rest h = refl
find_mark-append (c ∷ p) rest h = rw (h.0, find_mark-append p rest h.1) refl

take-front : (a b : Text) (n : ℕ) → n ≡ length a → take n (a ++ b) ≡ a
take-front [] b n e = rw e refl
take-front (x ∷ a) b n e = rw (e, take-front a b (length a) refl) refl

drop-front : (a b : Text) (n : ℕ) → n ≡ length a → drop n (a ++ b) ≡ b
drop-front [] b n e = rw e refl
drop-front (x ∷ a) b n e = rw (e, drop-front a b (length a) refl) refl

found_mark :
    (a p rest : Text)
    → IsPlain p
    → find_mark (drop (length a) (a ++ p ++ b'?' ∷ rest)) ≡ some (length p)
found_mark a p rest h =
    rw (append_assoc a p (b'?' ∷ rest), drop-front a (p ++ b'?' ∷ rest) (length a) refl)
      (find_mark-append p rest h)

replace_first-found :
    (value str : Text) (begin_pos i : ℕ)
    → find_mark (drop begin_pos str) ≡ some i
    → replace_first value (str, begin_pos) ≡ (
      take (begin_pos + i) str ++ value ++ drop (begin_pos + suc i) str,
      (begin_pos + i + length value) % 2 ^ 32,
    )
unfolding replace_first
replace_first-found value str begin_pos i e = ap (replaced value (str, begin_pos)) e

both : {a b : Text} {m n : ℕ} → a ≡ b → m ≡ n → ◌≡◌ {A = Text × ℕ} (a, m) (b, n)
both e f = rw (e, f) refl

drop-behind : (q rest : Text) (x n : ℕ) → n ≡ suc (length q) → drop n (q ++ x ∷ rest) ≡ rest
drop-behind [] rest x n e = rw e refl
drop-behind (c ∷ q) rest x n e = rw (e, drop-behind q rest x (suc (length q)) refl) refl

replaced_text :
    (a p value rest : Text)
    → take (length a + length p) (a ++ p ++ b'?' ∷ rest)
        ++ value
        ++ drop (length a + suc (length p)) (a ++ p ++ b'?' ∷ rest)
      ≡ a ++ p ++ value ++ rest
replaced_text a p value rest =
    let e = length-append a p in
    rw
      (
        take-front (a ++ p) (b'?' ∷ rest) (length a + length p) (omega arith),
        drop-behind (a ++ p) rest b'?' (length a + suc (length p)) (omega arith),
      )
      refl

replaced_end :
    (a p value : Text)
    → length (a ++ p ++ value) < 2 ^ 32
    → (length a + length p + length value) % 2 ^ 32 ≡ length (a ++ p ++ value)
replaced_end a p value k =
    let e = length-append (a ++ p) value in let f = length-append a p in omega arith

replace_mark-append :
    (a p value rest : Text)
    → IsPlain p
    → length (a ++ p ++ quoted value) < 2 ^ 32
    → replace_mark value (a ++ p ++ b'?' ∷ rest, length a)
      ≡ ((a ++ p ++ quoted value) ++ rest, length (a ++ p ++ quoted value))
unfolding replace_mark
replace_mark-append a p value rest h k =
    replace_first-found (quoted value) (a ++ p ++ b'?' ∷ rest) (length a) (length p)
      (found_mark a p rest h)
    ∙ both (replaced_text a p (quoted value) rest) (replaced_end a p (quoted value) k)

regrouped : (a p q rest : Text) → a ++ p ++ q ++ rest ≡ a ++ (p ++ q ++ rest)
regrouped a p q rest = rw (append_assoc a p q, append_assoc a (p ++ q) rest) refl

-- Where ReplaceMark is called once for each mark of a text, in order, each call replaces the mark that
-- it is meant for, also where the values before have marks of their own.
pub fill-filled :
    (a end : Text) (pieces : List (Text × Text))
    → ArePlain pieces
    → length (a ++ filled pieces end) < 2 ^ 32
    → (fill pieces (a ++ marked pieces end, length a)).0 ≡ a ++ filled pieces end
unfolding fill
fill-filled a end [] h k = refl
fill-filled a end ((p, v) ∷ pieces) h k =
    let front : Text = a ++ p ++ quoted v in
    let k2 : length (front ++ filled pieces end) < 2 ^ 32 =
      rw (regrouped a p (quoted v) (filled pieces end)) k in
    let e = length-append front (filled pieces end) in
    ap (λ (s : Text × ℕ). (fill pieces s).0)
      (rw⁻¹ (append_assoc a p (b'?' ∷ marked pieces end))
        (replace_mark-append a p v (marked pieces end) h.0 (omega arith)))
    ∙ fill-filled front end pieces h.1 k2
    ∙ regrouped a p (quoted v) (filled pieces end)
