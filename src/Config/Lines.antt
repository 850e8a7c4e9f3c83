-- ===== src/Config/Lines.antt =====
-- The text of one pair, written and read (_WriteFIle, _LoadFile and _ParseLine,
-- base/config_file_reader.cc).
use pic_bed.Prelude.{
  ℕ, zero, suc, ◌+◌, ◌≤◌, ◌<◌, Bool, true, false, not, ◌||◌, none, some, List, [], ◌∷◌, ◌++◌, Text,
  ◌==◌, ◌≡◌, refl, ap, ◌∙◌, length, length-append, append_assoc, take, if◌then◌else◌, arith,
}
use pic_bed.Config.{
  newline, is_blank, is_empty, skip_blanks, drop_blanks, trim_space, cut_at, insert, insert_both,
  parse_cut, parse_line, lines_from, drop_newline, load_line, pair_line,
}

-- Whether a character is in a text
abbrev pub has : ℕ → Text → Bool
has d [] = false
has d (c ∷ s) = c == d || has d s

-- Whether a text ends, and begins, with something else than a blank
abbrev pub ends_solid : Text → Bool
ends_solid [] = false
ends_solid (c ∷ s) = if is_empty s then not (is_blank c) else ends_solid s

abbrev pub starts_solid : Text → Bool
starts_solid [] = false
starts_solid (c ∷ s) = not (is_blank c)

-- A text that has neither a comment nor a line end, nor blanks at its ends
pub record IsPlain (s : Text) : Type 0 where
  pub starts : starts_solid s ≡ true
  pub ends : ends_solid s ≡ true
  pub no_comment : has b'#' s ≡ false
  pub no_newline : has newline s ≡ false

-- A pair that a line can hold
pub record IsPair (k v : Text) : Type 0 where
  pub name : IsPlain k
  pub value : IsPlain v
  pub no_equals : has b'=' k ≡ false
  pub short : length k + length v ≤ 125

drop_blanks-solid : (s : Text) → ends_solid s ≡ true → drop_blanks s ≡ s
unfolding drop_blanks
drop_blanks-solid [] h = refl
drop_blanks-solid (c ∷ []) h = ground arith
drop_blanks-solid (c ∷ d ∷ s) h = rw (drop_blanks-solid (d ∷ s) h) refl

skip_blanks-solid : (s : Text) → starts_solid s ≡ true → skip_blanks s ≡ s
unfolding skip_blanks
skip_blanks-solid [] h = refl
skip_blanks-solid (c ∷ s) h = ground arith

trim_space-plain : (s : Text) → IsPlain s → trim_space s ≡ some s
unfolding trim_space
trim_space-plain [] h = let bad : false ≡ true = h.starts in cc
trim_space-plain (c ∷ s) h =
    rw (skip_blanks-solid (c ∷ s) h.starts, drop_blanks-solid (c ∷ s) h.ends) refl

cut_at-found : (d : ℕ) (k v : Text) → has d k ≡ false → cut_at d (k ++ d ∷ v) ≡ (k, some v)
unfolding cut_at
cut_at-found d [] v h = ground arith
cut_at-found d (c ∷ k) v h = ground (arith, cut_at-found d k v)

cut_at-missing : (d : ℕ) (s : Text) → has d s ≡ false → cut_at d s ≡ (s, none)
unfolding cut_at
cut_at-missing d [] h = refl
cut_at-missing d (c ∷ s) h = ground (arith, cut_at-missing d s)

has-append : (d : ℕ) (s r : Text) → has d (s ++ r) ≡ (has d s || has d r)
has-append d [] r = refl
has-append d (c ∷ s) r = ground (arith, has-append d s r)

drop_newline-line : (s : Text) → drop_newline (s ++ newline ∷ []) ≡ s
unfolding drop_newline
drop_newline-line [] = refl
drop_newline-line (c ∷ []) = refl
drop_newline-line (c ∷ d ∷ s) = rw (drop_newline-line (d ∷ s)) refl

take-all : (n : ℕ) (s : Text) → length s ≤ n → take n s ≡ s
take-all zero [] h = refl
take-all zero (c ∷ s) h = ground arith
take-all (suc n) [] h = refl
take-all (suc n) (c ∷ s) h = ap (◌∷◌ c) (take-all n s (omega arith))

-- fgets takes one short line.
lines_from-line :
    (line s rest : Text)
    → has newline s ≡ false
    → length line + length s < 254
    → lines_from line (s ++ newline ∷ rest) ≡ (line ++ (s ++ newline ∷ [])) ∷ lines_from [] rest
unfolding lines_from
lines_from-line line [] rest h short = refl
lines_from-line line (c ∷ s) rest h short =
    let here : (c == newline || length line + 1 == 255) ≡ false = ground arith in
    let longer : length (line ++ c ∷ []) ≡ length line + 1 = length-append line (c ∷ []) in
    let later : has newline s ≡ false = ground arith in
    rw here (
      lines_from-line (line ++ c ∷ []) s rest later (omega (arith, longer))
      ∙ ap (λ (t : Text). t ∷ lines_from [] rest) (append_assoc line (c ∷ []) (s ++ newline ∷ [])))

-- A pair without its line end
abbrev pub pair_text : Text → Text → Text
pair_text k v = k ++ b'=' ∷ v

pair_text-line :
    (k v rest : Text) → (pair_text k v ++ newline ∷ []) ++ rest ≡ pair_text k v ++ newline ∷ rest
pair_text-line k v rest = append_assoc (pair_text k v) (newline ∷ []) rest

pair_text-has :
    (d : ℕ) (k v : Text)
    → has d k ≡ false
    → has d v ≡ false
    → (b'=' == d) ≡ false
    → has d (pair_text k v) ≡ false
pair_text-has d k v h i j = rw (has-append d k (b'=' ∷ v), h, i, j) refl

pair_text-nonempty : (k v : Text) → starts_solid k ≡ true → is_empty (pair_text k v) ≡ false
pair_text-nonempty [] v h = cc
pair_text-nonempty (c ∷ k) v h = refl

-- A pair that is written is the next line that is read.
pub lines_from-pair :
    (k v rest : Text)
    → IsPair k v
    → lines_from [] (pair_line k v ++ rest) ≡ (pair_text k v ++ newline ∷ []) ∷ lines_from [] rest
lines_from-pair k v rest h =
    let size : length (pair_text k v) ≡ length k + suc (length v) = length-append k (b'=' ∷ v) in
    let whole : length (pair_text k v ++ newline ∷ []) ≡ length (pair_text k v) + 1 =
      length-append (pair_text k v) (newline ∷ []) in
    rw
      (
        take-all 127 (pair_text k v ++ newline ∷ []) (omega (arith, size, whole, h.short)),
        pair_text-line k v rest,
      )
      (lines_from-line [] (pair_text k v) rest
        (pair_text-has newline k v h.name.no_newline h.value.no_newline (refl))
        (omega (arith, size, h.short)))

-- The line of a pair inserts the pair.
pub load_line-pair :
    (k v : Text) (m : List (Text × Text))
    → IsPair k v
    → load_line (pair_text k v ++ newline ∷ []) m ≡ insert k v m
unfolding load_line parse_line parse_cut insert_both
load_line-pair k v m h =
    rw
      (
        drop_newline-line (pair_text k v),
        cut_at-missing b'#' (pair_text k v)
            (pair_text-has b'#' k v h.name.no_comment h.value.no_comment refl),
        pair_text-nonempty k v h.name.starts,
        cut_at-found b'=' k v h.no_equals,
        trim_space-plain k h.name,
        trim_space-plain v h.value,
      )
      refl
