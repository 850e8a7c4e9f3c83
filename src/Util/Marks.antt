-- ===== src/Util/Marks.antt =====
-- ReplaceMark, ReplaceStr, Int2String and MemFind (base/util.cc). The lengths of texts are below 2 ^ 32.
pub mod Filled
use pic_bed.Prelude.{
  ℕ, zero, suc, ◌+◌, ◌-◌, ◌%◌, ◌^◌, Bool, true, false, Option, none, some, List, [], ◌∷◌, ◌++◌,
  Text, take, drop, length, to_decimal, text_eq, starts_with, ◌==◌, ltb, if◌then◌else◌,
}

-- The place of the first mark
unfoldable pub find_mark : Text → Option ℕ
find_mark [] = none
find_mark (c ∷ s) =
    if c == b'?' then some 0 else elim (find_mark s) [ none ↦ none | some i ↦ some (suc i) ]

abbrev pub replaced : Text → Text × ℕ → Option ℕ → Text × ℕ
replaced value (str, begin_pos) none = (str, begin_pos)
replaced value (str, begin_pos) (some i) = (
  take (begin_pos + i) str ++ value ++ drop (begin_pos + suc i) str,
  (begin_pos + i + length value) % 2 ^ 32,
)

-- `str.find('?', begin_pos)`, the replacement and the new begin_pos
unfoldable pub replace_first : Text → Text × ℕ → Text × ℕ
unfolding find_mark
replace_first value (str, begin_pos) =
    replaced value (str, begin_pos) (find_mark (drop begin_pos str))

abbrev pub quoted : Text → Text
quoted value = b'\'' ∷ value ++ b'\'' ∷ []

-- ReplaceMark of a string: `str` and `begin_pos` before and behind
unfoldable pub replace_mark : Text → Text × ℕ → Text × ℕ
unfolding replace_first
replace_mark new_value s = replace_first (quoted new_value) s

-- ReplaceMark of a number
unfoldable pub replace_mark_number : ℕ → Text × ℕ → Text × ℕ
unfolding replace_first
replace_mark_number new_value s = replace_first (to_decimal new_value) s

-- ReplaceStr
unfoldable pub replace_str : Text → ℕ → ℕ → Text
replace_str [] old_char new_char = []
replace_str (c ∷ s) old_char new_char =
    (if c == old_char then new_char else c) ∷ replace_str s old_char new_char

-- The loops of MemFind over the first `n` places of `src`, from the front and from the back
unfoldable pub first_place : ℕ → Text → Text → Option ℕ
first_place zero src sub = none
first_place (suc n) src sub =
    let rest = first_place n (drop 1 src) sub in
    if starts_with sub src then some 0 else elim rest [ none ↦ none | some i ↦ some (suc i) ]

unfoldable pub last_place : ℕ → Text → Text → Option ℕ
last_place zero src sub = none
last_place (suc n) src sub =
    let rest = last_place n src sub in if starts_with sub (drop n src) then some n else rest

-- MemFind of buffers that are not NULL, neither of them empty: the place of the result
unfoldable pub mem_find : Text → Text → Bool → Option ℕ
unfolding first_place last_place
mem_find src sub flag =
    if ltb (length src) (length sub)
    then none
    else if length src == length sub
    then (if text_eq src sub then some 0 else none)
    else if flag
    then first_place (length src - length sub) src sub
    else last_place (suc (length src - length sub)) src sub
