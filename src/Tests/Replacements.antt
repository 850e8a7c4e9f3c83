-- ===== src/Tests/Replacements.antt =====
-- Marks and buffers of base/util.cc at concrete inputs.
use pic_bed.Prelude.{
  true, false, none, some, List, [], ◌∷◌, ◌++◌, Text, codes, ◌≡◌, refl, arith, to_decimal,
}
use pic_bed.Util.Marks.{
  find_mark, replace_first, replace_mark_number, replace_str, first_place, last_place, mem_find,
}
use pic_bed.Util.Marks.Filled.{fill, marked, filled, fill-filled}

-- The first value has a mark itself.
abbrev pieces : List (Text × Text)
pieces = (codes "a=", codes "x?y") ∷ (codes ",b=", codes "z") ∷ []

template : marked pieces (codes ";") ≡ codes "a=?,b=?;"
template = refl

both_filled : filled pieces (codes ";") ≡ codes "a='x?y',b='z';"
both_filled = refl

number_filled : (replace_mark_number 34 (codes "n=?", 0)).0 ≡ codes "n=34"
unfolding replace_mark_number replace_first find_mark to_decimal
number_filled = refl

dashes : replace_str (codes "a b c") b' ' b'-' ≡ codes "a-b-c"
unfolding replace_str
dashes = refl

-- A place at the very end is found from the back only.
from_front : mem_find (codes "xxab") (codes "ab") true ≡ none
unfolding mem_find first_place last_place
from_front = refl

from_back : mem_find (codes "xxab") (codes "ab") false ≡ some 2
unfolding mem_find first_place last_place
from_back = refl

fill-filled_example :
    (fill pieces (codes "" ++ marked pieces (codes ";"), 0)).0 ≡ codes "a='x?y',b='z';"
fill-filled_example =
    fill-filled (codes "") (codes ";") pieces
      (((refl, (refl, tt)), ((refl, (refl, (refl, tt))), tt))) (ground arith)
