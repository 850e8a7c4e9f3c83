-- ===== src/Config.antt =====
-- CConfigFileReader (base/config_file_reader.cc): a file of lines `name=value`, read into a map and
-- written back.
pub mod Lines
pub mod Sorted
pub mod RoundTrip
use pic_bed.Prelude.{
  ℕ, ◌+◌, Bool, true, false, not, ◌&&◌, ◌||◌, Option, none, some, List, [], ◌∷◌, ◌++◌, Text, ℤ, pos,
  minus_one, ◌==◌, ltb, length, take, if◌then◌else◌,
}

-- The members; the name of the file is that of the world outside.
pub record ConfigFileReader : Type 0 where
  pub load_ok : Bool
  pub config_map : List (Text × Text)

-- `<` of std::string
unfoldable pub text_less : Text → Text → Bool
text_less [] [] = false
text_less [] (y ∷ ys) = true
text_less (x ∷ xs) [] = false
text_less (x ∷ xs) (y ∷ ys) = ltb x y || (x == y && text_less xs ys)

-- std::map::insert, which leaves a name that is there alone
unfoldable pub insert : Text → Text → List (Text × Text) → List (Text × Text)
insert k v [] = (k, v) ∷ []
insert k v ((j, w) ∷ m) =
    let rest = insert k v m in
    if text_less j k
    then (j, w) ∷ rest
    else if text_less k j
    then (k, v) ∷ (j, w) ∷ m
    else (j, w) ∷ m

-- std::map::find
unfoldable pub find : Text → List (Text × Text) → Option Text
find k [] = none
find k ((j, w) ∷ m) =
    let rest = find k m in if text_less j k then rest else if text_less k j then none else some w

-- SetConfigValue, the map: a name that is there gets the value, another one is inserted.
unfoldable pub assign : Text → Text → List (Text × Text) → List (Text × Text)
assign k v [] = (k, v) ∷ []
assign k v ((j, w) ∷ m) =
    let rest = assign k v m in
    if text_less j k
    then (j, w) ∷ rest
    else if text_less k j
    then (k, v) ∷ (j, w) ∷ m
    else (j, v) ∷ m

-- A space or a tab
abbrev pub is_blank : ℕ → Bool
is_blank c = c == 32 || c == 9

abbrev pub newline : ℕ
newline = 10

-- The loop over the blanks in front
unfoldable pub skip_blanks : Text → Text
skip_blanks [] = []
skip_blanks (c ∷ s) = let rest = skip_blanks s in if is_blank c then rest else c ∷ s

abbrev pub is_empty : Text → Bool
is_empty [] = true
is_empty (c ∷ s) = false

-- The loop over the blanks at the end
unfoldable pub drop_blanks : Text → Text
drop_blanks [] = []
drop_blanks (c ∷ s) =
    let rest = drop_blanks s in if is_empty rest && is_blank c then [] else c ∷ rest

-- _TrimSpace; none for NULL
unfoldable pub trim_space : Text → Option Text
unfolding skip_blanks drop_blanks
trim_space name =
    let start = skip_blanks name in if is_empty start then none else some (drop_blanks start)

-- The text up to a character, and from behind it on where it is there: strchr
unfoldable pub cut_at : ℕ → Text → Text × Option Text
cut_at d [] = ([], none)
cut_at d (c ∷ s) = let rest = cut_at d s in if c == d then ([], some s) else (c ∷ rest.0, rest.1)

-- Where both the name and the value are there, they are inserted.
unfoldable pub insert_both : Option Text → Option Text → List (Text × Text) → List (Text × Text)
unfolding insert
insert_both (some key) (some value) m = insert key value m
insert_both none value m = m
insert_both (some key) none m = m

-- _ParseLine, from what strchr finds
unfoldable pub parse_cut : Text × Option Text → List (Text × Text) → List (Text × Text)
unfolding insert_both trim_space
parse_cut (key, none) m = m
parse_cut (key, some value) m = insert_both (trim_space key) (trim_space value) m

-- _ParseLine
unfoldable pub parse_line : Text → List (Text × Text) → List (Text × Text)
unfolding cut_at parse_cut
parse_line line m = parse_cut (cut_at b'=' line) m

-- The calls of fgets with a buffer of 256 bytes: each gives the rest of a line with its end, or 255
-- bytes of it.
unfoldable pub lines_from : Text → Text → List Text
lines_from line [] = if is_empty line then [] else line ∷ []
lines_from line (c ∷ s) =
    let ended = lines_from [] s in
    let goes_on = lines_from (line ++ c ∷ []) s in
    if c == newline || length line + 1 == 255 then (line ++ c ∷ []) ∷ ended else goes_on

-- `\n` at the end is removed.
unfoldable pub drop_newline : Text → Text
drop_newline [] = []
drop_newline (c ∷ s) =
    let rest = drop_newline s in if is_empty s && c == newline then [] else c ∷ rest

-- One round of the loop of _LoadFile
unfoldable pub load_line : Text → List (Text × Text) → List (Text × Text)
unfolding drop_newline cut_at parse_line
load_line buf m =
    let line = (cut_at b'#' (drop_newline buf)).0 in if is_empty line then m else parse_line line m

unfoldable pub load_lines : List Text → List (Text × Text) → List (Text × Text)
unfolding load_line
load_lines [] m = m
load_lines (buf ∷ bufs) m = load_lines bufs (load_line buf m)

-- _LoadFile; none where fopen fails
unfoldable pub load_file : Option Text → ConfigFileReader → ConfigFileReader
unfolding lines_from load_lines
load_file none r = r
load_file (some content) r = record {
  load_ok = true;
  config_map = load_lines (lines_from [] content) r.config_map;
}

-- The constructor; load_ok_ holds what stood in the memory before.
unfoldable pub config_file_reader : Bool → Option Text → ConfigFileReader
unfolding load_file
config_file_reader junk file = load_file file (record { load_ok = junk; config_map = [] })

-- GetConfigName; none for NULL
unfoldable pub get_config_name : Text → ConfigFileReader → Option Text
unfolding find
get_config_name name r = if r.load_ok then find name r.config_map else none

-- One pair, in a buffer of 128 bytes
abbrev pub pair_line : Text → Text → Text
pair_line k v = take 127 (k ++ b'=' ∷ v ++ newline ∷ [])

-- One line before the others: where it is not written, nothing follows.
abbrev pub add_line : Bool → Text → ℤ × Text → ℤ × Text
add_line true line rest = (rest.0, line ++ rest.1)
add_line false line rest = (minus_one, [])

-- The loop of _WriteFIle: the return value, and what the file holds then. `writes` says whether
-- fwrite writes a text.
unfoldable pub write_pairs : (Text → Bool) → List (Text × Text) → ℤ × Text
write_pairs writes [] = (pos 0, [])
write_pairs writes ((k, v) ∷ m) =
    add_line (writes (pair_line k v)) (pair_line k v) (write_pairs writes m)

-- _WriteFIle; the file is none where fopen fails. A line that fwrite took is in the file: what the
-- unchecked fclose could still fail to write is not modelled.
unfoldable pub write_file : Bool → (Text → Bool) → List (Text × Text) → ℤ × Option Text
unfolding write_pairs
write_file opens writes m =
    let written = write_pairs writes m in
    if opens then (written.0, some written.1) else (minus_one, none)

-- SetConfigValue: the reader, the return value and the file
unfoldable pub set_config_value :
    Bool → (Text → Bool) → Text → Text → ConfigFileReader → ConfigFileReader × ℤ × Option Text
unfolding assign write_file
set_config_value opens writes name value r =
    let m = assign name value r.config_map in
    let written = write_file opens writes m in
    if r.load_ok then (record r { config_map = m }, written.0, written.1) else (r, minus_one, none)
