-- ===== src/Config/RoundTrip.antt =====
-- A value that is set is in the file, and is read from there (SetConfigValue, _WriteFIle and
-- _LoadFile, base/config_file_reader.cc).
use pic_bed.Prelude.{
  Bool, true, false, Option, none, some, List, [], ◌∷◌, ◌++◌, Text, ℤ, pos, minus_one,
  if◌then◌else◌, ◌≡◌, refl, ap, sym, subst, ◌∙◌, append_assoc, append-nil, Bool-cases, inl, inr,
}
use pic_bed.Config.{
  ConfigFileReader, text_less, assign, find, lines_from, load_lines, load_file, config_file_reader,
  get_config_name, pair_line, add_line, write_pairs, write_file, set_config_value,
}
use pic_bed.Config.Lines.{IsPair, lines_from-pair, load_line-pair}
use pic_bed.Config.Sorted.{
  Above, Below, IsSorted, insert-last, assign-IsSorted, text_less_same, find-assign,
}

-- Each pair fits into a line.
abbrev pub ArePairs : List (Text × Text) → Type 0
ArePairs [] = Unit
ArePairs ((k, v) ∷ m) = IsPair k v × ArePairs m

assign-ArePairs :
    (k v : Text) (m : List (Text × Text)) → IsPair k v → ArePairs m → ArePairs (assign k v m)
unfolding assign
assign-ArePairs k v [] p h = (p, tt)
assign-ArePairs k v ((j, w) ∷ m) p h = elim (Bool-cases (text_less j k)) [
  | inl less ↦ rw less (h.0, assign-ArePairs k v m p h.1)
  | inr other ↦ rw other (elim (Bool-cases (text_less k j)) [
    | inl more ↦ rw more (p, h)
    | inr same ↦ rw same (subst (λ (j : Text). IsPair j v) (text_less_same k j same other) p, h.1)
  ])
]

-- The text of all pairs
abbrev pairs_text : List (Text × Text) → Text
pairs_text [] = []
pairs_text ((k, v) ∷ m) = pair_line k v ++ pairs_text m

one_written :
    (b : Bool) (line : Text) (rest : ℤ × Text) (text : Text)
    → (rest.0 ≡ pos 0 → rest.1 ≡ text)
    → (add_line b line rest).0 ≡ pos 0
    → (add_line b line rest).1 ≡ line ++ text
one_written true line rest text ih h = ap (λ (t : Text). line ++ t) (ih h)
one_written false line rest text ih h = cc

-- A file that was written without an error has all pairs.
write_pairs-all :
    (writes : Text → Bool) (m : List (Text × Text))
    → (write_pairs writes m).0 ≡ pos 0
    → (write_pairs writes m).1 ≡ pairs_text m
unfolding write_pairs
write_pairs-all writes [] h = refl
write_pairs-all writes ((k, v) ∷ m) h =
    one_written (writes (pair_line k v)) (pair_line k v) (write_pairs writes m) (pairs_text m)
      (write_pairs-all writes m) h

-- Each name of the first map is below each one of the second.
abbrev Before : List (Text × Text) → List (Text × Text) → Type 0
Before acc [] = Unit
Before acc ((k, v) ∷ m) = Below k acc × Before acc m

Below-append :
    (j k v : Text) (acc : List (Text × Text))
    → text_less k j ≡ true
    → Below j acc
    → Below j (acc ++ (k, v) ∷ [])
Below-append j k v [] l h = (l, tt)
Below-append j k v ((i, w) ∷ acc) l h = (h.0, Below-append j k v acc l h.1)

Before-append :
    (k v : Text) (acc m : List (Text × Text))
    → Above k m
    → Before acc m
    → Before (acc ++ (k, v) ∷ []) m
Before-append k v acc [] a h = tt
Before-append k v acc ((j, w) ∷ m) a h =
    (Below-append j k v acc a.0 h.0, Before-append k v acc m a.1 h.1)

-- The pairs are read back behind those that are there.
load_lines-pairs :
    (acc m : List (Text × Text))
    → IsSorted m
    → ArePairs m
    → Before acc m
    → load_lines (lines_from [] (pairs_text m)) acc ≡ acc ++ m
unfolding lines_from load_lines
load_lines-pairs acc [] s p b = sym (append-nil acc)
load_lines-pairs acc ((k, v) ∷ m) s p b =
    ap (λ (ls : List Text). load_lines ls acc) (lines_from-pair k v (pairs_text m) p.0)
    ∙ ap (load_lines (lines_from [] (pairs_text m)))
        (load_line-pair k v acc p.0 ∙ insert-last k v acc b.0)
    ∙ load_lines-pairs (acc ++ (k, v) ∷ []) m s.1 p.1 (Before-append k v acc m s.0 b.1)
    ∙ append_assoc acc ((k, v) ∷ []) m

Before-nil : (m : List (Text × Text)) → Before [] m
Before-nil [] = tt
Before-nil ((k, v) ∷ m) = (tt, Before-nil m)

written_file :
    (opens : Bool) (writes : Text → Bool) (m : List (Text × Text))
    → (write_file opens writes m).0 ≡ pos 0
    → (write_file opens writes m).1 ≡ some (pairs_text m)
unfolding write_file
written_file true writes m h = ap (λ (t : Text). some t) (write_pairs-all writes m h)
written_file false writes m h = cc

went_through :
    (b : Bool) (x y : ConfigFileReader × ℤ × Option Text)
    → y.1 ≡ minus_one
    → (if b then x else y).1 ≡ pos 0
    → (if b then x else y) ≡ x
went_through true x y e h = refl
went_through false x y e h = cc

-- Where SetConfigValue returns 0 for a name and a value that fit into a line, in a reader whose pairs
-- do so and are in order: a reader of the file, whatever its memory held, has exactly the map that
-- SetConfigValue made, and finds the value under the name.
pub set_config_value-config_file_reader :
    (opens : Bool) (writes : Text → Bool) (name value : Text) (r : ConfigFileReader) (junk : Bool)
    → IsSorted r.config_map
    → ArePairs r.config_map
    → IsPair name value
    → (set_config_value opens writes name value r).1 ≡ pos 0
    → let again = config_file_reader junk (set_config_value opens writes name value r).2 in
      (again.config_map ≡ assign name value r.config_map)
      × (get_config_name name again ≡ some value)
unfolding config_file_reader load_file get_config_name set_config_value write_file
set_config_value-config_file_reader opens writes name value r junk s p fits done =
    let m = assign name value r.config_map in
    let written = write_file opens writes m in
    let run : set_config_value opens writes name value r
        ≡ (record r { config_map = m }, written.0, written.1) =
      went_through r.load_ok (record r { config_map = m }, written.0, written.1)
        (r, minus_one, none) refl done in
    let file : (set_config_value opens writes name value r).2 ≡ some (pairs_text m) =
      ap (λ o. o.2) run ∙ written_file opens writes m (sym (ap (λ o. o.1) run) ∙ done) in
    let loaded : load_lines (lines_from [] (pairs_text m)) [] ≡ m =
      load_lines-pairs [] m (assign-IsSorted name value r.config_map s)
        (assign-ArePairs name value r.config_map fits p) (Before-nil m) in
    (
      ap (λ (f : Option Text). (config_file_reader junk f).config_map) file ∙ loaded,
      ap (λ (f : Option Text). get_config_name name (config_file_reader junk f)) file
          ∙ ap (find name) loaded
          ∙ find-assign name value r.config_map,
    )
