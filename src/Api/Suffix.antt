-- ===== src/Api/Suffix.antt =====
-- GetFileSuffix and TrimSpace (base/common.cc).
use pic_bed.Prelude.{
  ℕ, Bool, true, false, Option, none, some, [], ◌∷◌, ◌++◌, Text, codes, ◌==◌, is_space, ◌≡◌, refl,
  arith, if◌then◌else◌,
}

abbrev pub or_dot : ℕ → Text → Option Text → Option Text
or_dot c s (some found) = some found
or_dot c s none = if c == b'.' then some s else none

-- What follows the last dot.
unfoldable pub after_last_dot : Text → Option Text
after_last_dot [] = none
after_last_dot (c ∷ s) = or_dot c s (after_last_dot s)

abbrev pub or_null : Option Text → Text
or_null none = codes "null"
or_null (some []) = codes "null"
or_null (some (c ∷ s)) = c ∷ s

-- GetFileSuffix: what it writes to `suffix`
unfoldable pub get_file_suffix : Text → Text
unfolding after_last_dot
get_file_suffix file_name = or_null (after_last_dot file_name)

abbrev drop_first : ℕ → Text → Text → Text
drop_first c s rest = if is_space c then rest else c ∷ s

unfoldable pub trim_start : Text → Text
trim_start [] = []
trim_start (c ∷ s) = drop_first c s (trim_start s)

abbrev onto : ℕ → Text → Text
onto c [] = if is_space c then [] else c ∷ []
onto c (d ∷ s) = c ∷ d ∷ s

unfoldable pub trim_end : Text → Text
trim_end [] = []
trim_end (c ∷ s) = onto c (trim_end s)

-- TrimSpace: what it leaves in `inbuf`
unfoldable pub trim_space : Text → Text
unfolding trim_start trim_end
trim_space s = trim_end (trim_start s)

-- No dot.
unfoldable pub dotless : Text → Bool
dotless [] = true
dotless (c ∷ s) = let rest = dotless s in if c == b'.' then false else rest

none_after : (s : Text) → dotless s ≡ true → after_last_dot s ≡ none
unfolding dotless after_last_dot
none_after [] h = refl
none_after (c ∷ s) h = ground (arith, none_after s)

last_dot : (s t : Text) → dotless t ≡ true → after_last_dot (s ++ b'.' ∷ t) ≡ some t
unfolding after_last_dot
last_dot [] t h = rw (none_after t h)
last_dot (c ∷ s) t h = rw (last_dot s t h)

-- The suffix is what follows the last dot of the name, where something does.
get_file_suffix_lem :
    (s t : Text) (c : ℕ) → dotless (c ∷ t) ≡ true → get_file_suffix (s ++ b'.' ∷ c ∷ t) ≡ c ∷ t
unfolding get_file_suffix
get_file_suffix_lem s t c h = rw (last_dot s (c ∷ t) h)

-- A name without a dot has the suffix "null".
pub get_file_suffix-dotless : (s : Text) → dotless s ≡ true → get_file_suffix s ≡ codes "null"
unfolding get_file_suffix
get_file_suffix-dotless s h = rw (none_after s h)
