-- ===== src/Sql/References.antt =====
-- Reference counts: the rows of user_file_list that name a file, against the count that file_info
-- keeps for it. A file is stored as long as its count is not 0.
use pic_bed.Prelude.{
  ℕ, ◌+◌, ◌≤◌, Bool, false, Option, none, some, List, [], ◌∷◌, ◌++◌, Text, text_eq, eq_of_text_eq,
  ◌≡◌, refl, filter, count_if, if◌then◌else◌, arith,
}
use pic_bed.Services.Statement.{}
use pic_bed.Sql.{
  Tables, FileInfo, UserFile, has_md5, owned_by, update_where, delete_where, with_count,
  with_status, with_user_pv,
}
use pic_bed.Sql.Rules.{ref_count, first_count}

abbrev pub names : Text → UserFile → Bool
names m r = text_eq r.md5 m

unfoldable pub references : Text → Tables → ℕ
references m t = count_if (names m) t.user_file_list

-- The count of a file that file_info does not have is 0.
abbrev pub total : Option ℕ → ℕ
total none = 0
total (some c) = c

-- No file is counted below its references.
pub record IsCounted (t : Tables) : Type 0 where
  pub covered : (m : Text) → references m t ≤ total (ref_count m t)

abbrev pub replaced : ℕ → Option ℕ → Option ℕ
replaced n none = none
replaced n (some c) = some n

pub first_count-update_self :
    (m : Text) (n : ℕ) (xs : List FileInfo)
    → first_count (filter (has_md5 m) (update_where (has_md5 m) (with_count n) xs))
      ≡ replaced n (first_count (filter (has_md5 m) xs))
unfolding first_count
first_count-update_self m n [] = refl
first_count-update_self m n (x ∷ xs) = ground (arith, first_count-update_self m n xs)

pub first_count-update_ne :
    (m k : Text) (n : ℕ) (xs : List FileInfo)
    → text_eq m k ≡ false
    → first_count (filter (has_md5 k) (update_where (has_md5 m) (with_count n) xs))
      ≡ first_count (filter (has_md5 k) xs)
unfolding first_count
first_count-update_ne m k n [] h = refl
first_count-update_ne m k n (x ∷ xs) h =
    ground (arith, first_count-update_ne m k n xs h, eq_of_text_eq x.md5 m)

pub first_count-delete_self :
    (m : Text) (xs : List FileInfo)
    → first_count (filter (has_md5 m) (delete_where (has_md5 m) xs)) ≡ none
unfolding first_count
first_count-delete_self m [] = refl
first_count-delete_self m (x ∷ xs) = ground (arith, first_count-delete_self m xs)

pub first_count-delete_ne :
    (m k : Text) (xs : List FileInfo)
    → text_eq m k ≡ false
    → first_count (filter (has_md5 k) (delete_where (has_md5 m) xs))
      ≡ first_count (filter (has_md5 k) xs)
unfolding first_count
first_count-delete_ne m k [] h = refl
first_count-delete_ne m k (x ∷ xs) h =
    ground (arith, first_count-delete_ne m k xs h, eq_of_text_eq x.md5 m)

-- An insert behind a first row does not change what is read.
pub first_count-append :
    (m : Text) (x : FileInfo) (xs : List FileInfo)
    → first_count (filter (has_md5 m) (xs ++ x ∷ [])) ≡ elim (first_count (filter (has_md5 m) xs)) [
      | none ↦ (if has_md5 m x then some x.count else none)
      | some c ↦ some c
    ]
unfolding first_count
first_count-append m x [] = ground arith
first_count-append m x (y ∷ xs) = ground (arith, first_count-append m x xs)

pub count_if-delete_le :
    (u m f k : Text) (xs : List UserFile)
    → count_if (names k) (delete_where (owned_by u m f) xs) ≤ count_if (names k) xs
count_if-delete_le u m f k [] = omega arith
count_if-delete_le u m f k (x ∷ xs) = ground (arith, count_if-delete_le u m f k xs)

-- The rows that a user's delete removes are references to the file.
pub count_if-delete_owned :
    (u m f : Text) (xs : List UserFile)
    → count_if (names m) (delete_where (owned_by u m f) xs) + count_if (owned_by u m f) xs
      ≡ count_if (names m) xs
count_if-delete_owned u m f [] = omega arith
count_if-delete_owned u m f (x ∷ xs) = ground (arith, count_if-delete_owned u m f xs)

pub count_if-status :
    (u m f k : Text) (n : ℕ) (xs : List UserFile)
    → count_if (names k) (update_where (owned_by u m f) (with_status n) xs) ≡ count_if (names k) xs
count_if-status u m f k n [] = refl
count_if-status u m f k n (x ∷ xs) = ground (arith, count_if-status u m f k n xs)

pub count_if-user_pv :
    (u m f k : Text) (n : ℕ) (xs : List UserFile)
    → count_if (names k) (update_where (owned_by u m f) (with_user_pv n) xs) ≡ count_if (names k) xs
count_if-user_pv u m f k n [] = refl
count_if-user_pv u m f k n (x ∷ xs) = ground (arith, count_if-user_pv u m f k n xs)
