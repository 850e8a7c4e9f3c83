-- ===== src/Sql/Outcomes.antt =====
-- What a user who takes over a stored file may see afterwards, by the code of the response.
use pic_bed.Prelude.{
  ℕ, ◌+◌, ◌<◌, Option, none, some, Text, zero, suc, true, sym, ap, ℤ, pos, negsuc, equals, arith,
  ◌≡◌, count_if,
}
use pic_bed.Services.Statement.{update_ref_count, insert_user_file}
use pic_bed.Sql.{Tables, apply, owned_by}
use pic_bed.Sql.Rules.{ref_count, read_count, Checked}
use pic_bed.Api.Codes.{resp_ok, resp_fail, resp_file_exist}

-- What the check and the count say.
pub has_it : (n : ℕ) (a : ℤ) → equals a 1 ≡ true → Checked n a → 0 < n
has_it n (pos zero) e h = ground arith
has_it n (pos (suc zero)) e h = h
has_it n (pos (suc (suc k))) e h = absurd h
has_it n (negsuc k) e h = cc

pub count_found : (o : Option ℕ) (a : ℤ × ℕ) → a ≡ read_count o → equals a.0 0 ≡ true → o ≡ some a.1
count_found none a e h = ground arith
count_found (some c) a e h = ap (λ (n : ℕ). some n) (sym (ap (λ (p : ℤ × ℕ). p.1) e))

-- The count of the file is one more, and the user has a row for it, neither shared nor downloaded.
abbrev pub TakenOver : Text → Text → Text → Tables → Tables → Type 0
TakenOver u m f before t =
    (c : ℕ) × (time : Text) × (ref_count m before ≡ some c)
    × (t ≡ apply (insert_user_file u m time f 0 0) (apply (update_ref_count (c + 1) m) before))

pub record Outcome (u m f : Text) (Free : Type 0) (before : Tables) (r : Option ℕ) (t : Tables)
    : Type 0 where
  -- OK: the file is taken over.
  pub ok : r ≡ some resp_ok → Free × TakenOver u m f before t
  -- FILE_EXIST: the user has the file already, and nothing has changed.
  pub exist :
      r ≡ some resp_file_exist
      → (0 < count_if (owned_by u m f) before.user_file_list) × (t ≡ before)

module _ (u m f : Text) (Free : Type 0) (before t : Tables) where
  pub failed : Outcome u m f Free before (some resp_fail) t
  failed = record { ok = λ e. cc; exist = λ e. cc }

  pub crashed : Outcome u m f Free before none t
  crashed = record { ok = λ e. cc; exist = λ e. cc }

  pub existing :
      0 < count_if (owned_by u m f) before.user_file_list
      → t ≡ before
      → Outcome u m f Free before (some resp_file_exist) t
  existing h e = record { ok = λ q. cc; exist = λ q. (h, e) }

  pub taken : Free → TakenOver u m f before t → Outcome u m f Free before (some resp_ok) t
  taken h e = record { ok = λ q. (h, e); exist = λ q. cc }
