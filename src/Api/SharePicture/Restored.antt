-- ===== src/Api/SharePicture/Restored.antt =====
-- Sharing a picture and cancelling it again (handleSharePicture and handleCancelSharePicture,
-- api/api_sharepicture.cc).
use pic_bed.Prelude.{
  ℕ, ◌+◌, ◌<◌, true, false, some, List, [], ◌∷◌, ◌++◌, filter, count_if, count_if-append, Text,
  text_eq, text_eq_refl, eq_of_text_eq, ◌≡◌, inl, inr, refl, ap, sym, subst, ◌∙◌, Bool-cases, arith,
}
use pic_bed.Services.{Services}
use pic_bed.Services.Statement.{update_ref_count, delete_share_picture}
use pic_bed.Triple.{result}
use pic_bed.Sql.{Tables, SharePicture, IsSql, apply, has_url, picture_of, delete_where}
use pic_bed.Sql.Rules.{ref_count}
use pic_bed.Sql.References.{replaced, total, first_count-update_ne}
use pic_bed.Sql.Steps.{ref_count-update_self}
use pic_bed.Api.Codes.{resp_ok}
use pic_bed.Api.SharePicture.{ShareAnswer, handle_share_picture, handle_cancel_share_picture}
use pic_bed.Api.SharePicture.Shared.{
  with_picture, ref_count-with_picture, IsShared, handle_share_picture-PictureSharing,
}
use pic_bed.Api.SharePicture.Cancelled.{
  first_md5, picture_md5, without_picture, IsCancelled, handle_cancel_share_picture-IsCancelled,
}

-- The same rows, and for each file the same reference count
pub record IsRestored (before t : Tables) : Type 0 where
  pub references : (k : Text) → ref_count k t ≡ ref_count k before
  pub pictures : t.share_picture_list ≡ before.share_picture_list
  pub user_files : t.user_file_list ≡ before.user_file_list
  pub share_files : t.share_file_list ≡ before.share_file_list
  pub users : t.user_info ≡ before.user_info

-- A link that no row has: its new row is the first one, and the only one that goes.
module _ (u l : Text) (row : SharePicture) where
  first_md5-append :
      (xs : List SharePicture)
      → count_if (has_url l) xs ≡ 0
      → has_url l row ≡ true
      → first_md5 (filter (has_url l) (xs ++ row ∷ [])) ≡ some row.filemd5
  unfolding first_md5
  first_md5-append [] fresh e = rw e refl
  first_md5-append (x ∷ xs) fresh e = ground (arith, first_md5-append xs)

  delete_where-append :
      (xs : List SharePicture)
      → count_if (has_url l) xs ≡ 0
      → picture_of u l row ≡ true
      → delete_where (picture_of u l) (xs ++ row ∷ []) ≡ xs
  delete_where-append [] fresh e = rw e refl
  delete_where-append (x ∷ xs) fresh e = ground (arith, delete_where-append xs)

  count_if-new :
      (xs : List SharePicture)
      → picture_of u l row ≡ true
      → ¬ (count_if (picture_of u l) (xs ++ row ∷ []) ≡ 0)
  count_if-new xs e h = ground (arith, count_if-append (picture_of u l) xs (row ∷ []))

module _ (u m f l time : Text) (before : Tables) (c : ℕ) (counted : ref_count m before ≡ some c)
    (positive : 0 < c) (fresh : count_if (has_url l) before.share_picture_list ≡ 0) where
  abbrev shared_tables : Tables
  shared_tables = apply (update_ref_count (c + 1) m) (with_picture u m f before l time)

  abbrev row : SharePicture
  row = record {
    user = u;
    filemd5 = m;
    file_name = f;
    urlmd5 = l;
    key = [];
    pv = 0;
    create_time = time;
  }

  pictures_of : shared_tables.share_picture_list ≡ before.share_picture_list ++ row ∷ []
  unfolding apply
  pictures_of = refl

  ref_count-shared : ref_count m shared_tables ≡ some (c + 1)
  ref_count-shared =
      ref_count-update_self m (c + 1) (with_picture u m f before l time)
      ∙ ap (replaced (c + 1)) (ref_count-with_picture u m f before l time ∙ counted)

  picture_md5-shared : picture_md5 l shared_tables ≡ some m
  unfolding picture_md5 apply
  picture_md5-shared = first_md5-append u l row before.share_picture_list fresh (text_eq_refl l)

  abbrev cancelled_tables : Tables
  cancelled_tables = apply (delete_share_picture u l) (apply (update_ref_count c m) shared_tables)

  ref_count-with_picture_any :
      (k : Text) → ref_count k (with_picture u m f before l time) ≡ ref_count k before
  unfolding ref_count apply
  ref_count-with_picture_any k = refl

  picture_of-row : picture_of u l row ≡ true
  picture_of-row = rw (text_eq_refl u, text_eq_refl l) refl

  ref_count-other :
      (k : Text) (n : ℕ) (t : Tables)
      → text_eq m k ≡ false
      → ref_count k (apply (update_ref_count n m) t) ≡ ref_count k t
  unfolding ref_count apply
  ref_count-other k n t other = first_count-update_ne m k n t.file_info other

  ref_count-deleted :
      (k : Text) (t : Tables) → ref_count k (apply (delete_share_picture u l) t) ≡ ref_count k t
  unfolding ref_count apply
  ref_count-deleted k t = refl

  references-cancelled : (k : Text) → ref_count k cancelled_tables ≡ ref_count k before
  references-cancelled k =
      ref_count-deleted k (apply (update_ref_count c m) shared_tables)
      ∙ elim (Bool-cases (text_eq m k)) [
        | inl same ↦
            subst
              (λ (k : Text).
                ref_count k (apply (update_ref_count c m) shared_tables) ≡ ref_count k before)
              (eq_of_text_eq m k same)
              (ref_count-update_self m c shared_tables
                ∙ ap (replaced c) ref_count-shared
                ∙ sym counted)
        | inr other ↦
            ref_count-other k c shared_tables other
            ∙ ref_count-other k (c + 1) (with_picture u m f before l time) other
            ∙ ref_count-with_picture_any k
      ]

  cancelled-IsRestored : IsRestored before cancelled_tables
  unfolding apply
  cancelled-IsRestored = record {
    references = references-cancelled;
    pictures = delete_where-append u l row before.share_picture_list fresh picture_of-row;
    user_files = refl;
    share_files = refl;
    users = refl;
  }

  without_picture-shared : without_picture u l shared_tables m (c + 1) ≡ cancelled_tables
  unfolding apply
  without_picture-shared = ground arith

  -- What cancelling makes of the shared picture.
  cancelled_back : (t : Tables) → IsCancelled u l shared_tables t → IsRestored before t
  cancelled_back t (inl (none_left, same)) = absurd (
      count_if-new u l row before.share_picture_list picture_of-row
        (ap (count_if (picture_of u l)) (sym pictures_of) ∙ none_left))
  cancelled_back t (inr (k, n, found, read, same)) =
      let shared : picture_md5 l shared_tables ≡ some m = picture_md5-shared in
      let raised : ref_count m shared_tables ≡ some (c + 1) = ref_count-shared in
      let file : k ≡ m = cc in
      let there : ref_count m shared_tables ≡ some n =
        subst (λ (k : Text). ref_count k shared_tables ≡ some n) file read in
      let count : n ≡ c + 1 = cc in
      subst (IsRestored before)
        (sym (
          same
          ∙ ap (λ (k : Text). without_picture u l shared_tables k n) file
          ∙ ap (without_picture u l shared_tables m) count
          ∙ without_picture-shared))
        cancelled-IsRestored

module _ {W : Type 0} {services : Services W} {view : W → Tables} (sql : IsSql services view)
    (u m f l : Text) (before : Tables) where
  restored :
      (after t : Tables)
      → IsShared u m f before l after
      → count_if (has_url l) before.share_picture_list ≡ 0
      → 0 < total (ref_count m before)
      → IsCancelled u l after t
      → IsRestored before t
  restored after t (c, time, counted, same) fresh positive h =
      cancelled_back u m f l time before c counted (ground (arith, counted, positive)) fresh t
        (subst (λ (after : Tables). IsCancelled u l after t) same h)

  -- Where a picture of a file that has a reference is shared under a link that no row had, and the
  -- user cancels that link while the tables are as sharing left them, both with OK: the tables have
  -- the rows that they had before, and each file has the reference count that it had.
  pub share_cancel-IsRestored :
      (w w' : W) (answer : ShareAnswer)
      → view w ≡ before
      → result (handle_share_picture services u m f w) ≡ some answer
      → answer.code ≡ resp_ok
      → answer.urlmd5 ≡ some l
      → count_if (has_url l) before.share_picture_list ≡ 0
      → 0 < total (ref_count m before)
      → view w' ≡ view (handle_share_picture services u m f w).1
      → result (handle_cancel_share_picture services u l w') ≡ some resp_ok
      → IsRestored before (view (handle_cancel_share_picture services u l w').1)
  share_cancel-IsRestored w w' answer start shares ok link fresh positive between cancels =
      let sharing = handle_share_picture-PictureSharing u m f before sql w start in
      let (k, named, done) = sharing.ok answer shares ok in
      let same : k ≡ l = cc in
      restored (view w') _
        (subst (λ (t : Tables). IsShared u m f before l t) (sym between)
          (subst
            (λ (k : Text). IsShared u m f before k (view (handle_share_picture services u m f w).1))
            same done))
        fresh positive (handle_cancel_share_picture-IsCancelled u l (view w') sql w' refl cancels)
