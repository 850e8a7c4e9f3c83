-- ===== src/Api/SharePicture/Cancelled.antt =====
-- What cancelling a shared picture does where it is answered with OK (handleCancelSharePicture,
-- api/api_sharepicture.cc).
use pic_bed.Prelude.{
  ℕ, ◌-◌, Bool, true, false, Option, none, some, List, [], ◌∷◌, map, filter, count_if, length, Text,
  ◌≡◌, ◌⊎◌, inl, inr, refl, ap, sym, subst, ◌++◌, true_of_not, not, ltb, ◌==◌, if◌then◌else◌, arith,
}
use pic_bed.Services.{Services, Row, Column}
use pic_bed.Services.Statement.{
  select_share_picture, select_picture_md5, select_count_and_id, delete_share_picture,
  update_ref_count, delete_file_info,
}
use pic_bed.Act.{◌>>=◌, ◌>>◌, choose, when, pure, need, ignore, stop_if}
use pic_bed.Mysql
use pic_bed.Api.Counts
use pic_bed.Triple.{
  Triple, result, bind, pure_rule, leave_rule, stop_if_rule, stop_last_rule, need_rule, ignore_rule,
  choose_rule, when_rule, weaken, given, after, bind_two, handler_ends,
}
use pic_bed.Sql.{Tables, FileInfo, SharePicture, IsSql, apply, has_md5, has_url, picture_of}
use pic_bed.Sql.Rules.{ref_count, first_count, call_rule, drop_rule, update_rule, pass_query_rule}
use pic_bed.Sql.Queries.{answered_rule}
use pic_bed.Sql.CountRules.{decr_count_rule}
use pic_bed.Api.Codes.{resp_ok, resp_fail}
use pic_bed.Api.Counts.{share_pic_count}
use pic_bed.Api.SharePicture.{
  failed, row_num, row_or_leave, release_reference, remove_unused, handle_cancel_share_picture,
}

-- The file of a link, in its first row
unfoldable pub first_md5 : List SharePicture → Option Text
first_md5 [] = none
first_md5 (r ∷ rows) = some r.filemd5

unfoldable pub picture_md5 : Text → Tables → Option Text
unfolding first_md5
picture_md5 l t = first_md5 (filter (has_url l) t.share_picture_list)

-- One reference less, where there is one
abbrev pub released : Text → ℕ → Tables → Tables
released m c t = if ltb 0 c then apply (update_ref_count (c - 1) m) t else t

-- A file without a reference is deleted.
abbrev pub removed : Text → ℕ → Tables → Tables
removed m left t = if left == 0 then apply (delete_file_info m) t else t

-- What the rows of the two other queries say.
first_picture :
    (row : Row) (rows : List Row) (pictures : List SharePicture)
    → map (λ (r : Row). r.get_string Column.filemd5) (row ∷ rows)
      ≡ map (λ (r : SharePicture). r.filemd5) pictures
    → first_md5 pictures ≡ some (row.get_string Column.filemd5)
unfolding first_md5
first_picture row rows [] e = cc
first_picture row rows (r ∷ rs) e = cc

first_file :
    (row : Row) (rows : List Row) (files : List FileInfo)
    → map (λ (r : Row). r.get_int Column.count) (row ∷ rows) ≡ map (λ (r : FileInfo). r.count) files
    → first_count files ≡ some (row.get_int Column.count)
unfolding first_count
first_file row rows [] e = cc
first_file row rows (r ∷ rs) e = cc

module _ (u l : Text) (before : Tables) where
  abbrev pub without_picture : Text → ℕ → Tables
  without_picture m c = removed m (c - 1) (apply (delete_share_picture u l) (released m c before))

  -- The user has not shared this link, and nothing is done; or the file of the link has given the
  -- reference back, the user's row is gone, and so is the file's row after the last reference.
  abbrev pub IsCancelled : Tables → Type 0
  IsCancelled t =
      ((count_if (picture_of u l) before.share_picture_list ≡ 0) × (t ≡ before))
      ⊎ ((m : Text) × (c : ℕ) × (picture_md5 l before ≡ some m)
          × (ref_count m before ≡ some c)
          × (t ≡ without_picture m c))

  abbrev E : Option ℕ → Tables → Type 0
  E r t = r ≡ some resp_ok → IsCancelled t

  fails : (t : Tables) → E (some resp_fail) t
  fails t e = cc

  crashes : (t : Tables) → E none t
  crashes t e = cc

  -- What the rows of the first query say.
  abbrev QueryRows : Option (List Row) → Type 0
  QueryRows o =
      (rows : List Row)
      → o ≡ some rows
      → length rows ≡ count_if (picture_of u l) before.share_picture_list

  no_rows :
      (o : Option (List Row))
      → failed o ≡ false
      → (row_num o == 0) ≡ true
      → QueryRows o
      → count_if (picture_of u l) before.share_picture_list ≡ 0
  no_rows none e z h = cc
  no_rows (some []) e z h = sym (h [] refl)
  no_rows (some (r ∷ rows)) e z h = ground arith

  module _ {W : Type 0} {services : Services W} {view : W → Tables}
      (sql : IsSql services view) where
    row_rule :
        {R : Type 0} {F : Option R → Tables → Type 0} {P : Tables → Type 0} (r : R)
        (o : Option (List Row))
        → ((t : Tables) → P t → F (some r) t)
        → Triple view P
            (row_or_leave r o)
            (λ row t. P t × ((rows : List Row) × (o ≡ some (row ∷ rows))))
            F
    unfolding row_or_leave
    row_rule r none h = leave_rule r h
    row_rule r (some []) h = leave_rule r h
    row_rule r (some (row ∷ rows)) h = pure_rule row λ t p. (p, (rows, refl))

    release_rule :
        (m : Text) (c : ℕ)
        → Triple view
            (λ t. t ≡ before)
            (choose (ltb 0 c) (release_reference services m c) (pure c))
            (λ left t. (left ≡ c - 1) × (t ≡ released m c before))
            E
    unfolding release_reference
    release_rule m c =
        choose_rule _
          (λ e.
            bind
              (update_rule sql (update_ref_count (c - 1) m) true
                (λ ok t. ok ≡ true → t ≡ released m c before) (λ t p e. cc)
                λ t ok p q. rw e (ap (apply (update_ref_count (c - 1) m)) p))
              λ updated.
                bind (stop_if_rule _ _ λ t b p. fails t)
                  λ _. pure_rule _ λ t p. (refl, p.1 (true_of_not _ p.0)))
          λ e. pure_rule _ λ t p. (ground (arith, e), rw e p)

    remove_rule :
        (m id : Text) (t0 : Tables)
        → Triple view
            (λ t. t ≡ t0)
            (remove_unused services m id)
            (λ _ t. t ≡ apply (delete_file_info m) t0)
            E
    unfolding remove_unused
    remove_rule m id t0 =
        bind
          (drop_rule sql (delete_file_info m)
            (λ ok t. ok ≡ true → t ≡ apply (delete_file_info m) t0) (λ t p e. cc)
            λ t p e. ap (apply _) p)
          λ dropped. bind (stop_if_rule _ _ λ t b p. fails t) λ _.
            bind
              (weaken (λ t p. p.1 (true_of_not _ p.0))
                (call_rule (services.delete_stored_file id) (sql.delete_stored_file_keeps id)))
              λ ret2. stop_last_rule _ _ (λ t b p. fails t) λ t b p. p

    removed_rule :
        (m id : Text) (left : ℕ) (t0 : Tables)
        → Triple view
            (λ t. t ≡ t0)
            (when (left == 0) (remove_unused services m id))
            (λ _ t. t ≡ removed m left t0)
            E
    removed_rule m id left t0 = when_rule _ (λ e. rw e (remove_rule m id t0)) λ t b p. rw b p

    own_rule :
        Triple view
          (λ t. t ≡ before)
          (Mysql.execute_query services (select_share_picture u l))
          (λ own t. QueryRows own × (t ≡ before))
          E
    own_rule = after (answered_rule sql (select_share_picture u l)) λ own t p. (
      λ rows e.
          subst (λ (t : Tables). length rows ≡ count_if (picture_of u l) t.share_picture_list) p.0
            (p.1.0 rows e),
      p.0,
    )

    picture_rule :
        Triple view
          (λ t. t ≡ before)
          (Mysql.execute_query services (select_picture_md5 l) >>= row_or_leave resp_fail)
          (λ row t. (picture_md5 l before ≡ some (row.get_string Column.filemd5)) × (t ≡ before))
          E
    unfolding picture_md5
    picture_rule = bind (answered_rule sql (select_picture_md5 l)) λ o.
        after (row_rule resp_fail o λ t p. fails t) λ row t p. (
          first_picture row p.1.0 (filter (has_url l) before.share_picture_list) (
              subst
                (λ (t : Tables).
                  map (λ (r : Row). r.get_string Column.filemd5) (row ∷ p.1.0)
                  ≡ map (λ (r : SharePicture). r.filemd5) (filter (has_url l) t.share_picture_list))
                p.0.0 (p.0.1.0 (row ∷ p.1.0) p.1.1)),
          p.0.0,
        )

    file_rule :
        (m : Text)
        → Triple view
            (λ t. t ≡ before)
            (Mysql.execute_query services (select_count_and_id m) >>= row_or_leave resp_fail)
            (λ row t. (ref_count m before ≡ some (row.get_int Column.count)) × (t ≡ before))
            E
    unfolding ref_count
    file_rule m = bind (answered_rule sql (select_count_and_id m)) λ o.
        after (row_rule resp_fail o λ t p. fails t) λ row t p. (
          first_file row p.1.0 (filter (has_md5 m) before.file_info) (
              subst
                (λ (t : Tables).
                  map (λ (r : Row). r.get_int Column.count) (row ∷ p.1.0)
                  ≡ map (λ (r : FileInfo). r.count) (filter (has_md5 m) t.file_info))
                p.0.0 (p.0.1.0 (row ∷ p.1.0) p.1.1)),
          p.0.0,
        )

    -- The steps behind the queries
    finish_rule :
        (cache : Bool) (m id : Text) (c : ℕ)
        → picture_md5 l before ≡ some m
        → ref_count m before ≡ some c
        → Triple view
            (λ t. t ≡ before)
            (do
              left ← choose (ltb 0 c) (release_reference services m c) (pure c)
              deleted ← Mysql.execute_pass_query services (delete_share_picture u l)
              stop_if (not deleted) resp_fail
              when (left == 0) (remove_unused services m id)
              need cache
              ignore (Counts.cache_decr_count services (share_pic_count ++ u))
              pure resp_ok)
            (λ a. E (some a))
            E
    finish_rule cache m id c found counted = bind (release_rule m c) λ left. given λ same.
        bind
          (pass_query_rule sql (delete_share_picture u l)
            (λ ok t. ok ≡ true → t ≡ apply (delete_share_picture u l) (released m c before))
            (λ t p e. cc) λ t p e. ap (apply _) p)
          λ deleted. bind (stop_if_rule _ _ λ t b p. fails t) λ _.
            bind (weaken (λ t p. p.1 (true_of_not _ p.0)) (removed_rule m id left _)) λ _.
              bind (need_rule cache λ t p. crashes t) λ _.
                bind (ignore_rule (decr_count_rule sql (share_pic_count ++ u) λ t p. crashes t))
                  λ _. pure_rule _ λ t p e. inr (
                    m,
                    c,
                    found,
                    counted,
                    subst
                        (λ (n : ℕ).
                          t ≡ removed m n (apply (delete_share_picture u l) (released m c before)))
                        same p,
                  )

    handle_cancel_share_picture-E :
        Triple view (λ t. t ≡ before) (handle_cancel_share_picture services u l) (λ a. E (some a)) E
    unfolding handle_cancel_share_picture
    handle_cancel_share_picture-E =
        bind (call_rule services.take_db_conn sql.take_db_conn_keeps) λ db.
          bind (call_rule services.take_cache_conn sql.take_cache_conn_keeps) λ cache.
            bind (need_rule db λ t p. crashes t) λ _. bind own_rule λ own.
              bind (stop_if_rule _ _ λ t b p. fails t) λ _. given λ good.
                bind (stop_if_rule _ _ λ t b p e. inl (no_rows own good b p.0, p.1)) λ _.
                  weaken {P = λ t. t ≡ before} (λ t p. p.1.1)
                    (bind_two _ _ _ picture_rule λ picture. given λ found.
                      bind_two _ _ _ (file_rule _)
                        λ file. given λ counted. finish_rule cache _ _ _ found counted)

    pub handle_cancel_share_picture-IsCancelled :
        (w : W)
        → view w ≡ before
        → result (handle_cancel_share_picture services u l w) ≡ some resp_ok
        → IsCancelled (view (handle_cancel_share_picture services u l w).1)
    handle_cancel_share_picture-IsCancelled w e = handler_ends E handle_cancel_share_picture-E w e
