-- ===== src/Api/DealFile/Delete.antt =====
-- What deleting a file does where the response is OK (handleDeleteFile, api/api_dealfile.cc).
use pic_bed.Prelude.{
  ℕ, ◌-◌, ◌<◌, Bool, true, false, Option, none, some, Text, text_eq, ◌≡◌, refl, sym, ap, subst, ◌∙◌,
  ◌++◌, true_of_not, ltb, ltb→lt, ==_iff, arith,
}
use pic_bed.Services.{Services}
use pic_bed.Services.Statement.{
  select_shared_status, delete_share_file, delete_user_file, select_file_id, delete_file_info,
  update_ref_count,
}
use pic_bed.Mysql
use pic_bed.Triple.{
  Triple, result, bind, pure_rule, stop_if_rule, stop_last_rule, need_rule, ignore_rule, when_rule,
  choose_rule, weaken, handler_ends,
}
use pic_bed.Sql.{Tables, IsSql, apply, owned_by, delete_where}
use pic_bed.Sql.Rules.{
  ref_count, keeps_inline_rule, call_rule, count_rule, update_rule, drop_rule, query_rule,
}
use pic_bed.Sql.CountRules.{decr_count_rule, first_row_rule}
use pic_bed.Sql.RedisKeeps.{zset_exit-Keeps, zset_zrem-Keeps, hdel-Keeps}
use pic_bed.Sql.References.{
  total, replaced, first_count-update_self, first_count-update_ne, first_count-delete_self,
  first_count-delete_ne,
}
use pic_bed.Api.Codes.{resp_ok, resp_fail}
use pic_bed.Api.Counts.{file_public_count, file_user_count}
use pic_bed.Sql.Outcomes.{count_found}
use pic_bed.Api.DealFile.{
  status_in_mysql, unshare_file, remove_stored_file, decrement_references, drop_reference,
  handle_delete_file,
}

total-replaced : (n : ℕ) (o : Option ℕ) → 0 < total o → total (replaced n o) ≡ n
total-replaced n none h = ground arith
total-replaced n (some c) h = refl

module _ (u m f : Text) (before : Tables) where
  -- The user's rows for the file are gone, and the file's count is `n`; no other file's count has
  -- changed.
  pub record Deleted (n : ℕ) (t : Tables) : Type 0 where
    pub rows : t.user_file_list ≡ delete_where (owned_by u m f) before.user_file_list
    pub counted : total (ref_count m t) ≡ n
    pub others : (k : Text) → text_eq m k ≡ false → ref_count k t ≡ ref_count k before

  abbrev Started : Tables → Type 0
  Started t = (t.user_file_list ≡ before.user_file_list) × (t.file_info ≡ before.file_info)

  abbrev Dropped : Tables → Type 0
  Dropped t =
      (t.user_file_list ≡ delete_where (owned_by u m f) before.user_file_list)
      × (t.file_info ≡ before.file_info)

  delete_user_file-Dropped : (t : Tables) → Started t → Dropped (apply (delete_user_file u m f) t)
  unfolding apply
  delete_user_file-Dropped t p = (ap (delete_where (owned_by u m f)) p.0, p.1)

  delete_share_file-Started : (t : Tables) → Started t → Started (apply (delete_share_file u m f) t)
  unfolding apply
  delete_share_file-Started t p = p

  ref_count-same :
      (k : Text) (t : Tables) → t.file_info ≡ before.file_info → ref_count k t ≡ ref_count k before
  unfolding ref_count
  ref_count-same k t e = rw (e)

  update-Deleted :
      (n : ℕ) (t : Tables)
      → Dropped t
      → 0 < total (ref_count m before)
      → Deleted n (apply (update_ref_count n m) t)
  unfolding apply ref_count
  update-Deleted n t p h = record {
    rows = p.0;
    counted =
        ap total (first_count-update_self m n t.file_info)
        ∙ total-replaced n (ref_count m t)
            (subst (λ (o : Option ℕ). 0 < total o) (sym (ref_count-same m t p.1)) h);
    others = λ k h. first_count-update_ne m k n t.file_info h ∙ ref_count-same k t p.1;
  }

  delete_file_info-Deleted :
      (n : ℕ) (t : Tables) → (n ≡ 0) × Deleted n t → Deleted n (apply (delete_file_info m) t)
  unfolding apply ref_count
  delete_file_info-Deleted n t p = record {
    rows = p.1.rows;
    counted = ap total (first_count-delete_self m t.file_info) ∙ sym p.0;
    others = λ k h. first_count-delete_ne m k t.file_info h ∙ p.1.others k h;
  }

  unchanged-Deleted : (t : Tables) → Dropped t → Deleted (total (ref_count m before)) t
  unchanged-Deleted t p = record {
    rows = p.0;
    counted = ap total (ref_count-same m t p.1);
    others = λ k h. ref_count-same k t p.1;
  }

  -- What OK says.
  abbrev E : Option ℕ → Tables → Type 0
  E r t = r ≡ some resp_ok → Deleted (total (ref_count m before) - 1) t

  fails : (t : Tables) → E (some resp_fail) t
  fails t e = cc

  crashes : (t : Tables) → E none t
  crashes t e = cc

  module _ {W : Type 0} {services : Services W} {view : W → Tables}
      (sql : IsSql services view) where
    status-Started :
        (db : Bool) → Triple view Started (status_in_mysql services db u m f) (λ _. Started) E
    unfolding status_in_mysql Mysql.get_result_one_status
    status-Started db = bind (need_rule db λ t p. crashes t) λ _.
        bind
          (bind (query_rule sql (select_shared_status u m f))
            λ results. bind (first_row_rule results λ t p. crashes t) λ row. pure_rule _ λ t p. p)
          λ answer. pure_rule _ λ t p. p

    unshare_file-Started :
        (db listed : Bool)
        → Triple view Started (unshare_file services db listed u m f) (λ _. Started) E
    unfolding unshare_file
    unshare_file-Started db listed = bind (need_rule db λ t p. crashes t) λ _.
        bind
          (drop_rule sql (delete_share_file u m f) (λ _. Started) (λ t p. p)
            delete_share_file-Started)
          λ dropped. bind (stop_if_rule _ _ λ t b p. fails t) λ _.
            bind (weaken (λ t p. p.1) (decr_count_rule sql file_public_count λ t p. crashes t))
              λ counted. bind (stop_if_rule _ _ λ t b p. fails t) λ _.
                when_rule _
                  (λ e.
                    bind
                      (ignore_rule (
                        weaken (λ t p. p.1)
                          (keeps_inline_rule (zset_zrem-Keeps sql _ _) λ t p. crashes t)))
                      λ _. ignore_rule (keeps_inline_rule (hdel-Keeps sql _ _) λ t p. crashes t))
                  λ t b p. p.1

    remove_stored_file-Deleted :
        (n : ℕ)
        → Triple view
            (λ t. (n ≡ 0) × Deleted n t)
            (remove_stored_file services m)
            (λ _. Deleted n)
            E
    unfolding remove_stored_file
    remove_stored_file-Deleted n = bind (query_rule sql (select_file_id m)) λ results.
        bind (first_row_rule results λ t p. crashes t) λ row.
          bind
            (ignore_rule (
              drop_rule sql (delete_file_info m) (λ _. Deleted n) (λ t p. p.1)
                (delete_file_info-Deleted n)))
            λ _.
              bind (call_rule (services.delete_stored_file _) (sql.delete_stored_file_keeps _))
                λ status. stop_last_rule _ _ (λ t b p. fails t) λ t b p. p

    abbrev Left : ℕ → Tables → Type 0
    Left left t = (left ≡ total (ref_count m before) - 1) × Deleted left t

    decrement_references-Left :
        (n : ℕ)
        → 0 < n
        → Triple view
            (λ t. Dropped t × (ref_count m before ≡ some n))
            (decrement_references services m n)
            Left
            E
    unfolding decrement_references
    decrement_references-Left n positive =
        bind
          (update_rule sql (update_ref_count (n - 1) m) true (λ ok t. ok ≡ true → Left (n - 1) t)
            (λ t p e. cc)
            λ t ok p e. (
              ap (λ (o : Option ℕ). total o - 1) (sym p.1),
              update-Deleted (n - 1) t p.0
                  (subst (λ (o : Option ℕ). 0 < total o) (sym p.1) positive),
            ))
          λ updated.
            bind (stop_if_rule _ _ λ t b p. fails t) λ _. pure_rule _ λ t p. p.1 (true_of_not _ p.0)

    empty_count :
        (n : ℕ) (t : Tables)
        → ltb 0 n ≡ false
        → Dropped t × (ref_count m before ≡ some n)
        → Left n t
    empty_count n t e p =
        let same : total (ref_count m before) ≡ n = ap total p.1 in
        (ground arith, subst (λ (n : ℕ). Deleted n t) same (unchanged-Deleted t p.0))

    drop_reference-Deleted :
        Triple view Dropped
          (drop_reference services m)
          (λ _. Deleted (total (ref_count m before) - 1))
          E
    unfolding drop_reference
    drop_reference-Deleted = bind (count_rule sql m λ t p. crashes t) λ answer.
        bind (stop_if_rule _ _ λ t b p. fails t) λ _.
          bind
            (weaken {P = λ t. Dropped t × (ref_count m before ≡ some answer.1)}
              (λ t p. (
                p.1.0,
                sym (ref_count-same m t p.1.0.1) ∙ count_found _ answer p.1.1 (true_of_not _ p.0),
              ))
              (choose_rule _ {Q = Left}
                (λ e. decrement_references-Left answer.1 (ltb→lt 0 answer.1 e))
                λ e. pure_rule _ λ t p. empty_count answer.1 t e p))
            λ left.
              when_rule _
                (λ e.
                  weaken
                    (λ t p. (sym p.0 ∙ (==_iff left 0).0 e, subst (λ (n : ℕ). Deleted n t) p.0 p.1))
                    (remove_stored_file-Deleted (total (ref_count m before) - 1)))
                λ t b p. subst (λ (n : ℕ). Deleted n t) p.0 p.1

    handle_delete_file-E :
        Triple view (λ t. t ≡ before) (handle_delete_file services u m f) (λ a. E (some a)) E
    unfolding handle_delete_file
    handle_delete_file-E = bind (call_rule services.take_db_conn sql.take_db_conn_keeps) λ db.
        bind (call_rule services.take_cache_conn sql.take_cache_conn_keeps) λ cache.
          bind (need_rule cache λ t p. crashes t) λ _.
            bind
              (weaken {P = Started}
                (λ t p.
                  (ap (λ (t : Tables). t.user_file_list) p, ap (λ (t : Tables). t.file_info) p))
                (keeps_inline_rule (zset_exit-Keeps sql _ _) λ t p. crashes t))
              λ exists. bind (stop_if_rule _ _ λ t b p. fails t) λ _.
                bind
                  (weaken (λ t p. p.1)
                    (choose_rule _ {Q = λ _. Started} (λ e. pure_rule _ λ t p. p)
                      λ e. status-Started db))
                  λ is_shared.
                    bind
                      (when_rule _ {Q = λ _. Started} (λ e. unshare_file-Started db _) λ t e p. p)
                      λ _.
                        bind (decr_count_rule sql (file_user_count ++ u) λ t p. crashes t)
                          λ counted. bind (stop_if_rule _ _ λ t b p. fails t) λ _.
                            bind (need_rule db λ t p. crashes t) λ _.
                              bind
                                (drop_rule sql (delete_user_file u m f)
                                  (λ ok t. ok ≡ true → Dropped t) (λ t p e. cc)
                                  λ t p e. delete_user_file-Dropped t p.1)
                                λ dropped. bind (stop_if_rule _ _ λ t b p. fails t) λ _.
                                  bind
                                    (weaken (λ t p. p.1 (true_of_not _ p.0)) drop_reference-Deleted)
                                    λ _. pure_rule _ λ t p e. p

    -- Where deleting a file is answered with OK, the user's rows for it are gone, the count of the
    -- file is one less, or 0 where it was 0, a missing row in file_info counting as 0, and no other
    -- file's count has changed.
    pub handle_delete_file-Deleted :
        (w : W)
        → view w ≡ before
        → result (handle_delete_file services u m f w) ≡ some resp_ok
        → Deleted (total (ref_count m before) - 1) (view (handle_delete_file services u m f w).1)
    handle_delete_file-Deleted w e = handler_ends E handle_delete_file-E w e
