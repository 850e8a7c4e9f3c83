-- ===== src/Api/DealFile/Share.antt =====
-- What sharing a file does, however it ends (handleShareFile, api/api_dealfile.cc).
use pic_bed.Prelude.{
  ℕ, Bool, true, false, Option, none, some, Text, ◌≡◌, ◌⊎◌, inl, inr, ap, ◌++◌, true_of_not,
}
use pic_bed.Services.{Services}
use pic_bed.Services.Statement.{update_shared_status, insert_share_file, select_share_file}
use pic_bed.Mysql
use pic_bed.Triple.{
  Triple, result, bind, pure_rule, leave_rule, stop_if_rule, stop_last_rule, need_rule, ignore_rule,
  when_rule, choose_rule, weaken, handler_ends,
}
use pic_bed.Sql.{Tables, IsSql, apply}
use pic_bed.Sql.Rules.{keeps_inline_rule, call_rule, update_rule, create_rule, query_rule}
use pic_bed.Sql.CountRules.{incr_count_rule}
use pic_bed.Sql.RedisKeeps.{zset_exit-Keeps, zset_add-Keeps, hset-Keeps}
use pic_bed.Api.Codes.{resp_ok, resp_fail, resp_dealfile_exist}
use pic_bed.Api.Counts.{file_public_count}
use pic_bed.Api.DealFile.{restore_share, record_share, publish_share, handle_share_file}

module _ (u m f : Text) (before : Tables) where
  -- The user's row is marked as shared, and the file is in share_file_list.
  abbrev pub Recorded : Tables → Type 0
  Recorded t =
      (time : Text) × (t
        ≡ apply (insert_share_file u m time f 0) (apply (update_shared_status 1 u m f) before))

  -- Nothing is done, the user's row is marked, or the share is recorded.
  abbrev pub Stages : Tables → Type 0
  Stages t = (t ≡ before) ⊎ (t ≡ apply (update_shared_status 1 u m f) before) ⊎ Recorded t

  pub record Sharing (r : Option ℕ) (t : Tables) : Type 0 where
    pub ok : r ≡ some resp_ok → Recorded t
    pub exist : r ≡ some resp_dealfile_exist → t ≡ before
    pub stage : Stages t

  fails : (t : Tables) → Stages t → Sharing (some resp_fail) t
  fails t h = record { ok = λ e. cc; exist = λ e. cc; stage = h }

  crashes : (t : Tables) → Stages t → Sharing none t
  crashes t h = record { ok = λ e. cc; exist = λ e. cc; stage = h }

  exists : (t : Tables) → t ≡ before → Sharing (some resp_dealfile_exist) t
  exists t h = record { ok = λ e. cc; exist = λ e. h; stage = inl h }

  shares : (t : Tables) → Recorded t → Sharing (some resp_ok) t
  shares t h = record { ok = λ e. h; exist = λ e. cc; stage = inr (inr h) }

  module _ {W : Type 0} {services : Services W} {view : W → Tables}
      (sql : IsSql services view) where
    restore_share-Sharing :
        {Q : Tables → Type 0} (cache : Bool) (id : Text)
        → Triple view (λ t. t ≡ before) (restore_share services cache id f) (λ _. Q) Sharing
    unfolding restore_share
    restore_share-Sharing cache id = bind (need_rule cache λ t p. crashes t (inl p)) λ _.
        bind (ignore_rule (keeps_inline_rule (zset_add-Keeps sql _ _ _) λ t p. crashes t (inl p)))
          λ _.
            bind (ignore_rule (keeps_inline_rule (hset-Keeps sql _ _ _) λ t p. crashes t (inl p)))
              λ _. leave_rule _ λ t p. exists t p

    record_share-Sharing :
        Triple view (λ t. t ≡ before) (record_share services u m f) (λ _. Recorded) Sharing
    unfolding record_share
    record_share-Sharing =
        bind
          (update_rule sql (update_shared_status 1 u m f) false
            (λ ok t. Stages t × (ok ≡ true → t ≡ apply (update_shared_status 1 u m f) before))
            (λ t p. (inl p, λ e. cc))
            λ t ok p.
              let marked : apply (update_shared_status 1 u m f) t
                  ≡ apply (update_shared_status 1 u m f) before =
                ap (apply (update_shared_status 1 u m f)) p in
              (inr (inl marked), λ e. marked))
          λ marked. bind (stop_if_rule _ _ λ t b p. fails t p.0) λ _.
            bind (weaken (λ t p. p.1.1 (true_of_not _ p.0)) (call_rule services.now sql.now_keeps))
              λ time.
                bind
                  (create_rule sql (insert_share_file u m time f 0)
                    (λ ok t. Stages t × (ok ≡ true → Recorded t)) (λ t p. (inr (inl p), λ e. cc))
                    λ t p.
                      let done : Recorded (apply (insert_share_file u m time f 0) t) =
                        (time, ap (apply (insert_share_file u m time f 0)) p) in
                      (inr (inr done), λ e. done))
                  λ created.
                    stop_last_rule _ _ (λ t b p. fails t p.0) λ t b p. p.1 (true_of_not _ b)

    publish_share-Sharing :
        (cache : Bool) (id : Text)
        → Triple view Recorded (publish_share services cache id f) (λ _. Recorded) Sharing
    unfolding publish_share
    publish_share-Sharing cache id = bind (need_rule cache λ t p. crashes t (inr (inr p))) λ _.
        bind (incr_count_rule sql file_public_count λ t p. crashes t (inr (inr p))) λ counted.
          bind (stop_if_rule _ _ λ t b p. fails t (inr (inr p))) λ _.
            bind
              (ignore_rule (
                weaken (λ t p. p.1)
                  (keeps_inline_rule (zset_add-Keeps sql _ _ _) λ t p. crashes t (inr (inr p)))))
              λ _.
                ignore_rule
                  (keeps_inline_rule (hset-Keeps sql _ _ _) λ t p. crashes t (inr (inr p)))

    handle_share_file-E :
        Triple view
          (λ t. t ≡ before)
          (handle_share_file services u m f)
          (λ a. Sharing (some a))
          Sharing
    unfolding handle_share_file Mysql.check_whether_have_record
    handle_share_file-E = bind (call_rule services.take_db_conn sql.take_db_conn_keeps) λ db.
        bind (call_rule services.take_cache_conn sql.take_cache_conn_keeps) λ cache.
          bind
            (choose_rule cache {Q = λ _ t. t ≡ before}
              (λ e. keeps_inline_rule (zset_exit-Keeps sql _ _) λ t p. crashes t (inl p))
              λ e. pure_rule _ λ t p. p)
            λ shared. bind (stop_if_rule _ _ λ t b p. exists t p) λ _.
              bind (weaken (λ t p. p.1) (stop_if_rule _ _ λ t b p. fails t (inl p))) λ _.
                bind (weaken (λ t p. p.1) (need_rule db λ t p. crashes t (inl p))) λ _.
                  bind
                    (bind (query_rule sql (select_share_file m f)) λ results. pure_rule _ λ t p. p)
                    λ recorded.
                      bind
                        (when_rule _ {Q = λ _ t. t ≡ before}
                          (λ e. restore_share-Sharing cache (m ++ f)) λ t b p. p)
                        λ _. bind record_share-Sharing λ _.
                          bind (publish_share-Sharing cache (m ++ f))
                            λ _. pure_rule _ λ t p. shares t p

    -- OK says that the share is recorded in MySQL, DEALFILE_EXIST that nothing has changed there.
    -- However sharing ends, at most the user's row has been marked before the share was recorded.
    pub handle_share_file-Sharing :
        (w : W)
        → view w ≡ before
        → Sharing
            (result (handle_share_file services u m f w))
            (view (handle_share_file services u m f w).1)
    handle_share_file-Sharing w e = handler_ends Sharing handle_share_file-E w e
