-- ===== src/Api/DealShareFile/References.antt =====
-- Saving a shared file keeps the reference counts (handleSaveFile, api/api_deal_sharefile.cc).
use pic_bed.Prelude.{◌+◌, Bool, Text, ◌≡◌, true, true_of_not, ◌++◌}
use pic_bed.Services.{Services}
use pic_bed.Services.Statement.{update_ref_count, insert_user_file}
use pic_bed.Triple.{
  Triple, bind, pure_rule, stop_if_rule, need_rule, inline_rule, weaken, handler_ends,
}
use pic_bed.Sql.{Tables, IsSql, apply}
use pic_bed.Sql.Rules.{keeps_rule, call_rule, check_rule, count_rule, update_rule, create_rule}
use pic_bed.Sql.RedisKeeps.{cache_incr_count-Keeps}
use pic_bed.Sql.References.{IsCounted}
use pic_bed.Sql.Steps.{HasRoom, counted_up, insert_user_file-IsCounted}
use pic_bed.Api.DealShareFile.{record_saved, save_file, handle_save_file}
use pic_bed.Api.Counts.{file_user_count}

module _ {W : Type 0} {services : Services W} {view : W → Tables} (sql : IsSql services view) where
  record_saved-keeps :
      (cache : Bool) (u m f : Text)
      → Triple view
          (HasRoom m)
          (record_saved services cache u m f)
          (λ _. IsCounted)
          (λ _. IsCounted)
  unfolding record_saved
  record_saved-keeps cache u m f = bind (call_rule services.now sql.now_keeps) λ time.
      bind
        (create_rule sql (insert_user_file u m time f 0 0) (λ ok. IsCounted) (λ t p. p.0)
          λ t p. insert_user_file-IsCounted u m time f 0 0 t p.0 p.1)
        λ created. bind (stop_if_rule _ _ λ t b p. p) λ _.
          bind (weaken (λ t p. p.1) (need_rule cache λ t p. p)) λ _.
            bind (keeps_rule (cache_incr_count-Keeps sql (file_user_count ++ u)) λ r t p. p)
              λ added. bind (stop_if_rule _ _ λ t b p. p) λ _. pure_rule _ λ t p. p.1

  save_file-keeps :
      (u m f : Text)
      → Triple view IsCounted (save_file services u m f) (λ _. IsCounted) (λ _. IsCounted)
  unfolding save_file
  save_file-keeps u m f = bind (call_rule services.take_db_conn sql.take_db_conn_keeps) λ db.
      bind (call_rule services.take_cache_conn sql.take_cache_conn_keeps) λ cache.
        bind (need_rule db λ t p. p) λ _. bind (check_rule sql u m f) λ owned.
          bind (stop_if_rule _ _ λ t b p. p.0) λ _. bind (stop_if_rule _ _ λ t b p. p.1.0) λ _.
            bind (weaken (λ t p. p.1.1.0) (count_rule sql m λ t p. p)) λ answer.
              bind (stop_if_rule _ _ λ t b p. p.0) λ _.
                bind
                  (update_rule sql (update_ref_count (answer.1 + 1) m) true
                    (λ ok t. IsCounted t × (ok ≡ true → HasRoom m t)) (λ t p. (p.1.0, λ e. cc))
                    λ t ok p.
                      let up : HasRoom m (apply (update_ref_count (answer.1 + 1) m) t) =
                        counted_up m answer t p.1.0 p.1.1 (true_of_not _ p.0) in
                      (up.0, λ e. up))
                  λ counted.
                    bind (stop_if_rule _ _ λ t b p. p.0) λ _.
                      weaken (λ t p. p.1.1 (true_of_not _ p.0)) (record_saved-keeps cache u m f)

  -- Saving a shared file leaves no file counted below its references, however the handler ends: at
  -- every failed call of MySQL or Redis, at a crash, and where it succeeds.
  pub handle_save_file-IsCounted :
      (u m f : Text) (w : W)
      → IsCounted (view w)
      → IsCounted (view (handle_save_file services u m f w).1)
  unfolding handle_save_file
  handle_save_file-IsCounted u m f w h =
      handler_ends (λ _. IsCounted)
        (bind (inline_rule (save_file-keeps u m f) (λ a t p. p) λ t p. p)
          λ ret. pure_rule _ λ t p. p)
        w h
