-- ===== src/Api/Md5/References.antt =====
-- Taking a stored file over keeps the reference counts (handleDealMd5, api/api_md5.cc).
use pic_bed.Prelude.{Bool, ◌+◌, ◌≤◌, Text, ◌≡◌, true, false, true_of_not, false_of_not, ℕ, ◌++◌}
use pic_bed.Services.{Services}
use pic_bed.Services.Statement.{update_ref_count, insert_user_file}
use pic_bed.Triple.{
  Triple, bind, pure_rule, stop_if_rule, leave_rule, need_rule, when_rule, ignore_rule, weaken,
  handler_ends,
}
use pic_bed.Sql.{Tables, IsSql, apply}
use pic_bed.Sql.Rules.{keeps_rule, call_rule, check_rule, count_rule, pass_query_rule, create_rule}
use pic_bed.Sql.RedisKeeps.{cache_incr_count-Keeps}
use pic_bed.Sql.References.{IsCounted, references}
use pic_bed.Sql.Steps.{
  HasRoom, counted_up, counted_below, update-IsCounted, insert_user_file-IsCounted,
}
use pic_bed.Api.Md5.{restore_references, record_taken, handle_deal_md5}
use pic_bed.Api.Counts.{file_user_count}

module _ {W : Type 0} {services : Services W} {view : W → Tables} (sql : IsSql services view) where
  restore_references-keeps :
      (m : Text) (n : ℕ)
      → Triple view
          (λ t. IsCounted t × (references m t ≤ n))
          (restore_references services m n)
          (λ _. IsCounted)
          (λ _. IsCounted)
  unfolding restore_references
  restore_references-keeps m n =
      bind
        (ignore_rule (
          pass_query_rule sql (update_ref_count n m) (λ _. IsCounted) (λ t p. p.0)
            λ t p. update-IsCounted m n t p.0 p.1))
        λ _. leave_rule _ λ t p. p

  record_taken-keeps :
      (cache : Bool) (u m f : Text) (n : ℕ)
      → Triple view
          (λ t. HasRoom m t × (references m t ≤ n))
          (record_taken services cache u m f n)
          (λ _. IsCounted)
          (λ _. IsCounted)
  unfolding record_taken
  record_taken-keeps cache u m f n = bind (call_rule services.now sql.now_keeps) λ time.
      bind
        (create_rule sql (insert_user_file u m time f 0 0)
          (λ ok t. IsCounted t × (ok ≡ false → references m t ≤ n)) (λ t p. (p.0.0, λ e. p.1))
          λ t p. (insert_user_file-IsCounted u m time f 0 0 t p.0.0 p.0.1, λ e. cc))
        λ created.
          bind
            (when_rule _ {Q = λ _. IsCounted}
              (λ e. weaken (λ t p. (p.0, p.1 (false_of_not _ e))) (restore_references-keeps m n))
              λ t e p. p.0)
            λ _. bind (need_rule cache λ t p. p) λ _.
              bind
                (ignore_rule
                  (keeps_rule (cache_incr_count-Keeps sql (file_user_count ++ u)) λ r t p. p))
                λ _. pure_rule _ λ t p. p

  handle_deal_md5-keeps :
      (u m f : Text)
      → Triple view IsCounted (handle_deal_md5 services u m f) (λ _. IsCounted) (λ _. IsCounted)
  unfolding handle_deal_md5
  handle_deal_md5-keeps u m f = bind (call_rule services.take_db_conn sql.take_db_conn_keeps) λ db.
      bind (call_rule services.take_cache_conn sql.take_cache_conn_keeps) λ cache.
        bind (need_rule db λ t p. p) λ _. bind (count_rule sql m λ t p. p) λ answer.
          bind (stop_if_rule _ _ λ t b p. p.0) λ _. bind (check_rule sql u m f) λ owned.
            bind (stop_if_rule _ _ λ t b p. p.0.1.0) λ _.
              bind
                (pass_query_rule sql (update_ref_count (answer.1 + 1) m)
                  (λ ok t. IsCounted t × (ok ≡ true → HasRoom m t × (references m t ≤ answer.1)))
                  (λ t p. (p.1.0.1.0, λ e. cc))
                  λ t p.
                    let h : IsCounted t = p.1.0.1.0 in
                    let up : HasRoom m (apply (update_ref_count (answer.1 + 1) m) t) =
                      counted_up m answer t h p.1.0.1.1 (true_of_not _ p.1.0.0) in
                    (up.0, λ e. (up, counted_below m answer t h p.1.0.1.1 (true_of_not _ p.1.0.0))))
                λ counted. bind (stop_if_rule _ _ λ t b p. p.0) λ _.
                  weaken (λ t p. p.1.1 (true_of_not _ p.0))
                    (record_taken-keeps cache u m f answer.1)

  -- Taking a file over by its md5 leaves no file counted below its references, however the handler
  -- ends; where the insert fails it writes the old count back, which still covers them.
  pub handle_deal_md5-IsCounted :
      (u m f : Text) (w : W)
      → IsCounted (view w)
      → IsCounted (view (handle_deal_md5 services u m f w).1)
  handle_deal_md5-IsCounted u m f w h =
      handler_ends (λ _. IsCounted) (handle_deal_md5-keeps u m f) w h
