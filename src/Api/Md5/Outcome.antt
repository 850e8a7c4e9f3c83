-- ===== src/Api/Md5/Outcome.antt =====
-- What taking over a stored file by its md5 does, by the code of its response (handleDealMd5,
-- api/api_md5.cc).
use pic_bed.Prelude.{
  ℕ, Bool, ◌+◌, ◌<◌, true, Option, some, Text, ◌≡◌, ap, subst, ◌∙◌, ◌++◌, true_of_not, count_if,
}
use pic_bed.Services.{Services}
use pic_bed.Services.Statement.{update_ref_count, insert_user_file}
use pic_bed.Triple.{
  Triple, result, bind, pure_rule, stop_if_rule, need_rule, ignore_rule, when_rule, leave_rule,
  weaken, handler_ends,
}
use pic_bed.Sql.{Tables, IsSql, apply, owned_by}
use pic_bed.Sql.Rules.{
  ref_count, read_count, call_rule, check_rule, count_rule, pass_query_rule, create_rule,
}
use pic_bed.Sql.CountRules.{incr_count_rule}
use pic_bed.Sql.Outcomes
use pic_bed.Sql.Outcomes.{Outcome, TakenOver, has_it, count_found}
use pic_bed.Api.Md5.{restore_references, record_taken, handle_deal_md5}
use pic_bed.Api.Counts.{file_user_count}

module _ {W : Type 0} {services : Services W} {view : W → Tables} (sql : IsSql services view)
    (u m f : Text) (before : Tables) where
  abbrev E : Option ℕ → Tables → Type 0
  E = Outcome u m f Unit before

  abbrev Ready : ℕ → Tables → Type 0
  Ready c t = (ref_count m before ≡ some c) × (t ≡ apply (update_ref_count (c + 1) m) before)

  restore_references-E :
      {P Q : Tables → Type 0} (n : ℕ) → Triple view P (restore_references services m n) (λ _. Q) E
  unfolding restore_references
  restore_references-E n =
      bind
        (ignore_rule
          (pass_query_rule sql (update_ref_count n m) (λ ok t. Unit {0}) (λ t p. tt) λ t p. tt))
        λ _. leave_rule 1 λ t p. Outcomes.failed u m f Unit before t

  record_taken-E :
      (cache : Bool) (c : ℕ)
      → Triple view (Ready c) (record_taken services cache u m f c) (λ a. E (some a)) E
  unfolding record_taken
  record_taken-E cache c = bind (call_rule services.now sql.now_keeps) λ time.
      bind
        (create_rule sql (insert_user_file u m time f 0 0)
          (λ ok t. ok ≡ true → TakenOver u m f before t) (λ t p e. cc)
          λ t p e. (c, time, p.0, ap (apply (insert_user_file u m time f 0 0)) p.1))
        λ created.
          bind
            (when_rule _ {Q = λ _. TakenOver u m f before} (λ e. restore_references-E c)
              λ t b p. p (true_of_not _ b))
            λ _. bind (need_rule cache λ t p. Outcomes.crashed u m f Unit before t) λ _.
              bind
                (ignore_rule (
                  incr_count_rule sql (file_user_count ++ u)
                    λ t p. Outcomes.crashed u m f Unit before t))
                λ _. pure_rule _ λ t p. Outcomes.taken u m f Unit before t tt p

  handle_deal_md5-E :
      Triple view (λ t. t ≡ before) (handle_deal_md5 services u m f) (λ a. E (some a)) E
  unfolding handle_deal_md5
  handle_deal_md5-E = bind (call_rule services.take_db_conn sql.take_db_conn_keeps) λ db.
      bind (call_rule services.take_cache_conn sql.take_cache_conn_keeps) λ cache.
        bind (need_rule db λ t p. Outcomes.crashed u m f Unit before t) λ _.
          bind (count_rule sql m λ t p. Outcomes.crashed u m f Unit before t) λ answer.
            bind (stop_if_rule _ _ λ t b p. Outcomes.failed u m f Unit before t) λ _.
              bind
                (weaken {P = λ t. (ref_count m before ≡ some answer.1) × (t ≡ before)}
                  (λ t p. (
                    count_found _ answer
                        (p.1.1 ∙ ap (λ (t : Tables). read_count (ref_count m t)) p.1.0)
                        (true_of_not _ p.0),
                    p.1.0,
                  ))
                  (check_rule sql u m f))
                λ owned.
                  bind
                    (stop_if_rule _ _ λ t b p.
                      Outcomes.existing u m f Unit before t
                        (subst (λ (t : Tables). 0 < count_if (owned_by u m f) t.user_file_list)
                          p.0.1 (has_it _ owned b p.1))
                        p.0.1)
                    λ _.
                      bind
                        (pass_query_rule sql (update_ref_count (answer.1 + 1) m)
                          (λ ok t. ok ≡ true → Ready answer.1 t) (λ t p e. cc)
                          λ t p e.
                            (p.1.0.0, ap (apply (update_ref_count (answer.1 + 1) m)) p.1.0.1))
                        λ counted.
                          bind (stop_if_rule _ _ λ t b p. Outcomes.failed u m f Unit before t) λ _.
                            weaken (λ t p. p.1 (true_of_not _ p.0)) (record_taken-E cache answer.1)

  -- OK says that the count of the file was in file_info and is one more, and that the user has a new
  -- row for it; FILE_EXIST that the user had the file and nothing changed.
  pub handle_deal_md5-Outcome :
      (w : W)
      → view w ≡ before
      → Outcome u m f Unit before
          (result (handle_deal_md5 services u m f w))
          (view (handle_deal_md5 services u m f w).1)
  handle_deal_md5-Outcome w e = handler_ends E handle_deal_md5-E w e
