-- ===== src/Api/DealShareFile/Outcome.antt =====
-- What saving a shared file does, by the code of its response (handleSaveFile,
-- api/api_deal_sharefile.cc).
use pic_bed.Prelude.{
  ℕ, Bool, zero, suc, ◌+◌, ◌<◌, true, false, Option, none, some, Text, ◌≡◌, ap, subst, ◌∙◌, ◌++◌,
  true_of_not, ℤ, pos, negsuc, equals, is_negative, count_if, arith,
}
use pic_bed.Services.{Services}
use pic_bed.Services.Statement.{update_ref_count, insert_user_file}
use pic_bed.Triple.{
  Triple, result, bind, pure_rule, stop_if_rule, need_rule, inline_rule, weaken, handler_ends,
}
use pic_bed.Sql.{Tables, IsSql, apply, owned_by}
use pic_bed.Sql.Rules.{
  Checked, ref_count, read_count, call_rule, check_rule, count_rule, update_rule, create_rule,
}
use pic_bed.Sql.CountRules.{incr_count_rule}
use pic_bed.Sql.Outcomes
use pic_bed.Sql.Outcomes.{Outcome, TakenOver, has_it, count_found}
use pic_bed.Api.DealShareFile.{record_saved, save_file, save_code, handle_save_file}
use pic_bed.Api.Counts.{file_user_count}

abbrev coded : Option ℤ → Option ℕ
unfolding save_code
coded none = none
coded (some ret) = some (save_code ret)

has_not : (n : ℕ) (a : ℤ) → equals a 1 ≡ false → is_negative a ≡ false → Checked n a → n ≡ 0
has_not n (pos zero) e b h = h
has_not n (pos (suc zero)) e b h = ground arith
has_not n (pos (suc (suc k))) e b h = absurd h
has_not n (negsuc k) e b h = cc

module _ {W : Type 0} {services : Services W} {view : W → Tables} (sql : IsSql services view)
    (u m f : Text) (before : Tables) where
  abbrev Free : Type 0
  Free = count_if (owned_by u m f) before.user_file_list ≡ 0

  abbrev E : Option ℤ → Tables → Type 0
  E r t = Outcome u m f Free before (coded r) t

  abbrev Ready : ℕ → Tables → Type 0
  Ready c t = Free × (ref_count m before ≡ some c) × (t ≡ apply (update_ref_count (c + 1) m) before)

  record_saved-E :
      (cache : Bool) (c : ℕ)
      → Triple view (Ready c) (record_saved services cache u m f) (λ a. E (some a)) E
  unfolding record_saved save_code
  record_saved-E cache c = bind (call_rule services.now sql.now_keeps) λ time.
      bind
        (create_rule sql (insert_user_file u m time f 0 0)
          (λ ok t. ok ≡ true → Free × TakenOver u m f before t) (λ t p e. cc)
          λ t p e. (p.0, (c, time, p.1, ap (apply (insert_user_file u m time f 0 0)) p.2)))
        λ created. bind (stop_if_rule _ _ λ t b p. Outcomes.failed u m f Free before t) λ _.
          bind
            (weaken (λ t p. p.1 (true_of_not _ p.0))
              (need_rule cache λ t p. Outcomes.crashed u m f Free before t))
            λ _.
              bind
                (incr_count_rule sql (file_user_count ++ u)
                  λ t p. Outcomes.crashed u m f Free before t)
                λ added.
                  bind (stop_if_rule _ _ λ t b p. Outcomes.failed u m f Free before t)
                    λ _. pure_rule _ λ t p. Outcomes.taken u m f Free before t p.1.0 p.1.1

  save_file-E : Triple view (λ t. t ≡ before) (save_file services u m f) (λ a. E (some a)) E
  unfolding save_file save_code
  save_file-E = bind (call_rule services.take_db_conn sql.take_db_conn_keeps) λ db.
      bind (call_rule services.take_cache_conn sql.take_cache_conn_keeps) λ cache.
        bind (need_rule db λ t p. Outcomes.crashed u m f Free before t) λ _.
          bind (check_rule sql u m f) λ owned.
            bind
              (stop_if_rule _ _ λ t b p.
                Outcomes.existing u m f Free before t
                  (subst (λ (t : Tables). 0 < count_if (owned_by u m f) t.user_file_list) p.0
                    (has_it _ owned b p.1))
                  p.0)
              λ _. bind (stop_if_rule _ _ λ t b p. Outcomes.failed u m f Free before t) λ _.
                bind
                  (weaken {P = λ t. Free × (t ≡ before)}
                    (λ t p. (
                      subst (λ (t : Tables). count_if (owned_by u m f) t.user_file_list ≡ 0) p.1.1.0
                          (has_not _ owned p.1.0 p.0 p.1.1.1),
                      p.1.1.0,
                    ))
                    (count_rule sql m λ t p. Outcomes.crashed u m f Free before t))
                  λ answer.
                    bind (stop_if_rule _ _ λ t b p. Outcomes.failed u m f Free before t) λ _.
                      bind
                        (update_rule sql (update_ref_count (answer.1 + 1) m) true
                          (λ ok t. ok ≡ true → Ready answer.1 t) (λ t p e. cc)
                          λ t ok p e. (
                            p.1.0.0,
                            count_found _ answer
                                (p.1.1 ∙ ap (λ (t : Tables). read_count (ref_count m t)) p.1.0.1)
                                (true_of_not _ p.0),
                            ap (apply (update_ref_count (answer.1 + 1) m)) p.1.0.1,
                          ))
                        λ counted.
                          bind (stop_if_rule _ _ λ t b p. Outcomes.failed u m f Free before t) λ _.
                            weaken (λ t p. p.1 (true_of_not _ p.0)) (record_saved-E cache answer.1)

  -- OK says that the user did not have the file, that its count was in file_info and is one more, and
  -- that the user has a new row for it; FILE_EXIST that the user had the file and nothing changed.
  pub handle_save_file-Outcome :
      (w : W)
      → view w ≡ before
      → Outcome u m f Free before
          (result (handle_save_file services u m f w))
          (view (handle_save_file services u m f w).1)
  unfolding handle_save_file
  handle_save_file-Outcome w e =
      handler_ends (Outcome u m f Free before)
        (bind (inline_rule save_file-E (λ a t p. p) λ t p. p) λ ret. pure_rule _ λ t p. p) w e
