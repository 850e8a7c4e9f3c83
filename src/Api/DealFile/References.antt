-- ===== src/Api/DealFile/References.antt =====
-- Deleting a file keeps the reference counts (handleDeleteFile, api/api_dealfile.cc).
use pic_bed.Prelude.{
  ℕ, ◌-◌, ◌<◌, ◌≡◌, refl, Bool, true, false, not, Option, none, some, Text, ℤ, equals, ltb, ◌++◌,
  true_of_not, count_if, List, arith, Option-cases, ==_iff, inl, inr,
}
use pic_bed.Services.{Services, Row}
use pic_bed.Services.Statement.{
  delete_share_file, delete_user_file, update_ref_count, delete_file_info, select_shared_status,
  select_file_id,
}
use pic_bed.Mysql
use pic_bed.Mysql.{first_row}
use pic_bed.Triple.{
  Triple, bind, pure_rule, stop_if_rule, stop_last_rule, choose_rule, need_rule, when_rule,
  ignore_rule, weaken, handler_ends,
}
use pic_bed.Sql.{Tables, IsSql, apply, owned_by}
use pic_bed.Sql.Keeps.{Keeps, keeps_rules, call-Keeps}
use pic_bed.Sql.Rules.{
  ref_count, read_count, keeps_rule, keeps_inline_rule, call_rule, count_rule, update_rule,
  drop_rule, query_rule,
}
use pic_bed.Sql.RedisKeeps.{zset_exit-Keeps, zset_zrem-Keeps, hdel-Keeps, cache_decr_count-Keeps}
use pic_bed.Sql.References.{IsCounted, references}
use pic_bed.Sql.Steps.{
  HasRoom, update-IsCounted, references-update, delete_user_file-IsCounted, delete_user_file-room,
  delete_file_info-IsCounted, delete_share_file-IsCounted,
}
use pic_bed.Api.DealFile.{
  status_in_mysql, unshare_file, remove_stored_file, decrement_references, drop_reference,
  handle_delete_file,
}
use pic_bed.Api.Counts.{file_public_count, file_user_count}

-- The user has the file.
abbrev pub Holds : Text → Text → Text → Tables → Type 0
Holds u m f t = IsCounted t × (0 < count_if (owned_by u m f) t.user_file_list)

-- What the count left behind covers.
abbrev Leaves : Text → ℕ → Tables → Type 0
Leaves m left t = IsCounted t × (left ≡ 0 → references m t ≡ 0)

counted_out : (m : Text) (n : ℕ) (t : Tables) → n - 1 ≡ 0 → references m t < n → references m t ≡ 0
counted_out m n t e h = omega arith

below :
    (m : Text) (a : ℤ × ℕ) (t : Tables)
    → HasRoom m t
    → a ≡ read_count (ref_count m t)
    → references m t < a.1
below m a t h e = elim (Option-cases (ref_count m t)) [
  | inl missing ↦ ground arith
  | inr (c, there) ↦ ground arith
]

not_below :
    (m : Text) (a : ℤ × ℕ) (t : Tables)
    → HasRoom m t
    → a ≡ read_count (ref_count m t)
    → ltb 0 a.1 ≡ false
    → ⊥
not_below m a t h e z = ground (arith, below m a t h e)

module _ {W : Type 0} {services : Services W} {view : W → Tables} (sql : IsSql services view) where
  first_row-Keeps : {R : Type 0} (o : Option (List Row)) → Keeps view {R = R} (first_row o)
  unfolding first_row
  first_row-Keeps none = record { same = λ w. refl }
  first_row-Keeps (some rows) = record { same = λ w. refl }

  status-Keeps : (db : Bool) (u m f : Text) → Keeps view (status_in_mysql services db u m f)
  unfolding status_in_mysql Mysql.get_result_one_status
  status-Keeps db u m f = search (
    keeps_rules,
    call-Keeps view (services.query (select_shared_status u m f))
        (sql.query_keeps (select_shared_status u m f)),
    first_row-Keeps,
  )

  delete_share_file-Holds :
      (u m f : Text) (t : Tables) → Holds u m f t → Holds u m f (apply (delete_share_file u m f) t)
  unfolding apply
  delete_share_file-Holds u m f t p = (delete_share_file-IsCounted u m f t p.0, p.1)

  unshare_file-keeps :
      (db listed : Bool) (u m f : Text)
      → Triple view
          (Holds u m f)
          (unshare_file services db listed u m f)
          (λ _. Holds u m f)
          (λ _. IsCounted)
  unfolding unshare_file
  unshare_file-keeps db listed u m f = bind (need_rule db λ t p. p.0) λ _.
      bind
        (drop_rule sql (delete_share_file u m f) (λ _. Holds u m f) (λ t p. p)
          (delete_share_file-Holds u m f))
        λ dropped. bind (stop_if_rule _ _ λ t b p. p.0) λ _.
          bind
            (weaken (λ t p. p.1)
              (keeps_rule (cache_decr_count-Keeps sql file_public_count) λ r t p. p.0))
            λ counted. bind (stop_if_rule _ _ λ t b p. p.0) λ _.
              when_rule _
                (λ e.
                  bind
                    (ignore_rule (
                      weaken (λ t p. p.1) (keeps_inline_rule (zset_zrem-Keeps sql _ _) λ t p. p.0)))
                    λ _. ignore_rule (keeps_inline_rule (hdel-Keeps sql _ _) λ t p. p.0))
                λ t b p. p.1

  remove_stored_file-keeps :
      (m : Text)
      → Triple view
          (λ t. IsCounted t × (references m t ≡ 0))
          (remove_stored_file services m)
          (λ _. IsCounted)
          (λ _. IsCounted)
  unfolding remove_stored_file
  remove_stored_file-keeps m = bind (query_rule sql (select_file_id m)) λ results.
      bind (keeps_rule (first_row-Keeps results) λ r t p. p.0) λ row.
        bind
          (ignore_rule (
            drop_rule sql (delete_file_info m) (λ _. IsCounted) (λ t p. p.0)
              λ t p. delete_file_info-IsCounted m t p.0 p.1))
          λ _.
            bind (call_rule (services.delete_stored_file _) (sql.delete_stored_file_keeps _))
              λ status. stop_last_rule _ _ (λ t b p. p) λ t b p. p

  decrement_references-keeps :
      (m : Text) (n : ℕ)
      → Triple view
          (λ t. IsCounted t × (references m t < n))
          (decrement_references services m n)
          (Leaves m)
          (λ _. IsCounted)
  unfolding decrement_references
  decrement_references-keeps m n =
      bind
        (update_rule sql (update_ref_count (n - 1) m) true
          (λ ok t. IsCounted t × (ok ≡ true → references m t < n)) (λ t p. (p.0, λ e. cc))
          λ t ok p. (
            update-IsCounted m (n - 1) t p.0 (omega arith),
            λ e. omega (arith, references-update m m (n - 1) t),
          ))
        λ updated.
          bind (stop_if_rule _ _ λ t b p. p.0)
            λ _. pure_rule _ λ t p. (p.1.0, λ e. counted_out m n t e (p.1.1 (true_of_not _ p.0)))

  drop_reference-keeps :
      (m : Text)
      → Triple view (HasRoom m) (drop_reference services m) (λ _. IsCounted) (λ _. IsCounted)
  unfolding drop_reference
  drop_reference-keeps m = bind (count_rule sql m λ t p. p.0) λ answer.
      bind (stop_if_rule _ _ λ t b p. p.0.0) λ _.
        bind
          (choose_rule
            {P = λ t.
              (not (equals answer.0 0) ≡ false)
              × (HasRoom m t × (answer ≡ read_count (ref_count m t)))}
            _ {Q = Leaves m}
            (λ e.
              weaken (λ t p. (p.1.0.0, below m answer t p.1.0 p.1.1))
                (decrement_references-keeps m answer.1))
            λ e. pure_rule _ λ t p. absurd (not_below m answer t p.1.0 p.1.1 e))
          λ left.
            when_rule _
              (λ e. weaken (λ t p. (p.0, p.1 ((==_iff left 0).0 e))) (remove_stored_file-keeps m))
              λ t b p. p.0

  pub handle_delete_file-keeps :
      (u m f : Text)
      → Triple view
          (Holds u m f)
          (handle_delete_file services u m f)
          (λ _. IsCounted)
          (λ _. IsCounted)
  unfolding handle_delete_file
  handle_delete_file-keeps u m f =
      bind (call_rule services.take_db_conn sql.take_db_conn_keeps) λ db.
        bind (call_rule services.take_cache_conn sql.take_cache_conn_keeps) λ cache.
          bind (need_rule cache λ t p. p.0) λ _.
            bind (keeps_inline_rule (zset_exit-Keeps sql _ _) λ t p. p.0) λ exists.
              bind (stop_if_rule _ _ λ t b p. p.0) λ _.
                bind
                  (choose_rule _ {Q = λ _. Holds u m f} (λ e. pure_rule _ λ t p. p.1)
                    λ e. weaken (λ t p. p.1) (keeps_rule (status-Keeps db u m f) λ r t p. p.0))
                  λ is_shared.
                    bind
                      (when_rule _ {Q = λ _. Holds u m f} (λ e. unshare_file-keeps db _ u m f)
                        λ t e p. p)
                      λ _.
                        bind
                          (keeps_rule (cache_decr_count-Keeps sql (file_user_count ++ u))
                            λ r t p. p.0)
                          λ counted. bind (stop_if_rule _ _ λ t b p. p.0) λ _.
                            bind (need_rule db λ t p. p.1.0) λ _.
                              bind
                                (drop_rule sql (delete_user_file u m f)
                                  (λ ok t. IsCounted t × (ok ≡ true → HasRoom m t))
                                  (λ t p. (p.1.0, λ e. cc))
                                  λ t p.
                                    let h : IsCounted (apply (delete_user_file u m f) t) =
                                      delete_user_file-IsCounted u m f t p.1.0 in
                                    (h, λ e. (h, delete_user_file-room u m f t p.1.0 p.1.1)))
                                λ dropped. bind (stop_if_rule _ _ λ t b p. p.0) λ _.
                                  bind
                                    (weaken (λ t p. p.1.1 (true_of_not _ p.0))
                                      (drop_reference-keeps m))
                                    λ _. pure_rule _ λ t p. p

  -- Deleting a file that the user has leaves no file counted below its references, however the
  -- handler ends.
  pub handle_delete_file-IsCounted :
      (u m f : Text) (w : W)
      → IsCounted (view w)
      → 0 < count_if (owned_by u m f) (view w).user_file_list
      → IsCounted (view (handle_delete_file services u m f w).1)
  handle_delete_file-IsCounted u m f w h owned =
      handler_ends (λ _. IsCounted) (handle_delete_file-keeps u m f) w (h, owned)
