-- ===== src/Api/SharePicture/Shared.antt =====
-- What sharing a picture does, however it ends (handleSharePicture, api/api_sharepicture.cc).
use pic_bed.Prelude.{
  ℕ, zero, suc, ◌+◌, Bool, true, Option, none, some, [], Text, ◌≡◌, ◌⊎◌, inl, inr, refl, ap, sym,
  ◌∙◌, ◌++◌, true_of_not, ℤ, equals,
}
use pic_bed.Services.{Services}
use pic_bed.Services.Statement.{insert_share_picture, update_ref_count}
use pic_bed.Triple.{
  Triple, result, bind, pure_rule, stop_if_rule, need_rule, ignore_rule, inline_rule, weaken,
  handler_ends,
}
use pic_bed.Sql.{Tables, IsSql, apply}
use pic_bed.Sql.Rules.{ref_count, read_count, call_rule, count_rule, update_rule, create_rule}
use pic_bed.Sql.CountRules.{incr_count_rule}
use pic_bed.Sql.Outcomes.{count_found}
use pic_bed.Api.Codes.{resp_ok, resp_fail}
use pic_bed.Api.Counts.{share_pic_count}
use pic_bed.Api.Login.{random_string}
use pic_bed.Api.SharePicture.{
  ShareAnswer, encode_share_picture_json, record_picture, handle_share_picture,
}

module _ (u m f : Text) (before : Tables) where
  -- The picture's row, with this link, and no view so far
  abbrev pub with_picture : Text → Text → Tables
  with_picture l time = apply (insert_share_picture u m f l [] 0 time) before

  -- The row is there, and the reference count of the file is one more.
  abbrev pub IsShared : Text → Tables → Type 0
  IsShared l t =
      (c : ℕ) × (time : Text) × (ref_count m before ≡ some c)
      × (t ≡ apply (update_ref_count (c + 1) m) (with_picture l time))

  -- Nothing is done, the row is there without its reference, or the picture is shared.
  abbrev pub Stages : Text → Tables → Type 0
  Stages l t = (t ≡ before) ⊎ ((time : Text) × (t ≡ with_picture l time)) ⊎ IsShared l t

  pub record PictureSharing (r : Option ShareAnswer) (t : Tables) : Type 0 where
    pub ok :
        (a : ShareAnswer)
        → r ≡ some a
        → a.code ≡ resp_ok
        → (l : Text) × (a.urlmd5 ≡ some l) × IsShared l t
    pub stage : (l : Text) × Stages l t

  -- The same of the steps before the JSON is written
  record Recording (l : Text) (r : Option ℕ) (t : Tables) : Type 0 where
    pub ok : r ≡ some resp_ok → IsShared l t
    pub stage : Stages l t

  module _ (l : Text) where
    fails : (t : Tables) → Stages l t → Recording l (some resp_fail) t
    fails t h = record { ok = λ e. cc; stage = h }

    crashes : (t : Tables) → Stages l t → Recording l none t
    crashes t h = record { ok = λ e. cc; stage = h }

    shares : (t : Tables) → IsShared l t → Recording l (some resp_ok) t
    shares t h = record { ok = λ e. h; stage = inr (inr h) }

  coded :
      (l : Text) (code : ℕ) (t : Tables)
      → Recording l (some code) t
      → PictureSharing (some (encode_share_picture_json code l)) t
  unfolding encode_share_picture_json
  coded l zero t h = record {
    ok = λ a e z. (
      l,
      ap (λ (o : Option ShareAnswer). elim o [ none ↦ none | some a ↦ a.urlmd5 ]) (sym e),
      h.ok refl,
    );
    stage = (l, h.stage);
  }
  coded l (suc n) t h = record { ok = λ a e z. cc; stage = (l, h.stage) }

  pub ref_count-with_picture :
      (l time : Text) → ref_count m (with_picture l time) ≡ ref_count m before
  unfolding ref_count apply
  ref_count-with_picture l time = refl

  -- The count that was read in the second step, of the tables before
  counted_before :
      (l time : Text) (answer : ℤ × ℕ) (t : Tables)
      → t ≡ with_picture l time
      → answer ≡ read_count (ref_count m t)
      → equals answer.0 0 ≡ true
      → ref_count m before ≡ some answer.1
  counted_before l time answer t same read found =
      count_found _ answer
        (read
          ∙ ap (λ (t : Tables). read_count (ref_count m t)) same
          ∙ ap read_count (ref_count-with_picture l time))
        found

  module _ {W : Type 0} {services : Services W} {view : W → Tables}
      (sql : IsSql services view) where
    record_picture-Recording :
        (db cache : Bool) (l : Text)
        → Triple view
            (λ t. t ≡ before)
            (record_picture services db cache u m f l)
            (λ a. Recording l (some a))
            (Recording l)
    unfolding record_picture
    record_picture-Recording db cache l = bind (call_rule services.now sql.now_keeps) λ time.
        bind (need_rule db λ t p. crashes l t (inl p)) λ _.
          bind
            (create_rule sql (insert_share_picture u m f l [] 0 time)
              (λ ok t. Stages l t × (ok ≡ true → t ≡ with_picture l time)) (λ t p. (inl p, λ e. cc))
              λ t p. (inr (inl (time, ap (apply _) p)), λ e. ap (apply _) p))
            λ created. bind (stop_if_rule _ _ λ t b p. fails l t p.0) λ _.
              bind
                (weaken (λ t p. p.1.1 (true_of_not _ p.0))
                  (count_rule sql m λ t p. crashes l t (inr (inl (time, p)))))
                λ answer. bind (stop_if_rule _ _ λ t b p. fails l t (inr (inl (time, p.0)))) λ _.
                  bind
                    (update_rule sql (update_ref_count (answer.1 + 1) m) true
                      (λ ok t. Stages l t × (ok ≡ true → IsShared l t))
                      (λ t p. (inr (inl (time, p.1.0)), λ e. cc))
                      λ t ok p.
                        let done : IsShared l (apply (update_ref_count (answer.1 + 1) m) t) = (
                          answer.1,
                          time,
                          counted_before l time answer t p.1.0 p.1.1 (true_of_not _ p.0),
                          ap (apply _) p.1.0,
                        ) in
                        (inr (inr done), λ e. done))
                    λ updated. bind (stop_if_rule _ _ λ t b p. fails l t p.0) λ _.
                      bind
                        (weaken (λ t p. p.1.1 (true_of_not _ p.0))
                          (need_rule cache λ t p. crashes l t (inr (inr p))))
                        λ _.
                          bind
                            (ignore_rule (
                              incr_count_rule sql (share_pic_count ++ u)
                                λ t p. crashes l t (inr (inr p))))
                            λ _. pure_rule _ λ t p. shares l t p

    random_rule :
        {R : Type 0} {E : Option R → Tables → Type 0} {P : Tables → Type 0} (n : ℕ)
        → Triple view P (random_string services n) (λ _. P) E
    unfolding random_string
    random_rule zero = pure_rule _ λ t p. p
    random_rule (suc n) =
        bind (call_rule services.rand sql.rand_keeps)
          λ r. bind (random_rule n) λ rest. pure_rule _ λ t p. p

    handle_share_picture-E :
        Triple view
          (λ t. t ≡ before)
          (handle_share_picture services u m f)
          (λ a. PictureSharing (some a))
          PictureSharing
    unfolding handle_share_picture
    handle_share_picture-E = bind (call_rule services.take_db_conn sql.take_db_conn_keeps) λ db.
        bind (call_rule services.take_cache_conn sql.take_cache_conn_keeps) λ cache.
          bind (random_rule 32) λ l.
            bind
              (inline_rule {Q = λ code. Recording l (some code)}
                (record_picture-Recording db cache l) (λ a t h. h)
                λ t h. record { ok = λ a e z. cc; stage = (l, h.stage) })
              λ code. pure_rule _ λ t p. coded l code t p

    -- OK says that the picture's row is there under the link of the answer, and that the reference
    -- count of the file is one more. However sharing ends, nothing else has changed, at most a row
    -- stays without its reference.
    pub handle_share_picture-PictureSharing :
        (w : W)
        → view w ≡ before
        → PictureSharing
            (result (handle_share_picture services u m f w))
            (view (handle_share_picture services u m f w).1)
    handle_share_picture-PictureSharing w e = handler_ends PictureSharing handle_share_picture-E w e
