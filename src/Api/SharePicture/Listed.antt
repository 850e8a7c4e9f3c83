-- ===== src/Api/SharePicture/Listed.antt =====
-- When the list of a user's pictures is answered as empty (getSharePicturesCount and
-- handleGetSharePicturesList, api/api_sharepicture.cc).
use pic_bed.Prelude.{
  ℕ, Bool, true, false, Option, none, some, List, [], ◌∷◌, map, count_if, Text, ◌≡◌, refl, ℤ, pos,
  is_negative, equals, arith,
}
use pic_bed.Services.{Services, Row, Column}
use pic_bed.Services.Statement.{count_share_pictures, select_share_pictures}
use pic_bed.Triple.{
  Triple, result, bind, given, pure_rule, stop_if_rule, need_rule, inline_rule, choose_rule, weaken,
  handler_ends,
}
use pic_bed.Sql.{Tables, IsSql, picture_by}
use pic_bed.Sql.Rules.{call_rule, query_rule, keeps_inline_rule}
use pic_bed.Sql.Queries.{answered_rule}
use pic_bed.Sql.RedisKeeps.{get-Keeps, set-Keeps}
use pic_bed.Api.Counts
use pic_bed.Api.Counts.{share_pic_count, counted}
use pic_bed.Api.SharePicture.{
  PictureAnswer, PictureList, picture_list, load_share_pictures_count, get_share_pictures_count,
  handle_get_share_pictures_list,
}
use pic_bed.Api.SharePicture.PictureAnswer.{listed}

module _ (u : Text) where
  -- How many pictures of the user MySQL has
  abbrev pub pictures : Tables → ℕ
  pictures t = count_if (picture_by u) t.share_picture_list

  -- Without an error, 0 is the count of MySQL.
  abbrev Total : ℤ × ℤ → Tables → Type 0
  Total a t = is_negative a.0 ≡ false → equals a.1 0 ≡ true → pictures t ≡ 0

  abbrev Ends : Option (ℤ × ℤ) → Tables → Type 0
  Ends none t = Unit
  Ends (some a) t = Total a t

  -- An answer of an empty list
  abbrev Empty : Option PictureAnswer → Tables → Type 0
  Empty r t = (a : PictureList) → r ≡ some (listed a) → a.total ≡ pos 0 → pictures t ≡ 0

  counted_rows :
      (o : Option (List Row)) (n : ℕ)
      → is_negative (counted o).0 ≡ false
      → ((rows : List Row)
          → o ≡ some rows
          → map (λ (r : Row). r.get_int Column.count_star) rows ≡ n ∷ [])
      → (counted o).1 ≡ n
  counted_rows none n e h = cc
  counted_rows (some []) n e h = let bad = h [] refl in cc
  counted_rows (some (r ∷ rows)) n e h = let good = h (r ∷ rows) refl in cc

  not_empty :
      {B : Type 0} (total : ℤ) (o : Option (List Row)) (a : PictureList)
      → equals total 0 ≡ false
      → some (picture_list total o) ≡ some (listed a)
      → a.total ≡ pos 0
      → B
  unfolding picture_list
  not_empty total none a h e z = cc
  not_empty total (some rows) a h e z = cc

  module _ {W : Type 0} {services : Services W} {view : W → Tables}
      (sql : IsSql services view) where
    load_rule :
        (db : Bool) → Triple view (λ _. Unit) (load_share_pictures_count services db u) Total Ends
    unfolding load_share_pictures_count Counts.db_get_share_picture_count_by_username
        Counts.cache_set_count
    load_rule db = bind (need_rule db λ t p. tt) λ _.
        bind
          (bind (answered_rule sql (count_share_pictures u)) λ results.
            pure_rule (counted results) {Q = λ a t. is_negative a.0 ≡ false → a.1 ≡ pictures t}
              λ t p e. counted_rows results _ e p.1.0)
          λ loaded. bind (stop_if_rule _ _ λ t b p e z. cc) λ _.
            bind {Q = λ _ t. loaded.1 ≡ pictures t}
              (weaken {P = λ t. loaded.1 ≡ pictures t} (λ t p. p.1 p.0)
                (bind (keeps_inline_rule (set-Keeps sql _ _) λ t p. tt)
                  λ answer. pure_rule _ λ t p. p))
              λ stored.
                bind (stop_if_rule _ _ λ t b p e z. cc)
                  λ _. pure_rule _ λ t p e z. ground (arith, p.1, z)

    count_rule :
        (db cache : Bool)
        → Triple view (λ _. Unit) (get_share_pictures_count services db cache u) Total Ends
    unfolding get_share_pictures_count Counts.cache_get_count
    count_rule db cache = bind (need_rule cache λ t p. tt) λ _.
        bind (bind (keeps_inline_rule (get-Keeps sql _) λ t p. tt) λ text. pure_rule _ λ t p. p)
          λ cached. choose_rule _ (λ e. load_rule db) λ e. pure_rule cached λ t p n z. cc

    list_rule :
        (start count : ℤ)
        → Triple view
            (λ _. Unit)
            (handle_get_share_pictures_list services u start count)
            (λ a. Empty (some a))
            Empty
    unfolding handle_get_share_pictures_list picture_list
    list_rule start count = bind (call_rule services.take_db_conn sql.take_db_conn_keeps) λ db.
        bind (call_rule services.take_cache_conn sql.take_cache_conn_keeps) λ cache.
          bind (inline_rule (count_rule db cache) (λ a t h. h) λ t h a e z. cc) λ total.
            bind (stop_if_rule _ _ λ t b p a e z. cc) λ _.
              bind (stop_if_rule _ _ λ t b p a e z. p.1 p.0 b) λ _. given λ positive.
                bind (need_rule db λ t p a e z. cc) λ _.
                  bind (query_rule sql (select_share_pictures u start count))
                    λ results. pure_rule _ λ t p a e z. not_empty total.1 results a positive e z

    -- A list that is answered with the total 0 is answered only where MySQL has no picture of the
    -- user: a 0 in Redis that is out of date hides none.
    pub handle_get_share_pictures_list-empty :
        (start count : ℤ) (w : W) (answer : PictureList)
        → result (handle_get_share_pictures_list services u start count w) ≡ some (listed answer)
        → answer.total ≡ pos 0
        → pictures (view (handle_get_share_pictures_list services u start count w).1) ≡ 0
    handle_get_share_pictures_list-empty start count w answer e z =
        handler_ends Empty (list_rule start count) w tt answer e z
