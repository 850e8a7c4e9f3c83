-- ===== src/Api/SharePicture/Counted.antt =====
-- Sharing, browsing and listing pictures keep the reference counts (api/api_sharepicture.cc).
use pic_bed.Prelude.{
  ℕ, ◌+◌, Bool, true, false, Option, none, some, List, [], ◌∷◌, Text, codes, eq_of_text_eq, ◌≡◌,
  refl, ap, sym, subst, ℤ, inl, inr, arith,
}
use pic_bed.Services.{Services, Row}
use pic_bed.Services.Statement.{insert_share_picture, update_picture_pv}
use pic_bed.Act.{Step, next, stop, crash, Act, continue, ◌>>=◌, choose}
use pic_bed.Sql.{Tables, IsSql, apply}
use pic_bed.Sql.Keeps.{Keeps, keeps_rules, call-Keeps}
use pic_bed.Sql.Maintains.{
  Maintains, maintains_rules, update-Maintains, execute_query-Keeps, choose-Maintains,
}
use pic_bed.Sql.RedisKeeps.{get-Keeps, set-Keeps}
use pic_bed.Sql.References.{IsCounted, references}
use pic_bed.Sql.Rules.{ref_count}
use pic_bed.Sql.Steps.{update-IsCounted}
use pic_bed.Api.Counts
use pic_bed.Api.Query.{read_cmd}
use pic_bed.Api.Dispatch.Gate.{read_cmd-Quiet}
use pic_bed.Api.SharePicture.{
  PictureAnswer, member, row_or_leave, decoded_or, decode_picture_list_json,
  load_share_pictures_count, get_share_pictures_count, handle_get_share_pictures_list,
  handle_share_picture, handle_browse_picture, run_picture_cmd, api_sharepicture,
}
use pic_bed.Api.SharePicture.Shared.{
  with_picture, Stages, ref_count-with_picture, handle_share_picture-PictureSharing,
}

insert_share_picture-IsCounted :
    (u m f l k c : Text) (n : ℕ) (t : Tables)
    → IsCounted t
    → IsCounted (apply (insert_share_picture u m f l k n c) t)
unfolding references ref_count apply
insert_share_picture-IsCounted u m f l k c n t h = record { covered = h.covered }

update_picture_pv-IsCounted :
    (n : ℕ) (l : Text) (t : Tables) → IsCounted t → IsCounted (apply (update_picture_pv n l) t)
unfolding references ref_count apply
update_picture_pv-IsCounted n l t h = record { covered = h.covered }

module _ (u m f l : Text) (before : Tables) (h : IsCounted before) where
  stage-IsCounted : (t : Tables) → Stages u m f before l t → IsCounted t
  stage-IsCounted t (inl same) = subst IsCounted (sym same) h
  stage-IsCounted t (inr (inl (time, same))) =
      subst IsCounted (sym same) (insert_share_picture-IsCounted u m f l [] time 0 before h)
  stage-IsCounted t (inr (inr (c, time, counted, same))) =
      let there = insert_share_picture-IsCounted u m f l [] time 0 before h in
      subst IsCounted (sym same) (
        update-IsCounted m (c + 1) (with_picture u m f before l time) there
          (ground (arith, there.covered m, ref_count-with_picture u m f before l time, counted)))

module _ {W : Type 0} {services : Services W} {view : W → Tables} (sql : IsSql services view) where
  share-Maintains : (u m f : Text) → Maintains view IsCounted (handle_share_picture services u m f)
  share-Maintains u m f = record {
    after = λ w h.
        let sharing = handle_share_picture-PictureSharing u m f (view w) sql w refl in
        stage-IsCounted u m f sharing.stage.0 (view w) h _ sharing.stage.1;
  }

  row_or_leave-Keeps : {R : Type 0} (r : R) (o : Option (List Row)) → Keeps view (row_or_leave r o)
  unfolding row_or_leave
  row_or_leave-Keeps r none = search keeps_rules
  row_or_leave-Keeps r (some []) = search keeps_rules
  row_or_leave-Keeps r (some (row ∷ rows)) = search keeps_rules

  decoded_or-Keeps :
      {A : Type 0} (answer : PictureAnswer) (o : Option A) → Keeps view (decoded_or answer o)
  unfolding decoded_or
  decoded_or-Keeps answer none = search keeps_rules
  decoded_or-Keeps answer (some a) = search keeps_rules

  pub member-Keeps : {A B : Type 0} (o : Option A) → Keeps view (member {B = B} o)
  unfolding member
  member-Keeps none = search keeps_rules
  member-Keeps (some a) = search keeps_rules

  decode_list-Keeps : (body : Text) → Keeps view (decode_picture_list_json services body)
  unfolding decode_picture_list_json
  decode_list-Keeps body = search (keeps_rules, member-Keeps) depth 40 fits 4000

  browse-Maintains : (l : Text) → Maintains view IsCounted (handle_browse_picture services l)
  unfolding handle_browse_picture
  browse-Maintains l =
      search
        (
          maintains_rules,
          call-Keeps view services.take_db_conn sql.take_db_conn_keeps,
          call-Keeps view services.take_cache_conn sql.take_cache_conn_keeps,
          execute_query-Keeps sql,
          row_or_leave-Keeps,
          update-Maintains sql,
          update_picture_pv-IsCounted,
        )
        depth 40 fits 4000

  count-Keeps :
      (db cache : Bool) (u : Text) → Keeps view (get_share_pictures_count services db cache u)
  unfolding get_share_pictures_count load_share_pictures_count Counts.cache_get_count
      Counts.db_get_share_picture_count_by_username Counts.cache_set_count
  count-Keeps db cache u =
      search (keeps_rules, get-Keeps sql, set-Keeps sql, execute_query-Keeps sql) depth 40 fits 4000

  list-Keeps :
      (u : Text) (start count : ℤ)
      → Keeps view (handle_get_share_pictures_list services u start count)
  unfolding handle_get_share_pictures_list
  list-Keeps u start count =
      search
        (
          keeps_rules,
          call-Keeps view services.take_db_conn sql.take_db_conn_keeps,
          call-Keeps view services.take_cache_conn sql.take_cache_conn_keeps,
          execute_query-Keeps sql,
          count-Keeps,
        )
        depth 40 fits 4000

  skip-Maintains :
      {R A : Type 0} (b : Bool) (m : Act W R A) {n : Act W R A}
      → ¬ (b ≡ true)
      → Maintains view IsCounted n
      → Maintains view IsCounted (choose b m n)
  unfolding choose
  skip-Maintains true m h k = absurd (h refl)
  skip-Maintains false m h k = k

  cmd-Maintains :
      (cmd body : Text)
      → ¬ (cmd ≡ codes "cancel")
      → Maintains view IsCounted (run_picture_cmd services cmd body)
  unfolding run_picture_cmd
  cmd-Maintains cmd body h =
      choose-Maintains view IsCounted _
        (search (maintains_rules, decoded_or-Keeps, share-Maintains) depth 40 fits 4000)
        (choose-Maintains view IsCounted _
          (search (maintains_rules, decoded_or-Keeps, decode_list-Keeps, list-Keeps) depth 40 fits
            4000)
          (skip-Maintains _ _ (λ e. h (eq_of_text_eq cmd _ e))
            (search (maintains_rules, decoded_or-Keeps, browse-Maintains) depth 40 fits 4000)))

  after_cmd :
      (body : Text) (o : Step PictureAnswer Text × W)
      → ¬ (o.0 ≡ next (codes "cancel"))
      → IsCounted (view o.1)
      → IsCounted (view (continue (λ cmd. run_picture_cmd services cmd body) o.0 o.1).1)
  after_cmd body (next cmd, w) n h = (cmd-Maintains cmd body (λ e. n (ap next e))).after w h
  after_cmd body (stop r, w) n h = h
  after_cmd body (crash, w) n h = h

  -- ApiSharepicture, asked for anything but cancelling, leaves no file counted below its references.
  pub api_sharepicture-IsCounted :
      (url body : Text) (w : W)
      → IsCounted (view w)
      → ¬ ((read_cmd {R = PictureAnswer} services url w).0 ≡ next (codes "cancel"))
      → IsCounted (view (api_sharepicture services url body w).1)
  unfolding api_sharepicture ◌>>=◌
  api_sharepicture-IsCounted url body w h n =
      after_cmd body (read_cmd services url w) n
        (subst IsCounted (sym (ap view (read_cmd-Quiet services url w).0)) h)
