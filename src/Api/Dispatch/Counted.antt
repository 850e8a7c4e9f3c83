-- ===== src/Api/Dispatch/Counted.antt =====
-- The entry points keep the reference counts (ApiDealfile, ApiDealsharefile and ApiMd5).
use pic_bed.Prelude.{ℕ, ◌<◌, Option, none, some, Text, ◌≡◌, refl, ap, count_if}
use pic_bed.Services.{Services}
use pic_bed.Act.{Step, next, stop, crash, Act, inline}
use pic_bed.Triple.{
  Triple, After, bind, leave_rule, stop_if_rule, choose_rule, inline_rule, pure_rule, weaken,
  handler_ends,
}
use pic_bed.Sql.{Tables, IsSql, owned_by}
use pic_bed.Sql.Keeps.{Keeps, keeps_rules}
use pic_bed.Sql.Maintains.{Maintains, maintains_rules}
use pic_bed.Sql.Rules.{keeps_rule}
use pic_bed.Sql.References.{IsCounted}
use pic_bed.Api.Json.{FileRequest, decode_dealfile_json}
use pic_bed.Api.Query.{read_cmd}
use pic_bed.Api.DealFile.References.{Holds, handle_delete_file-keeps}
use pic_bed.Api.DealFile.Counted.{handle_share_file-Maintains, handle_pv_file-Maintains}
use pic_bed.Api.DealShareFile.{handle_save_file}
use pic_bed.Api.DealShareFile.References.{handle_save_file-IsCounted}
use pic_bed.Api.DealShareFile.Counted.{
  handle_share_pv_file-Maintains, handle_cancel_share_file-Maintains,
}
use pic_bed.Api.Md5.{handle_deal_md5}
use pic_bed.Api.Md5.References.{handle_deal_md5-IsCounted}
use pic_bed.Api.Dispatch.{decoded, api_dealfile, api_dealsharefile, api_md5}
use pic_bed.Api.Dispatch.Gate.{verify_token-Keeps, read_cmd-Quiet}

module _ {W : Type 0} {services : Services W} {view : W → Tables} (sql : IsSql services view) where
  pub read_cmd-Keeps : {R : Type 0} (url : Text) → Keeps view {R = R} (read_cmd services url)
  read_cmd-Keeps {R} url = record { same = λ w. ap view (read_cmd-Quiet {R = R} services url w).0 }

  pub decoded-Keeps : {A : Type 0} (o : Option A) (code : ℕ) → Keeps view (decoded o code)
  unfolding decoded
  decoded-Keeps none code = search keeps_rules
  decoded-Keeps (some a) code = search keeps_rules

  save-Maintains : (u m f : Text) → Maintains view IsCounted (handle_save_file services u m f)
  save-Maintains u m f = record { after = handle_save_file-IsCounted sql u m f }

  md5-Maintains : (u m f : Text) → Maintains view IsCounted (handle_deal_md5 services u m f)
  md5-Maintains u m f = record { after = handle_deal_md5-IsCounted sql u m f }

  api_dealsharefile-Maintains :
      (url body : Text) → Maintains view IsCounted (api_dealsharefile services url body)
  unfolding api_dealsharefile
  api_dealsharefile-Maintains url body =
      search
        (
          maintains_rules,
          read_cmd-Keeps,
          decoded-Keeps,
          handle_cancel_share_file-Maintains sql,
          save-Maintains,
          handle_share_pv_file-Maintains sql,
        )
        depth 40 fits 4000

  -- ApiDealsharefile, whatever it is sent, leaves no file counted below its references.
  pub api_dealsharefile-IsCounted :
      (url body : Text) (w : W)
      → IsCounted (view w)
      → IsCounted (view (api_dealsharefile services url body w).1)
  api_dealsharefile-IsCounted url body = (api_dealsharefile-Maintains url body).after

  api_md5-Maintains : (body : Text) → Maintains view IsCounted (api_md5 services body)
  unfolding api_md5
  api_md5-Maintains body =
      search (maintains_rules, decoded-Keeps, verify_token-Keeps sql, md5-Maintains) depth 40 fits
        4000

  -- ApiMd5, whatever it is sent, leaves no file counted below its references.
  pub api_md5-IsCounted :
      (body : Text) (w : W) → IsCounted (view w) → IsCounted (view (api_md5 services body w).1)
  api_md5-IsCounted body = (api_md5-Maintains body).after

  -- What a request to ApiDealfile needs: the user that it names has the file.
  abbrev Names : Option FileRequest → Tables → Type 0
  Names o t =
      IsCounted t
      × ((r : FileRequest)
          → o ≡ some r
          → 0 < count_if (owned_by r.user_name r.md5 r.filename) t.user_file_list)

  decoded_rule :
      (o : Option FileRequest) (code : ℕ)
      → Triple view
          (Names o)
          (decoded o code)
          (λ r. Holds r.user_name r.md5 r.filename)
          (λ _. IsCounted)
  unfolding decoded
  decoded_rule none code = leave_rule code λ t p. p.0
  decoded_rule (some r) code = pure_rule r λ t p. (p.0, p.1 r refl)

  after_inline :
      {A : Type 0} (o : Step A A × W)
      → IsCounted (view o.1)
      → After view (λ _. IsCounted) (λ _. IsCounted) (inline {R = ℕ} (λ (w : W). o) o.1)
  unfolding inline
  after_inline (next a, w) p = p
  after_inline (stop a, w) p = p
  after_inline (crash, w) p = p

  run_handler :
      {A : Type 0} (m : Act W A A) (u d f : Text)
      → Maintains view IsCounted m
      → Triple view (Holds u d f) (inline {R = ℕ} m) (λ _. IsCounted) (λ _. IsCounted)
  unfolding inline
  run_handler m u d f h = record { run = λ w p. after_inline (m w) (h.after w p.0) }

  api_dealfile_keeps :
      (url body : Text)
      → Triple view
          (Names (decode_dealfile_json services body))
          (api_dealfile services url body)
          (λ _. IsCounted)
          (λ _. IsCounted)
  unfolding api_dealfile
  api_dealfile_keeps url body = bind (keeps_rule (read_cmd-Keeps url) λ r t p. p.0) λ cmd.
      bind (decoded_rule _ _) λ r. bind (keeps_rule (verify_token-Keeps sql _ _) λ a t p. p.0) λ v.
        bind (stop_if_rule _ _ λ t b p. p.0) λ _.
          weaken (λ t p. p.1)
            (choose_rule _ (λ h. run_handler _ _ _ _ (handle_share_file-Maintains sql _ _ _))
              λ h.
                choose_rule _
                  (λ h. inline_rule (handle_delete_file-keeps sql _ _ _) (λ a t p. p) λ t p. p)
                  λ h.
                    choose_rule _ (λ h. run_handler _ _ _ _ (handle_pv_file-Maintains sql _ _ _))
                      λ h. pure_rule _ λ t p. p.0)

  -- ApiDealfile, asked for a file that the user of the request has, leaves no file counted below its
  -- references, whatever the command.
  pub api_dealfile-IsCounted :
      (url body : Text) (w : W)
      → IsCounted (view w)
      → ((r : FileRequest)
          → decode_dealfile_json services body ≡ some r
          → 0 < count_if (owned_by r.user_name r.md5 r.filename) (view w).user_file_list)
      → IsCounted (view (api_dealfile services url body w).1)
  api_dealfile-IsCounted url body w h owned =
      handler_ends (λ _. IsCounted) (api_dealfile_keeps url body) w (h, owned)
