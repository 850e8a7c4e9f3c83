-- ===== src/Api/Dispatch.antt =====
-- The entry points of the file requests: ApiDealfile, ApiDealsharefile and ApiMd5. Each ends with
-- the `code` of the JSON that it writes.
pub mod Gate
pub mod Counted
pub mod Answers
use pic_bed.Prelude.{
  ℕ, not, Option, none, some, Text, codes, text_eq, pos, equals, is_negative, if◌then◌else◌,
}
use pic_bed.Services.{Services}
use pic_bed.Act.{Act, ◌>>=◌, ◌>>◌, pure, stop_if, leave, choose, inline}
use pic_bed.Api.Codes.{resp_ok, resp_fail, resp_token_err}
use pic_bed.Api.Counts.{verify_token}
use pic_bed.Api.Json.{decode_dealfile_json, decode_dealsharefile_json, decode_md5_json}
use pic_bed.Api.Query.{read_cmd}
use pic_bed.Api.DealFile.{handle_share_file, handle_delete_file, handle_pv_file}
use pic_bed.Api.DealShareFile.{handle_cancel_share_file, handle_save_file, handle_share_pv_file}
use pic_bed.Api.Md5.{handle_deal_md5}

-- A request that cannot be decoded is answered with `code`.
unfoldable pub decoded : {W A : Type 0} → Option A → ℕ → Act W ℕ A
decoded none code = leave code
decoded (some request) code = pure request

module _ {W : Type 0} (services : Services W) where
  -- ApiDealfile
  unfoldable pub api_dealfile : Text → Text → Act W ℕ ℕ
  api_dealfile url post_data = do
    cmd ← read_cmd services url
    request ← decoded (decode_dealfile_json services post_data) resp_fail
    verified ← verify_token services request.user_name request.token
    stop_if (not (equals verified 0)) resp_token_err
    choose (text_eq cmd (codes "share"))
        (inline (handle_share_file services request.user_name request.md5 request.filename))
        (choose (text_eq cmd (codes "del"))
          (inline (handle_delete_file services request.user_name request.md5 request.filename))
          (choose (text_eq cmd (codes "pv"))
            (inline (handle_pv_file services request.user_name request.md5 request.filename))
            (pure resp_fail)))

  -- ApiDealsharefile; it writes OK unless the handler's code is negative
  unfoldable pub api_dealsharefile : Text → Text → Act W ℕ ℕ
  api_dealsharefile url post_data = do
    cmd ← read_cmd services url
    request ← decoded (decode_dealsharefile_json services post_data) resp_fail
    ret ←
        choose (text_eq cmd (codes "cancel"))
          (inline
            (handle_cancel_share_file services request.user_name request.md5 request.filename))
          (choose (text_eq cmd (codes "save"))
            (inline (handle_save_file services request.user_name request.md5 request.filename))
            (choose (text_eq cmd (codes "pv"))
              (inline (handle_share_pv_file services request.md5 request.filename)) (pure 0)))
    pure (if is_negative (pos ret) then resp_fail else resp_ok)

  -- ApiMd5
  unfoldable pub api_md5 : Text → Act W ℕ ℕ
  api_md5 post_data = do
    request ← decoded (decode_md5_json services post_data) resp_fail
    verified ← verify_token services request.user_name request.token
    stop_if (not (equals verified 0)) resp_token_err
    inline (handle_deal_md5 services request.user_name request.md5 request.filename)
