-- ===== src/Tests/Requests.antt =====
-- Requests to the entry points at the sample: the body names alice, her file and her token.
use pic_bed.Prelude.{
  ℕ, ◌<◌, count_if, Option, none, some, [], Text, codes, ◌≡◌, ◌↔◌, refl, sym, ◌∙◌, subst, pos,
}
use pic_bed.Http.Route.{route, first_route}
use pic_bed.Api.Upload.{UploadConfig}
use pic_bed.Api.SharePicture.{PictureAnswer}
use pic_bed.Api.Requests.{handle_request, Reached}
use pic_bed.Api.Requests.Reached.{here, after_request}
use pic_bed.Api.Requests.Counted.{Reached-IsCounted}
use pic_bed.Services.{Services, Reply}
use pic_bed.Mysql
use pic_bed.Api.Query.{read_cmd, query_parse_key_value, value_behind, behind_key, copied}
use pic_bed.Act.{next, running}
use pic_bed.Triple.{result}
use pic_bed.Redis
use pic_bed.Redis.{string_text}
use pic_bed.Sql.{owned_by}
use pic_bed.Sql.References.{IsCounted}
use pic_bed.Api.Codes.{resp_ok}
use pic_bed.Api.Json.{FileRequest, decode_dealfile_json, decode_dealsharefile_json, decode_md5_json}
use pic_bed.Api.Counts.{verify_token}
use pic_bed.Api.Counts.Token.{verify_token_iff}
use pic_bed.Api.DealShareFile.{handle_cancel_share_file}
use pic_bed.Api.Dispatch.{decoded, api_dealfile, api_dealsharefile, api_md5}
use pic_bed.Api.Dispatch.Gate.{Refused, api_dealfile-Refused, api_md5-Refused}
use pic_bed.Api.Dispatch.Answers.{api_dealsharefile-Ok}
use pic_bed.Tests.Server.{World, server, view, server-IsSql}
use pic_bed.Tests.Sample.{alice, md5, name, world, tables-IsCounted, alice_owns}

abbrev url : Text
url = codes "/api/dealfile?cmd=del"

abbrev request : FileRequest
request = record { user_name = alice; token = codes "token"; md5 = md5; filename = name }

-- What holds of the request holds of every decoded one.
decoded_request :
    (P : FileRequest → Type 0) (r : FileRequest) → P request → some request ≡ some r → P r
decoded_request P r p e =
    subst (λ (o : Option FileRequest). elim o [ none ↦ Unit | some q ↦ P q ]) e p

dealfile_body : decode_dealfile_json server [] ≡ some request
unfolding decode_dealfile_json
dealfile_body = refl

md5_body : decode_md5_json server [] ≡ some request
unfolding decode_md5_json
md5_body = refl

-- Redis has lost the token.
abbrev expired : World
expired = record world { strings = [] }

token_rejected :
    ¬ ((verify_token server {R = ℕ} request.user_name request.token expired).0 ≡ next (pos 0))
unfolding verify_token Redis.get Redis.exchange Redis.answered running
token_rejected e = cc

api_dealfile-Refused_example : Refused view expired (api_dealfile server url [] expired)
api_dealfile-Refused_example = api_dealfile-Refused server-IsSql url [] expired λ r e.
    decoded_request
      (λ r. ¬ ((verify_token server {R = ℕ} r.user_name r.token expired).0 ≡ next (pos 0))) r
      token_rejected (sym dealfile_body ∙ e)

api_md5-Refused_example : Refused view expired (api_md5 server [] expired)
api_md5-Refused_example = api_md5-Refused server-IsSql [] expired λ r e.
    decoded_request
      (λ r. ¬ ((verify_token server {R = ℕ} r.user_name r.token expired).0 ≡ next (pos 0))) r
      token_rejected (sym md5_body ∙ e)

verify_token_iff_example :
    ((verify_token server {R = Unit {0}} alice [] expired).0 ≡ next (pos 0))
    ↔ (string_text Reply.nil ≡ [])
verify_token_iff_example =
    verify_token_iff server alice [] expired expired expired expired Reply.nil refl refl refl

-- MySQL refuses every update.
abbrev refusing : Services World
refusing = record server { execute = λ s w. (none, w) }

share_request :
    decode_dealsharefile_json refusing []
    ≡ some (record { user_name = alice; md5 = md5; filename = name })
unfolding decode_dealsharefile_json
share_request = refl

cancel_answers :
    result (api_dealsharefile refusing (codes "/api/dealsharefile?cmd=cancel") [] world)
    ≡ some resp_ok
unfolding api_dealsharefile decoded decode_dealsharefile_json read_cmd query_parse_key_value
    value_behind behind_key copied handle_cancel_share_file Mysql.execute_update running
cancel_answers = refl

api_dealsharefile-Ok_example : resp_ok ≡ resp_ok
api_dealsharefile-Ok_example =
    api_dealsharefile-Ok refusing (codes "/api/dealsharefile?cmd=cancel") [] _ world resp_ok
      share_request cancel_answers

abbrev cancel_url : Text
cancel_url = codes "/api/dealsharefile?cmd=cancel"

abbrev share_url : Text
share_url = codes "/api/sharepic?cmd=share"

abbrev config : UploadConfig
config = record { storage_web_server_ip = []; storage_web_server_port = [] }

abbrev deleted_world : World
deleted_world = handle_request config server url [] world

deletes : Reached config server view world deleted_world
unfolding route first_route
deletes = after_request world url [] here λ r e.
    decoded_request
      (λ r. 0 < count_if (owned_by r.user_name r.md5 r.filename) (view world).user_file_list) r
      alice_owns (sym dealfile_body ∙ e)

abbrev cancelled_world : World
cancelled_world = handle_request config server cancel_url [] deleted_world

cancels : Reached config server view world cancelled_world
unfolding route first_route
cancels = after_request deleted_world cancel_url [] deletes tt

shares_no_cancel :
    (w : World) → ¬ ((read_cmd {R = PictureAnswer} server share_url w).0 ≡ next (codes "cancel"))
unfolding read_cmd query_parse_key_value value_behind behind_key copied running
shares_no_cancel w e = cc

shares :
    Reached config server view world (handle_request config server share_url [] cancelled_world)
unfolding route first_route
shares = after_request cancelled_world share_url [] cancels (shares_no_cancel cancelled_world)

Reached-IsCounted_example :
    IsCounted (view (handle_request config server share_url [] cancelled_world))
Reached-IsCounted_example = Reached-IsCounted server-IsSql config world _ tables-IsCounted shares
