-- ===== src/Api/Requests.antt =====
-- The requests of all clients, one after the other: the url chooses the handler (http_conn.cc), and
-- each request is handled to its end before the next one is taken, as the event loop does. Registering
-- and logging in are tasks of the worker threads, which run them beside other requests; here each is
-- one step, like the others. Of the tables, registering writes to user_info only, which no other
-- handler does, and logging in to none.
pub mod Kept
pub mod Counted
use pic_bed.Prelude.{◌<◌, some, Text, codes, ◌≡◌, count_if, subst, sym}
use pic_bed.Services.{Services}
use pic_bed.Act.{next}
use pic_bed.Sql.{Tables, IsSql, owned_by}
use pic_bed.Sql.References.{IsCounted}
use pic_bed.Http.Route
use pic_bed.Http.Route.{Route, route}
use pic_bed.Api.Json.{FileRequest, decode_dealfile_json}
use pic_bed.Api.Query.{read_cmd}
use pic_bed.Api.Dispatch.{api_dealfile, api_dealsharefile, api_md5}
use pic_bed.Api.Login.{api_user_login}
use pic_bed.Api.Register.{api_register_user}
use pic_bed.Api.Upload.{UploadConfig, api_upload}
use pic_bed.Api.Upload.Counted.{IsNew}
use pic_bed.Api.MyFiles.{api_myfiles}
use pic_bed.Api.ShareFiles.{api_sharefiles}
use pic_bed.Api.SharePicture.{PictureAnswer, api_sharepicture}

module _ {W : Type 0} (config : UploadConfig) (services : Services W) where
  -- The world after the handler
  unfoldable pub run_route : Route → Text → Text → W → W
  run_route Route.register url content w = (api_register_user services content w).1
  run_route Route.login url content w = (api_user_login services content w).1
  run_route Route.myfiles url content w = (api_myfiles services url content w).1
  run_route Route.sharefiles url content w = (api_sharefiles services url content w).1
  run_route Route.dealfile url content w = (api_dealfile services url content w).1
  run_route Route.dealsharefile url content w = (api_dealsharefile services url content w).1
  run_route Route.sharepicture url content w = (api_sharepicture services url content w).1
  run_route Route.md5 url content w = (api_md5 services content w).1
  run_route Route.upload url content w = (api_upload services config content w).1
  run_route Route.unknown url content w = w

  -- The world after a request
  unfoldable pub handle_request : Text → Text → W → W
  unfolding run_route
  handle_request url content w = run_route (route url) url content w

  module _ (view : W → Tables) where
    -- What a client that keeps to the protocol asks for: an own file that it names is one that it
    -- has, an upload is of a file that ApiMd5 did not find, and no picture is cancelled.
    abbrev pub IsProper : Route → Text → Text → W → Type 0
    IsProper Route.dealfile url content w =
        (r : FileRequest)
        → decode_dealfile_json services content ≡ some r
        → 0 < count_if (owned_by r.user_name r.md5 r.filename) (view w).user_file_list
    IsProper Route.upload url content w = IsNew W content (view w)
    IsProper Route.sharepicture url content w =
        ¬ ((read_cmd {R = PictureAnswer} services url w).0 ≡ next (codes "cancel"))
    IsProper _ url content w = Unit

    -- The worlds that proper requests lead to
    pub data Reached (start : W) : W → Type 0 where
      here : Reached start start
      after_request :
          (w : W) (url content : Text)
          → Reached start w
          → IsProper (route url) url content w
          → Reached start (handle_request url content w)
