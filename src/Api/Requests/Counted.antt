-- ===== src/Api/Requests/Counted.antt =====
-- The reference counts over all requests (the handlers of api/, called by http_conn.cc).
use pic_bed.Prelude.{Text}
use pic_bed.Services.{Services}
use pic_bed.Sql.{Tables, IsSql}
use pic_bed.Sql.Keeps.{Keeps, call-Keeps}
use pic_bed.Sql.Maintains.{
  Maintains, maintains_rules, kept-Maintains, execute_query-Keeps, execute-Maintains,
}
use pic_bed.Sql.References.{IsCounted}
use pic_bed.Sql.Steps.{insert_user-IsCounted}
use pic_bed.Act.{Act}
use pic_bed.Http.Route.{Route, route}
use pic_bed.Api.Json.{RegisterRequest}
use pic_bed.Api.Dispatch.Counted.{
  decoded-Keeps, api_dealfile-IsCounted, api_dealsharefile-IsCounted, api_md5-IsCounted,
}
use pic_bed.Api.Register
use pic_bed.Api.Register.{register_user, api_register_user}
use pic_bed.Api.Upload.{UploadConfig}
use pic_bed.Api.Upload.Counted.{api_upload-IsCounted}
use pic_bed.Api.SharePicture.Counted.{api_sharepicture-IsCounted}
use pic_bed.Api.Requests.{run_route, handle_request, IsProper, Reached}
use pic_bed.Api.Requests.Reached.{here, after_request}
use pic_bed.Api.Requests.Kept.{api_user_login-Keeps, api_myfiles-Keeps, api_sharefiles-Keeps}

module _ {W : Type 0} {services : Services W} {view : W → Tables} (sql : IsSql services view) where
  insert_user-Maintains :
      (r : RegisterRequest) → Maintains view IsCounted (Register.insert_user services r)
  unfolding Register.insert_user
  insert_user-Maintains r =
      search
        (
          maintains_rules,
          call-Keeps view services.now sql.now_keeps,
          call-Keeps view services.prepare sql.prepare_keeps,
          execute-Maintains sql,
          insert_user-IsCounted,
        )
        depth 40 fits 4000

  register-Maintains : (body : Text) → Maintains view IsCounted (api_register_user services body)
  unfolding api_register_user register_user
  register-Maintains body =
      search
        (
          maintains_rules,
          call-Keeps view services.take_db_conn sql.take_db_conn_keeps,
          decoded-Keeps sql,
          execute_query-Keeps sql,
          insert_user-Maintains,
        )
        depth 40 fits 4000

  kept :
      {R A : Type 0} {m : Act W R A} (w : W)
      → Keeps view m
      → IsCounted (view w)
      → IsCounted (view (m w).1)
  kept w h = (kept-Maintains view IsCounted h).after w

  module _ (config : UploadConfig) where
    run_route-IsCounted :
        (r : Route) (url content : Text) (w : W)
        → IsCounted (view w)
        → IsProper config services view r url content w
        → IsCounted (view (run_route config services r url content w))
    unfolding run_route
    run_route-IsCounted Route.register url content w h p = (register-Maintains content).after w h
    run_route-IsCounted Route.login url content w h p = kept w (api_user_login-Keeps sql content) h
    run_route-IsCounted Route.myfiles url content w h p =
        kept w (api_myfiles-Keeps sql url content) h
    run_route-IsCounted Route.sharefiles url content w h p =
        kept w (api_sharefiles-Keeps sql url content) h
    run_route-IsCounted Route.dealfile url content w h p =
        api_dealfile-IsCounted sql url content w h p
    run_route-IsCounted Route.dealsharefile url content w h p =
        api_dealsharefile-IsCounted sql url content w h
    run_route-IsCounted Route.sharepicture url content w h p =
        api_sharepicture-IsCounted sql url content w h p
    run_route-IsCounted Route.md5 url content w h p = api_md5-IsCounted sql content w h
    run_route-IsCounted Route.upload url content w h p =
        api_upload-IsCounted sql config content w h p
    run_route-IsCounted Route.unknown url content w h p = h

    -- In every world that proper requests lead to, no file is counted below its references, if none
    -- was at the start. Proper is a request to deal with an own file that names one that the user has,
    -- an upload of a file that file_info does not have, a request about pictures that cancels none, and
    -- any request to the other handlers.
    pub Reached-IsCounted :
        (start w : W)
        → IsCounted (view start)
        → Reached config services view start w
        → IsCounted (view w)
    unfolding handle_request
    Reached-IsCounted start _ h here = h
    Reached-IsCounted start _ h (after_request w url content before proper) =
        run_route-IsCounted (route url) url content w (Reached-IsCounted start w h before) proper
