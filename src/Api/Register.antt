-- ===== src/Api/Register.antt =====
-- Registering a user (api/api_register.cc). A worker thread runs this, beside others: the definitions
-- are one run, and say nothing of what others do between its select and its insert.
pub mod Registered
use pic_bed.Prelude.{
  ℕ, Bool, true, false, Option, none, some, List, [], ◌∷◌, Text, text_eq, pos, if◌then◌else◌,
}
use pic_bed.Services.{Services, Statement, Row}
use pic_bed.Act.{Act, ◌>>=◌, ◌>>◌, pure, stop_if, leave, choose, need, call, inline}
use pic_bed.Mysql
use pic_bed.Mysql.{update_succeeded}
use pic_bed.Api.Codes.{resp_ok, resp_fail, resp_user_exist}
use pic_bed.Api.Json.{RegisterRequest, decode_register_json}
use pic_bed.Api.Dispatch.{decoded}

-- `pResultSet && pResultSet->Next()`
abbrev pub has_row : Option (List Row) → Bool
has_row none = false
has_row (some []) = false
has_row (some (row ∷ rows)) = true

module _ {W : Type 0} (services : Services W) where
  open services use {take_db_conn, now, prepare, execute}

  -- The insert as a prepared statement; ExecuteUpdate of CPrepareStatement fails where no row is
  -- affected. Where the statement cannot be prepared, `ret` is still 0.
  unfoldable pub insert_user : RegisterRequest → Act W ℕ ℕ
  insert_user r = do
    create_time ← call now
    prepared ← call prepare
    stop_if (if prepared then false else true) resp_ok
    rows ←
        call (
          execute (Statement.insert_user r.user_name r.nick_name r.pwd r.phone r.email create_time))
    pure (if update_succeeded rows true then resp_ok else resp_fail)

  -- registerUser
  unfoldable pub register_user : RegisterRequest → Act W ℕ ℕ
  unfolding insert_user
  register_user r = do
    db ← call take_db_conn
    need db
    results ← Mysql.execute_query services (Statement.select_user r.user_name)
    choose (has_row results) (pure resp_user_exist) (insert_user r)

  -- ApiRegisterUser: the code of the JSON that is added to the connection's responses
  unfoldable pub api_register_user : Text → Act W ℕ ℕ
  unfolding register_user
  api_register_user post_data = do
    stop_if (text_eq post_data []) resp_fail
    request ← decoded (decode_register_json services post_data) resp_fail
    inline (register_user request)
