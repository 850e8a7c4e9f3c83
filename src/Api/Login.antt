-- ===== src/Api/Login.antt =====
-- Logging in (api/api_login.cc), and RandomString (base/common.cc).
pub mod Password
use pic_bed.Prelude.{
  ℕ, zero, suc, ◌+◌, ◌%◌, not, Bool, true, false, Option, none, some, List, [], ◌∷◌, ◌++◌, Text,
  text_eq, ℤ, pos, minus_one, is_negative, if◌then◌else◌,
}
use pic_bed.Services.{Services, Statement, Row, Column}
use pic_bed.Act.{Act, ◌>>=◌, ◌>>◌, pure, stop_if, leave, choose, ignore, need, call, inline}
use pic_bed.Redis
use pic_bed.Mysql
use pic_bed.Api.Codes.{resp_ok, resp_fail}
use pic_bed.Api.Counts
use pic_bed.Api.Counts.{file_user_count, share_pic_count}
use pic_bed.Api.Json.{LoginRequest, decode_login_json}

-- encodeLoginJson: the members `code` and `token`
pub record LoginAnswer : Type 0 where
  pub code : ℕ
  pub token : Option Text

unfoldable pub encode_login_json : ℕ → Text → LoginAnswer
encode_login_json zero token = record { code = 0; token = some token }
encode_login_json (suc ret) token = record { code = suc ret; token = none }

-- Whether the first row has this password.
unfoldable pub password_status : Text → Option (List Row) → ℤ
password_status pwd none = minus_one
password_status pwd (some []) = minus_one
password_status pwd (some (row ∷ rows)) =
    if text_eq (row.get_string Column.password) pwd then pos 0 else minus_one

-- A body that cannot be decoded, and the answer to it.
unfoldable pub login_decoded :
    {W : Type 0} → Option LoginRequest → Act W (Option LoginAnswer) LoginRequest
unfolding encode_login_json
login_decoded none = leave (some (encode_login_json resp_fail []))
login_decoded (some r) = pure r

module _ {W : Type 0} (services : Services W) where
  open services use {take_db_conn, take_cache_conn, rand}

  -- RandomString
  unfoldable pub random_string : {R : Type 0} → ℕ → Act W R Text
  random_string zero = pure []
  random_string (suc len) = do
    r ← call rand
    rest ← random_string len
    pure ((b'a' + r % 26) ∷ rest)

  -- verifyUserPassword
  unfoldable pub verify_user_password : {R : Type 0} → Text → Text → Act W R ℤ
  unfolding password_status
  verify_user_password user_name pwd = do
    db ← call take_db_conn
    need db
    results ← Mysql.execute_query services (Statement.select_password user_name)
    pure (password_status pwd results)

  -- setToken: the return value and the token
  unfoldable pub set_token : {R : Type 0} → Text → Act W R (ℤ × Text)
  unfolding random_string
  set_token user_name = do
    cache ← call take_cache_conn
    token ← random_string 32
    choose cache
        (do ignore (inline (Redis.set_ex services user_name 86400 token)); pure (pos 0, token))
        (pure (minus_one, token))

  -- loadMyfilesCountAndSharepictureCount
  unfoldable pub load_myfiles_count_and_sharepicture_count : Text → Act W ℤ ℤ
  load_myfiles_count_and_sharepicture_count user_name = do
    db ← call take_db_conn
    cache ← call take_cache_conn
    need db
    files ← Counts.db_get_user_files_count_by_username services user_name
    stop_if (is_negative files.0) minus_one
    need cache
    files_stored ← Counts.cache_set_count services (file_user_count ++ user_name) (pos files.1)
    stop_if (is_negative files_stored) minus_one
    pictures ← Counts.db_get_share_picture_count_by_username services user_name
    stop_if (is_negative pictures.0) minus_one
    pictures_stored ←
        Counts.cache_set_count services (share_pic_count ++ user_name) (pos pictures.1)
    stop_if (is_negative pictures_stored) minus_one
    pure (pos 0)

  -- ApiUserLogin; none where it leaves the JSON empty
  unfoldable pub api_user_login : Text → Act W (Option LoginAnswer) (Option LoginAnswer)
  unfolding login_decoded encode_login_json verify_user_password set_token
      load_myfiles_count_and_sharepicture_count
  api_user_login post_data = do
    stop_if (text_eq post_data []) none
    request ← login_decoded (decode_login_json services post_data)
    verified ← verify_user_password request.user_name request.pwd
    stop_if (is_negative verified) (some (encode_login_json resp_fail []))
    token ← set_token request.user_name
    stop_if (is_negative token.0) (some (encode_login_json resp_fail token.1))
    loaded ← inline (load_myfiles_count_and_sharepicture_count request.user_name)
    stop_if (is_negative loaded) (some (encode_login_json resp_fail token.1))
    pure (some (encode_login_json resp_ok token.1))
