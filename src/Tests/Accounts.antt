-- ===== src/Tests/Accounts.antt =====
-- Registering and logging in at the sample.
use pic_bed.Prelude.{some, [], codes, ◌≡◌, refl}
use pic_bed.Services.{Statement}
use pic_bed.Act.{running}
use pic_bed.Triple.{result}
use pic_bed.Redis
use pic_bed.Mysql
use pic_bed.Sql.{apply}
use pic_bed.Api.Counts
use pic_bed.Api.Json.{decode_login_json}
use pic_bed.Api.Login.{
  LoginAnswer, encode_login_json, password_status, login_decoded, random_string,
  verify_user_password, set_token, load_myfiles_count_and_sharepicture_count, api_user_login,
}
use pic_bed.Api.Login.Password.{Known, api_user_login-Known}
use pic_bed.Tests.Server.{World, server, view, server-IsSql}
use pic_bed.Tests.Sample.{alice, with_info, tables, world}

-- Alice has registered with the password that the server reads from every body.
abbrev registered : World
unfolding apply
registered = record world {
  tables =
      apply (Statement.insert_user alice alice (codes "cat.png") [] [] (codes "now")) (view world);
}

abbrev answer : LoginAnswer
answer = record { code = 0; token = some (codes "dddddddddddddddddddddddddddddddd") }

logged_in : result (api_user_login server (codes "{}") registered) ≡ some (some answer)
unfolding api_user_login login_decoded encode_login_json decode_login_json verify_user_password
    password_status set_token random_string load_myfiles_count_and_sharepicture_count
    Mysql.execute_query Counts.db_get_user_files_count_by_username
    Counts.db_get_share_picture_count_by_username Counts.cache_set_count Redis.set Redis.set_ex
    Redis.exchange Redis.answered apply running world tables with_info
logged_in = refl

api_user_login-Known_example : Known server-IsSql (codes "{}") (view registered)
api_user_login-Known_example =
    api_user_login-Known server-IsSql (codes "{}") (view registered) registered answer refl
      logged_in refl
