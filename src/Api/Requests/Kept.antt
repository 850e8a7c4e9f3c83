-- ===== src/Api/Requests/Kept.antt =====
-- The requests that only read tables leave them as they are: logging in and the listings
-- (api/api_login.cc, api/api_myfiles.cc and api/api_sharefiles.cc).
use pic_bed.Prelude.{ℕ, zero, suc, Bool, Option, none, some, List, [], ◌∷◌, Text, ℤ}
use pic_bed.Services.{Services, Row, Order}
use pic_bed.Sql.{Tables, IsSql}
use pic_bed.Sql.Keeps.{
  Keeps, keeps_rules, call-Keeps, bind-Keeps, pure-Keeps, ignore-Keeps, inline-Keeps, need-Keeps,
  stop_if-Keeps,
}
use pic_bed.Sql.Maintains.{execute_query-Keeps}
use pic_bed.Sql.RedisKeeps.{
  get-Keeps, set-Keeps, set_ex-Keeps, zset_add-Keeps, hset-Keeps, del-Keeps, zset_zcard-Keeps,
  zset_get_score-Keeps, zset_zrevrange-Keeps, hget_value-Keeps,
}
use pic_bed.Api.Counts
use pic_bed.Api.Json.{LoginRequest}
use pic_bed.Api.Dispatch.Counted.{read_cmd-Keeps}
use pic_bed.Api.Dispatch.Gate.{verify_token-Keeps}
use pic_bed.Api.Login.{
  random_string, verify_user_password, set_token, login_decoded,
  load_myfiles_count_and_sharepicture_count, api_user_login,
}
use pic_bed.Api.MyFiles.{
  FilesAnswer, answer_or_fail, request_or_fail, order_or_leave, load_user_files_count,
  get_user_files_count, handle_user_files_count, decode_fileslist_json, get_user_file_list,
  run_count_cmd, run_list_cmd, api_myfiles,
}
use pic_bed.Api.ShareFiles.{
  value_or_fail, range_or_fail, load_share_files_count, get_share_files_count,
  handle_get_sharefiles_count, decode_share_fileslist_json, handle_get_share_filelist, import_rows,
  reload_ranking, ranked_files, handle_get_ranking_filelist, api_sharefiles,
}
use pic_bed.Api.SharePicture.Counted.{member-Keeps}

module _ {W : Type 0} {services : Services W} {view : W → Tables} (sql : IsSql services view) where
  random_string-Keeps : {R : Type 0} (n : ℕ) → Keeps view {R = R} (random_string services n)
  unfolding random_string
  random_string-Keeps zero = search keeps_rules
  random_string-Keeps (suc n) =
      bind-Keeps view (call-Keeps view services.rand sql.rand_keeps)
        λ r. bind-Keeps view (random_string-Keeps n) λ rest. pure-Keeps view _

  login_decoded-Keeps : (o : Option LoginRequest) → Keeps view (login_decoded o)
  unfolding login_decoded
  login_decoded-Keeps none = search keeps_rules
  login_decoded-Keeps (some r) = search keeps_rules

  load-Keeps : (u : Text) → Keeps view (load_myfiles_count_and_sharepicture_count services u)
  unfolding load_myfiles_count_and_sharepicture_count Counts.cache_set_count
      Counts.db_get_user_files_count_by_username Counts.db_get_share_picture_count_by_username
  load-Keeps u =
      search
        (
          keeps_rules,
          call-Keeps view services.take_db_conn sql.take_db_conn_keeps,
          call-Keeps view services.take_cache_conn sql.take_cache_conn_keeps,
          execute_query-Keeps sql,
          set-Keeps sql,
        )
        depth 60 fits 8000

  pub api_user_login-Keeps : (body : Text) → Keeps view (api_user_login services body)
  unfolding api_user_login verify_user_password set_token
  api_user_login-Keeps body =
      search
        (
          keeps_rules,
          call-Keeps view services.take_db_conn sql.take_db_conn_keeps,
          call-Keeps view services.take_cache_conn sql.take_cache_conn_keeps,
          execute_query-Keeps sql,
          login_decoded-Keeps,
          random_string-Keeps,
          set_ex-Keeps sql,
          load-Keeps,
        )
        depth 60 fits 8000

  request_or_fail-Keeps : {A : Type 0} (o : Option A) → Keeps view (request_or_fail o)
  unfolding request_or_fail
  request_or_fail-Keeps none = search keeps_rules
  request_or_fail-Keeps (some r) = search keeps_rules

  answer_or_fail-Keeps : (o : Option FilesAnswer) → Keeps view (answer_or_fail o)
  unfolding answer_or_fail
  answer_or_fail-Keeps none = search keeps_rules
  answer_or_fail-Keeps (some r) = search keeps_rules

  get_user_files_count-Keeps :
      (db cache : Bool) (u : Text) → Keeps view (get_user_files_count services db cache u)
  unfolding get_user_files_count load_user_files_count Counts.cache_get_count Counts.cache_set_count
      Counts.db_get_user_files_count_by_username
  get_user_files_count-Keeps db cache u =
      search (keeps_rules, execute_query-Keeps sql, get-Keeps sql, set-Keeps sql) depth 60 fits 8000

  decode_fileslist-Keeps : (body : Text) → Keeps view (decode_fileslist_json services body)
  unfolding decode_fileslist_json
  decode_fileslist-Keeps body = search (keeps_rules, member-Keeps sql) depth 40 fits 4000

  ordered-Keeps : (o : Option Order) → Keeps view (order_or_leave o)
  unfolding order_or_leave
  ordered-Keeps none = search keeps_rules
  ordered-Keeps (some order) = search keeps_rules

  get_user_file_list-Keeps :
      (cmd u : Text) (start count : ℤ) → Keeps view (get_user_file_list services cmd u start count)
  unfolding get_user_file_list
  get_user_file_list-Keeps cmd u start count =
      search
        (
          keeps_rules,
          call-Keeps view services.take_db_conn sql.take_db_conn_keeps,
          call-Keeps view services.take_cache_conn sql.take_cache_conn_keeps,
          execute_query-Keeps sql,
          get_user_files_count-Keeps,
          ordered-Keeps,
        )
        depth 60 fits 8000

  pub api_myfiles-Keeps : (url body : Text) → Keeps view (api_myfiles services url body)
  unfolding api_myfiles run_count_cmd run_list_cmd handle_user_files_count
  api_myfiles-Keeps url body =
      search
        (
          keeps_rules,
          call-Keeps view services.take_db_conn sql.take_db_conn_keeps,
          call-Keeps view services.take_cache_conn sql.take_cache_conn_keeps,
          read_cmd-Keeps sql,
          request_or_fail-Keeps,
          verify_token-Keeps sql,
          get_user_files_count-Keeps,
          decode_fileslist-Keeps,
          get_user_file_list-Keeps,
          answer_or_fail-Keeps,
        )
        depth 60 fits 8000

  value_or_fail-Keeps : {A : Type 0} (o : Option A) → Keeps view (value_or_fail o)
  unfolding value_or_fail
  value_or_fail-Keeps none = search keeps_rules
  value_or_fail-Keeps (some r) = search keeps_rules

  range_or_fail-Keeps : (o : Option (ℤ × ℤ)) → Keeps view (range_or_fail o)
  unfolding range_or_fail
  range_or_fail-Keeps none = search keeps_rules
  range_or_fail-Keeps (some r) = search keeps_rules

  get_share_files_count-Keeps :
      (db cache : Bool) → Keeps view (get_share_files_count services db cache)
  unfolding get_share_files_count load_share_files_count Counts.cache_get_count
      Counts.cache_set_count Counts.db_get_share_files_count
  get_share_files_count-Keeps db cache =
      search (keeps_rules, execute_query-Keeps sql, get-Keeps sql, set-Keeps sql) depth 60 fits 8000

  import_rows-Keeps :
      {R : Type 0} (rows : List Row) → Keeps view {R = R} (import_rows services rows)
  unfolding import_rows
  import_rows-Keeps [] = search keeps_rules
  import_rows-Keeps (row ∷ rows) = bind-Keeps view (need-Keeps view _) λ _.
      bind-Keeps view (ignore-Keeps view (inline-Keeps view (zset_add-Keeps sql _ _ _))) λ _.
        bind-Keeps view (ignore-Keeps view (inline-Keeps view (hset-Keeps sql _ _ _)))
          λ _. import_rows-Keeps rows

  reload_ranking-Keeps : (db : Bool) → Keeps view (reload_ranking services db)
  unfolding reload_ranking
  reload_ranking-Keeps db =
      search
        (
          keeps_rules,
          del-Keeps sql,
          execute_query-Keeps sql,
          value_or_fail-Keeps,
          import_rows-Keeps,
        )
        depth 60 fits 8000

  ranked_files-Keeps : (values : List Text) → Keeps view (ranked_files services values)
  unfolding ranked_files
  ranked_files-Keeps [] = search keeps_rules
  ranked_files-Keeps (value ∷ values) =
      bind-Keeps view (inline-Keeps view (hget_value-Keeps sql _ _)) λ found.
        bind-Keeps view (value_or_fail-Keeps found) λ filename.
          bind-Keeps view (inline-Keeps view (zset_get_score-Keeps sql _ _)) λ score.
            bind-Keeps view (stop_if-Keeps view _ _)
              λ _. bind-Keeps view (ranked_files-Keeps values) λ rest. pure-Keeps view _

  ranking-Keeps : (start count : ℤ) → Keeps view (handle_get_ranking_filelist services start count)
  unfolding handle_get_ranking_filelist
  ranking-Keeps start count =
      search
        (
          keeps_rules,
          call-Keeps view services.take_db_conn sql.take_db_conn_keeps,
          call-Keeps view services.take_cache_conn sql.take_cache_conn_keeps,
          get_share_files_count-Keeps,
          zset_zcard-Keeps sql,
          reload_ranking-Keeps,
          zset_zrevrange-Keeps sql,
          value_or_fail-Keeps,
          ranked_files-Keeps,
        )
        depth 60 fits 8000

  shared_list-Keeps :
      (start count : ℤ) → Keeps view (handle_get_share_filelist services start count)
  unfolding handle_get_share_filelist
  shared_list-Keeps start count =
      search
        (
          keeps_rules,
          call-Keeps view services.take_db_conn sql.take_db_conn_keeps,
          call-Keeps view services.take_cache_conn sql.take_cache_conn_keeps,
          get_share_files_count-Keeps,
          execute_query-Keeps sql,
        )
        depth 60 fits 8000

  decode_share_fileslist-Keeps :
      (body : Text) → Keeps view (decode_share_fileslist_json services body)
  unfolding decode_share_fileslist_json
  decode_share_fileslist-Keeps body = search (keeps_rules, member-Keeps sql) depth 40 fits 4000

  pub api_sharefiles-Keeps : (url body : Text) → Keeps view (api_sharefiles services url body)
  unfolding api_sharefiles handle_get_sharefiles_count
  api_sharefiles-Keeps url body =
      search
        (
          keeps_rules,
          call-Keeps view services.take_db_conn sql.take_db_conn_keeps,
          call-Keeps view services.take_cache_conn sql.take_cache_conn_keeps,
          read_cmd-Keeps sql,
          get_share_files_count-Keeps,
          decode_share_fileslist-Keeps,
          range_or_fail-Keeps,
          shared_list-Keeps,
          ranking-Keeps,
        )
        depth 60 fits 8000
