-- ===== src/Api/MyFiles.antt =====
-- The number and the pages of a user's files (api/api_myfiles.cc).
pub mod Reload
use pic_bed.Prelude.{
  ℕ, zero, suc, Bool, not, Option, none, some, List, ◌++◌, map, Text, codes, text_eq, ℤ, pos,
  minus_one, is_negative, equals, length, if◌then◌else◌,
}
use pic_bed.Services.{Services, Statement, Row, Column, Order}
use pic_bed.Act.{Act, ◌>>=◌, ◌>>◌, pure, stop_if, leave, choose, need, some_or_crash, call, inline}
use pic_bed.Mysql
use pic_bed.Api.Codes.{resp_fail}
use pic_bed.Api.Counts
use pic_bed.Api.Counts.{file_user_count, verify_token}
use pic_bed.Api.Json.{PictureListRequest, decode_count_json}
use pic_bed.Api.Query.{read_cmd}
use pic_bed.Api.SharePicture.{member}

-- encodeCountJson: the members `code` and `total`
pub record CountAnswer : Type 0 where
  pub code : ℕ
  pub total : Option ℤ

unfoldable pub encode_count_json : ℕ → ℤ → CountAnswer
encode_count_json zero total = record { code = 0; total = some total }
encode_count_json (suc ret) total = record { code = suc ret; total = none }

-- One element of `files`
pub record ListedFile : Type 0 where
  pub user : Text
  pub md5 : Text
  pub create_time : Text
  pub file_name : Text
  pub share_status : ℕ
  pub pv : ℕ
  pub url : Text
  pub size : ℕ
  pub suffix : Text

-- The members of a page, next to the code 0
pub record FileList : Type 0 where
  pub files : List ListedFile
  pub count : ℕ
  pub total : ℤ

-- The JSON of a response; `no_files` has no member `files`.
pub data FilesAnswer : Type 0 where
  counted : CountAnswer → FilesAnswer
  listed : FileList → FilesAnswer
  no_files : FilesAnswer

abbrev listed_file : Row → ListedFile
listed_file row = record {
  user = row.get_string Column.user;
  md5 = row.get_string Column.md5;
  create_time = row.get_string Column.create_time;
  file_name = row.get_string Column.file_name;
  share_status = row.get_int Column.shared_status;
  pv = row.get_int Column.pv;
  url = row.get_string Column.url;
  size = row.get_int Column.size;
  suffix = row.get_string Column.type;
}

-- The page, from its rows; none where the query failed
unfoldable pub file_page : ℤ → Option (List Row) → Option FilesAnswer
file_page total none = none
file_page total (some rows) = some (
    FilesAnswer.listed
      (record { files = map listed_file rows; count = length rows; total = total }))

-- The order that a command asks for; none for an unknown one
unfoldable pub order_of : Text → Option Order
order_of cmd =
    if text_eq cmd (codes "normal")
    then some Order.unordered
    else if text_eq cmd (codes "pvasc")
    then some Order.ascending
    else if text_eq cmd (codes "pvdesc")
    then some Order.descending
    else none

-- An unknown command is the return value -1.
unfoldable pub order_or_leave : {W : Type 0} → Option Order → Act W (Option FilesAnswer) Order
order_or_leave none = leave none
order_or_leave (some order) = pure order

abbrev pub count_fail : FilesAnswer
count_fail = FilesAnswer.counted (record { code = resp_fail; total = none })

-- A step that may return -1, which the caller answers with an error
unfoldable pub answer_or_fail : {W : Type 0} → Option FilesAnswer → Act W FilesAnswer FilesAnswer
answer_or_fail none = leave count_fail
answer_or_fail (some answer) = pure answer

-- A body that cannot be decoded
unfoldable pub request_or_fail : {W A : Type 0} → Option A → Act W FilesAnswer A
request_or_fail none = leave count_fail
request_or_fail (some request) = pure request

module _ {W : Type 0} (services : Services W) where
  open services use {take_db_conn, take_cache_conn, parse_json, json_int}

  -- The count of MySQL, which is put into Redis; the return value stays that of CacheGetCount.
  unfoldable pub load_user_files_count : Bool → Text → ℤ → Act W (ℤ × ℤ) (ℤ × ℤ)
  load_user_files_count db user_name ret = do
    need db
    loaded ← Counts.db_get_user_files_count_by_username services user_name
    stop_if (is_negative loaded.0) (minus_one, pos loaded.1)
    stored ← Counts.cache_set_count services (file_user_count ++ user_name) (pos loaded.1)
    stop_if (is_negative stored) (minus_one, pos loaded.1)
    pure (ret, pos loaded.1)

  -- getUserFilesCount: the return value and `count`
  unfoldable pub get_user_files_count : Bool → Bool → Text → Act W (ℤ × ℤ) (ℤ × ℤ)
  unfolding load_user_files_count
  get_user_files_count db cache user_name = do
    need cache
    cached ← Counts.cache_get_count services (file_user_count ++ user_name)
    choose (equals cached.1 0) (load_user_files_count db user_name cached.0) (pure cached)

  -- handleUserFilesCount
  unfoldable pub handle_user_files_count : Text → Act W (ℤ × ℤ) (ℤ × ℤ)
  unfolding get_user_files_count
  handle_user_files_count user_name = do
    db ← call take_db_conn
    cache ← call take_cache_conn
    get_user_files_count db cache user_name

  -- decodeFileslistJson
  unfoldable pub decode_fileslist_json :
      Text → Act W (Option PictureListRequest) (Option PictureListRequest)
  decode_fileslist_json str_json = do
    root ← member (parse_json str_json)
    user_name ← member (root (codes "user"))
    token ← member (root (codes "token"))
    start_text ← member (root (codes "start"))
    start ← some_or_crash (json_int str_json (codes "start"))
    count_text ← member (root (codes "count"))
    count ← some_or_crash (json_int str_json (codes "count"))
    pure (some (record { user_name = user_name; token = token; start = start; count = count }))

  -- getUserFileList; none where it returns -1
  unfoldable pub get_user_file_list :
      Text → Text → ℤ → ℤ → Act W (Option FilesAnswer) (Option FilesAnswer)
  unfolding get_user_files_count order_or_leave order_of file_page
  get_user_file_list cmd user_name start count = do
    db ← call take_db_conn
    cache ← call take_cache_conn
    total ← inline (get_user_files_count db cache user_name)
    stop_if (is_negative total.0) none
    stop_if (equals total.1 0) (some FilesAnswer.no_files)
    order ← order_or_leave (order_of cmd)
    need db
    results ← Mysql.execute_query services (Statement.select_user_files order user_name start count)
    pure (file_page total.1 results)

  -- The command `count` of ApiMyfiles
  unfoldable pub run_count_cmd : Text → Act W FilesAnswer FilesAnswer
  unfolding request_or_fail handle_user_files_count encode_count_json
  run_count_cmd post_data = do
    request ← request_or_fail (decode_count_json services post_data)
    verified ← verify_token services request.user_name request.token
    stop_if (not (equals verified 0)) count_fail
    total ← inline (handle_user_files_count request.user_name)
    stop_if (is_negative total.0) count_fail
    pure (FilesAnswer.counted (encode_count_json 0 total.1))

  -- The other commands of ApiMyfiles, an unknown one included: the error that it is answered with
  -- first is written over.
  unfoldable pub run_list_cmd : Text → Text → Act W FilesAnswer FilesAnswer
  unfolding request_or_fail decode_fileslist_json get_user_file_list answer_or_fail
  run_list_cmd cmd post_data = do
    body ← inline (decode_fileslist_json post_data)
    request ← request_or_fail body
    verified ← verify_token services request.user_name request.token
    stop_if (not (equals verified 0)) count_fail
    answer ← inline (get_user_file_list cmd request.user_name request.start request.count)
    answer_or_fail answer

  -- ApiMyfiles
  unfoldable pub api_myfiles : Text → Text → Act W FilesAnswer FilesAnswer
  unfolding read_cmd run_count_cmd run_list_cmd
  api_myfiles url post_data = do
    cmd ← read_cmd services url
    choose (text_eq cmd (codes "count")) (run_count_cmd post_data) (run_list_cmd cmd post_data)
