-- ===== src/Api/SharePicture.antt =====
-- Sharing pictures, cancelling, browsing and listing them (api/api_sharepicture.cc).
pub mod Shared
pub mod Cancelled
pub mod Restored
pub mod Listed
pub mod Counted
use pic_bed.Prelude.{
  ℕ, zero, suc, ◌+◌, ◌-◌, not, Bool, true, false, Option, none, some, List, [], ◌∷◌, ◌++◌, map,
  Text, codes, text_eq, ℤ, pos, minus_one, is_negative, equals, ltb, ◌==◌, length,
}
use pic_bed.Services.{Services, Statement, Row, Column}
use pic_bed.Act.{
  Act, ◌>>=◌, ◌>>◌, pure, stop_if, leave, when, choose, ignore, need, some_or_crash, call, inline,
}
use pic_bed.Mysql
use pic_bed.Mysql.{first?}
use pic_bed.Api.Codes.{resp_ok, resp_fail}
use pic_bed.Api.Counts
use pic_bed.Api.Counts.{share_pic_count}
use pic_bed.Api.Json.{
  PictureListRequest, decode_share_picture_json, decode_cancel_picture_json,
  decode_browse_picture_json,
}
use pic_bed.Api.Login.{random_string}
use pic_bed.Api.Query.{read_cmd}

-- encodeSharePictureJson: the members `code` and `urlmd5`
pub record ShareAnswer : Type 0 where
  pub code : ℕ
  pub urlmd5 : Option Text

unfoldable pub encode_share_picture_json : ℕ → Text → ShareAnswer
encode_share_picture_json zero urlmd5 = record { code = 0; urlmd5 = some urlmd5 }
encode_share_picture_json (suc ret) urlmd5 = record { code = suc ret; urlmd5 = none }

-- The members that encodeBrowselPictureJson writes next to the code 0
pub record Browsed : Type 0 where
  pub pv : ℕ
  pub url : Text
  pub user : Text
  pub time : Text

-- One element of `files`
pub record PictureFile : Type 0 where
  pub user : Text
  pub filemd5 : Text
  pub file_name : Text
  pub urlmd5 : Text
  pub pv : ℕ
  pub create_time : Text
  pub size : ℕ

-- What handleGetSharePicturesList writes next to the code 0; `files` is left out where it is empty.
pub record PictureList : Type 0 where
  pub count : ℕ
  pub total : ℤ
  pub files : List PictureFile

-- The JSON that a request is answered with. An error of the list is written to a second `root`, so
-- that the answer is the text `null`.
pub data PictureAnswer : Type 0 where
  shared : ShareAnswer → PictureAnswer
  cancelled : (code : ℕ) → PictureAnswer
  browsed : (code : ℕ) → Option Browsed → PictureAnswer
  listed : PictureList → PictureAnswer
  null : PictureAnswer

abbrev picture_file : Row → PictureFile
picture_file row = record {
  user = row.get_string Column.user;
  filemd5 = row.get_string Column.filemd5;
  file_name = row.get_string Column.file_name;
  urlmd5 = row.get_string Column.urlmd5;
  pv = row.get_int Column.pv;
  create_time = row.get_string Column.create_time;
  size = row.get_int Column.size;
}

-- The answer to the rows of the page
unfoldable pub picture_list : ℤ → Option (List Row) → PictureAnswer
picture_list total none = null
picture_list total (some rows) =
    listed (record { count = length rows; total = total; files = map picture_file rows })

-- `pResultSet && pResultSet->Next()`, with the handler's `ret = -1; goto END` otherwise
unfoldable pub row_or_leave : {W R : Type 0} → R → Option (List Row) → Act W R Row
row_or_leave r none = leave r
row_or_leave r (some []) = leave r
row_or_leave r (some (row ∷ rows)) = pure row

-- Json: a member that must be there, else the decoder returns -1.
unfoldable pub member : {W A B : Type 0} → Option A → Act W (Option B) A
member none = leave none
member (some a) = pure a

-- Whether the rows are there, as GetRowNum counts them: none where the query failed
abbrev pub row_num : Option (List Row) → ℕ
row_num none = 0
row_num (some rows) = length rows

abbrev pub failed : Option (List Row) → Bool
failed none = true
failed (some rows) = false

abbrev share_fail : PictureAnswer
share_fail = shared (record { code = resp_fail; urlmd5 = none })

-- The request of a decoder, or the answer that it is in the wrong format
unfoldable pub decoded_or : {W A : Type 0} → PictureAnswer → Option A → Act W PictureAnswer A
decoded_or answer none = leave answer
decoded_or answer (some request) = pure request

module _ {W : Type 0} (services : Services W) where
  open services use {take_db_conn, take_cache_conn, now, delete_stored_file, parse_json, json_int}

  -- decodePictureListJson
  unfoldable pub decode_picture_list_json :
      Text → Act W (Option PictureListRequest) (Option PictureListRequest)
  unfolding member
  decode_picture_list_json str_json = do
    root ← member (parse_json str_json)
    token ← member (root (codes "token"))
    user_name ← member (root (codes "user"))
    start_text ← member (root (codes "start"))
    start ← some_or_crash (json_int str_json (codes "start"))
    count_text ← member (root (codes "count"))
    count ← some_or_crash (json_int str_json (codes "count"))
    pure (some (record { user_name = user_name; token = token; start = start; count = count }))

  -- The count of MySQL, which is put into Redis
  unfoldable pub load_share_pictures_count : Bool → Text → Act W (ℤ × ℤ) (ℤ × ℤ)
  load_share_pictures_count db user_name = do
    need db
    loaded ← Counts.db_get_share_picture_count_by_username services user_name
    stop_if (is_negative loaded.0) (minus_one, pos loaded.1)
    stored ← Counts.cache_set_count services (share_pic_count ++ user_name) (pos loaded.1)
    stop_if (is_negative stored) (minus_one, pos loaded.1)
    pure (pos 0, pos loaded.1)

  -- getSharePicturesCount: the return value and `count`
  unfoldable pub get_share_pictures_count : Bool → Bool → Text → Act W (ℤ × ℤ) (ℤ × ℤ)
  unfolding load_share_pictures_count
  get_share_pictures_count db cache user_name = do
    need cache
    cached ← Counts.cache_get_count services (share_pic_count ++ user_name)
    choose (equals cached.1 0) (load_share_pictures_count db user_name) (pure cached)

  -- handleGetSharePicturesList
  unfoldable pub handle_get_share_pictures_list : Text → ℤ → ℤ → Act W PictureAnswer PictureAnswer
  unfolding get_share_pictures_count picture_list
  handle_get_share_pictures_list user start count = do
    db ← call take_db_conn
    cache ← call take_cache_conn
    total ← inline (get_share_pictures_count db cache user)
    stop_if (is_negative total.0) null
    stop_if (equals total.1 0) (listed (record { count = 0; total = pos 0; files = [] }))
    need db
    results ← Mysql.execute_query services (Statement.select_share_pictures user start count)
    pure (picture_list total.1 results)

  -- The reference that the share holds is given back; the count that is left
  unfoldable pub release_reference : Text → ℕ → Act W ℕ ℕ
  release_reference filemd5 count = do
    updated ← Mysql.execute_update services (Statement.update_ref_count (count - 1) filemd5) true
    stop_if (not updated) resp_fail
    pure (count - 1)

  -- The file that nobody refers to is deleted.
  unfoldable pub remove_unused : Text → Text → Act W ℕ (Unit {0})
  remove_unused filemd5 fileid = do
    dropped ← Mysql.execute_drop services (Statement.delete_file_info filemd5)
    stop_if (not dropped) resp_fail
    ret2 ← call (delete_stored_file fileid)
    stop_if (not (equals ret2 0)) resp_fail

  -- handleCancelSharePicture
  unfoldable pub handle_cancel_share_picture : Text → Text → Act W ℕ ℕ
  unfolding row_or_leave release_reference remove_unused
  handle_cancel_share_picture user urlmd5 = do
    db ← call take_db_conn
    cache ← call take_cache_conn
    need db
    own ← Mysql.execute_query services (Statement.select_share_picture user urlmd5)
    stop_if (failed own) resp_fail
    stop_if (row_num own == 0) resp_ok
    pictures ← Mysql.execute_query services (Statement.select_picture_md5 urlmd5)
    picture ← row_or_leave resp_fail pictures
    let filemd5 : Text = picture.get_string Column.filemd5
    files ← Mysql.execute_query services (Statement.select_count_and_id filemd5)
    file ← row_or_leave resp_fail files
    let count : ℕ = file.get_int Column.count
    left ← choose (ltb 0 count) (release_reference filemd5 count) (pure count)
    deleted ← Mysql.execute_pass_query services (Statement.delete_share_picture user urlmd5)
    stop_if (not deleted) resp_fail
    when (left == 0) (remove_unused filemd5 (file.get_string Column.file_id))
    need cache
    ignore (Counts.cache_decr_count services (share_pic_count ++ user))
    pure resp_ok

  -- handleSharePicture up to its END, with the code of the response
  unfoldable pub record_picture : Bool → Bool → Text → Text → Text → Text → Act W ℕ ℕ
  record_picture db cache user filemd5 file_name urlmd5 = do
    create_time ← call now
    need db
    created ←
        Mysql.execute_create services
          (Statement.insert_share_picture user filemd5 file_name urlmd5 [] 0 create_time)
    stop_if (not created) resp_fail
    answer ← Mysql.get_result_one_count services (Statement.select_ref_count filemd5) 0
    stop_if (not (equals answer.0 0)) resp_fail
    updated ← Mysql.execute_update services (Statement.update_ref_count (answer.1 + 1) filemd5) true
    stop_if (not updated) resp_fail
    need cache
    ignore (Counts.cache_incr_count services (share_pic_count ++ user))
    pure resp_ok

  -- handleSharePicture
  unfoldable pub handle_share_picture : Text → Text → Text → Act W ShareAnswer ShareAnswer
  unfolding random_string record_picture encode_share_picture_json
  handle_share_picture user filemd5 file_name = do
    db ← call take_db_conn
    cache ← call take_cache_conn
    urlmd5 ← random_string services 32
    code ← inline (record_picture db cache user filemd5 file_name urlmd5)
    pure (encode_share_picture_json code urlmd5)

  -- handleBrowsePicture
  unfoldable pub handle_browse_picture : Text → Act W PictureAnswer PictureAnswer
  unfolding row_or_leave
  handle_browse_picture urlmd5 = do
    db ← call take_db_conn
    cache ← call take_cache_conn
    need db
    pictures ← Mysql.execute_query services (Statement.select_picture urlmd5)
    picture ← row_or_leave (browsed resp_fail none) pictures
    urls ← Mysql.execute_query services (Statement.select_url (picture.get_string Column.filemd5))
    file ← row_or_leave (browsed resp_fail none) urls
    let pv : ℕ = picture.get_int Column.pv + 1
    updated ← Mysql.execute_update services (Statement.update_picture_pv pv urlmd5) true
    stop_if (not updated) (browsed resp_fail none)
    pure (
        browsed resp_ok (
          some (record {
            pv = pv;
            url = file.get_string Column.url;
            user = picture.get_string Column.user;
            time = picture.get_string Column.create_time;
          })))

  -- The command of ApiSharepicture
  unfoldable pub run_picture_cmd : Text → Text → Act W PictureAnswer PictureAnswer
  unfolding decoded_or decode_picture_list_json
  run_picture_cmd cmd post_data =
      choose (text_eq cmd (codes "share"))
        (do
          request ← decoded_or share_fail (decode_share_picture_json services post_data)
          answer ← inline (handle_share_picture request.user_name request.md5 request.filename)
          pure (shared answer))
        (choose (text_eq cmd (codes "normal"))
          (do
            body ← inline (decode_picture_list_json post_data)
            request ← decoded_or share_fail body
            inline (handle_get_share_pictures_list request.user_name request.start request.count))
          (choose (text_eq cmd (codes "cancel"))
            (do
              request ←
                  decoded_or (cancelled resp_fail) (decode_cancel_picture_json services post_data)
              code ← inline (handle_cancel_share_picture request.user_name request.urlmd5)
              pure (cancelled code))
            (choose (text_eq cmd (codes "browse"))
              (do
                urlmd5 ← decoded_or share_fail (decode_browse_picture_json services post_data)
                inline (handle_browse_picture urlmd5))
              (pure share_fail))))

  -- ApiSharepicture
  unfoldable pub api_sharepicture : Text → Text → Act W PictureAnswer PictureAnswer
  unfolding read_cmd run_picture_cmd
  api_sharepicture url post_data = do cmd ← read_cmd services url; run_picture_cmd cmd post_data
