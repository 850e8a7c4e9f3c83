-- ===== src/Api/Upload.antt =====
-- Uploading a file (api/api_upload.cc): nginx has stored the body in a temporary file, and sends a
-- multipart body that names it.
pub mod Body
pub mod Tools
pub mod Stored
pub mod Counted
use pic_bed.Prelude.{
  ℕ, ◌-◌, Bool, not, Option, none, some, [], ◌∷◌, ◌++◌, Text, codes, text_eq, strstr, take, drop,
  length, ltb, leb, ℤ, pos, minus_one, is_negative, atoi,
}
use pic_bed.Services.{Services, Statement}
use pic_bed.Act.{Act, ◌>>=◌, ◌>>◌, pure, stop_if, leave, ignore, need, some_or_crash, call, inline}
use pic_bed.Mysql
use pic_bed.Api.Codes.{resp_ok, resp_fail}
use pic_bed.Api.Counts
use pic_bed.Api.Suffix.{get_file_suffix, trim_space}

-- What ApiUploadInit stores and this file uses. The path of the FastDFS client's configuration is
-- the same for each tool, and part of the service.
pub record UploadConfig : Type 0 where
  pub storage_web_server_ip : Text
  pub storage_web_server_port : Text

abbrev crlf : Text
crlf = 13 ∷ 10 ∷ []

-- A field that is searched for: without it the upload fails.
unfoldable pub found : {W : Type 0} → Option Text → Act W ℕ Text
found none = leave resp_fail
found (some p) = pure p

-- The value two line ends below `from`, and the text from its end on. A line end that is missing is
-- a NULL pointer that is used, and a value of `size` bytes or more leaves its array.
unfoldable pub value_below : {W : Type 0} → Text → ℕ → Act W ℕ (Text × Text)
value_below from size = do
  line ← some_or_crash (strstr crlf from)
  need (leb 4 (length line))
  rest ← some_or_crash (strstr crlf (drop 4 line))
  need (ltb (length (drop 4 line) - length rest) size)
  pure (take (length (drop 4 line) - length rest) (drop 4 line), rest)

-- The field after `rest`, which starts with the line end of the last one.
unfoldable pub read_field : {W : Type 0} → Text → Text → ℕ → Act W ℕ (Text × Text)
unfolding found value_below
read_field name rest size = do
  field ← found (strstr (codes "name=\"" ++ name ++ codes "\"") (drop 2 rest))
  value_below field size

-- What the body says.
pub record UploadRequest : Type 0 where
  pub file_name : Text
  pub file_path : Text
  pub file_md5 : Text
  pub file_size : ℤ
  pub user : Text

-- The first half of ApiUpload. The line of file_name is searched from behind the boundary.
unfoldable pub read_request : {W : Type 0} → Text → Act W ℕ UploadRequest
unfolding read_field
read_request post_data = do
  first_line ← found (strstr crlf post_data)
  need (ltb (length post_data - length first_line) 512)
  ignore (found (strstr (codes "name=\"file_name\"") (drop 2 first_line)))
  file_name ← value_below (drop 2 first_line) 128
  file_content_type ← read_field (codes "file_content_type") file_name.1 128
  file_path ← read_field (codes "file_path") file_content_type.1 128
  file_md5 ← read_field (codes "file_md5") file_path.1 128
  file_size ← read_field (codes "file_size") file_md5.1 32
  user ← read_field (codes "user") file_size.1 32
  pure (record {
    file_name = file_name.0;
    file_path = file_path.0;
    file_md5 = file_md5.0;
    file_size = atoi file_size.0;
    user = user.0;
  })

module _ {W : Type 0} (services : Services W) where
  open services use {take_db_conn, take_cache_conn, now, run_tool, rename, unlink}

  -- What uploadFileToFastDfs makes of the tool's output.
  unfoldable pub uploaded : Option Text → Act W (ℤ × Text) (ℤ × Text)
  uploaded none = pure (minus_one, [])
  uploaded (some text) = do
    need (ltb (length text) 512)
    stop_if (text_eq (trim_space text) []) (minus_one, [])
    pure (pos 0, trim_space text)

  -- uploadFileToFastDfs: the return value and `fileid`
  unfoldable pub upload_file_to_fast_dfs : Text → Act W (ℤ × Text) (ℤ × Text)
  unfolding uploaded
  upload_file_to_fast_dfs file_path = do
    output ← call (run_tool (codes "fdfs_upload_file") file_path)
    uploaded output

  -- The address in what fdfs_file_info prints, which is only logged: without it, or where it is
  -- longer than its array, the read goes wrong.
  unfoldable pub read_host : {R : Type 0} → Text → Act W R Text
  read_host text = do
    address ← some_or_crash (strstr (codes "source ip address: ") text)
    line_end ← some_or_crash (strstr (10 ∷ []) (drop 19 address))
    need (ltb (length (drop 19 address) - length line_end) 30)
    pure (take (length (drop 19 address) - length line_end) (drop 19 address))

  -- What getFullurlByFileid makes of the tool's output; the URL does not depend on it.
  unfoldable pub full_url : Text → Option Text → Act W (ℤ × Text) (ℤ × Text)
  unfolding read_host
  full_url url none = pure (minus_one, [])
  full_url url (some text) = do
    need (ltb (length text) 512)
    ignore (read_host text)
    need (ltb (length url) 512)
    pure (pos 0, url)

  -- getFullurlByFileid: the return value and `fdfs_file_url`
  unfoldable pub get_fullurl_by_fileid : UploadConfig → Text → Act W (ℤ × Text) (ℤ × Text)
  unfolding full_url
  get_fullurl_by_fileid config fileid = do
    output ← call (run_tool (codes "fdfs_file_info") fileid)
    full_url
        (codes "http://"
          ++ config.storage_web_server_ip
          ++ codes ":"
          ++ config.storage_web_server_port
          ++ codes "/"
          ++ fileid)
        output

  -- storeFileinfo; the count of the user's files that it means to raise is under another key
  unfoldable pub store_fileinfo : Bool → Bool → UploadRequest → Text → Text → Act W ℤ ℤ
  store_fileinfo db cache r fileid fdfs_file_url = do
    need (ltb (length (get_file_suffix r.file_name)) 8)
    need db
    stored ← Mysql.execute_create services (
        Statement.insert_file_info r.file_md5 fileid fdfs_file_url r.file_size
          (get_file_suffix r.file_name) 1)
    stop_if (not stored) minus_one
    create_time ← call now
    owned ←
        Mysql.execute_create services
          (Statement.insert_user_file r.user r.file_md5 create_time r.file_name 0 0)
    stop_if (not owned) minus_one
    need cache
    ignore (Counts.cache_incr_count services r.user)
    pure (pos 0)

  -- ApiUpload: the code of the JSON that it writes
  unfoldable pub api_upload : UploadConfig → Text → Act W ℕ ℕ
  unfolding read_request upload_file_to_fast_dfs get_fullurl_by_fileid store_fileinfo
  api_upload config post_data = do
    db ← call take_db_conn
    cache ← call take_cache_conn
    r ← read_request post_data
    need (ltb (length (get_file_suffix r.file_name)) 8)
    need (ltb (length (r.file_path ++ b'.' ∷ get_file_suffix r.file_name)) 128)
    renamed ← call (rename r.file_path (r.file_path ++ b'.' ∷ get_file_suffix r.file_name))
    stop_if (is_negative renamed) resp_fail
    file ← inline (upload_file_to_fast_dfs (r.file_path ++ b'.' ∷ get_file_suffix r.file_name))
    stop_if (is_negative file.0) resp_fail
    ignore (call (unlink (r.file_path ++ b'.' ∷ get_file_suffix r.file_name)))
    url ← inline (get_fullurl_by_fileid config file.1)
    stop_if (is_negative url.0) resp_fail
    stored ← inline (store_fileinfo db cache r file.1 url.1)
    stop_if (is_negative stored) resp_fail
    pure resp_ok
