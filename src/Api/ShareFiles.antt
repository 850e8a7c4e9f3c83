-- ===== src/Api/ShareFiles.antt =====
-- The number, the pages and the ranking of the shared files (api/api_sharefiles.cc).
pub mod Imported
use pic_bed.Prelude.{
  ℕ, not, Bool, Option, none, some, List, [], ◌∷◌, ◌++◌, map, Text, codes, text_eq, ℤ, pos,
  minus_one, is_negative, equals, length, ◌+ℤ◌, negate, ltb,
}
use pic_bed.Services.{Services, Statement, Row, Column}
use pic_bed.Act.{
  Act, ◌>>=◌, ◌>>◌, pure, stop_if, leave, when, choose, ignore, need, some_or_crash, call, inline,
}
use pic_bed.Redis
use pic_bed.Mysql
use pic_bed.Api.Codes.{resp_fail}
use pic_bed.Api.Counts
use pic_bed.Api.Counts.{file_public_count, file_public_zset, file_name_hash}
use pic_bed.Api.Query.{read_cmd}
use pic_bed.Api.MyFiles.{CountAnswer, ListedFile, FileList, encode_count_json}
use pic_bed.Api.SharePicture.{member}

-- One element of the ranking
pub record RankedFile : Type 0 where
  pub filename : Text
  pub pv : ℤ

-- The members of the ranking, next to the code 0; `files` is left out where it is empty.
pub record Ranking : Type 0 where
  pub files : List RankedFile
  pub total : ℤ
  pub count : ℕ

-- The JSON of a response; `failed` has the code 1 alone.
pub data ShareFilesAnswer : Type 0 where
  counted : CountAnswer → ShareFilesAnswer
  listed : FileList → ShareFilesAnswer
  ranked : Ranking → ShareFilesAnswer
  failed : ShareFilesAnswer

abbrev shared_file : Row → ListedFile
shared_file row = record {
  user = row.get_string Column.user;
  md5 = row.get_string Column.md5;
  create_time = row.get_string Column.create_time;
  file_name = row.get_string Column.file_name;
  share_status = row.get_int Column.share_status;
  pv = row.get_int Column.pv;
  url = row.get_string Column.url;
  size = row.get_int Column.size;
  suffix = row.get_string Column.type;
}

-- The page, from its rows
unfoldable pub shared_page : ℤ → Option (List Row) → ShareFilesAnswer
shared_page total none = ShareFilesAnswer.failed
shared_page total (some rows) =
    ShareFilesAnswer.listed
      (record { files = map shared_file rows; count = length rows; total = total })

-- `ret == -1` of an int that is not checked for other values
abbrev pub is_minus_one : ℤ → Bool
is_minus_one n = equals (n +ℤ pos 1) 0

abbrev pub same_number : ℤ → ℤ → Bool
same_number m n = equals (m +ℤ negate n) 0

-- A step that returns -1 ends the ranking.
unfoldable pub value_or_fail : {W A : Type 0} → Option A → Act W ShareFilesAnswer A
value_or_fail none = leave ShareFilesAnswer.failed
value_or_fail (some a) = pure a

-- The request of a decoder
unfoldable pub range_or_fail : {W : Type 0} → Option (ℤ × ℤ) → Act W ShareFilesAnswer (ℤ × ℤ)
unfolding encode_count_json
range_or_fail none = leave (ShareFilesAnswer.counted (encode_count_json resp_fail (pos 0)))
range_or_fail (some range) = pure range

module _ {W : Type 0} (services : Services W) where
  open services use {take_db_conn, take_cache_conn, parse_json, json_int}

  -- The count of MySQL, which is put into Redis
  unfoldable pub load_share_files_count : Bool → Act W (ℤ × ℤ) (ℤ × ℤ)
  load_share_files_count db = do
    need db
    loaded ← Counts.db_get_share_files_count services
    stop_if (is_negative loaded.0) (minus_one, pos loaded.1)
    stored ← Counts.cache_set_count services file_public_count (pos loaded.1)
    stop_if (is_negative stored) (minus_one, pos loaded.1)
    pure (pos 0, pos loaded.1)

  -- getShareFilesCount: the return value and `count`
  unfoldable pub get_share_files_count : Bool → Bool → Act W (ℤ × ℤ) (ℤ × ℤ)
  unfolding load_share_files_count
  get_share_files_count db cache = do
    need cache
    cached ← Counts.cache_get_count services file_public_count
    choose (equals cached.1 0) (load_share_files_count db) (pure cached)

  -- handleGetSharefilesCount
  unfoldable pub handle_get_sharefiles_count : Act W (ℤ × ℤ) (ℤ × ℤ)
  unfolding get_share_files_count
  handle_get_sharefiles_count = do
    db ← call take_db_conn
    cache ← call take_cache_conn
    get_share_files_count db cache

  -- decodeShareFileslistJson: `start` and `count`
  unfoldable pub decode_share_fileslist_json : Text → Act W (Option (ℤ × ℤ)) (Option (ℤ × ℤ))
  decode_share_fileslist_json str_json = do
    root ← member (parse_json str_json)
    start_text ← member (root (codes "start"))
    start ← some_or_crash (json_int str_json (codes "start"))
    count_text ← member (root (codes "count"))
    count ← some_or_crash (json_int str_json (codes "count"))
    pure (some (start, count))

  -- handleGetShareFilelist
  unfoldable pub handle_get_share_filelist : ℤ → ℤ → Act W ShareFilesAnswer ShareFilesAnswer
  unfolding get_share_files_count shared_page
  handle_get_share_filelist start count = do
    db ← call take_db_conn
    cache ← call take_cache_conn
    total ← inline (get_share_files_count db cache)
    stop_if (is_negative total.0) ShareFilesAnswer.failed
    stop_if (equals total.1 0)
        (ShareFilesAnswer.listed (record { files = []; count = 0; total = pos 0 }))
    need db
    results ← Mysql.execute_query services (Statement.select_share_files start count)
    pure (shared_page total.1 results)

  -- The loop that puts the rows of MySQL into the sorted set and the hash
  unfoldable pub import_rows : {R : Type 0} → List Row → Act W R (Unit {0})
  import_rows [] = pure tt
  import_rows (row ∷ rows) = do
    let field : Text = row.get_string Column.md5 ++ row.get_string Column.file_name
    need (ltb (length field) 1024)
    ignore (inline (Redis.zset_add services file_public_zset (row.get_int Column.pv) field))
    ignore (inline (Redis.hset services file_name_hash field (row.get_string Column.file_name)))
    import_rows rows

  -- Redis is emptied, and filled from MySQL.
  unfoldable pub reload_ranking : Bool → Act W ShareFilesAnswer (Unit {0})
  unfolding value_or_fail import_rows
  reload_ranking db = do
    ignore (inline (Redis.del services file_public_zset))
    ignore (inline (Redis.del services file_name_hash))
    need db
    results ← Mysql.execute_query services Statement.select_ranking
    rows ← value_or_fail results
    import_rows rows

  -- The loop over the members that were fetched
  unfoldable pub ranked_files : List Text → Act W ShareFilesAnswer (List RankedFile)
  unfolding value_or_fail
  ranked_files [] = pure []
  ranked_files (value ∷ values) = do
    found ← inline (Redis.hget_value services file_name_hash value)
    filename ← value_or_fail found
    score ← inline (Redis.zset_get_score services file_public_zset value)
    stop_if (is_minus_one score) ShareFilesAnswer.failed
    rest ← ranked_files values
    pure (record { filename = filename; pv = score } ∷ rest)

  -- handleGetRankingFilelist
  unfoldable pub handle_get_ranking_filelist : ℤ → ℤ → Act W ShareFilesAnswer ShareFilesAnswer
  unfolding get_share_files_count reload_ranking ranked_files value_or_fail
  handle_get_ranking_filelist start count = do
    db ← call take_db_conn
    cache ← call take_cache_conn
    total ← inline (get_share_files_count db cache)
    stop_if (not (equals total.0 0)) ShareFilesAnswer.failed
    redis_num ← inline (Redis.zset_zcard services file_public_zset)
    stop_if (is_minus_one redis_num) ShareFilesAnswer.failed
    when (not (same_number redis_num total.1)) (reload_ranking db)
    stop_if (is_negative count) ShareFilesAnswer.failed
    fetched ←
        inline (Redis.zset_zrevrange services file_public_zset start (start +ℤ count +ℤ minus_one))
    values ← value_or_fail fetched
    files ← ranked_files values
    pure (ShareFilesAnswer.ranked (record { files = files; total = total.1; count = length files }))

  -- ApiSharefiles
  unfoldable pub api_sharefiles : Text → Text → Act W ShareFilesAnswer ShareFilesAnswer
  unfolding read_cmd handle_get_sharefiles_count encode_count_json range_or_fail
      decode_share_fileslist_json handle_get_share_filelist handle_get_ranking_filelist
  api_sharefiles url post_data = do
    cmd ← read_cmd services url
    choose (text_eq cmd (codes "count"))
        (do
          total ← inline handle_get_sharefiles_count
          stop_if (is_negative total.0)
              (ShareFilesAnswer.counted (encode_count_json resp_fail (pos 0)))
          pure (ShareFilesAnswer.counted (encode_count_json 0 total.1)))
        (do
          body ← inline (decode_share_fileslist_json post_data)
          range ← range_or_fail body
          choose (text_eq cmd (codes "normal")) (inline (handle_get_share_filelist range.0 range.1))
              (choose (text_eq cmd (codes "pvdesc"))
                (inline (handle_get_ranking_filelist range.0 range.1))
                (pure (ShareFilesAnswer.counted (encode_count_json resp_fail (pos 0))))))
