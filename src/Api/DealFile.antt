-- ===== src/Api/DealFile.antt =====
-- Sharing, deleting and counting downloads of a user's own file (api/api_dealfile.cc). A handler
-- ends with the code of its response.
pub mod References
pub mod Counted
pub mod Delete
pub mod Share
use pic_bed.Prelude.{
  ℕ, ◌+◌, ◌-◌, Bool, true, false, not, ◌&&◌, Option, none, some, List, [], ◌∷◌, ◌++◌, Text, pos,
  is_negative, equals, ◌==◌, ltb, if◌then◌else◌,
}
use pic_bed.Services.{Services, Statement, Row, Column}
use pic_bed.Act.{Act, ◌>>=◌, ◌>>◌, pure, stop_if, leave, when, ignore, choose, need, call, inline}
use pic_bed.Redis
use pic_bed.Mysql
use pic_bed.Mysql.{first_row}
use pic_bed.Api.Counts
use pic_bed.Api.Counts.{file_public_zset, file_name_hash, file_public_count, file_user_count}
use pic_bed.Api.Codes.{resp_ok, resp_fail, resp_dealfile_exist}

-- `fileid`, empty where no row came back.
abbrev file_id_of : Option Row → Text
file_id_of none = []
file_id_of (some row) = row.get_string Column.file_id

-- The download count in the first row; without one the handler ends.
unfoldable pub pv_of : {W : Type 0} → Option (List Row) → Act W ℕ ℕ
pv_of none = leave resp_fail
pv_of (some []) = leave resp_fail
pv_of (some (row ∷ rows)) = pure (row.get_int Column.pv)

module _ {W : Type 0} (services : Services W) where
  open services use {take_db_conn, take_cache_conn, now, delete_stored_file}

  -- The file that MySQL has as shared is put back into Redis; then the handler ends.
  unfoldable pub restore_share : Bool → Text → Text → Act W ℕ (Unit {0})
  restore_share cache file_id filename = do
    need cache
    ignore (inline (Redis.zset_add services file_public_zset 0 file_id))
    ignore (inline (Redis.hset services file_name_hash file_id filename))
    leave resp_dealfile_exist

  -- Step 4 of handleShareFile, in MySQL
  unfoldable pub record_share : Text → Text → Text → Act W ℕ (Unit {0})
  record_share user md5 filename = do
    marked ←
        Mysql.execute_update services (Statement.update_shared_status 1 user md5 filename) false
    stop_if (not marked) resp_fail
    create_time ← call now
    created ←
        Mysql.execute_create services (Statement.insert_share_file user md5 create_time filename 0)
    stop_if (not created) resp_fail

  -- Steps 5 and 6 of handleShareFile, in Redis
  unfoldable pub publish_share : Bool → Text → Text → Act W ℕ (Unit {0})
  publish_share cache file_id filename = do
    need cache
    counted ← Counts.cache_incr_count services file_public_count
    stop_if (is_negative counted) resp_fail
    ignore (inline (Redis.zset_add services file_public_zset 0 file_id))
    ignore (inline (Redis.hset services file_name_hash file_id filename))

  -- handleShareFile
  unfoldable pub handle_share_file : Text → Text → Text → Act W ℕ ℕ
  unfolding restore_share record_share publish_share
  handle_share_file user md5 filename = do
    db ← call take_db_conn
    cache ← call take_cache_conn
    shared ←
        choose cache (inline (Redis.zset_exit services file_public_zset (md5 ++ filename)))
          (pure (pos 0))
    stop_if (equals shared 1) resp_dealfile_exist
    stop_if (not (equals shared 0)) resp_fail
    need db
    recorded ← Mysql.check_whether_have_record services (Statement.select_share_file md5 filename)
    when (equals recorded 1) (restore_share cache (md5 ++ filename) filename)
    record_share user md5 filename
    publish_share cache (md5 ++ filename) filename
    pure resp_ok

  -- Whether the file counts as shared (`is_shared`), where Redis does not list it
  unfoldable pub status_in_mysql : Bool → Text → Text → Text → Act W ℕ ℕ
  status_in_mysql db user md5 filename = do
    need db
    answer ←
        Mysql.get_result_one_status services (Statement.select_shared_status user md5 filename) 0
    pure (if equals answer.0 0 then answer.1 else 0)

  -- Steps 3 and 4 of handleDeleteFile: the share is taken back
  unfoldable pub unshare_file : Bool → Bool → Text → Text → Text → Act W ℕ (Unit {0})
  unshare_file db redis_has_record user md5 filename = do
    need db
    dropped ← Mysql.execute_drop services (Statement.delete_share_file user md5 filename)
    stop_if (not dropped) resp_fail
    counted ← Counts.cache_decr_count services file_public_count
    stop_if (is_negative counted) resp_fail
    when redis_has_record (do
      ignore (inline (Redis.zset_zrem services file_public_zset (md5 ++ filename)))
      ignore (inline (Redis.hdel services file_name_hash (md5 ++ filename))))

  -- The last reference is gone: the row of file_info and the stored file are deleted.
  unfoldable pub remove_stored_file : Text → Act W ℕ (Unit {0})
  remove_stored_file md5 = do
    results ← Mysql.execute_query services (Statement.select_file_id md5)
    row ← first_row results
    ignore (Mysql.execute_drop services (Statement.delete_file_info md5))
    status ← call (delete_stored_file (file_id_of row))
    stop_if (not (equals status 0)) resp_fail

  -- `count -= 1` in file_info, where the count is positive; the count that is left
  unfoldable pub decrement_references : Text → ℕ → Act W ℕ ℕ
  decrement_references md5 references = do
    updated ← Mysql.execute_update services (Statement.update_ref_count (references - 1) md5) true
    stop_if (not updated) resp_fail
    pure (references - 1)

  -- The reference count of file_info goes down by one.
  unfoldable pub drop_reference : Text → Act W ℕ (Unit {0})
  unfolding remove_stored_file decrement_references
  drop_reference md5 = do
    answer ← Mysql.get_result_one_count services (Statement.select_ref_count md5) 0
    stop_if (not (equals answer.0 0)) resp_fail
    left ← choose (ltb 0 answer.1) (decrement_references md5 answer.1) (pure answer.1)
    when (left == 0) (remove_stored_file md5)

  -- handleDeleteFile
  unfoldable pub handle_delete_file : Text → Text → Text → Act W ℕ ℕ
  unfolding status_in_mysql unshare_file drop_reference
  handle_delete_file user md5 filename = do
    db ← call take_db_conn
    cache ← call take_cache_conn
    need cache
    exists ← inline (Redis.zset_exit services file_public_zset (md5 ++ filename))
    stop_if (not (equals exists 1) && not (equals exists 0)) resp_fail
    is_shared ← choose (equals exists 1) (pure 1) (status_in_mysql db user md5 filename)
    when (is_shared == 1) (unshare_file db (equals exists 1) user md5 filename)
    counted ← Counts.cache_decr_count services (file_user_count ++ user)
    stop_if (is_negative counted) resp_fail
    need db
    dropped ← Mysql.execute_drop services (Statement.delete_user_file user md5 filename)
    stop_if (not dropped) resp_fail
    drop_reference md5
    pure resp_ok

  -- handlePvFile of api_dealfile.cc
  unfoldable pub handle_pv_file : Text → Text → Text → Act W ℕ ℕ
  handle_pv_file user md5 filename = do
    db ← call take_db_conn
    need db
    results ← Mysql.execute_query services (Statement.select_user_pv user md5 filename)
    pv ← pv_of results
    updated ←
        Mysql.execute_update services (Statement.update_user_pv (pv + 1) user md5 filename) true
    stop_if (not updated) resp_fail
    pure resp_ok
