-- ===== src/Api/DealShareFile.antt =====
-- Cancelling a share, saving a shared file and counting its downloads (api/api_deal_sharefile.cc).
pub mod References
pub mod Counted
pub mod Outcome
pub mod Listed
use pic_bed.Prelude.{
  ℕ, zero, suc, ◌+◌, Bool, true, false, not, ◌++◌, Text, ℤ, pos, negsuc, minus_one, minus_two,
  is_negative, equals,
}
use pic_bed.Services.{Services, Statement}
use pic_bed.Act.{Act, ◌>>=◌, ◌>>◌, pure, stop_if, leave, ignore, choose, need, call, inline}
use pic_bed.Redis
use pic_bed.Mysql
use pic_bed.Api.Counts
use pic_bed.Api.Counts.{file_public_zset, file_name_hash, file_public_count, file_user_count}
use pic_bed.Api.Codes.{resp_ok, resp_fail, resp_file_exist}
use pic_bed.Api.DealFile.{pv_of}

-- `ret == 0` decides the code.
abbrev pub ok_or_fail : ℤ → ℕ
ok_or_fail (pos zero) = resp_ok
ok_or_fail (pos (suc n)) = resp_fail
ok_or_fail (negsuc n) = resp_fail

-- The code for `ret` at the end of handleSaveFile
unfoldable pub save_code : ℤ → ℕ
save_code (pos n) = resp_ok
save_code (negsuc zero) = resp_fail
save_code (negsuc (suc zero)) = resp_file_exist
save_code (negsuc (suc (suc n))) = 0

module _ {W : Type 0} (services : Services W) where
  open services use {take_db_conn, take_cache_conn, now}

  -- Steps 2 to 6 of handlePvFile, in Redis, by the answer of ZsetExit; the code of the response
  unfoldable pub count_in_redis : ℤ → Text → Text → ℕ → Act W ℕ ℕ
  count_in_redis exists file_id filename pv =
      choose (equals exists 1)
        (do ret ← inline (Redis.zset_incr services file_public_zset file_id); pure (ok_or_fail ret))
        (choose (equals exists 0)
          (do
            ignore (inline (Redis.zset_add services file_public_zset (pv + 1) file_id))
            ignore (inline (Redis.hset services file_name_hash file_id filename))
            pure resp_ok)
          (leave resp_fail))

  -- handlePvFile of api_deal_sharefile.cc
  unfoldable pub handle_share_pv_file : Text → Text → Act W ℕ ℕ
  unfolding count_in_redis
  handle_share_pv_file md5 filename = do
    db ← call take_db_conn
    cache ← call take_cache_conn
    need db
    results ← Mysql.execute_query services (Statement.select_share_pv md5 filename)
    pv ← pv_of results
    updated ← Mysql.execute_update services (Statement.update_share_pv (pv + 1) md5 filename) false
    stop_if (not updated) resp_fail
    need cache
    exists ← inline (Redis.zset_exit services file_public_zset (md5 ++ filename))
    count_in_redis exists (md5 ++ filename) filename pv

  -- handleCancelShareFile
  unfoldable pub handle_cancel_share_file : Text → Text → Text → Act W ℕ ℕ
  handle_cancel_share_file user_name md5 filename = do
    db ← call take_db_conn
    cache ← call take_cache_conn
    need db
    marked ←
        Mysql.execute_update services (Statement.update_shared_status 0 user_name md5 filename)
          false
    stop_if (not marked) resp_fail
    need cache
    counted ← Counts.cache_decr_count services file_public_count
    stop_if (is_negative counted) resp_fail
    dropped ← Mysql.execute_drop services (Statement.delete_share_file user_name md5 filename)
    stop_if (not dropped) resp_fail
    removed ← inline (Redis.zset_zrem services file_public_zset (md5 ++ filename))
    stop_if (not (equals removed 0)) resp_fail
    ret ← inline (Redis.hdel services file_name_hash (md5 ++ filename))
    pure (ok_or_fail ret)

  -- The second half of handleSaveFile: the user's row, and the count of the user's files
  unfoldable pub record_saved : Bool → Text → Text → Text → Act W ℤ ℤ
  record_saved cache user_name md5 filename = do
    time_str ← call now
    created ←
        Mysql.execute_create services
          (Statement.insert_user_file user_name md5 time_str filename 0 0)
    stop_if (not created) minus_one
    need cache
    total ← Counts.cache_incr_count services (file_user_count ++ user_name)
    stop_if (is_negative total) minus_one
    pure (pos 0)

  -- handleSaveFile up to its END: 0, -1 or -2
  unfoldable pub save_file : Text → Text → Text → Act W ℤ ℤ
  unfolding record_saved
  save_file user_name md5 filename = do
    db ← call take_db_conn
    cache ← call take_cache_conn
    need db
    owned ←
        Mysql.check_whether_have_record services (Statement.select_user_file user_name md5 filename)
    stop_if (equals owned 1) minus_two
    stop_if (is_negative owned) minus_one
    answer ← Mysql.get_result_one_count services (Statement.select_ref_count md5) 0
    stop_if (not (equals answer.0 0)) minus_one
    counted ← Mysql.execute_update services (Statement.update_ref_count (answer.1 + 1) md5) true
    stop_if (not counted) minus_one
    record_saved cache user_name md5 filename

  -- handleSaveFile
  unfoldable pub handle_save_file : Text → Text → Text → Act W ℕ ℕ
  unfolding save_file save_code
  handle_save_file user_name md5 filename = do
    ret ← inline (save_file user_name md5 filename)
    pure (save_code ret)
