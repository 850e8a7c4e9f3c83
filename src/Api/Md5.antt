-- ===== src/Api/Md5.antt =====
-- Taking over a stored file by its md5, without an upload (api/api_md5.cc).
pub mod References
pub mod Outcome
use pic_bed.Prelude.{ℕ, ◌+◌, Bool, not, ◌++◌, Text, equals}
use pic_bed.Services.{Services, Statement}
use pic_bed.Act.{Act, ◌>>=◌, ◌>>◌, pure, stop_if, leave, when, ignore, need, call}
use pic_bed.Mysql
use pic_bed.Api.Counts
use pic_bed.Api.Counts.{file_user_count}
use pic_bed.Api.Codes.{resp_ok, resp_fail, resp_file_exist}

module _ {W : Type 0} (services : Services W) where
  open services use {take_db_conn, take_cache_conn, now}

  -- The insert failed: the old reference count is written back, and the handler ends.
  unfoldable pub restore_references : Text → ℕ → Act W ℕ (Unit {0})
  restore_references md5 references = do
    ignore (Mysql.execute_pass_query services (Statement.update_ref_count references md5))
    leave resp_fail

  -- The second half of handleDealMd5: the user's row, and the count of the user's files
  unfoldable pub record_taken : Bool → Text → Text → Text → ℕ → Act W ℕ ℕ
  unfolding restore_references
  record_taken cache user md5 filename references = do
    time_str ← call now
    created ←
        Mysql.execute_create services (Statement.insert_user_file user md5 time_str filename 0 0)
    when (not created) (restore_references md5 references)
    need cache
    ignore (Counts.cache_incr_count services (file_user_count ++ user))
    pure resp_ok

  -- handleDealMd5
  unfoldable pub handle_deal_md5 : Text → Text → Text → Act W ℕ ℕ
  unfolding record_taken
  handle_deal_md5 user md5 filename = do
    db ← call take_db_conn
    cache ← call take_cache_conn
    need db
    answer ← Mysql.get_result_one_count services (Statement.select_ref_count md5) 0
    stop_if (not (equals answer.0 0)) resp_fail
    owned ← Mysql.check_whether_have_record services (Statement.select_user_file user md5 filename)
    stop_if (equals owned 1) resp_file_exist
    counted ← Mysql.execute_pass_query services (Statement.update_ref_count (answer.1 + 1) md5)
    stop_if (not counted) resp_fail
    record_taken cache user md5 filename answer.1
