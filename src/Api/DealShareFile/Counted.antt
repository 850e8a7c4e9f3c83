-- ===== src/Api/DealShareFile/Counted.antt =====
-- Cancelling a share and counting its downloads keep the reference counts (handleCancelShareFile and
-- handlePvFile, api/api_deal_sharefile.cc).
use pic_bed.Prelude.{ℕ, Text, ℤ}
use pic_bed.Services.{Services}
use pic_bed.Sql.{Tables, IsSql}
use pic_bed.Sql.Keeps.{Keeps, keeps_rules, call-Keeps}
use pic_bed.Sql.Maintains.{
  Maintains, maintains_rules, drop-Maintains, update-Maintains, execute_query-Keeps,
}
use pic_bed.Sql.RedisKeeps.{
  zset_exit-Keeps, zset_add-Keeps, zset_incr-Keeps, zset_zrem-Keeps, hset-Keeps, hdel-Keeps,
  cache_decr_count-Keeps,
}
use pic_bed.Sql.References.{IsCounted}
use pic_bed.Sql.Steps.{status-IsCounted, delete_share_file-IsCounted, update_share_pv-IsCounted}
use pic_bed.Api.DealFile.Counted.{pv_of-Keeps}
use pic_bed.Api.DealShareFile.{count_in_redis, handle_share_pv_file, handle_cancel_share_file}

module _ {W : Type 0} {services : Services W} {view : W → Tables} (sql : IsSql services view) where
  count_in_redis-Keeps :
      (exists : ℤ) (id f : Text) (pv : ℕ) → Keeps view (count_in_redis services exists id f pv)
  unfolding count_in_redis
  count_in_redis-Keeps exists id f pv =
      search (keeps_rules, zset_add-Keeps sql, zset_incr-Keeps sql, hset-Keeps sql) depth 40 fits
        4000

  pub handle_share_pv_file-Maintains :
      (m f : Text) → Maintains view IsCounted (handle_share_pv_file services m f)
  unfolding handle_share_pv_file
  handle_share_pv_file-Maintains m f =
      search
        (
          maintains_rules,
          call-Keeps view services.take_db_conn sql.take_db_conn_keeps,
          call-Keeps view services.take_cache_conn sql.take_cache_conn_keeps,
          execute_query-Keeps sql,
          pv_of-Keeps,
          zset_exit-Keeps sql,
          count_in_redis-Keeps,
          update-Maintains sql,
          update_share_pv-IsCounted,
        )
        depth 40 fits 4000

  pub handle_cancel_share_file-Maintains :
      (u m f : Text) → Maintains view IsCounted (handle_cancel_share_file services u m f)
  unfolding handle_cancel_share_file
  handle_cancel_share_file-Maintains u m f =
      search
        (
          maintains_rules,
          call-Keeps view services.take_db_conn sql.take_db_conn_keeps,
          call-Keeps view services.take_cache_conn sql.take_cache_conn_keeps,
          cache_decr_count-Keeps sql,
          update-Maintains sql,
          status-IsCounted,
          drop-Maintains sql,
          delete_share_file-IsCounted,
          zset_zrem-Keeps sql,
          hdel-Keeps sql,
        )
        depth 40 fits 4000
