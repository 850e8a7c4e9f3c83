-- ===== src/Api/DealFile/Counted.antt =====
-- Sharing and counting downloads keep the reference counts (handleShareFile and handlePvFile,
-- api/api_dealfile.cc).
use pic_bed.Prelude.{Bool, Option, none, some, List, [], ◌∷◌, Text}
use pic_bed.Services.{Services, Row}
use pic_bed.Services.Statement.{}
use pic_bed.Sql.{Tables, IsSql}
use pic_bed.Sql.Keeps.{Keeps, keeps_rules, call-Keeps}
use pic_bed.Sql.Maintains.{
  Maintains, maintains_rules, create-Maintains, update-Maintains, execute_query-Keeps,
  check_whether_have_record-Keeps,
}
use pic_bed.Sql.RedisKeeps.{zset_exit-Keeps, zset_add-Keeps, hset-Keeps, cache_incr_count-Keeps}
use pic_bed.Sql.References.{IsCounted}
use pic_bed.Sql.Steps.{status-IsCounted, insert_share_file-IsCounted, update_user_pv-IsCounted}
use pic_bed.Api.DealFile.{
  pv_of, restore_share, record_share, publish_share, handle_share_file, handle_pv_file,
}

pub pv_of-Keeps : {W : Type 0} (view : W → Tables) (o : Option (List Row)) → Keeps view (pv_of o)
unfolding pv_of
pv_of-Keeps view none = search keeps_rules
pv_of-Keeps view (some []) = search keeps_rules
pv_of-Keeps view (some (row ∷ rows)) = search keeps_rules

module _ {W : Type 0} {services : Services W} {view : W → Tables} (sql : IsSql services view) where
  restore_share-Keeps :
      (cache : Bool) (id f : Text) → Keeps view (restore_share services cache id f)
  unfolding restore_share
  restore_share-Keeps cache id f =
      search (keeps_rules, zset_add-Keeps sql, hset-Keeps sql) depth 40 fits 4000

  publish_share-Keeps :
      (cache : Bool) (id f : Text) → Keeps view (publish_share services cache id f)
  unfolding publish_share
  publish_share-Keeps cache id f =
      search (keeps_rules, zset_add-Keeps sql, hset-Keeps sql, cache_incr_count-Keeps sql) depth 40
        fits 4000

  record_share-Maintains : (u m f : Text) → Maintains view IsCounted (record_share services u m f)
  unfolding record_share
  record_share-Maintains u m f =
      search
        (
          maintains_rules,
          update-Maintains sql,
          status-IsCounted,
          create-Maintains sql,
          insert_share_file-IsCounted,
          call-Keeps view services.now sql.now_keeps,
        )
        depth 40 fits 4000

  pub handle_share_file-Maintains :
      (u m f : Text) → Maintains view IsCounted (handle_share_file services u m f)
  unfolding handle_share_file
  handle_share_file-Maintains u m f =
      search
        (
          maintains_rules,
          call-Keeps view services.take_db_conn sql.take_db_conn_keeps,
          call-Keeps view services.take_cache_conn sql.take_cache_conn_keeps,
          zset_exit-Keeps sql,
          check_whether_have_record-Keeps sql,
          restore_share-Keeps,
          record_share-Maintains,
          publish_share-Keeps,
        )
        depth 40 fits 4000

  pub handle_pv_file-Maintains :
      (u m f : Text) → Maintains view IsCounted (handle_pv_file services u m f)
  unfolding handle_pv_file
  handle_pv_file-Maintains u m f =
      search
        (
          maintains_rules,
          call-Keeps view services.take_db_conn sql.take_db_conn_keeps,
          execute_query-Keeps sql,
          pv_of-Keeps,
          update-Maintains sql,
          update_user_pv-IsCounted,
        )
        depth 40 fits 4000
