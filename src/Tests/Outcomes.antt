-- ===== src/Tests/Outcomes.antt =====
-- The outcomes at the sample: bob saves alice's file and takes it over, alice shares and deletes it.
use pic_bed.Prelude.{◌-◌, ◌≡◌, refl, count_if}
use pic_bed.Act.{running}
use pic_bed.Triple.{result}
use pic_bed.Mysql
use pic_bed.Redis
use pic_bed.Api.Counts
use pic_bed.Sql.{apply, owned_by}
use pic_bed.Sql.References.{total}
use pic_bed.Sql.Rules.{ref_count}
use pic_bed.Sql.Outcomes.{Outcome}
use pic_bed.Api.DealShareFile.{handle_save_file}
use pic_bed.Api.DealShareFile.Outcome.{handle_save_file-Outcome}
use pic_bed.Api.Md5.{handle_deal_md5}
use pic_bed.Api.Md5.Outcome.{handle_deal_md5-Outcome}
use pic_bed.Api.DealFile.{
  handle_share_file, handle_delete_file, status_in_mysql, unshare_file, drop_reference,
  decrement_references, remove_stored_file,
}
use pic_bed.Api.DealFile.Share.{Sharing, handle_share_file-Sharing}
use pic_bed.Api.DealFile.Delete.{Deleted, handle_delete_file-Deleted}
use pic_bed.Tests.Server.{server, view, server-IsSql}
use pic_bed.Tests.Sample.{alice, bob, md5, name, with_info, tables, world}

handle_save_file-Outcome_example :
    Outcome bob md5 name
      (count_if (owned_by bob md5 name) (view world).user_file_list ≡ 0)
      (view world)
      (result (handle_save_file server bob md5 name world))
      (view (handle_save_file server bob md5 name world).1)
handle_save_file-Outcome_example =
    handle_save_file-Outcome server-IsSql bob md5 name (view world) world refl

handle_deal_md5-Outcome_example :
    Outcome bob md5 name Unit
      (view world)
      (result (handle_deal_md5 server bob md5 name world))
      (view (handle_deal_md5 server bob md5 name world).1)
handle_deal_md5-Outcome_example =
    handle_deal_md5-Outcome server-IsSql bob md5 name (view world) world refl

handle_share_file-Sharing_example :
    Sharing alice md5 name
      (view world)
      (result (handle_share_file server alice md5 name world))
      (view (handle_share_file server alice md5 name world).1)
handle_share_file-Sharing_example =
    handle_share_file-Sharing alice md5 name (view world) server-IsSql world refl

handle_delete_file-Deleted_example :
    Deleted alice md5 name
      (view world)
      (total (ref_count md5 (view world)) - 1)
      (view (handle_delete_file server alice md5 name world).1)
unfolding handle_delete_file status_in_mysql unshare_file drop_reference decrement_references
    remove_stored_file Mysql.execute_drop Mysql.get_result_one_status Mysql.get_result_one_count
    Mysql.execute_update Mysql.execute_query Mysql.first_row Redis.zset_exit Redis.zset_zrem
    Redis.hdel Redis.exchange_unchecked Redis.decr Redis.set Redis.exchange Redis.answered
    Counts.cache_decr_count Counts.decr_count Counts.cache_set_count running apply world tables
    with_info
handle_delete_file-Deleted_example =
    handle_delete_file-Deleted alice md5 name (view world) server-IsSql world refl refl
