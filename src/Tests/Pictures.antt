-- ===== src/Tests/Pictures.antt =====
-- Alice shares the picture of the sample and cancels it again; the list of bob's pictures is empty.
use pic_bed.Prelude.{
  [], atoi, signed_value, to_decimal, to_decimal_ℤ, digits_value, Text, codes, ◌≡◌, refl, some, pos,
  arith,
}
use pic_bed.Act.{running}
use pic_bed.Triple.{result}
use pic_bed.Mysql
use pic_bed.Redis
use pic_bed.Api.Counts
use pic_bed.Api.Codes.{resp_ok}
use pic_bed.Api.Login.{random_string}
use pic_bed.Sql.{apply}
use pic_bed.Sql.Rules.{ref_count, first_count}
use pic_bed.Api.SharePicture.{
  PictureList, record_picture, encode_share_picture_json, row_or_leave, release_reference,
  remove_unused, handle_share_picture, handle_cancel_share_picture, get_share_pictures_count,
  load_share_pictures_count, handle_get_share_pictures_list,
}
use pic_bed.Api.SharePicture.Shared.{PictureSharing, handle_share_picture-PictureSharing}
use pic_bed.Api.SharePicture.Restored.{IsRestored, share_cancel-IsRestored}
use pic_bed.Api.SharePicture.Listed.{pictures, handle_get_share_pictures_list-empty}
use pic_bed.Tests.Server.{World, server, view, server-IsSql}
use pic_bed.Tests.Sample.{alice, bob, md5, name, with_info, tables, world}

abbrev link : Text
link = codes "dddddddddddddddddddddddddddddddd"

unfoldable shared_world : World
shared_world = (handle_share_picture server alice md5 name world).1

abbrev no_pictures : PictureList
no_pictures = record { count = 0; total = pos 0; files = [] }

handle_share_picture-PictureSharing_example :
    PictureSharing alice md5 name
      (view world)
      (result (handle_share_picture server alice md5 name world))
      (view (handle_share_picture server alice md5 name world).1)
handle_share_picture-PictureSharing_example =
    handle_share_picture-PictureSharing alice md5 name (view world) server-IsSql world refl

share_cancel-IsRestored_example :
    IsRestored (view world) (view (handle_cancel_share_picture server alice link shared_world).1)
unfolding handle_cancel_share_picture shared_world handle_share_picture random_string record_picture
    encode_share_picture_json row_or_leave release_reference remove_unused Mysql.execute_query
    Mysql.execute_update Mysql.execute_pass_query Mysql.execute_create Mysql.execute_drop
    Mysql.get_result_one_count Mysql.first_row Redis.incr Redis.decr Redis.set Redis.exchange
    Redis.answered Counts.cache_incr_count Counts.cache_decr_count Counts.decr_count
    Counts.cache_set_count atoi signed_value digits_value to_decimal to_decimal_ℤ running apply
    world tables with_info ref_count first_count
share_cancel-IsRestored_example =
    share_cancel-IsRestored server-IsSql alice md5 name link (view world) world shared_world
      (record { code = resp_ok; urlmd5 = some link }) refl refl refl refl refl (omega arith) refl
      refl

handle_get_share_pictures_list-empty_example :
    pictures bob (view (handle_get_share_pictures_list server bob (pos 0) (pos 10) world).1) ≡ 0
unfolding handle_get_share_pictures_list get_share_pictures_count load_share_pictures_count
    Counts.cache_get_count Counts.db_get_share_picture_count_by_username Counts.cache_set_count
    Mysql.execute_query Redis.get Redis.set Redis.exchange Redis.answered running apply world tables
    with_info
handle_get_share_pictures_list-empty_example =
    handle_get_share_pictures_list-empty bob server-IsSql (pos 0) (pos 10) world no_pictures refl
      refl
