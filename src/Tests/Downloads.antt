-- ===== src/Tests/Downloads.antt =====
-- Counting the downloads of a shared file, listed by Redis and not.
use pic_bed.Prelude.{some, [], ◌∷◌, codes, ◌≡◌, refl, to_decimal, ◌++◌}
use pic_bed.Services.Statement.{insert_share_file}
use pic_bed.Act.{running}
use pic_bed.Triple.{result}
use pic_bed.Mysql
use pic_bed.Redis
use pic_bed.Sql.{apply}
use pic_bed.Api.Codes.{resp_ok, resp_fail}
use pic_bed.Api.DealFile.{pv_of}
use pic_bed.Api.DealShareFile.{count_in_redis, handle_share_pv_file}
use pic_bed.Tests.Server.{World, server, view}
use pic_bed.Tests.Sample.{alice, md5, name, world, tables, with_info}

-- Alice has shared her file.
abbrev sharing : World
unfolding apply
sharing = record world {
  tables = apply (insert_share_file alice md5 (codes "now") name 4) (view world);
}

-- Redis lists it, too.
abbrev listing : World
listing = record sharing { members = (md5 ++ name) ∷ [] }

counted : result (handle_share_pv_file server md5 name sharing) ≡ some resp_ok
unfolding handle_share_pv_file count_in_redis pv_of Mysql.execute_query Mysql.execute_update
    Redis.zset_exit Redis.zset_add Redis.hset Redis.exchange Redis.exchange_unchecked Redis.answered
    running world apply tables with_info
counted = refl

refused : result (handle_share_pv_file server md5 name listing) ≡ some resp_fail
unfolding handle_share_pv_file count_in_redis pv_of Mysql.execute_query Mysql.execute_update
    Redis.zset_exit Redis.zset_incr Redis.incr_status Redis.exchange_unchecked running world apply
    to_decimal tables with_info
refused = refl
