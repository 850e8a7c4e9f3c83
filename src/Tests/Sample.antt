-- ===== src/Tests/Sample.antt =====
-- A server that stores one file, which alice owns and has not shared.
use pic_bed.Prelude.{◌<◌, [], ◌∷◌, Text, codes, pos, count_if, arith}
use pic_bed.Services.Statement.{insert_file_info, insert_user_file}
use pic_bed.Sql.{Tables, apply, owned_by}
use pic_bed.Sql.References.{IsCounted, references}
use pic_bed.Sql.Rules.{ref_count}
use pic_bed.Sql.Steps.{insert_file_info-IsCounted, insert_user_file-IsCounted}
use pic_bed.Tests.Server.{World, view}

abbrev pub alice : Text
alice = codes "alice"

abbrev pub bob : Text
bob = codes "bob"

abbrev pub md5 : Text
md5 = codes "10f0"

abbrev pub name : Text
name = codes "cat.png"

abbrev pub empty : Tables
empty = record {
  file_info = [];
  user_file_list = [];
  share_file_list = [];
  user_info = [];
  share_picture_list = [];
}

unfoldable pub with_info : Tables
unfolding apply
with_info = apply (insert_file_info md5 (codes "id") (codes "url") (pos 20) (codes "png") 1) empty

unfoldable pub tables : Tables
unfolding apply
tables = apply (insert_user_file alice md5 (codes "now") name 0 0) with_info

unfoldable pub world : World
unfolding apply
world = record { tables = tables; strings = (alice, codes "token") ∷ []; members = [] }

empty-IsCounted : IsCounted empty
unfolding references ref_count
empty-IsCounted = record { covered = λ m. omega arith }

pub tables-IsCounted : IsCounted (view world)
unfolding apply references ref_count with_info world tables
tables-IsCounted =
    insert_user_file-IsCounted alice md5 (codes "now") name 0 0 with_info
      (insert_file_info-IsCounted md5 _ _ _ _ 1 empty empty-IsCounted) (omega arith)

pub alice_owns : 0 < count_if (owned_by alice md5 name) (view world).user_file_list
unfolding apply world tables with_info
alice_owns = omega arith
