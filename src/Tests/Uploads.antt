-- ===== src/Tests/Uploads.antt =====
-- An upload at the sample.
use pic_bed.Prelude.{some, [], ◌∷◌, ◌++◌, Text, codes, ◌≡◌, refl}
use pic_bed.Act.{running}
use pic_bed.Triple.{result}
use pic_bed.Redis
use pic_bed.Mysql
use pic_bed.Api.Codes.{resp_ok}
use pic_bed.Api.Counts
use pic_bed.Api.Suffix.{after_last_dot, get_file_suffix, trim_start, trim_end, trim_space}
use pic_bed.Api.Upload.{
  UploadConfig, found, value_below, read_field, read_request, uploaded, upload_file_to_fast_dfs,
  read_host, full_url, get_fullurl_by_fileid, store_fileinfo, api_upload,
}
use pic_bed.Api.Upload.Stored.{AreStored, api_upload-AreStored}
use pic_bed.Tests.Server.{server, view, server-IsSql}
use pic_bed.Tests.Sample.{world}

abbrev line : Text → Text
line s = s ++ 13 ∷ 10 ∷ []

abbrev field : Text → Text → Text
field name value =
    line (codes "--B")
    ++ line (codes "Content-Disposition: form-data; name=\"" ++ name ++ codes "\"")
    ++ line []
    ++ line value

abbrev body : Text
body =
    field (codes "file_name") (codes "dog.png")
    ++ field (codes "file_content_type") (codes "image/png")
    ++ field (codes "file_path") (codes "/tmp/7")
    ++ field (codes "file_md5") (codes "77aa")
    ++ field (codes "file_size") (codes "34")
    ++ field (codes "user") (codes "bob")
    ++ codes "--B--"

abbrev config : UploadConfig
config = record { storage_web_server_ip = codes "10.0.0.1"; storage_web_server_port = codes "80" }

uploads : result (api_upload server config body world) ≡ some resp_ok
unfolding api_upload read_request read_field value_below found get_file_suffix after_last_dot
    trim_space trim_start trim_end upload_file_to_fast_dfs uploaded get_fullurl_by_fileid full_url
    read_host store_fileinfo Mysql.execute_create Counts.cache_incr_count Redis.incr Redis.exchange
    Redis.answered running
uploads = refl

api_upload-AreStored_example :
    AreStored server config body (view world) (view (api_upload server config body world).1)
api_upload-AreStored_example =
    api_upload-AreStored server-IsSql config body (view world) world refl uploads
