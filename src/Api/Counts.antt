-- ===== src/Api/Counts.antt =====
-- The counters in Redis and MySQL (api/api_common.cc), the token check (base/common.cc) and the keys
-- (redis/redis_keys.h).
pub mod Token
pub mod Stored
use pic_bed.Prelude.{
  ℕ, Option, none, some, List, [], ◌∷◌, Text, codes, text_eq, ℤ, pos, minus_one, is_negative,
  to_decimal_ℤ, atoi, if◌then◌else◌,
}
use pic_bed.Services.{Services, Statement, Row, Column}
use pic_bed.Act.{Act, ◌>>=◌, ◌>>◌, pure, stop_if, need, choose, call, inline}
use pic_bed.Redis
use pic_bed.Mysql

abbrev pub file_public_zset : Text
file_public_zset = codes "FILE_PUBLIC_ZSET"

abbrev pub file_name_hash : Text
file_name_hash = codes "FILE_NAME_HASH"

abbrev pub file_public_count : Text
file_public_count = codes "FILE_PUBLIC_COUNT"

abbrev pub file_user_count : Text
file_user_count = codes "FILE_USER_COUNT"

abbrev pub share_pic_count : Text
share_pic_count = codes "SHARE_PIC_COUNT"

-- The count in the first row of a `select count(*)`, the return value first.
abbrev pub counted : Option (List Row) → ℤ × ℕ
counted none = (minus_one, 0)
counted (some []) = (pos 0, 0)
counted (some (row ∷ rows)) = (pos 0, row.get_int Column.count_star)

module _ {W : Type 0} (services : Services W) where
  open services use {take_db_conn, take_cache_conn}

  module _ {R : Type 0} where
    -- CacheSetCount
    unfoldable pub cache_set_count : Text → ℤ → Act W R ℤ
    cache_set_count key count = do
      answer ← inline (Redis.set services key (to_decimal_ℤ count))
      pure (if text_eq answer [] then minus_one else pos 0)

    -- CacheGetCount: the return value and `count`
    unfoldable pub cache_get_count : Text → Act W R (ℤ × ℤ)
    cache_get_count key = do
      text ← inline (Redis.get services key)
      pure (if text_eq text [] then (minus_one, pos 0) else (pos 0, atoi text))

    -- CacheIncrCount
    unfoldable pub cache_incr_count : Text → Act W R ℤ
    cache_incr_count key = do
      answer ← inline (Redis.incr services key)
      pure (if is_negative answer.0 then minus_one else pos 0)

    -- DBGetUserFilesCountByUsername
    unfoldable pub db_get_user_files_count_by_username : Text → Act W R (ℤ × ℕ)
    db_get_user_files_count_by_username user_name = do
      results ← Mysql.execute_query services (Statement.count_user_files user_name)
      pure (counted results)

    -- DBGetSharePictureCountByUsername
    unfoldable pub db_get_share_picture_count_by_username : Text → Act W R (ℤ × ℕ)
    db_get_share_picture_count_by_username user_name = do
      results ← Mysql.execute_query services (Statement.count_share_pictures user_name)
      pure (counted results)

    -- DBGetShareFilesCount
    unfoldable pub db_get_share_files_count : Act W R (ℤ × ℕ)
    db_get_share_files_count = do
      results ← Mysql.execute_query services Statement.count_share_files
      pure (counted results)

    -- VerifyToken: 0 where Redis holds this token for the user
    unfoldable pub verify_token : Text → Text → Act W R ℤ
    verify_token user_name token = do
      cache ← call take_cache_conn
      stored ← choose cache (inline (Redis.get services user_name)) (pure [])
      pure (if cache then (if text_eq stored token then pos 0 else minus_one) else minus_one)

  -- CacheDecrCount: below 0 the counter is set to 0
  unfoldable pub decr_count : Text → Act W ℤ ℤ
  unfolding cache_set_count
  decr_count key = do
    answer ← inline (Redis.decr services key)
    stop_if (is_negative answer.0) minus_one
    reset ← choose (is_negative answer.1) (cache_set_count key (pos 0)) (pure (pos 0))
    pure (if is_negative reset then minus_one else pos 0)

  unfoldable pub cache_decr_count : {R : Type 0} → Text → Act W R ℤ
  unfolding decr_count
  cache_decr_count key = inline (decr_count key)

  -- ApiInit: the number of shared files is loaded into Redis
  unfoldable pub api_init : Act W ℤ ℤ
  unfolding cache_set_count db_get_share_files_count
  api_init = do
    db ← call take_db_conn
    cache ← call take_cache_conn
    need db
    loaded ← db_get_share_files_count
    stop_if (is_negative loaded.0) minus_one
    need cache
    stored ← cache_set_count file_public_count (pos loaded.1)
    stop_if (is_negative stored) minus_one
    pure (pos 0)
