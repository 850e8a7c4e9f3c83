-- ===== src/Redis/Others.antt =====
-- The operations of CacheConn (redis/cache_pool.cpp) that no handler calls. MGet and Hmget, whose
-- replies may have elements without a text, are left out. A std::map is the list of its pairs.
use pic_bed.Prelude.{
  Bool, true, false, not, Option, none, some, List, [], ◌∷◌, Text, codes, starts_with, ℤ, minus_one,
  equals,
}
use pic_bed.Services.{Services, Command, Reply}
use pic_bed.Services.Reply.{string, array}
use pic_bed.Act.{Act, ◌>>=◌, pure}
use pic_bed.Redis.{reply_integer, reply_text, string_text, exchange}

-- The elements of an array, two at a time; none where their number is odd
unfoldable pub pairs_of : List Text → Option (List (Text × Text))
pairs_of [] = some []
pairs_of (x ∷ []) = none
pairs_of (x ∷ y ∷ xs) = elim (pairs_of xs) [ none ↦ none | some ps ↦ some ((x, y) ∷ ps) ]

abbrev or_nothing : Option (List (Text × Text)) → List (Text × Text)
or_nothing none = []
or_nothing (some ps) = ps

abbrev elements : Reply → List Text
elements (array xs) = xs
elements r = []

-- `reply->type == REDIS_REPLY_STRING && strncmp(reply->str, "OK", 2) == 0`
abbrev is_ok_string : Reply → Bool
is_ok_string (string s) = starts_with (codes "OK") s
is_ok_string r = false

module _ {W : Type 0} (services : Services W) where
  -- CacheConn::IsExists
  unfoldable pub is_exists : Text → Act W Bool Bool
  is_exists key = do
    reply ← exchange services (Command.exists key) false false
    pure (not (equals (reply_integer reply) 0))

  -- CacheConn::Hget of a std::string
  unfoldable pub hget : Text → Text → Act W Text Text
  hget key field = do
    reply ← exchange services (Command.hget key field) [] []
    pure (string_text reply)

  -- CacheConn::HgetAll: the return value, and the pairs in the order in which it inserts them
  unfoldable pub hget_all : Text → Act W (Bool × List (Text × Text)) (Bool × List (Text × Text))
  unfolding pairs_of
  hget_all key = do
    reply ← exchange services (Command.hgetall key) (false, []) (false, [])
    pure (true, or_nothing (pairs_of (elements reply)))

  -- CacheConn::HincrBy
  unfoldable pub hincr_by : Text → Text → ℤ → Act W ℤ ℤ
  hincr_by key field value = do
    reply ← exchange services (Command.hincrby key field value) minus_one minus_one
    pure (reply_integer reply)

  -- CacheConn::IncrBy
  unfoldable pub incr_by : Text → ℤ → Act W ℤ ℤ
  incr_by key value = do
    reply ← exchange services (Command.incrby key value) minus_one minus_one
    pure (reply_integer reply)

  -- CacheConn::Hmset
  unfoldable pub hmset : Text → List (Text × Text) → Act W Text Text
  hmset key hash = do
    reply ← exchange services (Command.hmset key hash) [] []
    pure (reply_text reply)

  -- CacheConn::Lpush
  unfoldable pub lpush : Text → Text → Act W ℤ ℤ
  lpush key value = do
    reply ← exchange services (Command.lpush key value) minus_one minus_one
    pure (reply_integer reply)

  -- CacheConn::Rpush
  unfoldable pub rpush : Text → Text → Act W ℤ ℤ
  rpush key value = do
    reply ← exchange services (Command.rpush key value) minus_one minus_one
    pure (reply_integer reply)

  -- CacheConn::Llen
  unfoldable pub llen : Text → Act W ℤ ℤ
  llen key = do
    reply ← exchange services (Command.llen key) minus_one minus_one
    pure (reply_integer reply)

  -- CacheConn::Lrange: the return value, and what it appends to the list. The bounds are printed with
  -- %d: those that fit into an int.
  unfoldable pub lrange : Text → ℤ → ℤ → Act W (Bool × List Text) (Bool × List Text)
  lrange key start end_pos = do
    reply ← exchange services (Command.lrange key start end_pos) (false, []) (false, [])
    pure (true, elements reply)

  -- CacheConn::FlushDb
  unfoldable pub flush_db : Act W Bool Bool
  flush_db = do reply ← exchange services Command.flushdb false false; pure (is_ok_string reply)
