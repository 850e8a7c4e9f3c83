-- ===== src/Redis.antt =====
-- CacheConn (redis/cache_pool.cpp), the operations that the handlers use. Each connects first
-- (`Init`), sends one command and reads the reply. Others has the operations that no handler calls.
pub mod Connect
pub mod Others
use pic_bed.Prelude.{
  ℕ, Bool, true, false, not, Option, none, some, [], Text, codes, text_eq, ℤ, pos, minus_one, atoi,
  List, map, take, length, ltb, ◌+ℤ◌, negate, negsuc, if◌then◌else◌,
}
use pic_bed.Services.{Services, Command, Reply}
use pic_bed.Services.Reply.{string, status, error, integer, array, nil}
use pic_bed.Act.{next, stop, crash, Act, ◌>>=◌, ◌>>◌, pure, stop_if, some_or_crash, call, need}

-- `reply->str`, NULL where the reply has none
abbrev pub reply_str : Reply → Option Text
reply_str (string s) = some s
reply_str (status s) = some s
reply_str (error s) = some s
reply_str (integer n) = none
reply_str (array xs) = none
reply_str nil = none

-- `string(reply->str, reply->len)`; of NULL and 0 the empty string
abbrev pub reply_text : Reply → Text
reply_text (string s) = s
reply_text (status s) = s
reply_text (error s) = s
reply_text (integer n) = []
reply_text (array xs) = []
reply_text nil = []

-- the string of a reply of type REDIS_REPLY_STRING
abbrev pub string_text : Reply → Text
string_text (string s) = s
string_text r = []

-- `reply->integer`, 0 where the reply has none
abbrev pub reply_integer : Reply → ℤ
reply_integer (integer n) = n
reply_integer (string s) = pos 0
reply_integer (status s) = pos 0
reply_integer (error s) = pos 0
reply_integer (array xs) = pos 0
reply_integer nil = pos 0

abbrev pub is_integer : Reply → Bool
is_integer (integer n) = true
is_integer r = false

-- Of the elements those that were asked for: with a number below 0, all of them
abbrev at_most : ℤ → List Text → List Text
at_most (pos n) elements = take n elements
at_most (negsuc n) elements = elements

-- What CacheConn::ZsetZrevrange makes of the reply
abbrev elements_of : ℤ → Reply → Option (List Text)
elements_of count (array elements) = some (map (take 1023) (at_most count elements))
elements_of count r = none

-- What CacheConn::ZsetGetScore makes of the reply
abbrev score_of : Reply → ℤ
score_of (string s) = atoi s
score_of r = minus_one

-- What CacheConn::Hget makes of the reply
unfoldable pub value_of : {W : Type 0} → Option Reply → Act W (Option Text) (Option Text)
value_of (some (string s)) = need (ltb (length s) 1024) >> pure (some s)
value_of o = pure none

module _ {W : Type 0} (services : Services W) where
  open services use {connect, command, disconnect}

  module _ {R : Type 0} where
    -- A NULL reply: the context is freed, and the call returns `on_null`.
    unfoldable pub answered : R → Option Reply → Act W R Reply
    answered on_null none w = (stop on_null, disconnect w)
    answered on_null (some reply) w = (next reply, w)

    -- `Init`, the command and the check of its reply, the way most operations begin.
    unfoldable pub exchange : Command → R → R → Act W R Reply
    exchange c not_connected on_null = do
      up ← call connect
      stop_if (not up) not_connected
      reply ← call (command c)
      answered on_null reply

    -- The same where a NULL reply is used unchecked.
    unfoldable pub exchange_unchecked : Command → R → Act W R Reply
    exchange_unchecked c not_connected = do
      up ← call connect
      stop_if (not up) not_connected
      reply ← call (command c)
      some_or_crash reply

  -- CacheConn::Get
  unfoldable pub get : Text → Act W Text Text
  get key = do reply ← exchange (Command.get key) [] []; pure (string_text reply)

  -- CacheConn::Set
  unfoldable pub set : Text → Text → Act W Text Text
  set key value = do reply ← exchange (Command.set key value) [] []; pure (reply_text reply)

  -- CacheConn::SetEx
  unfoldable pub set_ex : Text → ℕ → Text → Act W Text Text
  set_ex key timeout value = do
    reply ← exchange (Command.setex key timeout value) [] []
    pure (reply_text reply)

  -- CacheConn::Del
  unfoldable pub del : Text → Act W ℤ ℤ
  del key = do reply ← exchange (Command.del key) (pos 0) (pos 0); pure (reply_integer reply)

  -- CacheConn::Hdel
  unfoldable pub hdel : Text → Text → Act W ℤ ℤ
  hdel key field = do
    reply ← exchange (Command.hdel key field) minus_one minus_one
    pure (reply_integer reply)

  -- CacheConn::Hset
  unfoldable pub hset : Text → Text → Text → Act W ℤ ℤ
  hset key field value = do
    reply ← exchange (Command.hset key field value) minus_one minus_one
    pure (reply_integer reply)

  -- CacheConn::Incr: the return value, and what it leaves in `value`
  unfoldable pub incr : Text → Act W (ℤ × ℤ) (ℤ × ℤ)
  incr key = do
    reply ← exchange (Command.incr key) (minus_one, pos 0) (minus_one, pos 0)
    pure (pos 0, reply_integer reply)

  -- CacheConn::Decr, which leaves `value` (0 at its caller) alone where it fails
  unfoldable pub decr : Text → Act W (ℤ × ℤ) (ℤ × ℤ)
  decr key = do
    reply ← exchange (Command.decr key) (minus_one, pos 0) (minus_one, pos 0)
    pure (pos 0, reply_integer reply)

  -- CacheConn::ZsetExit
  unfoldable pub zset_exit : Text → Text → Act W ℤ ℤ
  zset_exit key member = do
    reply ← exchange_unchecked (Command.zlexcount key member) minus_one
    stop_if (not (is_integer reply)) minus_one
    pure (reply_integer reply)

  -- CacheConn::ZsetAdd
  unfoldable pub zset_add : Text → ℕ → Text → Act W ℤ ℤ
  zset_add key score member = do
    reply ← exchange_unchecked (Command.zadd key score member) minus_one
    stop_if (not (is_integer reply)) minus_one
    pure (pos 0)

  -- CacheConn::ZsetZrem
  unfoldable pub zset_zrem : Text → Text → Act W ℤ ℤ
  zset_zrem key member = do
    reply ← exchange_unchecked (Command.zrem key member) minus_one
    stop_if (not (is_integer reply)) minus_one
    pure (pos 0)

  -- `strcmp(reply->str, "OK") != 0` and what follows it in CacheConn::ZsetIncr
  unfoldable pub incr_status : Option Text → Act W ℤ ℤ
  incr_status none w = (crash, w)
  incr_status (some s) w = (next (if text_eq s (codes "OK") then pos 0 else minus_one), w)

  -- CacheConn::ZsetIncr; not connected, it returns `false`, which is 0
  unfoldable pub zset_incr : Text → Text → Act W ℤ ℤ
  zset_incr key member = do
    reply ← exchange_unchecked (Command.zincrby key member) (pos 0)
    incr_status (reply_str reply)

  -- CacheConn::ZsetZcard
  unfoldable pub zset_zcard : Text → Act W ℤ ℤ
  zset_zcard key = do
    reply ← exchange_unchecked (Command.zcard key) minus_one
    stop_if (not (is_integer reply)) minus_one
    pure (reply_integer reply)

  -- CacheConn::ZsetGetScore
  unfoldable pub zset_get_score : Text → Text → Act W ℤ ℤ
  zset_get_score key member = do
    reply ← exchange_unchecked (Command.zscore key member) minus_one
    pure (score_of reply)

  -- CacheConn::Hget into a `char value[1024]`; none where it returns -1. A text of 1024 bytes or more
  -- has its NUL written behind the array.
  unfoldable pub hget_value : Text → Text → Act W (Option Text) (Option Text)
  unfolding value_of
  hget_value key field = do
    up ← call connect
    stop_if (not up) none
    reply ← call (command (Command.hget key field))
    value_of reply

  -- CacheConn::ZsetZrevrange; none where it returns -1
  unfoldable pub zset_zrevrange : Text → ℤ → ℤ → Act W (Option (List Text)) (Option (List Text))
  zset_zrevrange key from_pos end_pos = do
    reply ← exchange_unchecked (Command.zrevrange key from_pos end_pos) none
    pure (elements_of (end_pos +ℤ negate from_pos +ℤ pos 1) reply)
