-- ===== src/Sql/RedisKeeps.antt =====
-- No operation of CacheConn, and no counter in Redis, touches the tables of MySQL.
use pic_bed.Prelude.{ℕ, Option, none, some, Text, ℤ, refl}
use pic_bed.Services.{Services, Command, Reply}
use pic_bed.Services.Command.{hget}
use pic_bed.Services.Reply.{string}
use pic_bed.Redis
use pic_bed.Api.Counts
use pic_bed.Sql.{Tables, IsSql}
use pic_bed.Sql.Keeps.{Keeps, keeps_rules, call-Keeps}

module _ {W : Type 0} {services : Services W} {view : W → Tables} (sql : IsSql services view) where
  module _ {R : Type 0} where
    answered-Keeps : (b : R) (o : Option Reply) → Keeps view (Redis.answered services b o)
    unfolding Redis.answered
    answered-Keeps b none = record { same = sql.disconnect_keeps }
    answered-Keeps b (some r) = record { same = λ w. refl }

    exchange-Keeps : (c : Command) (a b : R) → Keeps view (Redis.exchange services c a b)
    unfolding Redis.exchange
    exchange-Keeps c a b = search (
      keeps_rules,
      call-Keeps view services.connect sql.connect_keeps,
      call-Keeps view (services.command c) (sql.command_keeps c),
      answered-Keeps,
    )

    exchange_unchecked-Keeps :
        (c : Command) (a : R) → Keeps view (Redis.exchange_unchecked services c a)
    unfolding Redis.exchange_unchecked
    exchange_unchecked-Keeps c a = search (
      keeps_rules,
      call-Keeps view services.connect sql.connect_keeps,
      call-Keeps view (services.command c) (sql.command_keeps c),
    )

  incr_status-Keeps : (s : Option Text) → Keeps view (Redis.incr_status services s)
  unfolding Redis.incr_status
  incr_status-Keeps none = record { same = λ w. refl }
  incr_status-Keeps (some s) = record { same = λ w. refl }

  pub get-Keeps : (key : Text) → Keeps view (Redis.get services key)
  unfolding Redis.get
  get-Keeps key = search (keeps_rules, exchange-Keeps)

  pub set-Keeps : (key value : Text) → Keeps view (Redis.set services key value)
  unfolding Redis.set
  set-Keeps key value = search (keeps_rules, exchange-Keeps)

  pub set_ex-Keeps :
      (key : Text) (n : ℕ) (value : Text) → Keeps view (Redis.set_ex services key n value)
  unfolding Redis.set_ex
  set_ex-Keeps key n value = search (keeps_rules, exchange-Keeps)

  pub hset-Keeps : (key field value : Text) → Keeps view (Redis.hset services key field value)
  unfolding Redis.hset
  hset-Keeps key field value = search (keeps_rules, exchange-Keeps)

  pub hdel-Keeps : (key field : Text) → Keeps view (Redis.hdel services key field)
  unfolding Redis.hdel
  hdel-Keeps key field = search (keeps_rules, exchange-Keeps)

  pub incr-Keeps : (key : Text) → Keeps view (Redis.incr services key)
  unfolding Redis.incr
  incr-Keeps key = search (keeps_rules, exchange-Keeps)

  pub decr-Keeps : (key : Text) → Keeps view (Redis.decr services key)
  unfolding Redis.decr
  decr-Keeps key = search (keeps_rules, exchange-Keeps)

  pub zset_exit-Keeps : (key member : Text) → Keeps view (Redis.zset_exit services key member)
  unfolding Redis.zset_exit
  zset_exit-Keeps key member = search (keeps_rules, exchange_unchecked-Keeps)

  pub zset_add-Keeps :
      (key : Text) (n : ℕ) (member : Text) → Keeps view (Redis.zset_add services key n member)
  unfolding Redis.zset_add
  zset_add-Keeps key n member = search (keeps_rules, exchange_unchecked-Keeps)

  pub zset_zrem-Keeps : (key member : Text) → Keeps view (Redis.zset_zrem services key member)
  unfolding Redis.zset_zrem
  zset_zrem-Keeps key member = search (keeps_rules, exchange_unchecked-Keeps)

  pub zset_incr-Keeps : (key member : Text) → Keeps view (Redis.zset_incr services key member)
  unfolding Redis.zset_incr
  zset_incr-Keeps key member = search (keeps_rules, exchange_unchecked-Keeps, incr_status-Keeps)

  pub del-Keeps : (key : Text) → Keeps view (Redis.del services key)
  unfolding Redis.del
  del-Keeps key = search (keeps_rules, exchange-Keeps)

  pub zset_zcard-Keeps : (key : Text) → Keeps view (Redis.zset_zcard services key)
  unfolding Redis.zset_zcard
  zset_zcard-Keeps key = search (keeps_rules, exchange_unchecked-Keeps)

  pub zset_get_score-Keeps :
      (key member : Text) → Keeps view (Redis.zset_get_score services key member)
  unfolding Redis.zset_get_score
  zset_get_score-Keeps key member = search (keeps_rules, exchange_unchecked-Keeps)

  pub zset_zrevrange-Keeps :
      (key : Text) (a b : ℤ) → Keeps view (Redis.zset_zrevrange services key a b)
  unfolding Redis.zset_zrevrange
  zset_zrevrange-Keeps key a b = search (keeps_rules, exchange_unchecked-Keeps)

  value_of-Keeps : (o : Option Reply) → Keeps view (Redis.value_of o)
  unfolding Redis.value_of
  value_of-Keeps none = search keeps_rules
  value_of-Keeps (some (string s)) = search keeps_rules
  value_of-Keeps (some _) = search keeps_rules

  pub hget_value-Keeps : (key field : Text) → Keeps view (Redis.hget_value services key field)
  unfolding Redis.hget_value
  hget_value-Keeps key field = search (
    keeps_rules,
    call-Keeps view services.connect sql.connect_keeps,
    call-Keeps view (services.command (hget key field)) (sql.command_keeps (hget key field)),
    value_of-Keeps,
  )

  module _ {R : Type 0} where
    pub cache_set_count-Keeps :
        (key : Text) (n : ℤ) → Keeps view {R = R} (Counts.cache_set_count services key n)
    unfolding Counts.cache_set_count
    cache_set_count-Keeps key n = search (keeps_rules, set-Keeps)

    pub cache_incr_count-Keeps :
        (key : Text) → Keeps view {R = R} (Counts.cache_incr_count services key)
    unfolding Counts.cache_incr_count
    cache_incr_count-Keeps key = search (keeps_rules, incr-Keeps)

  pub decr_count-Keeps : (key : Text) → Keeps view (Counts.decr_count services key)
  unfolding Counts.decr_count
  decr_count-Keeps key = search (keeps_rules, decr-Keeps, cache_set_count-Keeps)

  pub cache_decr_count-Keeps :
      {R : Type 0} (key : Text) → Keeps view {R = R} (Counts.cache_decr_count services key)
  unfolding Counts.cache_decr_count
  cache_decr_count-Keeps key = search (keeps_rules, decr_count-Keeps)
