-- ===== src/Api/Counts/Stored.antt =====
-- The counters in Redis as numbers: CacheSetCount, CacheGetCount, CacheIncrCount and CacheDecrCount
-- (api/api_common.cc) over a Redis that stores strings.
use pic_bed.Prelude.{
  ℕ, zero, suc, ◌+◌, ◌-◌, true, Option, none, some, [], Text, codes, ◌≡◌, ap, ◌∙◌, ℤ, pos,
  minus_one, to_decimal, to_decimal_ℤ, atoi-to_decimal, to_decimal-nonempty, to_decimal_ℤ-pos,
  arith,
}
use pic_bed.Services.{Services, Command, Reply}
use pic_bed.Services.Command.{get, set, incr, decr}
use pic_bed.Services.Reply.{string, status, integer, nil}
use pic_bed.Act.{next, ◌>>=◌, running}
use pic_bed.Redis
use pic_bed.Redis.{exchange, answered}
use pic_bed.Api.Counts

-- DECR of a counter that is not negative.
abbrev pub one_less : ℕ → ℤ
one_less zero = minus_one
one_less (suc n) = pos n

-- The reply to GET.
abbrev pub get_reply : Option Text → Reply
get_reply none = nil
get_reply (some v) = string v

-- `stored w key` is the string that Redis holds in the world `w`. It is connected and answers.
pub record IsRedis {W : Type 0} (services : Services W) (stored : W → Text → Option Text)
    : Type 0 where
  pub connects : (w : W) → (services.connect w).0 ≡ true
  pub connect_keeps : (w : W) → stored (services.connect w).1 ≡ stored w
  pub get_answers :
      (k : Text) (w : W) → (services.command (get k) w).0 ≡ some (get_reply (stored w k))
  pub set_answers :
      (k v : Text) (w : W) → (services.command (set k v) w).0 ≡ some (status (codes "OK"))
  pub set_stores : (k v : Text) (w : W) → stored (services.command (set k v) w).1 k ≡ some v
  pub incr_answers :
      (k : Text) (n : ℕ) (w : W)
      → stored w k ≡ some (to_decimal n)
      → (services.command (incr k) w).0 ≡ some (integer (pos (n + 1)))
  pub incr_stores :
      (k : Text) (n : ℕ) (w : W)
      → stored w k ≡ some (to_decimal n)
      → stored (services.command (incr k) w).1 k ≡ some (to_decimal (n + 1))
  pub decr_answers :
      (k : Text) (n : ℕ) (w : W)
      → stored w k ≡ some (to_decimal n)
      → (services.command (decr k) w).0 ≡ some (integer (one_less n))
  pub decr_stores :
      (k : Text) (n : ℕ) (w : W)
      → stored w k ≡ some (to_decimal n)
      → stored (services.command (decr k) w).1 k ≡ some (to_decimal_ℤ (one_less n))

module _ {W : Type 0} {services : Services W} {stored : W → Text → Option Text}
    (redis : IsRedis services stored) where
  open services use {connect, command}

  pub exchange-run :
      {R : Type 0} (c : Command) (a b : R) (r : Reply) (w : W)
      → (command c (connect w).1).0 ≡ some r
      → exchange services c a b w ≡ (next r, (command c (connect w).1).1)
  unfolding exchange answered running
  exchange-run c a b r w e = rw (redis.connects w, e)

  pub set_count-run :
      {R : Type 0} (k : Text) (n : ℕ) (w : W)
      → Counts.cache_set_count services {R = R} k (pos n) w
        ≡ (next (pos 0), (command (set k (to_decimal n)) (connect w).1).1)
  unfolding Counts.cache_set_count Redis.set running
  set_count-run k n w = rw (
    to_decimal_ℤ-pos n,
    exchange-run {R = Text} (set k (to_decimal n)) [] [] (status (codes "OK")) w
        (redis.set_answers k (to_decimal n) (connect w).1),
  )

  pub get_count-run :
      {R : Type 0} (k : Text) (n : ℕ) (w : W)
      → stored w k ≡ some (to_decimal n)
      → Counts.cache_get_count services {R = R} k w
        ≡ (next (pos 0, pos n), (command (get k) (connect w).1).1)
  unfolding Counts.cache_get_count Redis.get running
  get_count-run k n w e =
      let answer : (command (get k) (connect w).1).0 ≡ some (string (to_decimal n)) =
        redis.get_answers k (connect w).1
        ∙ ap (λ (s : Text → Option Text). some (get_reply (s k))) (redis.connect_keeps w)
        ∙ ap (λ (o : Option Text). some (get_reply o)) e in
      rw (
        exchange-run {R = Text} (get k) [] [] (string (to_decimal n)) w answer,
        (to_decimal-nonempty n).0,
        atoi-to_decimal n,
      )

  -- Without a count, CacheGetCount returns -1.
  pub missing_count-run :
      {R : Type 0} (k : Text) (w : W)
      → stored w k ≡ none
      → Counts.cache_get_count services {R = R} k w
        ≡ (next (minus_one, pos 0), (command (get k) (connect w).1).1)
  unfolding Counts.cache_get_count Redis.get running
  missing_count-run k w e =
      let answer : (command (get k) (connect w).1).0 ≡ some nil =
        redis.get_answers k (connect w).1
        ∙ ap (λ (s : Text → Option Text). some (get_reply (s k))) (redis.connect_keeps w)
        ∙ ap (λ (o : Option Text). some (get_reply o)) e in
      rw (exchange-run {R = Text} (get k) [] [] nil w answer)

  -- A count that is set is the count that is read.
  pub cache_get_count-cache_set_count :
      {R : Type 0} (k : Text) (n : ℕ) (w : W)
      → ((Counts.cache_set_count services {R = R} k (pos n) >>= λ ret.
            Counts.cache_get_count services k)
          w).0
        ≡ next (pos 0, pos n)
  unfolding ◌>>=◌
  cache_get_count-cache_set_count {R} k n w = rw (
    set_count-run {R = R} k n w,
    get_count-run {R = R} k n _ (redis.set_stores k (to_decimal n) (connect w).1),
  )

  connected : (k : Text) (o : Option Text) (w : W) → stored w k ≡ o → stored (connect w).1 k ≡ o
  connected k o w e = ap (λ (s : Text → Option Text). s k) (redis.connect_keeps w) ∙ e

  -- CacheIncrCount adds one to a stored count.
  cache_incr_count-adds :
      {R : Type 0} (k : Text) (n : ℕ) (w : W)
      → stored w k ≡ some (to_decimal n)
      → ((Counts.cache_incr_count services {R = R} k w).0 ≡ next (pos 0))
        × (stored (Counts.cache_incr_count services {R = R} k w).1 k ≡ some (to_decimal (n + 1)))
  unfolding Counts.cache_incr_count Redis.incr running
  cache_incr_count-adds k n w e =
      let there : stored (connect w).1 k ≡ some (to_decimal n) = connected k _ w e in
      let run : exchange services {R = ℤ × ℤ} (incr k) (minus_one, pos 0) (minus_one, pos 0) w
          ≡ (next (integer (pos (n + 1))), (command (incr k) (connect w).1).1) =
        exchange-run (incr k) _ _ _ w (redis.incr_answers k n (connect w).1 there) in
      (rw (run), rw (run, redis.incr_stores k n (connect w).1 there))

  decr-run :
      (k : Text) (n : ℕ) (w : W)
      → stored w k ≡ some (to_decimal n)
      → exchange services {R = ℤ × ℤ} (decr k) (minus_one, pos 0) (minus_one, pos 0) w
        ≡ (next (integer (one_less n)), (command (decr k) (connect w).1).1)
  decr-run k n w e =
      exchange-run (decr k) _ _ _ w (redis.decr_answers k n (connect w).1 (connected k _ w e))

  -- CacheDecrCount takes one from a stored count, and leaves 0 where it was 0.
  pub cache_decr_count-subtracts :
      {R : Type 0} (k : Text) (n : ℕ) (w : W)
      → stored w k ≡ some (to_decimal n)
      → ((Counts.cache_decr_count services {R = R} k w).0 ≡ next (pos 0))
        × (stored (Counts.cache_decr_count services {R = R} k w).1 k ≡ some (to_decimal (n - 1)))
  unfolding Counts.cache_decr_count Counts.decr_count Redis.decr running
  cache_decr_count-subtracts k zero w e =
      let run = decr-run k 0 w e in
      let reset = set_count-run {R = ℤ} k 0 (command (decr k) (connect w).1).1 in
      (rw (run, reset), rw (run, reset, redis.set_stores k (to_decimal 0) _))
  cache_decr_count-subtracts k (suc n) w e =
      let run = decr-run k (suc n) w e in
      let less : suc n - 1 ≡ n = omega arith in
      (
        rw (run),
        rw (
          run,
          redis.decr_stores k (suc n) (connect w).1 (connected k _ w e),
          to_decimal_ℤ-pos n,
          less,
        ),
      )
