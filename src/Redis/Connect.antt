-- ===== src/Redis/Connect.antt =====
-- CacheConn::Init (redis/cache_pool.cpp), which each operation calls first: `Services.connect` is one
-- call of it. The connection is made again when it is gone, at most once in a second.
use pic_bed.Prelude.{
  ℕ, ◌+◌, ◌%◌, ◌^◌, ◌<◌, Bool, true, false, not, ◌&&◌, Option, none, some, List, [], ◌∷◌, Text,
  codes, starts_with, ℤ, pos, minus_one, ltb, ◌≡◌, if◌then◌else◌, arith, Bool-cases, inl, inr,
}
use pic_bed.Services.{Reply}
use pic_bed.Services.Reply.{status, error}

-- The members that Init changes: whether `context_` is set, and last_connect_time_
pub record CacheConn : Type 0 where
  pub connected : Bool
  pub last_connect_time : ℕ

-- What a call of Init meets: time(NULL), whether redisConnectWithTimeout makes a context without an
-- error, and the replies to AUTH and SELECT
pub record Attempt : Type 0 where
  pub time : ℕ
  pub connects : Bool
  pub auth : Option Reply
  pub select : Option Reply

-- `!reply || reply->type == REDIS_REPLY_ERROR`
abbrev pub is_refused : Option Reply → Bool
is_refused none = true
is_refused (some (error s)) = true
is_refused (some r) = false

-- The status OK
abbrev pub is_selected : Option Reply → Bool
is_selected (some (status s)) = starts_with (codes "OK") s
is_selected o = false

abbrev pub has_password : Text → Bool
has_password [] = false
has_password (c ∷ s) = true

-- Init behind the connecting: the return value
unfoldable pub greet : Text → Attempt → ℤ
greet password a =
    if has_password password && is_refused a.auth
    then minus_one
    else if is_selected a.select
    then pos 0
    else pos 2

-- Whether a second has gone by; the sum is one of 64 bits.
abbrev pub is_due : Attempt → CacheConn → Bool
is_due a c = not (ltb a.time ((c.last_connect_time + 1) % 2 ^ 64))

-- CacheConn::Init
unfoldable pub init : Text → Attempt → CacheConn → ℤ × CacheConn
unfolding greet
init password a c =
    if c.connected
    then (pos 0, c)
    else if is_due a c
    then (
      if a.connects then greet password a else pos 1,
      record { connected = a.connects; last_connect_time = a.time },
    )
    else (pos 1, c)

-- One use of the connection: Init, and whether a NULL reply frees the context afterwards
pub record Use : Type 0 where
  pub attempt : Attempt
  pub fails : Bool

-- The times at which a server is connected to, over uses in sequence
unfoldable pub connect_times : Text → List Use → CacheConn → List ℕ
unfolding init
connect_times password [] c = []
connect_times password (u ∷ us) c =
    let after = (init password u.attempt c).1 in
    let rest = connect_times password us (record {
      connected = after.connected && not u.fails;
      last_connect_time = after.last_connect_time;
    }) in
    if not c.connected && is_due u.attempt c then u.attempt.time ∷ rest else rest

-- From `n` on, each time is at least one second after the one before.
abbrev pub Spaced : ℕ → List ℕ → Type 0
Spaced n [] = Unit
Spaced n (t ∷ ts) = (n < t) × Spaced t ts

-- The clock of the uses is below 2 ^ 64 - 1.
abbrev pub InRange : List Use → Type 0
InRange [] = Unit
InRange (u ∷ us) = (u.attempt.time + 1 < 2 ^ 64) × InRange us

init-kept :
    (password : Text) (a : Attempt) (c : CacheConn)
    → (not c.connected && is_due a c) ≡ false
    → (init password a c).1.last_connect_time ≡ c.last_connect_time
unfolding init
init-kept password a c e = ground arith

init-made :
    (password : Text) (a : Attempt) (c : CacheConn)
    → (not c.connected && is_due a c) ≡ true
    → (init password a c).1.last_connect_time ≡ a.time
unfolding init
init-made password a c e = ground arith

is_due-less :
    (a : Attempt) (c : CacheConn)
    → c.last_connect_time + 1 < 2 ^ 64
    → (not c.connected && is_due a c) ≡ true
    → c.last_connect_time < a.time
is_due-less a c h e = ground arith

-- However the uses come and end, two attempts to connect are at least one second apart, and the
-- first one is later than the attempt before all of them.
pub connect_times-Spaced :
    (password : Text) (us : List Use) (c : CacheConn)
    → c.last_connect_time + 1 < 2 ^ 64
    → InRange us
    → Spaced c.last_connect_time (connect_times password us c)
unfolding connect_times init
connect_times-Spaced password [] c h r = tt
connect_times-Spaced password (u ∷ us) c h r =
    let connected = (init password u.attempt c).1.connected && not u.fails in
    let rest = λ (time : ℕ).
      connect_times-Spaced password us
        (record { connected = connected; last_connect_time = time }) in
    elim (Bool-cases (not c.connected && is_due u.attempt c)) [
      | inl made ↦
          rw (made, init-made password u.attempt c made)
            (is_due-less u.attempt c h made, rest u.attempt.time r.0 r.1)
      | inr kept ↦ rw (kept, init-kept password u.attempt c kept) (rest c.last_connect_time h r.1)
    ]
