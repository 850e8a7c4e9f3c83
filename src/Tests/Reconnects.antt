-- ===== src/Tests/Reconnects.antt =====
-- The connecting of redis/cache_pool.cpp on a server that is down and comes back.
use pic_bed.Prelude.{
  ℕ, Bool, true, false, some, List, [], ◌∷◌, codes, pos, minus_one, ◌≡◌, ◌<◌, ◌^◌, refl, arith,
}
use pic_bed.Services.Reply.{status, error}
use pic_bed.Redis.Connect.{
  CacheConn, Attempt, Use, greet, init, connect_times, Spaced, InRange, connect_times-Spaced,
}

abbrev at : ℕ → Bool → Attempt
at time connects = record {
  time = time;
  connects = connects;
  auth = some (error (codes "ERR"));
  select = some (status (codes "OK"));
}

-- The constructor's members
abbrev fresh : CacheConn
fresh = record { connected = false; last_connect_time = 0 }

-- The server is down twice within one second, then up, and lost at once.
abbrev uses : List Use
uses =
    record { attempt = at 5 false; fails = false }
    ∷ record { attempt = at 5 true; fails = false }
    ∷ record { attempt = at 6 true; fails = true }
    ∷ record { attempt = at 6 true; fails = false }
    ∷ record { attempt = at 8 true; fails = false }
    ∷ record { attempt = at 9 true; fails = false }
    ∷ []

times_lem : connect_times (codes "") uses fresh ≡ 5 ∷ 6 ∷ 8 ∷ []
unfolding connect_times init greet
times_lem = refl

-- AUTH is refused, and the next call says that the connection is there.
refused : (init (codes "secret") (at 5 true) fresh).0 ≡ minus_one
unfolding init greet
refused = refl

kept : (init (codes "secret") (at 6 true) (init (codes "secret") (at 5 true) fresh).1).0 ≡ pos 0
unfolding init greet
kept = refl

early : 6 < 2 ^ 64
early = ground arith

later : 7 < 2 ^ 64
later = ground arith

uses-InRange : InRange uses
uses-InRange = (early, (early, (later, (later, (ground arith, (ground arith, tt))))))

connect_times-Spaced_example : Spaced 0 (connect_times (codes "") uses fresh)
connect_times-Spaced_example =
    connect_times-Spaced (codes "") uses fresh (ground arith) uses-InRange
