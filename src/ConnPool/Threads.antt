-- ===== src/ConnPool/Threads.antt =====
-- The threads beside the pool (CDBPool, mysql/db_pool.cc): their calls, one after the other.
use pic_bed.Prelude.{
  nth?, without, ℕ, suc, ◌-◌, Bool, Option, none, some, List, [], ◌∷◌, ◌==◌, count_if,
  if◌then◌else◌,
}
use pic_bed.ConnPool.{ConnPool, Got, null, conn, waits, get_conn, wake, rel_conn}

-- How often a connection stands in a list
abbrev pub times : ℕ → List ℕ → ℕ
times c = count_if (λ x. x == c)

-- The threads' side: the connections that they have, and how many threads wait
pub record Clients : Type 0 where
  pub held : List ℕ
  pub waiting : ℕ

-- One call of a thread. A thread that waits may look again at any time: which one notify_one of
-- RelDBConn wakes is not modelled; `gives_back i` is the end of a scope with AUTO_REL_DBCONN.
pub data PoolEvent : Type 0 where
  asks : Bool → PoolEvent
  looks_again : PoolEvent
  gives_back : ℕ → PoolEvent

abbrev pub asked : Got × ConnPool → Clients → Clients × ConnPool
asked (null, p) s = (s, p)
asked (conn c, p) s = (record s { held = c ∷ s.held }, p)
asked (waits, p) s = (record s { waiting = suc s.waiting }, p)

abbrev pub looked : Got × ConnPool → Clients → Clients × ConnPool
looked (null, p) s = (record s { waiting = s.waiting - 1 }, p)
looked (conn c, p) s = (record { held = c ∷ s.held; waiting = s.waiting - 1 }, p)
looked (waits, p) s = (s, p)

abbrev pub given_back : ℕ → Option ℕ → Clients × ConnPool → Clients × ConnPool
given_back i none (s, p) = (s, p)
given_back i (some c) (s, p) = (record s { held = without i s.held }, rel_conn c p)

unfoldable pub pool_step : PoolEvent → Clients × ConnPool → Clients × ConnPool
unfolding get_conn wake rel_conn
pool_step (asks up) (s, p) = asked (get_conn up p) s
pool_step looks_again (s, p) = if s.waiting == 0 then (s, p) else looked (wake p) s
pool_step (gives_back i) (s, p) = given_back i (nth? i s.held) (s, p)

unfoldable pub pool_run : List PoolEvent → Clients × ConnPool → Clients × ConnPool
unfolding pool_step
pool_run [] s = s
pool_run (e ∷ events) s = pool_run events (pool_step e s)
