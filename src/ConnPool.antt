-- ===== src/ConnPool.antt =====
-- The connection pools: CDBPool (mysql/db_pool.cc), and CachePool (redis/cache_pool.cpp), whose Init,
-- GetCacheConn and RelCacheConn are the same code. A connection is named by a number, its address.
pub mod Threads
pub mod Taken
pub mod Bounds
pub mod Release
use pic_bed.Prelude.{
  ℕ, zero, suc, ◌+◌, ◌-◌, Bool, true, false, ◌||◌, not, Option, none, some, List, [], ◌∷◌, ◌++◌,
  length, ltb, leb, ◌==◌, if◌then◌else◌,
}

-- db_cur_conn_cnt_, db_max_conn_cnt_, free_list_ and abort_request_, which only the
-- destructor sets; `next_conn` is the next address
-- that `new CDBConn` gives out.
pub record ConnPool : Type 0 where
  pub cur_conn_cnt : ℕ
  pub max_conn_cnt : ℕ
  pub free_list : List ℕ
  pub abort_request : Bool
  pub next_conn : ℕ

-- What GetDBConn ends with: NULL, a connection, or not at all while it waits.
pub data Got : Type 0 where
  null : Got
  conn : ℕ → Got
  waits : Got

-- The loop of Init over the connections that are left to make; `init` tells which of CDBConn::Init
-- fail. none where one does.
unfoldable pub init_conns : (ℕ → Bool) → ℕ → ConnPool → Option ConnPool
init_conns init zero p = some p
init_conns init (suc left) p =
    let rest =
      init_conns init left
        (record p { free_list = p.free_list ++ p.next_conn ∷ []; next_conn = suc p.next_conn }) in
    if init p.next_conn then rest else none

-- The constructor, with MIN_DB_CONN_CNT connections to start with, and Init
unfoldable pub init_pool : (ℕ → Bool) → ℕ → ℕ → Option ConnPool
unfolding init_conns
init_pool init min_conn_cnt max_conn_cnt = init_conns init min_conn_cnt (record {
  cur_conn_cnt = min_conn_cnt;
  max_conn_cnt = max_conn_cnt;
  free_list = [];
  abort_request = false;
  next_conn = 0;
})

-- The front of free_list_, which is not empty where GetDBConn gets there
abbrev pop_front : List ℕ → ConnPool → Got × ConnPool
pop_front [] p = (waits, p)
pop_front (c ∷ rest) p = (conn c, record p { free_list = rest })

-- The branch of an empty free_list_; `up` is whether the Init of a new connection succeeds.
unfoldable pub grow_or_wait : Bool → ConnPool → Got × ConnPool
grow_or_wait up p =
    if leb p.max_conn_cnt p.cur_conn_cnt
    then (waits, p)
    else if up
    then (
      conn p.next_conn,
      record p { cur_conn_cnt = suc p.cur_conn_cnt; next_conn = suc p.next_conn },
    )
    else (null, record p { next_conn = suc p.next_conn })

-- GetDBConn with the timeout 0 of its callers, up to the wait
unfoldable pub get_conn : Bool → ConnPool → Got × ConnPool
unfolding grow_or_wait
get_conn up p =
    if p.abort_request
    then (null, p)
    else elim p.free_list [ [] ↦ grow_or_wait up p | c ∷ rest ↦ pop_front (c ∷ rest) p ]

-- What a thread does that waits and looks again: `!free_list_.empty() | abort_request_`, and behind it
unfoldable pub wake : ConnPool → Got × ConnPool
wake p = if p.abort_request then (null, p) else pop_front p.free_list p

abbrev pub is_free : ℕ → List ℕ → Bool
is_free c [] = false
is_free c (x ∷ xs) = x == c || is_free c xs

-- RelDBConn: a connection that is in free_list_ already is not put there again.
unfoldable pub rel_conn : ℕ → ConnPool → ConnPool
rel_conn c p = if is_free c p.free_list then p else record p { free_list = p.free_list ++ c ∷ [] }
