-- ===== src/Tests/Pools.antt =====
-- Two threads and a pool of one connection.
use pic_bed.Prelude.{ℕ, ◌+◌, ◌≤◌, Bool, true, false, some, List, [], ◌∷◌, ◌≡◌, refl, arith, length}
use pic_bed.ConnPool.{ConnPool, init_pool}
use pic_bed.ConnPool.Threads.{PoolEvent, asks, looks_again, gives_back, times, pool_step, pool_run}
use pic_bed.ConnPool.Bounds.{reached, pool_run_bounds}
use pic_bed.ConnPool.Release.{pool_run-served}

abbrev every : ℕ → Bool
every c = true

abbrev pool : ConnPool
pool = record {
  cur_conn_cnt = 1;
  max_conn_cnt = 1;
  free_list = 0 ∷ [];
  abort_request = false;
  next_conn = 1;
}

made : init_pool every 1 1 ≡ some pool
unfolding init_pool
made = refl

abbrev both_ask : List PoolEvent
both_ask = asks true ∷ asks true ∷ []

one_waits : (reached pool both_ask).0.waiting ≡ 1
unfolding pool_run
one_waits = refl

pool_run_bounds_example :
    let (s, q) = reached pool both_ask in
    ((c : ℕ) → times c s.held + times c q.free_list ≤ 1)
    × (length s.held + length q.free_list ≡ q.cur_conn_cnt)
    × (q.cur_conn_cnt ≤ 1)
pool_run_bounds_example = pool_run_bounds every 1 1 1 pool both_ask made (omega arith) (omega arith)

pool_run-served_example :
    let (t, q) = pool_step looks_again (pool_step (gives_back 0) (reached pool both_ask)) in
    (length t.held ≡ length (reached pool both_ask).0.held)
    × (t.waiting + 1 ≡ (reached pool both_ask).0.waiting)
unfolding pool_run
pool_run-served_example = pool_run-served every 1 1 0 0 pool both_ask made refl (omega arith)
