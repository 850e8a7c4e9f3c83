-- ===== src/ConnPool/Bounds.antt =====
-- However the threads take and give back connections, none is in two places, and there are never
-- more than the larger of the two limits (CDBPool, mysql/db_pool.cc).
use pic_bed.Prelude.{
  nth?, without, ℕ, zero, suc, ◌+◌, ◌≤◌, Bool, true, false, Option, none, some, List, [], ◌∷◌, ◌++◌,
  ◌≡◌, refl, subst, length, length-append, ◌==◌, arith, if◌then◌else◌,
}
use pic_bed.ConnPool.{
  ConnPool, Got, null, conn, waits, init_conns, init_pool, get_conn, wake, is_free, rel_conn,
}
use pic_bed.ConnPool.Threads.{
  times, Clients, PoolEvent, asks, looks_again, gives_back, asked, looked, given_back, pool_step,
  pool_run,
}
use pic_bed.ConnPool.Taken.{
  Placed, Pooled, moved, fresh, times-last, PooledAfter, get_conn-Pooled, wake-Pooled,
}

asked-Pooled :
    (top : ℕ) (s : Clients) (o : Got × ConnPool)
    → PooledAfter top s.held o
    → Pooled top (asked o s).0.held (asked o s).1
asked-Pooled top s (null, p) l = l
asked-Pooled top s (conn c, p) l = l
asked-Pooled top s (waits, p) l = l

looked-Pooled :
    (top : ℕ) (s : Clients) (o : Got × ConnPool)
    → PooledAfter top s.held o
    → Pooled top (looked o s).0.held (looked o s).1
looked-Pooled top s (null, p) l = l
looked-Pooled top s (conn c, p) l = l
looked-Pooled top s (waits, p) l = l

times-without :
    (c i x : ℕ) (held : List ℕ)
    → nth? i held ≡ some x
    → times c (without i held) + (if x == c then 1 else 0) ≡ times c held
times-without c i x [] e = cc
times-without c zero x (y ∷ held) e = ground arith
times-without c (suc i) x (y ∷ held) e = ground (arith, times-without c i x held e)

pub length-without :
    (i x : ℕ) (held : List ℕ) → nth? i held ≡ some x → length (without i held) + 1 ≡ length held
length-without i x [] e = cc
length-without zero x (y ∷ held) e = omega arith
length-without (suc i) x (y ∷ held) e = omega (arith, length-without i x held e)

-- A connection that a thread has is not free.
pub not_free : (c : ℕ) (free : List ℕ) → times c free ≡ 0 → is_free c free ≡ false
not_free c [] e = refl
not_free c (x ∷ xs) e = ground (arith, not_free c xs)

pub nth-times : (i c : ℕ) (held : List ℕ) → nth? i held ≡ some c → 1 ≤ times c held
nth-times i c [] e = cc
nth-times zero c (y ∷ held) e = ground arith
nth-times (suc i) c (y ∷ held) e = ground (arith, nth-times i c held e)

given_back-Pooled :
    (top i : ℕ) (o : Option ℕ) (s : Clients) (p : ConnPool)
    → nth? i s.held ≡ o
    → Pooled top s.held p
    → let (t, q) = given_back i o (s, p) in Pooled top t.held q
unfolding rel_conn
given_back-Pooled top i none s p e l = l
given_back-Pooled top i (some c) s p e l =
    let here = nth-times i c s.held e in
    let once = (l.places c).once in
    let gone : is_free c p.free_list ≡ false = not_free c p.free_list (omega arith) in
    rw gone (record {
      places = λ x.
          moved
            (let a = times-without x i c s.held e in
              let b = times-last x c p.free_list in omega arith)
            (l.places x);
      counted =
          let n = l.counted in
          let a = length-without i c s.held e in
          let b : length (p.free_list ++ c ∷ []) ≡ length p.free_list + 1 =
            length-append p.free_list (c ∷ []) in
          omega arith;
      bounded = l.bounded;
      limit = l.limit;
      runs = l.runs;
    })

step-Pooled :
    (top : ℕ) (e : PoolEvent) (s : Clients) (p : ConnPool)
    → Pooled top s.held p
    → let (t, q) = pool_step e (s, p) in Pooled top t.held q
unfolding pool_step
step-Pooled top (asks up) s p l =
    asked-Pooled top s (get_conn up p) (get_conn-Pooled top s.held p up l)
step-Pooled top looks_again s p l =
    elim (s.waiting == 0)
      as (λ b. let (t, q) = if b then (s, p) else looked (wake p) s in Pooled top t.held q) [
        | true ↦ l
        | false ↦ looked-Pooled top s (wake p) (wake-Pooled top s.held p l)
      ]
step-Pooled top (gives_back i) s p l = given_back-Pooled top i (nth? i s.held) s p refl l

run-Pooled :
    (top : ℕ) (events : List PoolEvent) (s : Clients) (p : ConnPool)
    → Pooled top s.held p
    → let (t, q) = pool_run events (s, p) in Pooled top t.held q
unfolding pool_run
run-Pooled top [] s p l = l
run-Pooled top (e ∷ events) s p l =
    let (t, q) = pool_step e (s, p) in run-Pooled top events t q (step-Pooled top e s p l)

init_conns-Pooled :
    (top : ℕ) (init : ℕ → Bool) (left : ℕ) (p q : ConnPool)
    → ((c : ℕ) → Placed c (times c p.free_list) p.next_conn)
    → length p.free_list + left ≡ p.cur_conn_cnt
    → p.cur_conn_cnt ≤ top
    → p.max_conn_cnt ≤ top
    → p.abort_request ≡ false
    → init_conns init left p ≡ some q
    → Pooled top [] q
unfolding init_conns
init_conns-Pooled top init zero p q places counted bounded limit runs e =
    let same : p ≡ q = cc in
    subst (Pooled top []) same (record {
      places = λ c. moved (omega arith) (places c);
      counted = omega arith;
      bounded = bounded;
      limit = limit;
      runs = runs;
    })
init_conns-Pooled top init (suc left) p q places counted bounded limit runs e =
    let next : ConnPool = record p {
      free_list = p.free_list ++ p.next_conn ∷ [];
      next_conn = suc p.next_conn;
    } in
    elim (init p.next_conn)
        as (λ b. (if b then init_conns init left next else none) ≡ some q → Pooled top [] q) [
          | true ↦ λ e.
              init_conns-Pooled top init left next q
                (λ c.
                  fresh c _ _ p.next_conn (omega (arith, times-last c p.next_conn p.free_list))
                    (places c))
                (omega (arith, length-append {0} p.free_list (p.next_conn ∷ []))) bounded limit runs
                e
          | false ↦ λ e. cc
        ]
      e

-- What the threads and the pool come to, from Init on
abbrev pub reached : ConnPool → List PoolEvent → Clients × ConnPool
reached p events = pool_run events (record { held = []; waiting = 0 }, p)

pub reached-Pooled :
    (init : ℕ → Bool) (min_conns max_conns top : ℕ) (p : ConnPool) (events : List PoolEvent)
    → init_pool init min_conns max_conns ≡ some p
    → min_conns ≤ top
    → max_conns ≤ top
    → let (s, q) = reached p events in Pooled top s.held q
unfolding init_pool
reached-Pooled init min_conns max_conns top p events e h k =
    run-Pooled top events (record { held = []; waiting = 0 }) p
      (init_conns-Pooled top init min_conns _ p
        (λ c. record { once = omega arith; made = λ h. refl }) (omega arith) h k refl e)

-- From Init on, in whatever order the threads ask for connections, wait and give them back: no
-- connection is in two places, those that the threads have and the free ones are as many as the pool
-- counts, and these are at most as many as the larger one of the number at the start and the limit.
pub pool_run_bounds :
    (init : ℕ → Bool) (min_conns max_conns top : ℕ) (p : ConnPool) (events : List PoolEvent)
    → init_pool init min_conns max_conns ≡ some p
    → min_conns ≤ top
    → max_conns ≤ top
    → let (s, q) = reached p events in
      ((c : ℕ) → times c s.held + times c q.free_list ≤ 1)
      × (length s.held + length q.free_list ≡ q.cur_conn_cnt)
      × (q.cur_conn_cnt ≤ top)
pool_run_bounds init min_conns max_conns top p events e h k =
    let l = reached-Pooled init min_conns max_conns top p events e h k in
    (λ c. (l.places c).once, l.counted, l.bounded)
