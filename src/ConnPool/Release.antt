-- ===== src/ConnPool/Release.antt =====
-- A thread that waits is served: it waits only while every connection is in use, and gets the one
-- that is given back (CDBPool, mysql/db_pool.cc).
use pic_bed.Prelude.{
  nth?, without, ℕ, ◌+◌, ◌≤◌, ◌<◌, Bool, false, Option, some, List, [], ◌∷◌, ◌++◌, ◌≡◌, refl, ap,
  ◌∙◌, length, length-append, arith, if◌then◌else◌,
}
use pic_bed.ConnPool.{ConnPool, init_pool, wake, rel_conn, is_free}
use pic_bed.ConnPool.Threads.{Clients, PoolEvent, looks_again, gives_back, given_back, pool_step}
use pic_bed.ConnPool.Taken.{Pooled}
use pic_bed.ConnPool.Bounds.{reached, reached-Pooled, length-without, nth-times, not_free}

first_of : (free : List ℕ) → 0 < length free → (c : ℕ) × (rest : List ℕ) × (free ≡ c ∷ rest)
first_of [] h = absurd (omega arith)
first_of (c ∷ rest) h = (c, rest, refl)

-- A look at a pool that has a free connection
looks_again-served :
    (s : Clients) (p : ConnPool)
    → p.abort_request ≡ false
    → 1 ≤ s.waiting
    → 1 ≤ length p.free_list
    → let (t, q) = pool_step looks_again (s, p) in
      (length t.held ≡ length s.held + 1) × (t.waiting + 1 ≡ s.waiting)
unfolding pool_step wake
looks_again-served s p runs w f = let (c, rest, e) = first_of p.free_list f in ground (arith, e)

gives_back-freed :
    (top i c : ℕ) (s : Clients) (p : ConnPool)
    → Pooled top s.held p
    → nth? i s.held ≡ some c
    → pool_step (gives_back i) (s, p)
      ≡ (record s { held = without i s.held }, record p { free_list = p.free_list ++ c ∷ [] })
unfolding pool_step rel_conn
gives_back-freed top i c s p l e =
    let here = nth-times i c s.held e in
    let once = (l.places c).once in
    let gone : is_free c p.free_list ≡ false = not_free c p.free_list (omega arith) in
    ap (λ (o : Option ℕ). given_back i o (s, p)) e
    ∙ ap
        (λ (b : Bool). (
          record s { held = without i s.held },
          if b then p else record p { free_list = p.free_list ++ c ∷ [] },
        ))
        gone

freed-served :
    (top i c : ℕ) (s : Clients) (p : ConnPool)
    → Pooled top s.held p
    → nth? i s.held ≡ some c
    → 1 ≤ s.waiting
    → let (t, q) = pool_step looks_again (pool_step (gives_back i) (s, p)) in
      (length t.held ≡ length s.held) × (t.waiting + 1 ≡ s.waiting)
freed-served top i c s p l e w =
    let freed : ConnPool = record p { free_list = p.free_list ++ c ∷ [] } in
    let left : Clients = record s { held = without i s.held } in
    let more : length (p.free_list ++ c ∷ []) ≡ length p.free_list + 1 =
      length-append p.free_list (c ∷ []) in
    let (n, k) = looks_again-served left freed l.runs w (omega arith) in
    let fewer = length-without i c s.held e in
    rw (gives_back-freed top i c s p l e) (omega arith, k)

-- From Init on, where a thread waits and another one gives a connection back, the next look of a
-- thread that waits ends with a connection: one thread less waits, and as many connections are in use
-- as before.
pub pool_run-served :
    (init : ℕ → Bool) (min_conns max_conns i c : ℕ) (p : ConnPool) (events : List PoolEvent)
    → init_pool init min_conns max_conns ≡ some p
    → nth? i (reached p events).0.held ≡ some c
    → 1 ≤ (reached p events).0.waiting
    → let (t, q) = pool_step looks_again (pool_step (gives_back i) (reached p events)) in
      (length t.held ≡ length (reached p events).0.held)
      × (t.waiting + 1 ≡ (reached p events).0.waiting)
pool_run-served init min_conns max_conns i c p events made e w =
    freed-served (min_conns + max_conns) i c _ _
      (reached-Pooled init min_conns max_conns _ p events made (omega arith) (omega arith)) e w
