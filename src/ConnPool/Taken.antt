-- ===== src/ConnPool/Taken.antt =====
-- Where the connections of the pool are (CDBPool, mysql/db_pool.cc), and what a call that takes one
-- makes of this.
use pic_bed.Prelude.{
  ℕ, suc, ◌+◌, ◌≤◌, Bool, true, false, List, [], ◌∷◌, ◌++◌, ◌≡◌, refl, sym, ap, ◌∙◌, length, leb,
  ◌==◌, count_if-append, arith, if◌then◌else◌, Bool-cases, inl, inr,
}
use pic_bed.ConnPool.{ConnPool, Got, null, conn, waits, pop_front, grow_or_wait, get_conn, wake}
use pic_bed.ConnPool.Threads.{times}

-- Where a connection `c` stands `n` times: in one place at most, and in none before it is made.
pub record Placed (c n next : ℕ) : Type 0 where
  pub once : n ≤ 1
  pub made : next ≤ c → n ≡ 0

-- `top` is the larger one of the number of connections at the start and the limit.
pub record Pooled (top : ℕ) (held : List ℕ) (p : ConnPool) : Type 0 where
  pub places : (c : ℕ) → Placed c (times c held + times c p.free_list) p.next_conn
  pub counted : length held + length p.free_list ≡ p.cur_conn_cnt
  pub bounded : p.cur_conn_cnt ≤ top
  pub limit : p.max_conn_cnt ≤ top
  pub runs : p.abort_request ≡ false

-- A connection goes from one place to another.
pub moved : {c n m next : ℕ} → m ≡ n → Placed c n next → Placed c m next
moved e l = record {
  once = let o = l.once in omega arith;
  made = λ h. let m = l.made h in omega arith;
}

-- A new connection stands in one place; one that could not be made in none.
pub fresh :
    (c n m next : ℕ)
    → m ≤ n + (if next == c then 1 else 0)
    → Placed c n next
    → Placed c m (suc next)
fresh c n m next h l = record {
  once = elim (Bool-cases (next == c)) [
    | inl e ↦
        let z = l.made (ground (arith, e)) in
        let k : m ≤ n + 1 = ground (arith, e, h) in omega arith
    | inr e ↦ let o = l.once in ground (arith, e, h)
  ];
  made = λ later. let z = l.made (omega arith) in ground (arith, h);
}

pub times-first :
    (c x : ℕ) (xs ys : List ℕ) → times c (x ∷ xs) + times c ys ≡ times c xs + times c (x ∷ ys)
times-first c x xs ys = ground arith

pub times-last :
    (c x : ℕ) (xs : List ℕ) → times c (xs ++ x ∷ []) ≡ times c xs + (if x == c then 1 else 0)
times-last c x xs = count_if-append (λ y. y == c) xs (x ∷ []) ∙ ground arith

abbrev pub held_after : Got → List ℕ → List ℕ
held_after null held = held
held_after (conn c) held = c ∷ held
held_after waits held = held

abbrev pub PooledAfter : ℕ → List ℕ → Got × ConnPool → Type 0
PooledAfter top held (got, p) = Pooled top (held_after got held) p

module _ (top : ℕ) (held : List ℕ) (p : ConnPool) where
  popped :
      (free : List ℕ)
      → p.free_list ≡ free
      → Pooled top held p
      → PooledAfter top held (pop_front free p)
  popped [] e l = l
  popped (x ∷ rest) e l = record {
    places = λ c.
        moved (times-first c x held rest ∙ ap (λ (xs : List ℕ). times c held + times c xs) (sym e))
          (l.places c);
    counted = let n = l.counted in let m = ap length e in omega arith;
    bounded = l.bounded;
    limit = l.limit;
    runs = l.runs;
  }

  made_conn :
      (up : Bool)
      → leb p.max_conn_cnt p.cur_conn_cnt ≡ false
      → Pooled top held p
      → PooledAfter top held (
          if up
          then (
            conn p.next_conn,
            record p { cur_conn_cnt = suc p.cur_conn_cnt; next_conn = suc p.next_conn },
          )
          else (null, record p { next_conn = suc p.next_conn }))
  made_conn true room l = record {
    places = λ c. fresh c _ _ p.next_conn (ground arith) (l.places c);
    counted = let n = l.counted in omega arith;
    bounded = let m = l.limit in ground (arith, room);
    limit = l.limit;
    runs = l.runs;
  }
  made_conn false room l = record {
    places = λ c. fresh c _ _ p.next_conn (ground arith) (l.places c);
    counted = l.counted;
    bounded = l.bounded;
    limit = l.limit;
    runs = l.runs;
  }

  grown : (up : Bool) → Pooled top held p → PooledAfter top held (grow_or_wait up p)
  unfolding grow_or_wait
  grown up l = elim (Bool-cases (leb p.max_conn_cnt p.cur_conn_cnt)) [
    | inl full ↦ rw full l
    | inr room ↦ rw room (made_conn up room l)
  ]

  asked_for :
      (up : Bool) (free : List ℕ)
      → p.free_list ≡ free
      → Pooled top held p
      → PooledAfter top held
          (elim free [ [] ↦ grow_or_wait up p | c ∷ rest ↦ pop_front (c ∷ rest) p ])
  asked_for up [] e l = grown up l
  asked_for up (c ∷ rest) e l = popped (c ∷ rest) e l

  pub get_conn-Pooled : (up : Bool) → Pooled top held p → PooledAfter top held (get_conn up p)
  unfolding get_conn
  get_conn-Pooled up l =
      elim p.abort_request
        as (λ b. PooledAfter top held (
          if b
          then (null, p)
          else elim p.free_list [ [] ↦ grow_or_wait up p | c ∷ rest ↦ pop_front (c ∷ rest) p ])) [
            | true ↦ l
            | false ↦ asked_for up p.free_list refl l
          ]

  pub wake-Pooled : Pooled top held p → PooledAfter top held (wake p)
  unfolding wake
  wake-Pooled l =
      elim p.abort_request
        as (λ b. PooledAfter top held (if b then (null, p) else pop_front p.free_list p)) [
          | true ↦ l
          | false ↦ popped p.free_list refl l
        ]
