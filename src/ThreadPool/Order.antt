-- ===== src/ThreadPool/Order.antt =====
-- Tasks are handed out in the order in which they were pushed, and counted while they run
-- (base/thread_pool.cc).
use pic_bed.Prelude.{
  ℕ, zero, suc, ◌+◌, ◌≤◌, true, false, List, [], ◌∷◌, ◌++◌, append_assoc, ◌≡◌, refl, sym, ap, ◌∙◌,
  length, length-append, arith, if◌then◌else◌,
}
use pic_bed.ThreadPool.{
  Task, made, Pool, Phase, waiting, got, counted, worked, ended, exec, stop, get, advance,
  advance_at, is_expired, take_first, Event, exec_called, stop_called, thread_runs, happen, run_all,
  start, waiting_threads,
}

-- What a thread adds to atomic_
abbrev pub busy : Phase → ℕ
busy waiting = 0
busy (got task) = 0
busy (counted task) = 1
busy worked = 1
busy ended = 0

-- The tasks that a thread has taken and not yet run
abbrev pub held : Phase → ℕ
held waiting = 0
held (got task) = 1
held (counted task) = 1
held worked = 0
held ended = 0

abbrev pub sum : (Phase → ℕ) → List Phase → ℕ
sum f [] = 0
sum f (t ∷ threads) = f t + sum f threads

-- The laws of a pool whose other threads count `b` and hold `h` tasks
record Laws (b h : ℕ) (p : Pool) : Type 0 where
  in_order : p.taken ++ p.tasks ≡ p.pushed
  counts : p.atomic ≡ b
  once : length p.executed + h ≤ length p.taken

-- The laws at numbers that are the same
moved : {a b x y : ℕ} {p : Pool} → a ≡ x → b ≡ y → Laws a b p → Laws x y p
moved e f l = record {
  in_order = l.in_order;
  counts = let c = l.counts in omega arith;
  once = let o = l.once in omega arith;
}

record_executed :
    (b h : ℕ) (t : Task) (p : Pool)
    → Laws b (1 + h) p
    → Laws b h (record p { executed = p.executed ++ t ∷ [] })
record_executed b h t p l =
    let e : length (p.executed ++ t ∷ []) ≡ length p.executed + 1 =
      length-append p.executed (t ∷ []) in
    record { in_order = l.in_order; counts = l.counts; once = let o = l.once in omega arith }

less_held : (b h : ℕ) (p : Pool) → Laws b (1 + h) p → Laws b h p
less_held b h p l = record {
  in_order = l.in_order;
  counts = l.counts;
  once = let o = l.once in omega arith;
}

take_first-Laws :
    (b h : ℕ) (tasks : List Task) (p : Pool)
    → p.tasks ≡ tasks
    → Laws b h p
    → let (u, q) = take_first tasks p in Laws (busy u + b) (held u + h) q
take_first-Laws b h [] p e l = record {
  in_order = l.in_order;
  counts = let c = l.counts in omega arith;
  once = let o = l.once in omega arith;
}
take_first-Laws b h (t ∷ tasks) p e l =
    let n : length (p.taken ++ t ∷ []) ≡ length p.taken + 1 = length-append p.taken (t ∷ []) in
    record {
      in_order = append_assoc p.taken (t ∷ []) tasks ∙ ap (p.taken ++◌) (sym e) ∙ l.in_order;
      counts = let c = l.counts in omega arith;
      once = let o = l.once in omega arith;
    }

advance-Laws :
    (now b h : ℕ) (t : Phase) (p : Pool)
    → Laws (busy t + b) (held t + h) p
    → let (u, q) = advance now t p in Laws (busy u + b) (held u + h) q
unfolding advance get
advance-Laws now b h waiting p l =
    elim p.terminate
      as (λ stopped.
        let (u, q) = if stopped then (ended, p) else take_first p.tasks p in
        Laws (busy u + b) (held u + h) q) [
          | true ↦ l
          | false ↦ take_first-Laws b h p.tasks p refl (moved (omega arith) (omega arith) l)
        ]
advance-Laws now b h (got task) p l = record {
  in_order = l.in_order;
  counts = let c = l.counts in omega arith;
  once = l.once;
}
advance-Laws now b h (counted task) p l =
    elim (is_expired task now)
      as (λ expired.
        Laws (1 + b) (0 + h)
          (if expired then p else record p { executed = p.executed ++ task ∷ [] })) [
            | true ↦ moved refl (omega arith) (less_held (1 + b) h p l)
            | false ↦ moved refl (omega arith) (record_executed (1 + b) h task p l)
          ]
advance-Laws now b h worked p l = record {
  in_order = l.in_order;
  counts = let c = l.counts in omega arith;
  once = l.once;
}
advance-Laws now b h ended p l = l

advance_at-Laws :
    (i now b h : ℕ) (threads : List Phase) (p : Pool)
    → Laws (sum busy threads + b) (sum held threads + h) p
    → let (us, q) = advance_at now i threads p in Laws (sum busy us + b) (sum held us + h) q
unfolding advance_at
advance_at-Laws i now b h [] p l = l
advance_at-Laws zero now b h (t ∷ threads) p l = moved (omega arith) (omega arith) (
    advance-Laws now (sum busy threads + b) (sum held threads + h) t p
      (moved (omega arith) (omega arith) l))
advance_at-Laws (suc i) now b h (t ∷ threads) p l = moved (omega arith) (omega arith) (
    advance_at-Laws i now (busy t + b) (held t + h) threads p (moved (omega arith) (omega arith) l))

-- A pool and its threads, none of them left out
abbrev IsPool : List Phase × Pool → Type 0
IsPool (threads, p) = Laws (sum busy threads) (sum held threads) p

happen-IsPool :
    (e : Event) (threads : List Phase) (p : Pool)
    → IsPool (threads, p)
    → IsPool (happen e (threads, p))
unfolding happen exec stop
happen-IsPool (exec_called timeout_ms now func) threads p l = record {
  in_order =
      let task : Task = made timeout_ms now func in
      sym (append_assoc p.taken p.tasks (task ∷ [])) ∙ ap (◌++ task ∷ []) l.in_order;
  counts = l.counts;
  once = l.once;
}
happen-IsPool stop_called threads p l = record {
  in_order = l.in_order;
  counts = l.counts;
  once = l.once;
}
happen-IsPool (thread_runs i now) threads p l =
    moved (omega arith) (omega arith)
      (advance_at-Laws i now 0 0 threads p (moved (omega arith) (omega arith) l))

run_all-keeps : (events : List Event) (s : List Phase × Pool) → IsPool s → IsPool (run_all events s)
unfolding run_all
run_all-keeps [] s l = l
run_all-keeps (e ∷ events) s l = run_all-keeps events (happen e s) (happen-IsPool e s.0 s.1 l)

all_waiting : (n : ℕ) → (sum busy (waiting_threads n) ≡ 0) × (sum held (waiting_threads n) ≡ 0)
all_waiting zero = (refl, refl)
all_waiting (suc n) = let (b, h) = all_waiting n in (omega arith, omega arith)

start-IsPool : (n : ℕ) → IsPool (start n)
unfolding start
start-IsPool n =
    let (b, h) = all_waiting n in record { in_order = refl; counts = sym b; once = omega arith }

-- From Start on, whatever order Exec, Stop and the threads' steps come in: the tasks that Get handed
-- out, followed by those in the queue, are those that were pushed, in their order; atomic_ is the
-- number of the threads that counted themselves; and the tasks that ran and those that a thread
-- holds are at most as many as were handed out.
pub run_all-InOrder :
    (n : ℕ) (events : List Event)
    → let (threads, p) = run_all events (start n) in
      (p.taken ++ p.tasks ≡ p.pushed)
      × (p.atomic ≡ sum busy threads)
      × (length p.executed + sum held threads ≤ length p.taken)
run_all-InOrder n events =
    let l = run_all-keeps events (start n) (start-IsPool n) in (l.in_order, l.counts, l.once)
