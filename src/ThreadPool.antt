-- ===== src/ThreadPool.antt =====
-- The thread pool (base/thread_pool.cc, base/thread_pool.h): the task queue, and its threads as an
-- interleaving of their steps under the mutex.
pub mod Order
use pic_bed.Prelude.{
  ℕ, zero, suc, ◌+◌, ◌-◌, ◌≤◌, Bool, true, false, ◌&&◌, not, List, [], ◌∷◌, ◌++◌, append-nil,
  append_assoc, ◌≡◌, refl, sym, ap, ◌∙◌, length, length-append, ltb, ◌==◌, arith, if◌then◌else◌,
}

-- TaskFunc; `func` names what _func runs.
pub record Task : Type 0 where
  pub expire_time : ℕ
  pub func : ℕ

-- tasks_, terminate_ and atomic_, and the history: the tasks that Exec pushed, that Get handed out
-- and whose _func was run
pub record Pool : Type 0 where
  pub tasks : List Task
  pub terminate : Bool
  pub atomic : ℕ
  pub pushed : List Task
  pub taken : List Task
  pub executed : List Task

-- Where a thread stands in Run
pub data Phase : Type 0 where
  waiting : Phase
  got : Task → Phase
  counted : Task → Phase
  worked : Phase
  ended : Phase

-- The task that Exec makes at the time `now`; it does not expire when timeout_ms is 0.
abbrev pub made : ℕ → ℕ → ℕ → Task
made timeout_ms now func = record {
  expire_time = if timeout_ms == 0 then 0 else now + timeout_ms;
  func = func;
}

-- Exec
unfoldable pub exec : ℕ → ℕ → ℕ → Pool → Pool
exec timeout_ms now func p =
    let task : Task = made timeout_ms now func in
    record p { tasks = p.tasks ++ task ∷ []; pushed = p.pushed ++ task ∷ [] }

-- Stop, up to the threads' join
unfoldable pub stop : Pool → Pool
stop p = record p { terminate = true }

abbrev pub take_first : List Task → Pool → Phase × Pool
take_first [] p = (waiting, p)
take_first (task ∷ tasks) p = (got task, record p { tasks = tasks; taken = p.taken ++ task ∷ [] })

-- Get: a thread waits until there is a task or the pool is stopped.
unfoldable pub get : Pool → Phase × Pool
get p = if p.terminate then (ended, p) else take_first p.tasks p

abbrev pub is_expired : Task → ℕ → Bool
is_expired task now = not (task.expire_time == 0) && ltb task.expire_time now

-- One step of Run at the time `now`
unfoldable pub advance : ℕ → Phase → Pool → Phase × Pool
unfolding get
advance now waiting p = get p
advance now (got task) p = (counted task, record p { atomic = p.atomic + 1 })
advance now (counted task) p =
    (worked, if is_expired task now then p else record p { executed = p.executed ++ task ∷ [] })
advance now worked p = (waiting, record p { atomic = p.atomic - 1 })
advance now ended p = (ended, p)

-- One step of the thread `i` at the time `now`
unfoldable pub advance_at : ℕ → ℕ → List Phase → Pool → List Phase × Pool
unfolding advance
advance_at now i [] p = ([], p)
advance_at now zero (t ∷ threads) p = let (u, q) = advance now t p in (u ∷ threads, q)
advance_at now (suc i) (t ∷ threads) p = let (us, q) = advance_at now i threads p in (t ∷ us, q)

-- What happens next
pub data Event : Type 0 where
  exec_called : ℕ → ℕ → ℕ → Event
  stop_called : Event
  thread_runs : ℕ → ℕ → Event

unfoldable pub happen : Event → List Phase × Pool → List Phase × Pool
unfolding exec stop advance_at
happen (exec_called timeout_ms now func) (threads, p) = (threads, exec timeout_ms now func p)
happen stop_called (threads, p) = (threads, stop p)
happen (thread_runs i now) (threads, p) = advance_at now i threads p

unfoldable pub run_all : List Event → List Phase × Pool → List Phase × Pool
unfolding happen
run_all [] s = s
run_all (e ∷ events) s = run_all events (happen e s)

abbrev pub waiting_threads : ℕ → List Phase
waiting_threads zero = []
waiting_threads (suc n) = waiting ∷ waiting_threads n

-- The pool behind Init(n) and Start
unfoldable pub start : ℕ → List Phase × Pool
start n = (
  waiting_threads n,
  record { tasks = []; terminate = false; atomic = 0; pushed = []; taken = []; executed = [] },
)
