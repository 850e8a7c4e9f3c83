-- ===== src/Tests/Threads.antt =====
-- Two threads and three tasks.
use pic_bed.Prelude.{[], ◌∷◌, ◌++◌, length, List, ◌+◌, ◌≤◌, ◌≡◌, refl}
use pic_bed.ThreadPool.{made, Event, exec_called, thread_runs, run_all, start}
use pic_bed.ThreadPool.Order.{busy, held, sum, run_all-InOrder}

-- The second task expires before it runs.
abbrev events : List Event
events =
    exec_called 0 1 7
    ∷ exec_called 4 1 8
    ∷ exec_called 0 1 7
    ∷ thread_runs 0 1
    ∷ thread_runs 1 1
    ∷ thread_runs 1 2
    ∷ thread_runs 0 2
    ∷ thread_runs 1 9
    ∷ thread_runs 0 9
    ∷ []

ran : (run_all events (start 2)).1.executed ≡ made 0 1 7 ∷ []
unfolding run_all start
ran = refl

run_all-InOrder_example :
    ((run_all events (start 2)).1.taken ++ (run_all events (start 2)).1.tasks
      ≡ (run_all events (start 2)).1.pushed)
    × ((run_all events (start 2)).1.atomic ≡ sum busy (run_all events (start 2)).0)
    × (length (run_all events (start 2)).1.executed + sum held (run_all events (start 2)).0
        ≤ length (run_all events (start 2)).1.taken)
run_all-InOrder_example = run_all-InOrder 2 events

-- The queue, which WaitForAllDone looks at, is empty while the only task runs.
still_busy :
    let p = (run_all (exec_called 0 1 7 ∷ thread_runs 0 1 ∷ []) (start 1)).1 in
    (p.tasks ≡ []) × (p.executed ≡ [])
unfolding run_all start
still_busy = (refl, refl)
