-- ===== src/Tests/Ticks.antt =====
-- The timer that http_conn.cc registers, beside another one.
use pic_bed.Prelude.{ℕ, some, List, [], ◌∷◌, ◌≡◌, ◌≤◌, ◌+◌, ◌*◌, refl, arith}
use pic_bed.Timers.{
  TimerItem, add_timer, pass, check_timer, check_turns, remove_timer, find_timer, calls,
}
use pic_bed.Timers.Punctual.{IsUnique, later, UpTo, check_turns-Punctual}
use pic_bed.Timers.Unique.{add_timer-IsUnique}

abbrev http_timer : TimerItem
http_timer = record { callback = 7; user_data = 0; interval = 1000; next_tick = 1500 }

abbrev timers : List TimerItem
timers = add_timer 7 0 1000 500 (add_timer 8 1 300 100 [])

timers_lem :
    timers
    ≡ record { callback = 8; user_data = 1; interval = 300; next_tick = 400 } ∷ http_timer ∷ []
unfolding add_timer
timers_lem = refl

removed : remove_timer 8 1 timers ≡ http_timer ∷ []
unfolding remove_timer add_timer
removed = refl

timers-IsUnique : IsUnique timers
timers-IsUnique = add_timer-IsUnique 7 0 1000 500 _ (add_timer-IsUnique 8 1 300 100 [] tt)

-- The second and the third turn come late, and the callback is called in both.
abbrev turns : List ℕ
turns = 600 ∷ 2600 ∷ 2700 ∷ 2800 ∷ []

turns-UpTo : UpTo 3000 turns
turns-UpTo = (ground arith, (ground arith, (ground arith, (ground arith, tt))))

two_calls : calls 7 0 (check_turns turns timers).0 ≡ 2
unfolding calls check_turns check_timer pass add_timer
two_calls = refl

registered : find_timer 7 0 timers ≡ some http_timer
unfolding find_timer add_timer
registered = refl

check_turns-Punctual_example :
    (find_timer 7 0 (check_turns turns timers).1
      ≡ some (later (calls 7 0 (check_turns turns timers).0) http_timer))
    × (1500 + calls 7 0 (check_turns turns timers).0 * 1000 ≤ 3000 + 1000)
check_turns-Punctual_example =
    check_turns-Punctual 7 0 3000 turns http_timer timers timers-IsUnique registered turns-UpTo
      (ground arith) (ground arith)
