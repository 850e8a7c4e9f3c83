-- ===== src/Timers/Punctual.antt =====
-- What the timers of base/event_dispatch.cc do over many turns of the event loop.
use pic_bed.Prelude.{
  ℕ, ◌+◌, ◌*◌, ◌^◌, ◌≤◌, ◌<◌, true, false, none, some, List, [], ◌∷◌, ◌++◌, ◌≡◌, refl, sym, ap, leb,
  if◌then◌else◌, Bool-cases, inl, inr, arith,
}
use pic_bed.Timers.{TimerItem, is_timer, pass, check_timer, check_turns, find_timer, calls}

-- No two timers have the callback and the pointer in common.
abbrev pub IsUnique : List TimerItem → Type 0
IsUnique [] = Unit
IsUnique (item ∷ items) = (find_timer item.callback item.user_data items ≡ none) × IsUnique items

module _ (callback user_data : ℕ) where
  pass-is_timer :
      (tick : ℕ) (item : TimerItem)
      → is_timer callback user_data (pass tick item) ≡ is_timer callback user_data item
  unfolding pass
  pass-is_timer tick item = ground arith

  check_timer-none :
      (tick : ℕ) (items : List TimerItem)
      → find_timer callback user_data items ≡ none
      → find_timer callback user_data (check_timer tick items).1 ≡ none
  unfolding check_timer find_timer
  check_timer-none tick [] h = refl
  check_timer-none tick (item ∷ items) h =
      rw (pass-is_timer tick item) (ground (arith, check_timer-none tick items))

  calls-none :
      (tick : ℕ) (items : List TimerItem)
      → find_timer callback user_data items ≡ none
      → calls callback user_data (check_timer tick items).0 ≡ 0
  unfolding check_timer find_timer calls
  calls-none tick [] h = refl
  calls-none tick (item ∷ items) h = ground (arith, calls-none tick items)

  find_timer-head :
      (item head : TimerItem) (items : List TimerItem)
      → is_timer callback user_data head ≡ true
      → find_timer callback user_data (head ∷ items) ≡ some item
      → head ≡ item
  unfolding find_timer
  find_timer-head item head items same h = cc

  find_timer-tail :
      (item head : TimerItem) (items : List TimerItem)
      → is_timer callback user_data head ≡ false
      → find_timer callback user_data (head ∷ items) ≡ some item
      → find_timer callback user_data items ≡ some item
  unfolding find_timer
  find_timer-tail item head items other h = cc

  find_timer-check_timer :
      (tick : ℕ) (item : TimerItem) (items : List TimerItem)
      → find_timer callback user_data items ≡ some item
      → find_timer callback user_data (check_timer tick items).1 ≡ some (pass tick item)
  unfolding check_timer find_timer
  find_timer-check_timer tick item [] h = cc
  find_timer-check_timer tick item (head ∷ items) h =
      rw (pass-is_timer tick head) (elim (Bool-cases (is_timer callback user_data head)) [
        | inl same ↦ rw (same, find_timer-head item head items same h) refl
        | inr other ↦
            rw other
              (find_timer-check_timer tick item items (find_timer-tail item head items other h))
      ])

  pub alone :
      (head : TimerItem) (items : List TimerItem)
      → is_timer callback user_data head ≡ true
      → find_timer head.callback head.user_data items ≡ none
      → find_timer callback user_data items ≡ none
  alone head items same u =
      let c : head.callback ≡ callback = ground arith in
      let d : head.user_data ≡ user_data = ground arith in rw (sym c, sym d) u

  calls-check_timer :
      (tick : ℕ) (item : TimerItem) (items : List TimerItem)
      → IsUnique items
      → find_timer callback user_data items ≡ some item
      → calls callback user_data (check_timer tick items).0
        ≡ (if leb item.next_tick tick then 1 else 0)
  unfolding check_timer find_timer calls
  calls-check_timer tick item [] u h = cc
  calls-check_timer tick item (head ∷ items) u h =
      elim (Bool-cases (is_timer callback user_data head)) [
        | inl same ↦
            let e : head ≡ item = find_timer-head item head items same h in
            let none_left = calls-none tick items (alone head items same u.0) in
            rw (sym e) (ground arith)
        | inr other ↦
            let tail = find_timer-tail item head items other h in
            let rest = calls-check_timer tick item items u.1 tail in ground arith
      ]

  calls-append :
      (xs ys : List TimerItem)
      → calls callback user_data (xs ++ ys)
        ≡ calls callback user_data xs + calls callback user_data ys
  unfolding calls
  calls-append [] ys = omega arith
  calls-append (x ∷ xs) ys = ground (arith, calls-append xs ys)

pass-callback : (tick : ℕ) (item : TimerItem) → (pass tick item).callback ≡ item.callback
unfolding pass
pass-callback tick item = ground arith

pass-user_data : (tick : ℕ) (item : TimerItem) → (pass tick item).user_data ≡ item.user_data
unfolding pass
pass-user_data tick item = ground arith

check_timer-IsUnique :
    (tick : ℕ) (items : List TimerItem) → IsUnique items → IsUnique (check_timer tick items).1
unfolding check_timer
check_timer-IsUnique tick [] u = tt
check_timer-IsUnique tick (item ∷ items) u =
    rw (pass-callback tick item, pass-user_data tick item)
      (
        check_timer-none item.callback item.user_data tick items u.0,
        check_timer-IsUnique tick items u.1,
      )

abbrev pub at_tick : ℕ → TimerItem → TimerItem
at_tick tick item = record {
  callback = item.callback;
  user_data = item.user_data;
  interval = item.interval;
  next_tick = tick;
}

-- The item with its tick `n` intervals later
abbrev pub later : ℕ → TimerItem → TimerItem
later n item = at_tick (item.next_tick + n * item.interval) item

later-zero : (item : TimerItem) → later 0 item ≡ item
later-zero item = ap (λ tick. at_tick tick item) (omega arith)

later-later : (m n : ℕ) (item : TimerItem) → later m (later n item) ≡ later (n + m) item
later-later m n item = ap (λ tick. at_tick tick item) (ground arith)

-- No tick is above `bound`.
abbrev pub UpTo : ℕ → List ℕ → Type 0
UpTo bound [] = Unit
UpTo bound (tick ∷ ticks) = (tick ≤ bound) × UpTo bound ticks

abbrev pub once : ℕ → TimerItem → ℕ
once tick item = if leb item.next_tick tick then 1 else 0

pass-later :
    (bound tick : ℕ) (item : TimerItem)
    → tick ≤ bound
    → bound + item.interval < 2 ^ 64
    → pass tick item ≡ later (once tick item) item
unfolding pass
pass-later bound tick item h k = elim (Bool-cases (leb item.next_tick tick)) [
  | inl due ↦ rw due (ap (λ t. at_tick t item) (ground arith))
  | inr early ↦ rw early (sym (later-zero item))
]

pass_bounds :
    (bound tick : ℕ) (item : TimerItem)
    → tick ≤ bound
    → bound + item.interval < 2 ^ 64
    → item.next_tick ≤ bound + item.interval
    → (pass tick item).next_tick ≤ bound + item.interval
unfolding pass
pass_bounds bound tick item h k b = ground arith

pass-interval : (tick : ℕ) (item : TimerItem) → (pass tick item).interval ≡ item.interval
unfolding pass
pass-interval tick item = ground arith

below_moved : (bound : ℕ) {i j n m : ℕ} → i ≡ j → n ≡ m → n ≤ bound + i → m ≤ bound + j
below_moved bound e f h = omega arith

-- Over turns of the event loop whose clock stays within a bound, from a list without two timers of
-- the same callback and pointer: the next tick of a timer moves by its interval with each call of
-- its callback, without a drift, and stays below the bound and one interval, so that there is at
-- most one call for each interval.
pub check_turns-Punctual :
    (callback user_data bound : ℕ) (ticks : List ℕ) (item : TimerItem) (items : List TimerItem)
    → IsUnique items
    → find_timer callback user_data items ≡ some item
    → UpTo bound ticks
    → bound + item.interval < 2 ^ 64
    → item.next_tick ≤ bound + item.interval
    → let n = calls callback user_data (check_turns ticks items).0 in
      (find_timer callback user_data (check_turns ticks items).1 ≡ some (later n item))
      × (item.next_tick + n * item.interval ≤ bound + item.interval)
unfolding check_turns calls
check_turns-Punctual callback user_data bound [] item items u h k r b =
    rw (later-zero item) (h, ground arith)
check_turns-Punctual callback user_data bound (tick ∷ ticks) item items u h k r b =
    let after : List TimerItem = (check_timer tick items).1 in
    let m : ℕ = calls callback user_data (check_turns ticks after).0 in
    let passed : TimerItem = pass tick item in
    let rest =
      check_turns-Punctual callback user_data bound ticks passed after
        (check_timer-IsUnique tick items u)
        (find_timer-check_timer callback user_data tick item items h) k.1
        (rw (pass-interval tick item) r)
        (rw (pass-interval tick item) (pass_bounds bound tick item k.0 r b)) in
    let called : calls callback user_data
          ((check_timer tick items).0 ++ (check_turns ticks after).0)
        ≡ once tick item + m =
      rw
        (
          calls-append callback user_data (check_timer tick items).0 (check_turns ticks after).0,
          calls-check_timer callback user_data tick item items u h,
        )
        refl in
    let moved : later m passed ≡ later (once tick item + m) item =
      rw (pass-later bound tick item k.0 r) (later-later m (once tick item) item) in
    let tick_moved : passed.next_tick + m * passed.interval
        ≡ item.next_tick + (once tick item + m) * item.interval =
      ap (λ (t : TimerItem). t.next_tick) moved in
    rw (called, sym moved) (rest.0, below_moved bound (pass-interval tick item) tick_moved rest.1)
