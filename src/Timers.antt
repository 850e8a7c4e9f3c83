-- ===== src/Timers.antt =====
-- The timers of CEventDispatch (base/event_dispatch.cc). A function and a pointer are numbers here.
-- A callback is taken to leave the list of timers alone, as that of http_conn.cc does.
pub mod Punctual
pub mod Unique
use pic_bed.Prelude.{
  ℕ, suc, ◌+◌, ◌%◌, ◌^◌, Bool, true, false, ◌&&◌, Option, none, some, List, [], ◌∷◌, ◌++◌, ◌==◌,
  leb, if◌then◌else◌,
}

-- CEventDispatch::TimerItem
pub record TimerItem : Type 0 where
  pub callback : ℕ
  pub user_data : ℕ
  pub interval : ℕ
  pub next_tick : ℕ

-- `pItem->callback == callback && pItem->user_data == user_data`
abbrev pub is_timer : ℕ → ℕ → TimerItem → Bool
is_timer callback user_data item = (item.callback == callback) && (item.user_data == user_data)

-- `GetTickCount() + interval`, a number of 64 bits
abbrev tick_after : ℕ → ℕ → ℕ
tick_after tick interval = (tick + interval) % 2 ^ 64

-- CEventDispatch::AddTimer, where GetTickCount answers `tick`
unfoldable pub add_timer : ℕ → ℕ → ℕ → ℕ → List TimerItem → List TimerItem
add_timer callback user_data interval tick [] =
    record {
      callback = callback;
      user_data = user_data;
      interval = interval;
      next_tick = tick_after tick interval;
    }
    ∷ []
add_timer callback user_data interval tick (item ∷ items) =
    let rest = add_timer callback user_data interval tick items in
    if is_timer callback user_data item
    then record {
      callback = item.callback;
      user_data = item.user_data;
      interval = interval;
      next_tick = tick_after tick interval;
    }
      ∷ items
    else item ∷ rest

-- CEventDispatch::RemoveTimer
unfoldable pub remove_timer : ℕ → ℕ → List TimerItem → List TimerItem
remove_timer callback user_data [] = []
remove_timer callback user_data (item ∷ items) =
    let rest = remove_timer callback user_data items in
    if is_timer callback user_data item then items else item ∷ rest

-- What CEventDispatch::_CheckTimer makes of an item
unfoldable pub pass : ℕ → TimerItem → TimerItem
pass tick item =
    if leb item.next_tick tick
    then record {
      callback = item.callback;
      user_data = item.user_data;
      interval = item.interval;
      next_tick = tick_after item.next_tick item.interval;
    }
    else item

-- CEventDispatch::_CheckTimer: the items whose callbacks it calls, in order, and the list behind it
unfoldable pub check_timer : ℕ → List TimerItem → List TimerItem × List TimerItem
unfolding pass
check_timer tick [] = ([], [])
check_timer tick (item ∷ items) =
    let rest = check_timer tick items in
    (if leb item.next_tick tick then item ∷ rest.0 else rest.0, pass tick item ∷ rest.1)

-- Turns of the event loop, each with its answer of GetTickCount: the items called and the list
unfoldable pub check_turns : List ℕ → List TimerItem → List TimerItem × List TimerItem
unfolding check_timer
check_turns [] items = ([], items)
check_turns (tick ∷ ticks) items =
    let checked = check_timer tick items in
    let rest = check_turns ticks checked.1 in (checked.0 ++ rest.0, rest.1)

-- The first timer of the callback and its pointer
unfoldable pub find_timer : ℕ → ℕ → List TimerItem → Option TimerItem
find_timer callback user_data [] = none
find_timer callback user_data (item ∷ items) =
    let rest = find_timer callback user_data items in
    if is_timer callback user_data item then some item else rest

-- How many of the items are the timer's
unfoldable pub calls : ℕ → ℕ → List TimerItem → ℕ
calls callback user_data [] = 0
calls callback user_data (item ∷ items) =
    let rest = calls callback user_data items in
    if is_timer callback user_data item then suc rest else rest
