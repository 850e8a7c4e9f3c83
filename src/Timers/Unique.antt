-- ===== src/Timers/Unique.antt =====
-- AddTimer and RemoveTimer of base/event_dispatch.cc keep the timers apart.
use pic_bed.Prelude.{ℕ, false, none, List, [], ◌∷◌, ◌≡◌, refl, Bool-cases, inl, inr, arith}
use pic_bed.Timers.{TimerItem, is_timer, add_timer, remove_timer, find_timer}
use pic_bed.Timers.Punctual.{IsUnique, alone}

add_timer-none :
    (callback user_data interval tick : ℕ) (item : TimerItem) (items : List TimerItem)
    → is_timer callback user_data item ≡ false
    → find_timer item.callback item.user_data items ≡ none
    → find_timer item.callback item.user_data (add_timer callback user_data interval tick items)
      ≡ none
unfolding add_timer find_timer
add_timer-none callback user_data interval tick item [] k h = ground arith
add_timer-none callback user_data interval tick item (x ∷ items) k h =
    ground (arith, add_timer-none callback user_data interval tick item items)

remove_timer-none :
    (c d callback user_data : ℕ) (items : List TimerItem)
    → find_timer c d items ≡ none
    → find_timer c d (remove_timer callback user_data items) ≡ none
unfolding remove_timer find_timer
remove_timer-none c d callback user_data [] h = refl
remove_timer-none c d callback user_data (item ∷ items) h =
    ground (arith, remove_timer-none c d callback user_data items)

pub add_timer-IsUnique :
    (callback user_data interval tick : ℕ) (items : List TimerItem)
    → IsUnique items
    → IsUnique (add_timer callback user_data interval tick items)
unfolding add_timer find_timer
add_timer-IsUnique callback user_data interval tick [] u = (refl, tt)
add_timer-IsUnique callback user_data interval tick (item ∷ items) u =
    elim (Bool-cases (is_timer callback user_data item)) [
      | inl same ↦ rw same u
      | inr other ↦ rw other (
        add_timer-none callback user_data interval tick item items other u.0,
        add_timer-IsUnique callback user_data interval tick items u.1,
      )
    ]

remove_timer-IsUnique :
    (callback user_data : ℕ) (items : List TimerItem)
    → IsUnique items
    → IsUnique (remove_timer callback user_data items)
unfolding remove_timer
remove_timer-IsUnique callback user_data [] u = tt
remove_timer-IsUnique callback user_data (item ∷ items) u =
    elim (Bool-cases (is_timer callback user_data item)) [
      | inl same ↦ rw same u.1
      | inr other ↦ rw other (
        remove_timer-none item.callback item.user_data callback user_data items u.0,
        remove_timer-IsUnique callback user_data items u.1,
      )
    ]

-- A timer that is removed is not in the list, wherever its timers were apart.
remove_timer-removes :
    (callback user_data : ℕ) (items : List TimerItem)
    → IsUnique items
    → find_timer callback user_data (remove_timer callback user_data items) ≡ none
unfolding remove_timer find_timer
remove_timer-removes callback user_data [] u = refl
remove_timer-removes callback user_data (item ∷ items) u =
    elim (Bool-cases (is_timer callback user_data item)) [
      | inl same ↦ rw same (alone callback user_data item items same u.0)
      | inr other ↦ rw (other, other) (remove_timer-removes callback user_data items u.1)
    ]
