-- ===== src/Util/Explode.antt =====
-- CStrExplode (base/util.cc): a C string split at a separator.
use pic_bed.Prelude.{
  ℕ, suc, ◌+◌, ◌≤◌, ◌<◌, Bool, true, false, ◌&&◌, List, [], ◌∷◌, ◌++◌, append-nil, append_assoc,
  Text, ◌≡◌, ◌≢◌, refl, sym, ap, ◌∙◌, length, ◌==◌, ==_iff, arith, if◌then◌else◌,
}

-- item_cnt_: the slots of item_list_
unfoldable pub item_cnt : ℕ → Text → ℕ
item_cnt seperator [] = 1
item_cnt seperator (c ∷ s) = (if c == seperator then 1 else 0) + item_cnt seperator s

-- `pos != start`, and `len != 0` at the end
abbrev is_started : Text → Bool
is_started [] = false
is_started (c ∷ s) = true

abbrev add_if : Bool → Text → List Text → List Text
add_if b item items = if b then item ∷ items else items

-- The slots that the loop fills: `start` is the text from start to pos.
unfoldable pub items_from : ℕ → Text → Text → List Text
items_from seperator start [] = add_if (is_started start) start []
items_from seperator start (c ∷ s) =
    let cut = is_started start && c == seperator in
    add_if cut start (items_from seperator (if cut then [] else start ++ c ∷ []) s)

-- The items of CStrExplode(str, seperator)
unfoldable pub items : ℕ → Text → List Text
unfolding items_from
items seperator str = items_from seperator [] str

length-items_from :
    (seperator : ℕ) (start s : Text) → length (items_from seperator start s) ≤ item_cnt seperator s
unfolding items_from item_cnt
length-items_from p [] [] = omega arith
length-items_from p (a ∷ start) [] = omega arith
length-items_from p [] (c ∷ s) =
    let h : length (items_from p (c ∷ []) s) ≤ item_cnt p s = length-items_from p (c ∷ []) s in
    ground arith
length-items_from p (a ∷ start) (c ∷ s) =
    by_case (c == p) (length-items_from p [] s) (length-items_from p (a ∷ start ++ c ∷ []) s)
  where
    by_case :
        (b : Bool)
        → length (items_from p [] s) ≤ item_cnt p s
        → length (items_from p (a ∷ start ++ c ∷ []) s) ≤ item_cnt p s
        → length (add_if b (a ∷ start) (items_from p (if b then [] else a ∷ start ++ c ∷ []) s))
          ≤ (if b then 1 else 0) + item_cnt p s
    by_case true h k = omega arith
    by_case false h k = omega arith

-- The loop fills no slot that was not allocated; behind a separator at the front it leaves at
-- least one slot unfilled.
pub items-Fit :
    (seperator : ℕ) (str : Text)
    → (length (items seperator str) ≤ item_cnt seperator str)
      × (length (items seperator (seperator ∷ str)) < item_cnt seperator (seperator ∷ str))
unfolding items items_from item_cnt
items-Fit p str =
    let h : length (items_from p (p ∷ []) str) ≤ item_cnt p str =
      length-items_from p (p ∷ []) str in
    (length-items_from p [] str, ground arith)

-- A text without the separator
abbrev IsFree : ℕ → Text → Type 0
IsFree seperator [] = Unit {0}
IsFree seperator (c ∷ s) = ((c == seperator) ≡ false) × IsFree seperator s

-- Texts that are not empty and do not have the separator
abbrev pub AreItems : ℕ → List Text → Type 0
AreItems seperator [] = Unit {0}
AreItems seperator (x ∷ xs) = (x ≢ []) × IsFree seperator x × AreItems seperator xs

-- The texts, each behind a separator
abbrev pub behind : ℕ → List Text → Text
behind seperator [] = []
behind seperator (x ∷ xs) = seperator ∷ x ++ behind seperator xs

item_cnt-free : (p : ℕ) (x s : Text) → IsFree p x → item_cnt p (x ++ s) ≡ item_cnt p s
unfolding item_cnt
item_cnt-free p [] s h = refl
item_cnt-free p (c ∷ x) s h =
    let e : item_cnt p (x ++ s) ≡ item_cnt p s = item_cnt-free p x s h.1 in rw (h.0) (omega arith)

items_from-free :
    (p : ℕ) (start x s : Text)
    → IsFree p x
    → items_from p start (x ++ s) ≡ items_from p (start ++ x) s
unfolding items_from
items_from-free p start [] s h = ap (λ (t : Text). items_from p t s) (sym (append-nil start))
items_from-free p [] (c ∷ x) s h = items_from-free p (c ∷ []) x s h.1
items_from-free p (a ∷ start) (c ∷ x) s h =
    ap
      (λ (b : Bool).
        add_if b (a ∷ start) (items_from p (if b then [] else a ∷ start ++ c ∷ []) (x ++ s)))
      h.0
    ∙ items_from-free p (a ∷ start ++ c ∷ []) x s h.1
    ∙ ap (λ (t : Text). items_from p t s) (append_assoc (a ∷ start) (c ∷ []) x)

item_cnt-behind :
    (p : ℕ) (xs : List Text) → AreItems p xs → item_cnt p (behind p xs) ≡ suc (length xs)
unfolding item_cnt
item_cnt-behind p [] h = refl
item_cnt-behind p (x ∷ xs) (_, free, more) =
    let e : item_cnt p (x ++ behind p xs) ≡ suc (length xs) =
      item_cnt-free p x (behind p xs) free ∙ item_cnt-behind p xs more in
    ground arith

items_from-behind :
    (p a : ℕ) (x : Text) (xs : List Text)
    → AreItems p xs
    → items_from p (a ∷ x) (behind p xs) ≡ (a ∷ x) ∷ xs
unfolding items_from
items_from-behind p a x [] h = refl
items_from-behind p a x ([] ∷ xs) (filled, _, _) = absurd (filled refl)
items_from-behind p a x ((c ∷ y) ∷ xs) (_, free, more) =
    ap
      (λ (b : Bool).
        add_if b (a ∷ x) (items_from p (if b then [] else a ∷ x ++ p ∷ []) (c ∷ y ++ behind p xs)))
      ((==_iff p p).1 refl)
    ∙ ap ((a ∷ x) ∷◌)
        (items_from-free p [] (c ∷ y) (behind p xs) free ∙ items_from-behind p c y xs more)

-- Texts that are not empty and do not have the separator, written with one separator between two of
-- them, are split into these texts, and each slot is filled.
pub items-behind :
    (seperator : ℕ) (x : Text) (xs : List Text)
    → AreItems seperator (x ∷ xs)
    → (items seperator (x ++ behind seperator xs) ≡ x ∷ xs)
      × (item_cnt seperator (x ++ behind seperator xs) ≡ length (x ∷ xs))
unfolding items
items-behind p [] xs (filled, _, _) = absurd (filled refl)
items-behind p (c ∷ x) xs (_, free, more) = (
  items_from-free p [] (c ∷ x) (behind p xs) free ∙ items_from-behind p c x xs more,
  item_cnt-free p (c ∷ x) (behind p xs) free ∙ item_cnt-behind p xs more,
)
