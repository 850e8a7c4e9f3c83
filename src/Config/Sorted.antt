-- ===== src/Config/Sorted.antt =====
-- The map of a configuration is in the order of its names (std::map).
use pic_bed.Prelude.{
  false, some, true, List, [], ◌∷◌, ◌++◌, Text, ◌≡◌, refl, Bool-cases, inl, inr, arith,
}
use pic_bed.Config.{text_less, insert, assign, find}

pub text_less_trans :
    (a b c : Text) → text_less a b ≡ true → text_less b c ≡ true → text_less a c ≡ true
unfolding text_less
text_less_trans [] [] c h k = cc
text_less_trans [] (y ∷ b) [] h k = cc
text_less_trans [] (y ∷ b) (z ∷ c) h k = refl
text_less_trans (x ∷ a) [] c h k = cc
text_less_trans (x ∷ a) (y ∷ b) [] h k = cc
text_less_trans (x ∷ a) (y ∷ b) (z ∷ c) h k = ground (arith, text_less_trans a b c)

-- Each name is above `k`.
abbrev pub Above : Text → List (Text × Text) → Type 0
Above k [] = Unit
Above k ((j, w) ∷ m) = (text_less k j ≡ true) × Above k m

abbrev pub IsSorted : List (Text × Text) → Type 0
IsSorted [] = Unit
IsSorted ((j, w) ∷ m) = Above j m × IsSorted m

-- Each name is below `k`.
abbrev pub Below : Text → List (Text × Text) → Type 0
Below k [] = Unit
Below k ((j, w) ∷ m) = (text_less j k ≡ true) × Below k m

pub insert-last :
    (k v : Text) (m : List (Text × Text)) → Below k m → insert k v m ≡ m ++ (k, v) ∷ []
unfolding insert
insert-last k v [] h = refl
insert-last k v ((j, w) ∷ m) h = rw (h.0, insert-last k v m h.1) refl

Above-trans : (i k : Text) (m : List (Text × Text)) → text_less i k ≡ true → Above k m → Above i m
Above-trans i k [] l h = tt
Above-trans i k ((j, w) ∷ m) l h = (text_less_trans i k j l h.0, Above-trans i k m l h.1)

assign-Above :
    (i k v : Text) (m : List (Text × Text))
    → text_less i k ≡ true
    → Above i m
    → Above i (assign k v m)
unfolding assign
assign-Above i k v [] l h = (l, tt)
assign-Above i k v ((j, w) ∷ m) l h = elim (Bool-cases (text_less j k)) [
  | inl less ↦ rw less (h.0, assign-Above i k v m l h.1)
  | inr other ↦
      rw other
        (elim (Bool-cases (text_less k j)) [ inl more ↦ rw more (l, h) | inr same ↦ rw same h ])
]

-- SetConfigValue keeps the order.
pub assign-IsSorted : (k v : Text) (m : List (Text × Text)) → IsSorted m → IsSorted (assign k v m)
unfolding assign
assign-IsSorted k v [] h = (tt, tt)
assign-IsSorted k v ((j, w) ∷ m) h = elim (Bool-cases (text_less j k)) [
  | inl less ↦ rw less (assign-Above j k v m less h.0, assign-IsSorted k v m h.1)
  | inr other ↦ rw other (elim (Bool-cases (text_less k j)) [
    | inl more ↦ rw more ((more, Above-trans k j m more h.0), h)
    | inr same ↦ rw same h
  ])
]

-- Names of which none is less are the same.
pub text_less_same : (a b : Text) → text_less a b ≡ false → text_less b a ≡ false → a ≡ b
unfolding text_less
text_less_same [] [] h k = refl
text_less_same [] (y ∷ b) h k = cc
text_less_same (x ∷ a) [] h k = cc
text_less_same (x ∷ a) (y ∷ b) h k = ground (arith, text_less_same a b)

text_less_irreflexive : (a : Text) → text_less a a ≡ false
unfolding text_less
text_less_irreflexive [] = refl
text_less_irreflexive (x ∷ a) = ground (arith, text_less_irreflexive a)

-- The value that a name was given is found.
pub find-assign : (k v : Text) (m : List (Text × Text)) → find k (assign k v m) ≡ some v
unfolding find assign
find-assign k v [] = rw (text_less_irreflexive k) refl
find-assign k v ((j, w) ∷ m) = elim (Bool-cases (text_less j k)) [
  | inl less ↦ rw (less, find-assign k v m, less) refl
  | inr other ↦ rw other (elim (Bool-cases (text_less k j)) [
    | inl more ↦ rw (more, text_less_irreflexive k) refl
    | inr same ↦ rw (same, other, same) refl
  ])
]
