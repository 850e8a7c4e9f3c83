-- ===== src/Triple.antt =====
-- Assertions about the runs of Act.antt, on a view of the world. `Triple view P m Q E`: from a world
-- whose view has `P`, `m` goes on with a value `a` in a world whose view has `Q a`, or ends in one
-- with `E`, at `some r` where it left with the result `r` and at `none` where it crashed.
use pic_bed.Prelude.{Bool, true, false, Option, none, some, ◌≡◌, refl, ap}
use pic_bed.Act.{
  Step, next, stop, crash, Act, continue, ◌>>=◌, pure, stop_if, leave, choose, when, ignore, need,
  inline, some_or_crash,
}

abbrev pub After :
    {W R A S : Type 0}
    → (W → S)
    → (A → S → Type 0)
    → (Option R → S → Type 0)
    → Step R A × W
    → Type 0
After view Q E (next a, w) = Q a (view w)
After view Q E (stop r, w) = E (some r) (view w)
After view Q E (crash, w) = E none (view w)

pub record Triple {W R A S : Type 0} (view : W → S) (P : S → Type 0) (m : Act W R A)
    (Q : A → S → Type 0) (E : Option R → S → Type 0) : Type 0 where
  pub run : (w : W) → P (view w) → After view Q E (m w)

-- The result of a whole handler: none where it crashed.
abbrev pub result : {W R : Type 0} → Step R R × W → Option R
result (next r, w) = some r
result (stop r, w) = some r
result (crash, w) = none

module _ {W S R A : Type 0} (view : W → S) (E : Option R → S → Type 0) where
  strengthened :
      (Q T : A → S → Type 0)
      → ((a : A) (t : S) → Q a t → T a t)
      → (o : Step R A × W) → After view Q E o
      → After view T E o
  strengthened Q T h (next a, w) p = h a (view w) p
  strengthened Q T h (stop r, w) p = p
  strengthened Q T h (crash, w) p = p

  with_value :
      (Q : A → S → Type 0) (m : Act W R A) (w : W) (o : Step R A × W)
      → m w ≡ o
      → After view Q E o
      → After view (λ a t. Q a t × ((w : W) × ((m w).0 ≡ next a))) E o
  with_value Q m w (next a, v) e h = (h, (w, ap (λ (o : Step R A × W). o.0) e))
  with_value Q m w (stop r, v) e h = h
  with_value Q m w (crash, v) e h = h

module _ {W S : Type 0} {view : W → S} {R : Type 0} {E : Option R → S → Type 0} where
  module _ {A B : Type 0} where
    bind_after :
        (Q : A → S → Type 0) (T : B → S → Type 0) (f : A → Act W R B)
        → ((a : A) → Triple view (Q a) (f a) T E)
        → (o : Step R A × W) → After view Q E o
        → After view T E (continue f o.0 o.1)
    bind_after Q T f rest (next a, w) h = (rest a).run w h
    bind_after Q T f rest (stop r, w) h = h
    bind_after Q T f rest (crash, w) h = h

    -- Steps in sequence.
    pub bind :
        {P : S → Type 0} {m : Act W R A} {Q : A → S → Type 0} {f : A → Act W R B}
        {T : B → S → Type 0}
        → Triple view P m Q E
        → ((a : A) → Triple view (Q a) (f a) T E)
        → Triple view P (m >>= f) T E
    unfolding ◌>>=◌
    bind {m} {Q} {f} {T} first rest = record {
      run = λ w p. bind_after Q T f rest (m w) (first.run w p);
    }

  pub pure_rule :
      {A : Type 0} (a : A) {P : S → Type 0} {Q : A → S → Type 0}
      → ((t : S) → P t → Q a t)
      → Triple view P (pure a) Q E
  unfolding pure
  pure_rule a h = record { run = λ w p. h (view w) p }

  -- `if (test) { ret = r; goto END; }`
  pub stop_if_rule :
      {P : S → Type 0} (b : Bool) (r : R)
      → ((t : S) → b ≡ true → P t → E (some r) t)
      → Triple view P (stop_if b r) (λ _ t. (b ≡ false) × P t) E
  unfolding stop_if
  stop_if_rule true r h = record { run = λ w p. h (view w) refl p }
  stop_if_rule false r h = record { run = λ w p. (refl, p) }

  -- The same as the last step.
  pub stop_last_rule :
      {P T : S → Type 0} (b : Bool) (r : R)
      → ((t : S) → b ≡ true → P t → E (some r) t)
      → ((t : S) → b ≡ false → P t → T t)
      → Triple view P (stop_if b r) (λ _. T) E
  unfolding stop_if
  stop_last_rule true r h k = record { run = λ w p. h (view w) refl p }
  stop_last_rule false r h k = record { run = λ w p. k (view w) refl p }

  pub leave_rule :
      {A : Type 0} {P : S → Type 0} {Q : A → S → Type 0} (r : R)
      → ((t : S) → P t → E (some r) t)
      → Triple view P (leave r) Q E
  unfolding leave
  leave_rule r h = record { run = λ w p. h (view w) p }

  -- A call whose value is not looked at.
  pub ignore_rule :
      {A : Type 0} {P T : S → Type 0} {m : Act W R A}
      → Triple view P m (λ _. T) E
      → Triple view P (ignore m) (λ _. T) E
  unfolding ignore
  ignore_rule {T} h = bind h λ a. record { run = λ w p. p }

  -- A NULL pointer crashes where it is used.
  pub need_rule :
      {P : S → Type 0} (b : Bool) → ((t : S) → P t → E none t) → Triple view P (need b) (λ _. P) E
  unfolding need
  need_rule true h = record { run = λ w p. p }
  need_rule false h = record { run = λ w p. h (view w) p }

  -- A pointer to a value is used.
  pub some_or_crash_rule :
      {A : Type 0} {P : S → Type 0} (o : Option A)
      → ((t : S) → P t → E none t)
      → Triple view P (some_or_crash o) (λ _. P) E
  unfolding some_or_crash
  some_or_crash_rule none h = record { run = λ w p. h (view w) p }
  some_or_crash_rule (some a) h = record { run = λ w p. p }

  pub choose_rule :
      {A : Type 0} {P : S → Type 0} (b : Bool) {m n : Act W R A} {Q : A → S → Type 0}
      → (b ≡ true → Triple view P m Q E)
      → (b ≡ false → Triple view P n Q E)
      → Triple view P (choose b m n) Q E
  unfolding choose
  choose_rule true h k = h refl
  choose_rule false h k = k refl

  pub when_rule :
      {P : S → Type 0} (b : Bool) {m : Act W R (Unit {0})} {Q : Unit {0} → S → Type 0}
      → (b ≡ true → Triple view P m Q E)
      → ((t : S) → b ≡ false → P t → Q tt t)
      → Triple view P (when b m) Q E
  unfolding when
  when_rule true h k = h refl
  when_rule false h k = record { run = λ w p. k (view w) refl p }

  -- A function that is called: its `return`s are its value.
  pub inline_rule :
      {A : Type 0} {P : S → Type 0} {m : Act W A A} {Q : A → S → Type 0} {F : Option A → S → Type 0}
      → Triple view P m Q F
      → ((a : A) (t : S) → F (some a) t → Q a t)
      → ((t : S) → F none t → E none t)
      → Triple view P (inline m) Q E
  unfolding inline
  inline_rule {m} {Q} {F} h stopped crashed = record { run = λ w p. go (m w) (h.run w p) }
    where
      go : (o : Step _ _ × W) → After view Q F o → After view Q E (inline (λ (w : W). o) o.1)
      go (next a, w) h = h
      go (stop a, w) h = stopped a (view w) h
      go (crash, w) h = crashed (view w) h

  pub weaken :
      {A : Type 0} {P P' : S → Type 0} {m : Act W R A} {Q : A → S → Type 0}
      → ((t : S) → P' t → P t)
      → Triple view P m Q E
      → Triple view P' m Q E
  weaken before h = record { run = λ w p. h.run w (before (view w) p) }

  -- The value of a step is one that the step gives.
  pub valued :
      {A : Type 0} {P : S → Type 0} {m : Act W R A} {Q : A → S → Type 0}
      → Triple view P m Q E
      → Triple view P m (λ a t. Q a t × ((w : W) × ((m w).0 ≡ next a))) E
  valued {m} {Q} h = record { run = λ w p. with_value view E Q m w (m w) refl (h.run w p) }

  -- What is known after a step implies less.
  pub after :
      {A : Type 0} {P : S → Type 0} {m : Act W R A} {Q T : A → S → Type 0}
      → Triple view P m Q E
      → ((a : A) (t : S) → Q a t → T a t)
      → Triple view P m T E
  after {m} {Q} {T} h k = record { run = λ w p. strengthened view E Q T k (m w) (h.run w p) }

  module _ {A B C : Type 0} where
    regrouped :
        (Q : B → S → Type 0) (T : C → S → Type 0) (f : A → Act W R B) (g : B → Act W R C)
        → ((b : B) → Triple view (Q b) (g b) T E)
        → (o : Step R A × W) → After view Q E (continue f o.0 o.1)
        → After view T E (continue (λ a. f a >>= g) o.0 o.1)
    unfolding ◌>>=◌
    regrouped Q T f g rest (next a, w) h = bind_after Q T g rest (f a w) h
    regrouped Q T f g rest (stop r, w) h = h
    regrouped Q T f g rest (crash, w) h = h

    regroup :
        (P : S → Type 0) (m : Act W R A) (f : A → Act W R B) (g : B → Act W R C)
        (Q : B → S → Type 0) (T : C → S → Type 0)
        → Triple view P (m >>= f) Q E
        → ((b : B) → Triple view (Q b) (g b) T E)
        → Triple view P (m >>= λ a. f a >>= g) T E
    unfolding ◌>>=◌
    regroup P m f g Q T first rest = record {
      run = λ w p. regrouped Q T f g rest (m w) (first.run w p);
    }

    -- Steps in sequence, of which the first is a sequence.
    pub bind_two :
        {P : S → Type 0} (m : Act W R A) (f : A → Act W R B) (g : B → Act W R C)
        {Q : B → S → Type 0} {T : C → S → Type 0}
        → Triple view P (m >>= f) Q E
        → ((b : B) → Triple view (Q b) (g b) T E)
        → Triple view P (m >>= λ a. f a >>= g) T E
    bind_two {P} m f g {Q} {T} first rest = regroup P m f g Q T first rest

  -- What holds whatever the view is, is known from then on.
  pub given :
      {A B : Type 0} {P : S → Type 0} {m : Act W R A} {Q : A → S → Type 0}
      → (B → Triple view P m Q E)
      → Triple view (λ t. B × P t) m Q E
  given h = record { run = λ w p. (h p.0).run w p.1 }

-- What a whole handler ends with.
pub handler_ends :
    {W S R : Type 0} {view : W → S} {P : S → Type 0} {m : Act W R R} (E : Option R → S → Type 0)
    → Triple view P m (λ r. E (some r)) E
    → (w : W) → P (view w)
    → E (result (m w)) (view (m w).1)
handler_ends {view} {m} E h w p = go (m w) (h.run w p)
  where
    go : (o : Step _ _ × _) → After view (λ r. E (some r)) E o → E (result o) (view o.1)
    go (next r, w) h = h
    go (stop r, w) h = h
    go (crash, w) h = h
