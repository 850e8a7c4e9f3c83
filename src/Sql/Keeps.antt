-- ===== src/Sql/Keeps.antt =====
-- Runs that leave the tables as they are, and the rules by which a run is one.
use pic_bed.Prelude.{Bool, true, false, Option, none, some, ◌≡◌, refl, ◌∙◌}
use pic_bed.Act.{
  Step, next, stop, crash, Act, continue, ◌>>=◌, pure, stop_if, leave, when, ignore, need, call,
  inline, some_or_crash, choose,
}
use pic_bed.Sql.{Tables}

module _ {W : Type 0} (view : W → Tables) where
  pub record Keeps {R A : Type 0} (m : Act W R A) : Type 0 where
    pub same : (w : W) → view (m w).1 ≡ view w

  module _ {R A B : Type 0} where
    after-Keeps :
        (f : A → Act W R B)
        → ((a : A) → Keeps (f a))
        → (o : Step R A × W) → view (continue f o.0 o.1).1 ≡ view o.1
    after-Keeps f rest (next a, w) = (rest a).same w
    after-Keeps f rest (stop r, w) = refl
    after-Keeps f rest (crash, w) = refl

    pub bind-Keeps :
        {m : Act W R A} {f : A → Act W R B} → Keeps m → ((a : A) → Keeps (f a)) → Keeps (m >>= f)
    unfolding ◌>>=◌
    bind-Keeps {m} {f} first rest = record { same = λ w. after-Keeps f rest (m w) ∙ first.same w }

  module _ {R : Type 0} where
    pub pure-Keeps : {A : Type 0} (a : A) → Keeps (pure {R = R} a)
    unfolding pure
    pure-Keeps a = record { same = λ w. refl }

    pub stop_if-Keeps : (b : Bool) (r : R) → Keeps (stop_if b r)
    unfolding stop_if
    stop_if-Keeps true r = record { same = λ w. refl }
    stop_if-Keeps false r = record { same = λ w. refl }

    pub call-Keeps :
        {A : Type 0} (f : W → A × W) → ((w : W) → view (f w).1 ≡ view w) → Keeps (call {R = R} f)
    unfolding call
    call-Keeps f h = record { same = h }

    pub inline-Keeps : {A : Type 0} {m : Act W A A} → Keeps m → Keeps (inline {R = R} m)
    unfolding inline
    inline-Keeps h = record { same = h.same }

    pub leave-Keeps : {A : Type 0} (r : R) → Keeps (leave {A = A} r)
    unfolding leave
    leave-Keeps r = record { same = λ w. refl }

    pub need-Keeps : (b : Bool) → Keeps (need {R = R} b)
    unfolding need
    need-Keeps true = record { same = λ w. refl }
    need-Keeps false = record { same = λ w. refl }

    pub some_or_crash-Keeps : {A : Type 0} (o : Option A) → Keeps (some_or_crash {R = R} o)
    unfolding some_or_crash
    some_or_crash-Keeps none = record { same = λ w. refl }
    some_or_crash-Keeps (some a) = record { same = λ w. refl }

    pub ignore-Keeps : {A : Type 0} {m : Act W R A} → Keeps m → Keeps (ignore m)
    unfolding ignore
    ignore-Keeps h = bind-Keeps h (λ a. record { same = λ w. refl })

    pub when-Keeps : (b : Bool) {m : Act W R (Unit {0})} → Keeps m → Keeps (when b m)
    unfolding when
    when-Keeps true h = h
    when-Keeps false h = record { same = λ w. refl }

    pub choose-Keeps :
        {A : Type 0} (b : Bool) {m n : Act W R A} → Keeps m → Keeps n → Keeps (choose b m n)
    unfolding choose
    choose-Keeps true h k = h
    choose-Keeps false h k = k

pub ruleset keeps_rules = (
  bind-Keeps, pure-Keeps, stop_if-Keeps, inline-Keeps, leave-Keeps, need-Keeps, some_or_crash-Keeps,
  ignore-Keeps, when-Keeps, choose-Keeps,
)
