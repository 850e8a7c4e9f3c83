-- ===== src/Act.antt =====
-- A handler's run: it passes the world on, and at each step goes on with a value, leaves by
-- `goto END` or `return` with a result, or crashes (a NULL pointer or a write past an array).

use pic_bed.Prelude.{Bool, true, false, Option, none, some, if◌then◌else◌}

pub data Step (R A : Type 0) : Type 0 where
  next : A → Step R A
  stop : R → Step R A
  crash : Step R A

abbrev pub Act : Type 0 → Type 0 → Type 0 → Type 0
Act W R A = W → Step R A × W

-- What follows a step.
abbrev pub continue : {W R A B : Type 0} → (A → Act W R B) → Step R A → Act W R B
continue f (next a) w = f a w
continue f (stop r) w = (stop r, w)
continue f crash w = (crash, w)

infixl 5 ◌>>=◌ ◌>>◌
unfoldable pub ◌>>=◌ : {W R A B : Type 0} → Act W R A → (A → Act W R B) → Act W R B
◌>>=◌ m f w = let (s, w') = m w in continue f s w'

abbrev pub ◌>>◌ : {W R B : Type 0} → Act W R (Unit {0}) → Act W R B → Act W R B
m >> k = m >>= λ _. k

-- A `return` of a function that is called is its value for the caller.
abbrev pub returned : {R A : Type 0} → Step A A → Step R A
returned (next a) = next a
returned (stop a) = next a
returned crash = crash

module _ {W R : Type 0} where
  unfoldable pub pure : {A : Type 0} → A → Act W R A
  pure a w = (next a, w)

  -- `ret = r; goto END;` under a test
  unfoldable pub stop_if : Bool → R → Act W R (Unit {0})
  stop_if true r w = (stop r, w)
  stop_if false r w = (next tt, w)

  -- `goto END` with the result as it stands
  unfoldable pub leave : {A : Type 0} → R → Act W R A
  leave r w = (stop r, w)

  -- `if (test) { … } else { … }`
  unfoldable pub choose : {A : Type 0} → Bool → Act W R A → Act W R A → Act W R A
  choose b m n = if b then m else n

  -- a branch with no `else`
  unfoldable pub when : Bool → Act W R (Unit {0}) → Act W R (Unit {0})
  when b m = if b then m else (λ w. (next tt, w))

  -- a call whose return value is not looked at
  unfoldable pub ignore : {A : Type 0} → Act W R A → Act W R (Unit {0})
  unfolding ◌>>=◌
  ignore m = m >>= λ _ w. (next tt, w)

  -- a pointer is used: NULL crashes
  unfoldable pub need : Bool → Act W R (Unit {0})
  need true w = (next tt, w)
  need false w = (crash, w)

  -- a pointer to a value is used
  unfoldable pub some_or_crash : {A : Type 0} → Option A → Act W R A
  some_or_crash (some a) w = (next a, w)
  some_or_crash none w = (crash, w)

  -- a call of a service
  unfoldable pub call : {A : Type 0} → (W → A × W) → Act W R A
  call f w = let (a, w') = f w in (next a, w')

  -- a whole function that returns its result, called in a handler
  unfoldable pub inline : {A : Type 0} → Act W A A → Act W R A
  inline m w = let (s, w') = m w in (returned s, w')

-- Named on an `unfolding` line, it lets a run compute.
unfoldable pub running : Unit {0}
unfolding ◌>>=◌ pure stop_if leave choose when ignore need some_or_crash call inline
running = tt
