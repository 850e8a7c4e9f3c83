-- ===== src/Api/Counts/Token.antt =====
-- Which tokens VerifyToken accepts (base/common.cc).
use pic_bed.Prelude.{
  Bool, true, false, some, Text, text_eq, text_eq_iff, ◌≡◌, ◌↔◌, refl, ℤ, pos, minus_one, ap,
  if◌then◌else◌, sym, ◌∙◌,
}
use pic_bed.Services.{Services, Command, Reply}
use pic_bed.Act.{Step, next, running}
use pic_bed.Redis
use pic_bed.Redis.{string_text, exchange, answered}
use pic_bed.Api.Counts.{verify_token}

accepted :
    (b : Bool)
    → (◌≡◌ {A = Step (Unit {0}) ℤ} (next (if b then pos 0 else minus_one)) (next (pos 0)))
      ↔ (b ≡ true)
accepted true = (λ e. refl, λ e. refl)
accepted false = (λ e. cc, λ e. cc)

module _ {W : Type 0} (services : Services W) where
  verify_token-run :
      (user token : Text) (w w1 w2 w3 : W) (reply : Reply)
      → services.take_cache_conn w ≡ (true, w1)
      → services.connect w1 ≡ (true, w2)
      → services.command (Command.get user) w2 ≡ (some reply, w3)
      → verify_token services {R = Unit {0}} user token w
        ≡ (next (if text_eq (string_text reply) token then pos 0 else minus_one), w3)
  unfolding verify_token Redis.get exchange answered running
  verify_token-run user token w w1 w2 w3 reply a b c = rw (a, b, c)

  -- With Redis connected and answering, a token is accepted exactly where it equals the string that
  -- Redis answers for the user; a nil reply, of a user without a session, counts as the empty string.
  pub verify_token_iff :
      (user token : Text) (w w1 w2 w3 : W) (reply : Reply)
      → services.take_cache_conn w ≡ (true, w1)
      → services.connect w1 ≡ (true, w2)
      → services.command (Command.get user) w2 ≡ (some reply, w3)
      → ((verify_token services {R = Unit {0}} user token w).0 ≡ next (pos 0))
        ↔ (string_text reply ≡ token)
  verify_token_iff user token w w1 w2 w3 reply a b c =
      let run = verify_token-run user token w w1 w2 w3 reply a b c in
      let fits = text_eq_iff (string_text reply) token in
      let test = accepted (text_eq (string_text reply) token) in
      (
        (λ e. fits.0 (test.0 (sym (ap (λ o. o.0) run) ∙ e))),
        λ e. ap (λ o. o.0) run ∙ test.1 (fits.1 e),
      )
