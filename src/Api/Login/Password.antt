-- ===== src/Api/Login/Password.antt =====
-- Who can log in (ApiUserLogin, api/api_login.cc).
use pic_bed.Prelude.{
  ℕ, Bool, true, false, Option, none, some, List, [], ◌∷◌, map, filter, Text, eq_of_text_eq, ◌≡◌,
  refl, sym, ap, ◌∙◌, pos, minus_one, is_negative, if◌then◌else◌,
}
use pic_bed.Services.{Services, Row, Column}
use pic_bed.Services.Statement.{select_password}
use pic_bed.Triple.{
  Triple, result, bind, pure_rule, leave_rule, stop_if_rule, need_rule, weaken, handler_ends,
}
use pic_bed.Sql.{Tables, User, IsSql, named}
use pic_bed.Sql.Rules.{call_rule}
use pic_bed.Sql.Queries.{answered_rule, known_rule}
use pic_bed.Api.Codes.{resp_ok}
use pic_bed.Api.Json.{LoginRequest, decode_login_json}
use pic_bed.Api.Login.{
  LoginAnswer, encode_login_json, password_status, login_decoded, verify_user_password,
  api_user_login,
}

abbrev first? : List User → Option Text
first? [] = none
first? (r ∷ rows) = some r.password

-- The password that user_info has for a user, in its first row.
abbrev pub password_of : Text → Tables → Option Text
password_of n t = first? (filter (named n) t.user_info)

matches : (b : Bool) → is_negative (if b then pos 0 else minus_one) ≡ false → b ≡ true
matches true e = refl
matches false e = cc

first_password :
    (o : Option (List Row)) (users : List User) (pwd : Text)
    → is_negative (password_status pwd o) ≡ false
    → ((rows : List Row)
        → o ≡ some rows
        → map (λ (r : Row). r.get_string Column.password) rows
          ≡ map (λ (r : User). r.password) users)
    → first? users ≡ some pwd
unfolding password_status
first_password none users pwd e h = cc
first_password (some []) users pwd e h = cc
first_password (some (r ∷ rs)) [] pwd e h = let q = h (r ∷ rs) refl in cc
first_password (some (r ∷ rs)) (u ∷ us) pwd e h =
    let q = h (r ∷ rs) refl in
    let m : r.get_string Column.password ≡ pwd = eq_of_text_eq _ _ (matches _ e) in cc

abbrev code_of : Option (Option LoginAnswer) → ℕ
code_of none = 0
code_of (some none) = 0
code_of (some (some a)) = a.code

-- An answer with the code of a failure is no success.
refused :
    {A : Type 0} (a : LoginAnswer) (token : Text)
    → some (some (encode_login_json 1 token)) ≡ some (some a)
    → a.code ≡ resp_ok
    → A
unfolding encode_login_json
refused a token e z = absurd (let q : 1 ≡ 0 = ap code_of e ∙ z in cc)

module _ {W : Type 0} {services : Services W} {view : W → Tables} (sql : IsSql services view)
    (body : Text) (before : Tables) where
  -- The body names a user and that user's password.
  abbrev pub Known : Type 0
  Known =
      (r : LoginRequest) × (decode_login_json services body ≡ some r)
      × (password_of r.user_name before ≡ some r.pwd)

  abbrev E : Option (Option LoginAnswer) → Tables → Type 0
  E r t = (a : LoginAnswer) → r ≡ some (some a) → a.code ≡ resp_ok → Known

  decoded_rule :
      (o : Option LoginRequest)
      → Triple view (λ t. t ≡ before) (login_decoded o) (λ r t. (t ≡ before) × (o ≡ some r)) E
  unfolding login_decoded encode_login_json
  decoded_rule none = leave_rule _ λ t p a e z. refused a [] e z
  decoded_rule (some r) = pure_rule r λ t p. (p, refl)

  verified :
      (r : LoginRequest)
      → Triple view
          (λ t. (decode_login_json services body ≡ some r) × (t ≡ before))
          (verify_user_password services r.user_name r.pwd)
          (λ v t. is_negative v ≡ false → Known)
          E
  unfolding verify_user_password
  verified r = bind (call_rule services.take_db_conn sql.take_db_conn_keeps) λ db.
      bind (need_rule db λ t p a e z. cc) λ _.
        bind (answered_rule sql (select_password r.user_name)) λ results. pure_rule _ λ t p e. (
          r,
          p.0.0,
          ap (password_of r.user_name) (sym p.0.1)
              ∙ first_password results (filter (named r.user_name) t.user_info) r.pwd e p.1.0,
        )

  api_user_login-E :
      Triple view (λ t. t ≡ before) (api_user_login services body) (λ a. E (some a)) E
  unfolding api_user_login
  api_user_login-E = bind (stop_if_rule _ _ λ t b p a e z. cc) λ _.
      bind (weaken (λ t p. p.1) (decoded_rule (decode_login_json services body))) λ r.
        bind
          (weaken {P = λ t. (decode_login_json services body ≡ some r) × (t ≡ before)}
            (λ t p. (p.1, p.0)) (verified r))
          λ v.
            bind (stop_if_rule _ _ λ t b p a e z. refused a [] e z)
              λ _. known_rule (λ t p a s b e z. p.1 p.0) λ t p a s b e z. p.1 p.0

  -- A login is answered with OK only where the body names a user that user_info has and the password
  -- that stands there.
  pub api_user_login-Known :
      (w : W) (answer : LoginAnswer)
      → view w ≡ before
      → result (api_user_login services body w) ≡ some (some answer)
      → answer.code ≡ resp_ok
      → Known
  api_user_login-Known w answer e = handler_ends E api_user_login-E w e answer
