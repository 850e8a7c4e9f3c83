-- ===== src/Api/Dispatch/Answers.antt =====
-- What ApiDealsharefile answers (api/api_deal_sharefile.cc).
use pic_bed.Prelude.{ℕ, Option, none, some, Text, ◌≡◌, refl}
use pic_bed.Services.{Services}
use pic_bed.Act.{Step, next, stop, crash, Act, pure, inline}
use pic_bed.Triple.{result}
use pic_bed.Api.Codes.{resp_ok, resp_fail}
use pic_bed.Api.Json.{ShareRequest, decode_dealsharefile_json}
use pic_bed.Api.Dispatch.{decoded, api_dealsharefile}
use pic_bed.Triple.{Triple, After, bind, pure_rule, choose_rule, inline_rule, handler_ends}
use pic_bed.Api.Query.{read_cmd}
use pic_bed.Api.Dispatch.Gate.{Quiet, read_cmd-Quiet}

-- The code, where there is one, is OK.
abbrev Ok : {S : Type 0} → Option ℕ → S → Type 0
Ok r t = (code : ℕ) → r ≡ some code → code ≡ resp_ok

module _ {W : Type 0} (services : Services W) where
  -- A handler that is called goes on with what it returns, or crashes.
  called :
      (m : Act W ℕ ℕ)
      → Triple {R = ℕ} (λ (w : W). w) (λ w. Unit {0}) (inline m) (λ r w. Unit {0}) Ok
  called m =
      inline_rule {F = λ r w. Unit {0}} (record { run = λ w p. any (m w) }) (λ a w p. tt)
        λ w p code e. cc
    where
      any : (o : Step ℕ ℕ × W) → After (λ (w : W). w) (λ r w. Unit {0}) (λ r w. Unit {0}) o
      any (next a, w) = tt
      any (stop r, w) = tt
      any (crash, w) = tt

  command_read :
      (url : Text)
      → Triple (λ (w : W). w) (λ w. Unit {0}) (read_cmd services url) (λ r w. Unit {0}) Ok
  command_read url = record {
    run = λ w p. go (read_cmd services url w) w (read_cmd-Quiet services url w);
  }
    where
      go : (o : Step ℕ Text × W) (w : W) → Quiet w o → After (λ (w : W). w) (λ r w. Unit {0}) Ok o
      go (next a, w') w q = tt
      go (stop r, w') w q = absurd (q.1 r refl)
      go (crash, w') w q = λ code e. cc

  body_read :
      (o : Option ShareRequest) (request : ShareRequest)
      → o ≡ some request
      → Triple (λ (w : W). w) (λ w. Unit {0}) (decoded o resp_fail) (λ r w. Unit {0}) Ok
  unfolding decoded pure
  body_read none request e = cc
  body_read (some r) request e = record { run = λ w p. tt }

  -- Once the body is decoded, ApiDealsharefile answers with code 0 unless it crashes, whatever its
  -- handler returned: the codes 1 and 5 of a failed cancel, save or pv do not reach the client.
  pub api_dealsharefile-Ok :
      (url body : Text) (request : ShareRequest) (w : W) (code : ℕ)
      → decode_dealsharefile_json services body ≡ some request
      → result (api_dealsharefile services url body w) ≡ some code
      → code ≡ resp_ok
  unfolding api_dealsharefile
  api_dealsharefile-Ok url body request w code e =
      handler_ends Ok
        (bind (command_read url) λ cmd. bind (body_read _ request e) λ r.
          bind
            (choose_rule _ (λ h. called _)
              λ h.
                choose_rule _ (λ h. called _)
                  λ h. choose_rule _ (λ h. called _) λ h. pure_rule _ λ t p. p)
            λ ret. pure_rule _ λ t p code q. cc)
        w tt code
