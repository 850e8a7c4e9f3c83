-- ===== src/Api/Dispatch/Gate.antt =====
-- What ApiDealfile and ApiMd5 do without a valid token (api/api_dealfile.cc, api/api_md5.cc,
-- VerifyToken of base/common.cc).
use pic_bed.Prelude.{
  ℕ, Bool, true, false, not, Option, none, some, [], Text, codes, text_eq, ◌≡◌, ◌∙◌, refl, ℤ, pos,
  minus_one, negsuc, zero, suc, equals, if◌then◌else◌, strstr, drop, length, ltb, ap, arith, subst,
  sym, ◌∷◌,
}
use pic_bed.Services.{Services}
use pic_bed.Act.{
  Step, next, stop, crash, Act, continue, ◌>>=◌, ◌>>◌, stop_if, pure, returned, need, choose,
  inline, call, running,
}
use pic_bed.Triple.{result}
use pic_bed.Redis
use pic_bed.Sql.{Tables, IsSql}
use pic_bed.Sql.Keeps.{Keeps, keeps_rules, call-Keeps}
use pic_bed.Sql.RedisKeeps.{get-Keeps}
use pic_bed.Api.Codes.{resp_ok, resp_fail, resp_token_err}
use pic_bed.Api.Counts.{verify_token}
use pic_bed.Api.Json.{FileRequest, decode_dealfile_json, decode_md5_json}
use pic_bed.Api.Query.{read_cmd, query_parse_key_value, value_behind, behind_key, copied}
use pic_bed.Api.Dispatch.{decoded, api_dealfile, api_md5}

-- The tables are as before, and the answer is not OK.
abbrev pub Refused : {W : Type 0} → (W → Tables) → W → Step ℕ ℕ × W → Type 0
Refused view w o = (view o.1 ≡ view w) × ¬ (result o ≡ some resp_ok)

nonzero : (v : ℤ) → ¬ (v ≡ pos 0) → not (equals v 0) ≡ true
nonzero (pos zero) h = absurd (h refl)
nonzero (pos (suc n)) h = ground arith
nonzero (negsuc n) h = refl

-- The run leaves the world alone and does not end the handler, unless it crashes.
abbrev pub Quiet : {W R A : Type 0} → W → Step R A × W → Type 0
Quiet {R} w o = (o.1 ≡ w) × ((r : R) → ¬ (o.0 ≡ stop r))

module _ {W R : Type 0} (services : Services W) where
  behind_key-Quiet : (s : Text) (w : W) → Quiet w (behind_key {R = R} s w)
  unfolding behind_key
  behind_key-Quiet [] w = (refl, λ r e. cc)
  behind_key-Quiet (c ∷ s) w = (refl, λ r e. cc)

  value_behind-Quiet :
      (key : Text) (o : Option Text) (w : W) → Quiet w (value_behind {R = R} key o w)
  unfolding value_behind pure
  value_behind-Quiet key none w = (refl, λ r e. cc)
  value_behind-Quiet key (some found) w = behind_key-Quiet (drop (length key) found) w

  need-Quiet : (b : Bool) (cmd : Text) (w : W) → Quiet w ((need {R = R} b >> pure cmd) w)
  unfolding running
  need-Quiet true cmd w = (refl, λ r e. cc)
  need-Quiet false cmd w = (refl, λ r e. cc)

  copied-Quiet : (value : Option Text) (w : W) → Quiet w (copied {R = R} services value w)
  unfolding copied pure
  copied-Quiet none w = (refl, λ r e. cc)
  copied-Quiet (some cmd) w = need-Quiet (ltb (length cmd) 20) cmd w

  step-Quiet :
      (o : Step R (Option Text) × W) (w : W)
      → Quiet w o
      → Quiet w (continue (copied services) o.0 o.1)
  step-Quiet (next value, w') w h = ((copied-Quiet value w').0 ∙ h.0, (copied-Quiet value w').1)
  step-Quiet (stop r, w') w h = absurd (h.1 r refl)
  step-Quiet (crash, w') w h = (h.0, λ r e. cc)

  pub read_cmd-Quiet : (url : Text) (w : W) → Quiet w (read_cmd {R = R} services url w)
  unfolding read_cmd query_parse_key_value ◌>>=◌
  read_cmd-Quiet url w =
      step-Quiet (query_parse_key_value url (codes "cmd") w) w
        (value_behind-Quiet (codes "cmd") (strstr (codes "cmd") url) w)

module _ {W : Type 0} (services : Services W) where
  answered_next :
      (f : Text → ℤ) (o : Step Text Text × W) (r : ℕ)
      → ¬ ((continue (λ s. pure {R = ℕ} (f s)) (returned o.0) o.1).0 ≡ stop r)
  unfolding running
  answered_next f (next s, w) r e = cc
  answered_next f (stop s, w) r e = cc
  answered_next f (crash, w) r e = cc

  taken_returns :
      (u t : Text) (o : Bool × W) (r : ℕ)
      → ¬ (
          (continue
            (λ cache. choose cache (inline (Redis.get services u)) (pure []) >>= λ stored.
              pure {R = ℕ}
                (if cache then (if text_eq stored t then pos 0 else minus_one) else minus_one))
            (next o.0)
            o.1).0
          ≡ stop r)
  unfolding running
  taken_returns u t (true, w) r e =
      answered_next (λ s. if text_eq s t then pos 0 else minus_one) (Redis.get services u w) r e
  taken_returns u t (false, w) r e = cc

  verify_token-returns :
      (u t : Text) (w : W) (r : ℕ) → ¬ ((verify_token services {R = ℕ} u t w).0 ≡ stop r)
  unfolding verify_token call ◌>>=◌
  verify_token-returns u t w r e = taken_returns u t (services.take_cache_conn w) r e

module _ {W : Type 0} {services : Services W} {view : W → Tables} (sql : IsSql services view) where
  pub verify_token-Keeps :
      {R : Type 0} (u t : Text) → Keeps view {R = R} (verify_token services u t)
  unfolding verify_token
  verify_token-Keeps u t =
      search (keeps_rules, get-Keeps sql, call-Keeps, sql.take_cache_conn_keeps)

  stopped :
      (rest : Act W ℕ ℕ) (w w' : W) (b : Bool)
      → view w' ≡ view w
      → b ≡ true
      → Refused view w ((stop_if b resp_token_err >> rest) w')
  unfolding running
  stopped rest w w' true e h = (e, λ q. cc)
  stopped rest w w' false e h = cc

  -- After the token check.
  after_check :
      (rest : Act W ℕ ℕ) (w : W) (o : Step ℕ ℤ × W)
      → view o.1 ≡ view w
      → ¬ (o.0 ≡ next (pos 0))
      → ((r : ℕ) → ¬ (o.0 ≡ stop r))
      → Refused view w (continue (λ v. stop_if (not (equals v 0)) resp_token_err >> rest) o.0 o.1)
  unfolding running
  after_check rest w (next v, w') e bad h =
      stopped rest w w' (not (equals v 0)) e (nonzero v (λ q. bad (ap next q)))
  after_check rest w (stop r, w') e bad h = absurd (h r refl)
  after_check rest w (crash, w') e bad h = (e, λ q. cc)

  -- A body that cannot be decoded, and the check of one that can.
  checked :
      (o : Option FileRequest) (handler : FileRequest → Act W ℕ ℕ) (w : W)
      → ((request : FileRequest)
          → o ≡ some request
          → ¬ ((verify_token services {R = ℕ} request.user_name request.token w).0 ≡ next (pos 0)))
      → Refused view w (
          (decoded o resp_fail >>= λ request.
          verify_token services request.user_name request.token >>= λ v.
          stop_if (not (equals v 0)) resp_token_err >> handler request)
            w)
  unfolding decoded running
  checked none handler w h = (refl, λ q. cc)
  checked (some request) handler w h =
      after_check (handler request) w (verify_token services request.user_name request.token w)
        ((verify_token-Keeps request.user_name request.token).same w) (h request refl)
        (verify_token-returns services request.user_name request.token w)

  -- After the command.
  after_cmd :
      (f : Text → Act W ℕ ℕ) (o : Step ℕ Text × W) (w : W)
      → Quiet w o
      → ((cmd : Text) → Refused view w (f cmd w))
      → Refused view w (continue f o.0 o.1)
  after_cmd f (next cmd, w') w h k = subst (λ (v : W). Refused view w (f cmd v)) (sym h.0) (k cmd)
  after_cmd f (stop r, w') w h k = absurd (h.1 r refl)
  after_cmd f (crash, w') w h k = (ap view h.0, λ q. cc)

  -- Without a request that decodes and whose token is accepted, ApiMd5 changes no table and does not
  -- answer OK.
  pub api_md5-Refused :
      (body : Text) (w : W)
      → ((request : FileRequest)
          → decode_md5_json services body ≡ some request
          → ¬ ((verify_token services {R = ℕ} request.user_name request.token w).0 ≡ next (pos 0)))
      → Refused view w (api_md5 services body w)
  unfolding api_md5
  api_md5-Refused body w h = checked (decode_md5_json services body) _ w h

  -- Without a request that decodes and whose token is accepted, ApiDealfile changes no table and does
  -- not answer OK, whatever the command of the URL.
  pub api_dealfile-Refused :
      (url body : Text) (w : W)
      → ((request : FileRequest)
          → decode_dealfile_json services body ≡ some request
          → ¬ ((verify_token services {R = ℕ} request.user_name request.token w).0 ≡ next (pos 0)))
      → Refused view w (api_dealfile services url body w)
  unfolding api_dealfile ◌>>=◌
  api_dealfile-Refused url body w h =
      after_cmd _ (read_cmd services url w) w (read_cmd-Quiet services url w)
        λ cmd. checked (decode_dealfile_json services body) _ w h
