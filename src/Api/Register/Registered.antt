-- ===== src/Api/Register/Registered.antt =====
-- What each answer of ApiRegisterUser says (api/api_register.cc), for a run during which no other
-- thread writes to MySQL.
use pic_bed.Prelude.{ℕ, ◌<◌, false, Option, none, some, Text, ◌≡◌, ◌≢◌, ◌⊎◌, count_if}
use pic_bed.Services.{Services}
use pic_bed.Services.Statement.{insert_user}
use pic_bed.Triple.{Triple}
use pic_bed.Sql.{Tables, IsSql, apply, named}
use pic_bed.Api.Codes.{resp_ok, resp_fail, resp_user_exist}
use pic_bed.Api.Json.{RegisterRequest, decode_register_json}
use pic_bed.Api.Register

-- The tables have one more user, with what the request says.
abbrev pub IsAdded : RegisterRequest → Tables → Tables → Type 0
IsAdded r before t =
    (time : Text) × (t
      ≡ apply (insert_user r.user_name r.nick_name r.pwd r.phone r.email time) before)

-- What the answers to the request `r` say: OK, that the user was added, or that MySQL could not prepare
-- the statement; each other answer, that nothing has changed; that the user exists, that a row had the
-- name.
pub record Says {W : Type 0} (services : Services W) (r : RegisterRequest) (before : Tables)
    (code : ℕ) (t : Tables) : Type 0 where
  pub done :
      code ≡ resp_ok
      → IsAdded r before t ⊎ ((t ≡ before) × ((w : W) × ((services.prepare w).0 ≡ false)))
  pub refused : code ≢ resp_ok → t ≡ before
  pub exists : code ≡ resp_user_exist → 0 < count_if (named r.user_name) before.user_info

-- The whole handler: a body that is not decoded is answered with FAIL, and a crash comes before
-- anything has changed.
abbrev pub IsRegistered : {W : Type 0} → Services W → Text → Tables → Option ℕ → Tables → Type 0
IsRegistered services body before none t = t ≡ before
IsRegistered services body before (some code) t =
    ((code ≡ resp_fail) × (t ≡ before))
    ⊎ ((r : RegisterRequest) × (decode_register_json services body ≡ some r)
        × Says services r before code t)

module _ {W : Type 0} {services : Services W} {view : W → Tables} (sql : IsSql services view)
    (affects : (u n p h e c : Text) (w : W)
      → ¬ ((services.execute (insert_user u n p h e c) w).0 ≡ some 0))
    (before : Tables) where
  abbrev Ends : RegisterRequest → Option ℕ → Tables → Type 0
  Ends r none t = t ≡ before
  Ends r (some code) t = Says services r before code t
