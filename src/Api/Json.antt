-- ===== src/Api/Json.antt =====
-- The decoders of the requests' JSON bodies: each member that is required must be there and not
-- null. Json::Reader is a parameter (Services.parse_json).
use pic_bed.Prelude.{Option, none, some, Text, codes, [], ℤ}
use pic_bed.Services.{Services}

infixl 5 ◌>>=◌
abbrev ◌>>=◌ : {A B : Type 0} → Option A → (A → Option B) → Option B
none >>= f = none
some a >>= f = f a

-- What a request says of a file of a user.
pub record FileRequest : Type 0 where
  pub user_name : Text
  pub token : Text
  pub md5 : Text
  pub filename : Text

pub record ShareRequest : Type 0 where
  pub user_name : Text
  pub md5 : Text
  pub filename : Text

pub record LoginRequest : Type 0 where
  pub user_name : Text
  pub pwd : Text

pub record RegisterRequest : Type 0 where
  pub user_name : Text
  pub nick_name : Text
  pub pwd : Text
  pub phone : Text
  pub email : Text

pub record SharePictureRequest : Type 0 where
  pub user_name : Text
  pub token : Text
  pub md5 : Text
  pub filename : Text

pub record CancelPictureRequest : Type 0 where
  pub user_name : Text
  pub urlmd5 : Text

pub record PictureListRequest : Type 0 where
  pub user_name : Text
  pub token : Text
  pub start : ℤ
  pub count : ℤ

pub record CountRequest : Type 0 where
  pub user_name : Text
  pub token : Text

-- A member that may be missing stays the empty string.
abbrev optional : Option Text → Text
optional none = []
optional (some s) = s

module _ {W : Type 0} (services : Services W) where
  open services use {parse_json}

  -- decodeDealfileJson
  unfoldable pub decode_dealfile_json : Text → Option FileRequest
  decode_dealfile_json str_json = do
    root ← parse_json str_json
    user_name ← root (codes "user")
    token ← root (codes "token")
    md5 ← root (codes "md5")
    filename ← root (codes "filename")
    some (record { user_name = user_name; token = token; md5 = md5; filename = filename })

  -- decodeMd5Json
  unfoldable pub decode_md5_json : Text → Option FileRequest
  decode_md5_json str_json = do
    root ← parse_json str_json
    user_name ← root (codes "user")
    token ← root (codes "token")
    md5 ← root (codes "md5")
    filename ← root (codes "filename")
    some (record { user_name = user_name; token = token; md5 = md5; filename = filename })

  -- decodeDealsharefileJson
  unfoldable pub decode_dealsharefile_json : Text → Option ShareRequest
  decode_dealsharefile_json str_json = do
    root ← parse_json str_json
    user_name ← root (codes "user")
    md5 ← root (codes "md5")
    filename ← root (codes "filename")
    some (record { user_name = user_name; md5 = md5; filename = filename })

  -- decodeLoginJson
  unfoldable pub decode_login_json : Text → Option LoginRequest
  decode_login_json str_json = do
    root ← parse_json str_json
    user_name ← root (codes "user")
    pwd ← root (codes "pwd")
    some (record { user_name = user_name; pwd = pwd })

  -- decodeRegisterJson; phone and email may be missing
  unfoldable pub decode_register_json : Text → Option RegisterRequest
  decode_register_json str_json = do
    root ← parse_json str_json
    user_name ← root (codes "userName")
    nick_name ← root (codes "nickName")
    pwd ← root (codes "firstPwd")
    some (record {
      user_name = user_name;
      nick_name = nick_name;
      pwd = pwd;
      phone = optional (root (codes "phone"));
      email = optional (root (codes "email"));
    })

  -- decodeSharePictureJson
  unfoldable pub decode_share_picture_json : Text → Option SharePictureRequest
  decode_share_picture_json str_json = do
    root ← parse_json str_json
    token ← root (codes "token")
    user_name ← root (codes "user")
    md5 ← root (codes "md5")
    filename ← root (codes "filename")
    some (record { user_name = user_name; token = token; md5 = md5; filename = filename })

  -- decodeCancelPictureJson
  unfoldable pub decode_cancel_picture_json : Text → Option CancelPictureRequest
  decode_cancel_picture_json str_json = do
    root ← parse_json str_json
    user_name ← root (codes "user")
    urlmd5 ← root (codes "urlmd5")
    some (record { user_name = user_name; urlmd5 = urlmd5 })

  -- decodeBrowsePictureJson: the `urlmd5`
  unfoldable pub decode_browse_picture_json : Text → Option Text
  decode_browse_picture_json str_json = do root ← parse_json str_json; root (codes "urlmd5")

  -- decodeCountJson
  unfoldable pub decode_count_json : Text → Option CountRequest
  decode_count_json str_json = do
    root ← parse_json str_json
    user_name ← root (codes "user")
    token ← root (codes "token")
    some (record { user_name = user_name; token = token })
