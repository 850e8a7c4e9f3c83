-- ===== src/Api/DealShareFile/Listed.antt =====
-- Counting a download of a shared file (handlePvFile, api/api_deal_sharefile.cc, with
-- CacheConn::ZsetIncr, redis/cache_pool.cpp).
use pic_bed.Prelude.{
  ℕ, ◌+◌, false, Option, none, some, List, ◌∷◌, ◌++◌, filter, Text, codes, ◌≡◌, ◌≢◌, ◌⊎◌, ℤ, pos,
}
use pic_bed.Services.{Services, Command, Reply}
use pic_bed.Services.Statement.{update_share_pv}
use pic_bed.Redis
use pic_bed.Redis.{reply_str, reply_integer}
use pic_bed.Triple.{Triple}
use pic_bed.Sql.{Tables, ShareFile, IsSql, apply, shared_as}
use pic_bed.Api.Codes.{resp_ok}
use pic_bed.Api.Counts.{file_public_zset}

module _ (md5 filename : Text) where
  -- `pv` is the download count in the first row of the shared file.
  abbrev pub IsPv : Tables → ℕ → Type 0
  IsPv t pv =
      (r : ShareFile) × (rest : List ShareFile) × (filter (shared_as md5 filename) t.share_file_list
        ≡ r ∷ rest)
      × (r.pv ≡ pv)

  -- The count in MySQL is one more.
  abbrev pub IsRaised : Tables → Tables → Type 0
  IsRaised before t =
      (pv : ℕ) × IsPv before pv × (t ≡ apply (update_share_pv (pv + 1) md5 filename) before)

  -- Redis answered that it does not list the file, or a connection to it could not be made.
  abbrev pub IsUnlisted : {W : Type 0} → Services W → Type 0
  IsUnlisted {W} services =
      ((w : W) × (r : Reply) × ((services.command
            (Command.zlexcount file_public_zset (md5 ++ filename)) w).0
          ≡ some r)
        × (reply_integer r ≡ pos 0))
      ⊎ ((w : W) × ((services.connect w).0 ≡ false))

  -- However counting ends, nothing has changed or the count in MySQL is one more; where it is answered
  -- with OK, the latter, and Redis does not list the file or was not connected.
  abbrev pub IsDownload : {W : Type 0} → Services W → Tables → Option ℕ → Tables → Type 0
  IsDownload services before o t =
      ((t ≡ before) ⊎ IsRaised before t)
      × (o ≡ some resp_ok → IsRaised before t × IsUnlisted services)

module _ {W : Type 0} {services : Services W} {view : W → Tables} (sql : IsSql services view) where
  module _
      (scores : (key member : Text) (w : W) (r : Reply)
        → (services.command (Command.zincrby key member) w).0 ≡ some r
        → reply_str r ≢ some (codes "OK"))
      (md5 filename : Text) where
    -- What a call to Redis with a return value leaves, where 0 says that Redis does not list the file
    abbrev Ends : (Tables → Type 0) → Option ℤ → Tables → Type 0
    Ends P none t = P t
    Ends P (some a) t = P t × (a ≡ pos 0 → IsUnlisted md5 filename services)

    module _ (before : Tables) where
      abbrev E : Option ℕ → Tables → Type 0
      E = IsDownload md5 filename services before
