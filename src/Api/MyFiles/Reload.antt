-- ===== src/Api/MyFiles/Reload.antt =====
-- The count of a user's files where Redis does not have it (getUserFilesCount, api/api_myfiles.cc).
use pic_bed.Prelude.{
  ℕ, suc, true, Option, none, some, List, ◌∷◌, ◌++◌, Text, ◌≡◌, ap, ◌∙◌, ℤ, pos, minus_one, equals,
  false, arith, to_decimal,
}
use pic_bed.Services.{Services, Row, Column}
use pic_bed.Services.Statement.{count_user_files}
use pic_bed.Services.Command.{get, set}
use pic_bed.Act.{next, running}
use pic_bed.Mysql
use pic_bed.Api.Counts
use pic_bed.Api.Counts.{file_user_count}
use pic_bed.Api.Counts.Stored.{IsRedis, missing_count-run, set_count-run, get_count-run}
use pic_bed.Api.MyFiles.{get_user_files_count, load_user_files_count}

module _ {W : Type 0} {services : Services W} {stored : W → Text → Option Text}
    (redis : IsRedis services stored) (user : Text) where
  open services use {connect, command, query}

  abbrev key : Text
  key = file_user_count ++ user

  -- The worlds after GET, and after the query
  abbrev read_world : W → W
  read_world w = (command (get key) (connect w).1).1

  abbrev query_world : W → W
  query_world w = (query (count_user_files user) (read_world w)).1

  reload-run :
      (row : Row) (rows : List Row) (w : W)
      → stored w key ≡ none
      → (query (count_user_files user) (read_world w)).0 ≡ some (row ∷ rows)
      → get_user_files_count services true true user w ≡ (
        next (minus_one, pos (row.get_int Column.count_star)),
        (command
            (set key (to_decimal (row.get_int Column.count_star)))
            (connect (query_world w)).1).1,
      )
  unfolding get_user_files_count load_user_files_count Counts.db_get_user_files_count_by_username
      Mysql.execute_query running
  reload-run row rows w missing answers = rw (
    missing_count-run redis {R = ℤ × ℤ} key w missing,
    answers,
    set_count-run redis {R = ℤ × ℤ} key (row.get_int Column.count_star) (query_world w),
  )

  not_nought : (n : ℕ) → equals (pos (suc n)) 0 ≡ false
  not_nought n = ground arith

  cached-run :
      (n : ℕ) (w : W)
      → stored w key ≡ some (to_decimal (suc n))
      → (get_user_files_count services true true user w).0 ≡ next (pos 0, pos (suc n))
  unfolding get_user_files_count running
  cached-run n w there = rw (get_count-run redis {R = ℤ × ℤ} key (suc n) w there, not_nought n)

  -- Where Redis has no count for the user and MySQL counts at least one file, getUserFilesCount
  -- returns -1 although it has the count of MySQL and puts it into Redis; called again in the world
  -- that it leaves, it returns 0 and the same count.
  pub get_user_files_count-again :
      (row : Row) (rows : List Row) (n : ℕ) (w : W)
      → stored w key ≡ none
      → (query (count_user_files user) (read_world w)).0 ≡ some (row ∷ rows)
      → row.get_int Column.count_star ≡ suc n
      → let first = get_user_files_count services true true user w in
        (first.0 ≡ next (minus_one, pos (suc n)))
        × ((get_user_files_count services true true user first.1).0 ≡ next (pos 0, pos (suc n)))
  get_user_files_count-again row rows n w missing answers count =
      let run = reload-run row rows w missing answers in
      let key_stored : stored (get_user_files_count services true true user w).1 key
          ≡ some (to_decimal (suc n)) =
        ap (λ o. stored o.1 key) run
        ∙ redis.set_stores key (to_decimal (row.get_int Column.count_star))
            (connect (query_world w)).1
        ∙ ap (λ (n : ℕ). some (to_decimal n)) count in
      (ap (λ o. o.0) run ∙ ap (λ (n : ℕ). next (minus_one, pos n)) count, cached-run n _ key_stored)
