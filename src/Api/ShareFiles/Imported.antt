-- ===== src/Api/ShareFiles/Imported.antt =====
-- What a reload of the ranking makes of Redis (handleGetRankingFilelist, api/api_sharefiles.cc): the
-- sorted set and the hash over a Redis that keeps scores and names.
use pic_bed.Prelude.{
  ℕ, true, Option, none, some, List, [], ◌∷◌, ◌++◌, Text, text_eq, ltb, length, ◌≡◌, refl, ap, ◌∙◌,
  ℤ, pos, Bool-cases, inl, inr, if◌then◌else◌,
}
use pic_bed.Services.{Services, Row, Column}
use pic_bed.Services.Command.{del, zadd, hset}
use pic_bed.Services.Statement.{select_ranking}
use pic_bed.Services.Reply.{integer}
use pic_bed.Act.{next, running}
use pic_bed.Mysql
use pic_bed.Redis
use pic_bed.Redis.{exchange, exchange_unchecked, answered}
use pic_bed.Api.Counts.{file_public_zset, file_name_hash}
use pic_bed.Api.ShareFiles.{import_rows, reload_ranking, value_or_fail}

-- The two keys, as functions: the score and the name of a member.
pub record Stored : Type 0 where
  pub scores : Text → Option ℕ
  pub names : Text → Option Text

abbrev pub put {ℓ} : {A : Type ℓ} → Text → A → (Text → Option A) → Text → Option A
put k a f j = if text_eq k j then some a else f j

abbrev pub scored : Text → ℕ → Stored → Stored
scored m n s = record { scores = put m n s.scores; names = s.names }

abbrev pub called : Text → Text → Stored → Stored
called m v s = record { scores = s.scores; names = put m v s.names }

-- Redis is connected, and answers the commands of a reload with a number; MySQL does not touch it.
pub record IsRanking {W : Type 0} (services : Services W) (stored : W → Stored) : Type 0 where
  pub connects : (w : W) → (services.connect w).0 ≡ true
  pub connect_keeps : (w : W) → stored (services.connect w).1 ≡ stored w
  pub query_keeps : (w : W) → stored (services.query select_ranking w).1 ≡ stored w
  pub del_answers :
      (k : Text) (w : W) → (n : ℤ) × ((services.command (del k) w).0 ≡ some (integer n))
  pub zadd_answers :
      (k m : Text) (c : ℕ) (w : W)
      → (n : ℤ) × ((services.command (zadd k c m) w).0 ≡ some (integer n))
  pub hset_answers :
      (k f v : Text) (w : W) → (n : ℤ) × ((services.command (hset k f v) w).0 ≡ some (integer n))
  pub del_scores :
      (w : W)
      → stored (services.command (del file_public_zset) w).1
        ≡ record { scores = λ m. none; names = (stored w).names }
  pub del_names :
      (w : W)
      → stored (services.command (del file_name_hash) w).1
        ≡ record { scores = (stored w).scores; names = λ m. none }
  pub zadd_scores :
      (m : Text) (c : ℕ) (w : W)
      → stored (services.command (zadd file_public_zset c m) w).1 ≡ scored m c (stored w)
  pub hset_names :
      (m v : Text) (w : W)
      → stored (services.command (hset file_name_hash m v) w).1 ≡ called m v (stored w)

-- The id of a row's file, as the loop builds it
abbrev pub id_of : Row → Text
id_of row = row.get_string Column.md5 ++ row.get_string Column.file_name

-- Each id fits into its array.
abbrev pub Fit : List Row → Type 0
Fit [] = Unit
Fit (row ∷ rows) = (ltb (length (id_of row)) 1024 ≡ true) × Fit rows

-- The keys after the rows
abbrev imported : List Row → Stored → Stored
imported [] s = s
imported (row ∷ rows) s = imported rows (
    called (id_of row) (row.get_string Column.file_name)
      (scored (id_of row) (row.get_int Column.pv) s))

-- The last row of a file
abbrev pub last_row : Text → List Row → Option Row
last_row m [] = none
last_row m (row ∷ rows) = elim (last_row m rows) [
  | some later ↦ some later
  | none ↦ if text_eq (id_of row) m then some row else none
]

abbrev pub from_row {ℓ} : {A : Type ℓ} → (Row → A) → Option A → Option Row → Option A
from_row f otherwise none = otherwise
from_row f otherwise (some row) = some (f row)

from_later :
    {A : Type 0} (f : Row → A) (m : Text) (row : Row) (before : Option A) (later : Option Row)
    → from_row f (if text_eq (id_of row) m then some (f row) else before) later
      ≡ from_row f before (elim later [
        | some later ↦ some later
        | none ↦ if text_eq (id_of row) m then some row else none
      ])
from_later f m row before none = elim (Bool-cases (text_eq (id_of row) m)) [
  | inl same ↦ rw same refl
  | inr other ↦ rw other refl
]
from_later f m row before (some later) = refl

imported_scores :
    (m : Text) (rows : List Row) (s : Stored)
    → (imported rows s).scores m
      ≡ from_row (λ r. r.get_int Column.pv) (s.scores m) (last_row m rows)
imported_scores m [] s = refl
imported_scores m (row ∷ rows) s =
    imported_scores m rows _
    ∙ from_later (λ r. r.get_int Column.pv) m row (s.scores m) (last_row m rows)

imported_names :
    (m : Text) (rows : List Row) (s : Stored)
    → (imported rows s).names m
      ≡ from_row (λ r. r.get_string Column.file_name) (s.names m) (last_row m rows)
imported_names m [] s = refl
imported_names m (row ∷ rows) s =
    imported_names m rows _
    ∙ from_later (λ r. r.get_string Column.file_name) m row (s.names m) (last_row m rows)

module _ {W : Type 0} {services : Services W} {stored : W → Stored}
    (ranking : IsRanking services stored) where
  open services use {connect, command, query}

  zset_add-run :
      (k m : Text) (c : ℕ) (w : W)
      → Redis.zset_add services k c m w ≡ (next (pos 0), (command (zadd k c m) (connect w).1).1)
  unfolding Redis.zset_add exchange_unchecked running
  zset_add-run k m c w = rw (ranking.connects w, (ranking.zadd_answers k m c (connect w).1).1) refl

  hset-run :
      (k f v : Text) (w : W)
      → Redis.hset services k f v w ≡ (
        next (ranking.hset_answers k f v (connect w).1).0,
        (command (hset k f v) (connect w).1).1,
      )
  unfolding Redis.hset exchange answered running
  hset-run k f v w = rw (ranking.connects w, (ranking.hset_answers k f v (connect w).1).1) refl

  del-run :
      (k : Text) (w : W)
      → Redis.del services k w
        ≡ (next (ranking.del_answers k (connect w).1).0, (command (del k) (connect w).1).1)
  unfolding Redis.del exchange answered running
  del-run k w = rw (ranking.connects w, (ranking.del_answers k (connect w).1).1) refl

  abbrev after_zadd : Row → W → W
  after_zadd row w =
      (command (zadd file_public_zset (row.get_int Column.pv) (id_of row)) (connect w).1).1

  abbrev after_row : Row → W → W
  after_row row w =
      (command (hset file_name_hash (id_of row) (row.get_string Column.file_name))
        (connect (after_zadd row w)).1).1

  stored-after_row :
      (row : Row) (w : W)
      → stored (after_row row w)
        ≡ called
            (id_of row)
            (row.get_string Column.file_name)
            (scored (id_of row) (row.get_int Column.pv) (stored w))
  stored-after_row row w =
      ranking.hset_names (id_of row) (row.get_string Column.file_name) _
      ∙ ap (called (id_of row) (row.get_string Column.file_name)) (
          ranking.connect_keeps (after_zadd row w)
          ∙ ranking.zadd_scores (id_of row) (row.get_int Column.pv) (connect w).1
          ∙ ap (scored (id_of row) (row.get_int Column.pv)) (ranking.connect_keeps w))

  abbrev after_rows : List Row → W → W
  after_rows [] w = w
  after_rows (row ∷ rows) w = after_rows rows (after_row row w)

  import_rows-run :
      {R : Type 0} (rows : List Row) (w : W)
      → Fit rows
      → import_rows services {R = R} rows w ≡ (next tt, after_rows rows w)
  unfolding import_rows running
  import_rows-run [] w h = refl
  import_rows-run (row ∷ rows) w h =
      rw
        (
          h.0,
          zset_add-run file_public_zset (id_of row) (row.get_int Column.pv) w,
          hset-run file_name_hash (id_of row) (row.get_string Column.file_name) (after_zadd row w),
        )
        (import_rows-run rows (after_row row w) h.1)

  stored-after_rows :
      (rows : List Row) (w : W) → stored (after_rows rows w) ≡ imported rows (stored w)
  stored-after_rows [] w = refl
  stored-after_rows (row ∷ rows) w =
      stored-after_rows rows (after_row row w) ∙ ap (imported rows) (stored-after_row row w)

  -- The world after the set and the hash were deleted
  abbrev pub emptied : W → W
  emptied w =
      (command (del file_name_hash) (connect (command (del file_public_zset) (connect w).1).1).1).1

  stored-emptied : (w : W) → stored (emptied w) ≡ record { scores = λ m. none; names = λ m. none }
  stored-emptied w =
      ranking.del_names _
      ∙ ap (λ (s : Stored). record { scores = s.scores; names = λ m. none })
          (ranking.connect_keeps _ ∙ ranking.del_scores _)

  reload_ranking-run :
      (rows : List Row) (w : W)
      → Fit rows
      → (query select_ranking (emptied w)).0 ≡ some rows
      → reload_ranking services true w
        ≡ (next tt, after_rows rows (query select_ranking (emptied w)).1)
  unfolding reload_ranking value_or_fail Mysql.execute_query running
  reload_ranking-run rows w fit answers =
      rw
        (
          del-run file_public_zset w,
          del-run file_name_hash (command (del file_public_zset) (connect w).1).1,
          answers,
        )
        (import_rows-run rows (query select_ranking (emptied w)).1 fit)

  -- A reload, where MySQL answers with rows whose ids fit into their array, goes through, whatever
  -- Redis held before. Then a member of the sorted set has the downloads of the last row with its id
  -- as its score and the file name of this row as its name in the hash, and there is no other member
  -- and no other name.
  pub reload_ranking-imports :
      (rows : List Row) (w : W)
      → Fit rows
      → (query select_ranking (emptied w)).0 ≡ some rows
      → let (result, after) = reload_ranking services true w in
        (result ≡ next tt)
        × ((m : Text)
            → ((stored after).scores m ≡ from_row (λ r. r.get_int Column.pv) none (last_row m rows))
              × ((stored after).names m
                  ≡ from_row (λ r. r.get_string Column.file_name) none (last_row m rows)))
  reload_ranking-imports rows w fit answers =
      let run = reload_ranking-run rows w fit answers in
      let keys : stored (reload_ranking services true w).1
          ≡ imported rows (record { scores = λ m. none; names = λ m. none }) =
        ap (λ o. stored o.1) run
        ∙ stored-after_rows rows (query select_ranking (emptied w)).1
        ∙ ap (imported rows) (ranking.query_keeps (emptied w) ∙ stored-emptied w) in
      (
        ap (λ o. o.0) run,
        λ m. (
          ap (λ (s : Stored). s.scores m) keys ∙ imported_scores m rows _,
          ap (λ (s : Stored). s.names m) keys ∙ imported_names m rows _,
        ),
      )
