-- ===== src/Mysql.antt =====
-- CDBConn (mysql/db_pool.cc), and the readers of one result in base/common.cc.
use pic_bed.Prelude.{
  ℕ, suc, zero, Bool, true, false, not, Option, none, some, List, [], ◌∷◌, ℤ, pos, minus_one, ◌==◌,
  if◌then◌else◌,
}
use pic_bed.Services.{Services, Statement, Row, Column}
use pic_bed.Act.{next, crash, Act, ◌>>=◌, pure, call}

-- Whether `mysql_real_query` went through.
abbrev pub succeeded : Option ℕ → Bool
succeeded none = false
succeeded (some rows) = true

-- The result of CDBConn::ExecuteUpdate, by the affected rows.
abbrev pub update_succeeded : Option ℕ → Bool → Bool
update_succeeded none care = false
update_succeeded (some zero) care = not care
update_succeeded (some (suc rows)) care = true

abbrev pub first? : List Row → Option Row
first? [] = none
first? (row ∷ rows) = some row

-- What GetResultOneCount makes of the first row: the return value and `count`
abbrev pub one_count : ℕ → Option Row → ℤ × ℕ
one_count count none = (pos 1, count)
one_count count (some row) =
    if count == 0 then (pos 0, row.get_int Column.count) else (pos 2, count)

-- What CheckwhetherHaveRecord returns
abbrev pub record_status : Option (List Row) → ℤ
record_status none = minus_one
record_status (some []) = pos 0
record_status (some (row ∷ rows)) = pos 1

-- What GetResultOneStatus makes of the first row
abbrev pub one_status : ℕ → Option Row → ℤ × ℕ
one_status status none = (minus_one, status)
one_status status (some row) = (pos 0, row.get_int Column.shared_status)

-- CResultSet::Next on a result set that may be NULL, which crashes.
unfoldable pub first_row : {W R : Type 0} → Option (List Row) → Act W R (Option Row)
first_row none w = (crash, w)
first_row (some rows) w = (next (first? rows), w)

module _ {W : Type 0} (services : Services W) where
  open services use {query, execute}

  module _ {R : Type 0} where
    -- CDBConn::ExecuteCreate
    unfoldable pub execute_create : Statement → Act W R Bool
    execute_create s = do rows ← call (execute s); pure (succeeded rows)

    -- CDBConn::ExecutePassQuery
    unfoldable pub execute_pass_query : Statement → Act W R Bool
    execute_pass_query s = do rows ← call (execute s); pure (succeeded rows)

    -- CDBConn::ExecuteDrop
    unfoldable pub execute_drop : Statement → Act W R Bool
    execute_drop s = do rows ← call (execute s); pure (succeeded rows)

    -- CDBConn::ExecuteUpdate
    unfoldable pub execute_update : Statement → Bool → Act W R Bool
    execute_update s care_affected_rows = do
      rows ← call (execute s)
      pure (update_succeeded rows care_affected_rows)

    -- CDBConn::ExecuteQuery; none for NULL
    unfoldable pub execute_query : Statement → Act W R (Option (List Row))
    execute_query s = call (query s)

    -- GetResultOneCount; a NULL result set is used
    unfoldable pub get_result_one_count : Statement → ℕ → Act W R (ℤ × ℕ)
    unfolding execute_query
    get_result_one_count s count = do
      results ← execute_query s
      row ← first_row results
      pure (one_count count row)

    -- CheckwhetherHaveRecord
    unfoldable pub check_whether_have_record : Statement → Act W R ℤ
    unfolding execute_query
    check_whether_have_record s = do results ← execute_query s; pure (record_status results)

    -- GetResultOneStatus; a NULL result set is used
    unfoldable pub get_result_one_status : Statement → ℕ → Act W R (ℤ × ℕ)
    unfolding execute_query
    get_result_one_status s shared_status = do
      results ← execute_query s
      row ← first_row results
      pure (one_status shared_status row)
