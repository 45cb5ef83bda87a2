-- ===== src/Cursor/Rowset.antt =====
-- The rowset that MADB_StmtFetch reads from a result set.
pub mod Loop
pub mod Back
pub mod Result
pub mod Whole
use mariadb_connector_odbc.Base.{ℕ, zero, suc, ◌+◌, ◌≤◌, ◌<◌, ◌≡◌, Bool, true, ◌&&◌, if◌then◌else◌}
use mariadb_connector_odbc.Cursor.{
  ResultSet, Fetching, RowRead, read, RowStatus, map_to_row_status, calc_all_rows_rc, row_result,
  write_at,
}
use mariadb_connector_odbc.Sql.{SqlReturn, sql_success, sql_success_with_info, eq_return}

-- What the code relies on of the class ResultSet: `next` moves to the following row while there is one,
-- `absolute` to the row given, neither changes the number of rows, and a row reads the same wherever it
-- is put. `fetched` and `fixed` are the values for each row.
pub record Lawful {R : Type 0} (ops : ResultSet R) (fetched fixed : ℕ → SqlReturn) : Type 0 where
  pub next_more : (r : R) → ops.get_row r < ops.rows_count r → (ops.next r).0 ≡ true
  pub next_row :
      (r : R) → ops.get_row r < ops.rows_count r → ops.get_row (ops.next r).1 ≡ ops.get_row r + 1
  pub count_next : (r : R) → ops.rows_count (ops.next r).1 ≡ ops.rows_count r
  pub row_absolute : (n : ℕ) (r : R) → n ≤ ops.rows_count r → ops.get_row (ops.absolute n r) ≡ n
  pub count_absolute : (n : ℕ) (r : R) → ops.rows_count (ops.absolute n r) ≡ ops.rows_count r
  pub read_outcome :
      (r : R) (i : ℕ) → ops.read_row r i ≡ read (fetched (ops.get_row r)) (fixed (ops.get_row r))

-- The results of `n` rows after the first are all like the first's.
abbrev pub all_like : SqlReturn → (ℕ → SqlReturn) → ℕ → ℕ → Bool
all_like c results from zero = true
all_like c results from (suc n) = eq_return (results from) c && all_like c results (from + 1) n

-- The rule that is stated above CALC_ALL_ROWS_RC: what all rows gave, if they gave the same.
abbrev pub common_result : (ℕ → SqlReturn) → ℕ → ℕ → SqlReturn
common_result results from n =
    if all_like (results from) results (from + 1) n then results from else sql_success_with_info
