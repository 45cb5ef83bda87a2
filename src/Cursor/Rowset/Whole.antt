-- ===== src/Cursor/Rowset/Whole.antt =====
-- What MADB_StmtFetch leaves in the statement and in the application's arrays.
use mariadb_connector_odbc.Base.{
  ℕ, ◌+◌, ◌-◌, ◌≤◌, ◌<◌, ◌≡◌, Bool, true, false, not, ◌&&◌, some, ltb, if◌then◌else◌,
}
use mariadb_connector_odbc.Cursor.{ResultSet, Fetching, Reply, reply, row_norow, map_to_row_status}
use mariadb_connector_odbc.Cursor.Rowset.{Lawful, common_result}
use mariadb_connector_odbc.Cursor.Rowset.Loop.{result_at}
use mariadb_connector_odbc.Sql.{SqlReturn, sql_success}

-- The statement has fetched `count` rows from the row `start` on.
pub record IsRowset {R : Type 0} (results : ℕ → SqlReturn) (start count : ℕ) (out : Fetching R)
    : Type 0 where
  pub position : out.position ≡ start
  pub last : out.last_row_fetched ≡ count
  pub processed : out.processed ≡ count
  pub filled : (i : ℕ) → i < count → out.status i ≡ map_to_row_status (results (start + i))
  pub empty : (i : ℕ) → count ≤ i → out.status i ≡ row_norow

-- Where the result set stands afterwards, and what Cursor.Next is.
pub record StandsAfter {R : Type 0} (ops : ResultSet R) (forward_only : Bool) (start count : ℕ)
    (s out : Fetching R) : Type 0 where
  pub rows : ops.rows_count out.rs ≡ ops.rows_count s.rs
  pub stands : ltb 1 count && not forward_only ≡ false → ops.get_row out.rs + 1 ≡ start + count
  pub sought : ltb 1 count && not forward_only ≡ true → out.next ≡ some (start - 1 + count)

-- All of it, with the value returned: what all rows gave, or with a cursor that scrolls what the first
-- row gave.
pub record IsFetched {R : Type 0} (ops : ResultSet R) (results : ℕ → SqlReturn)
    (forward_only : Bool) (start count : ℕ) (s : Fetching R) (x : Reply × Fetching R) : Type 0 where
  pub rowset : IsRowset results start count x.1
  pub place : StandsAfter ops forward_only start count s x.1
  pub returned :
      x.0 ≡ reply (if forward_only then common_result results start (count - 1) else results start)

module _ {R : Type 0} (ops : ResultSet R) (fetched fixed : ℕ → SqlReturn)
    (law : Lawful ops fetched fixed) where
  abbrev results : ℕ → SqlReturn
  results = result_at ops fetched fixed law

  abbrev begun : ℕ → Fetching R → Fetching R
  begun array_size s = record s {
    rowset_size = array_size;
    last_row_fetched = 0;
    processed = 0;
    status = λ i. row_norow;
    result = sql_success;
  }
