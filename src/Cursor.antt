-- ===== src/Cursor.antt =====
-- The cursor of a statement: MADB_Cursor, MADB_RowsToFetch of driver/ma_result.cpp, and MADB_StmtFetch
-- and MADB_StmtFetchScroll of driver/ma_statement.cpp. The result set is the server library's, so its
-- operations are a parameter; a cursor is not dynamic, there are no bookmarks, and allocation succeeds.
pub mod Scroll
pub mod Rows
pub mod Rowset
pub mod Next
pub mod Move
use mariadb_connector_odbc.Base.{
  ℕ, zero, suc, ◌+◌, ◌-◌, ◌%◌, ◌^◌, Bool, true, false, not, ◌&&◌, ◌||◌, Option, none, some, ltb,
  leb, ◌==◌, if◌then◌else◌,
}
use mariadb_connector_odbc.Error.Code.{Code, err_24000}
use mariadb_connector_odbc.Sql.{
  SqlReturn, sql_success, sql_success_with_info, sql_no_data, sql_error, eq_return,
}

-- What reading the row that the cursor stands on gives: `lost` is the exception 1, with the value of
-- MADB_SetNativeError; `read` is RowResult after the row was taken and the value of FixFetchedValues.
pub data RowRead : Type 0 where
  lost : SqlReturn → RowRead
  read : SqlReturn → SqlReturn → RowRead

-- The operations of the class ResultSet that are used here. `read_row` has as its second argument the
-- place in the application's rowset that PrepareBind was given.
pub record ResultSet (R : Type 0) : Type 0 where
  pub next : R → Bool × R
  pub get_row : R → ℕ
  pub absolute : ℕ → R → R
  pub rows_count : R → ℕ
  pub read_row : R → ℕ → RowRead

-- SQL_ROW_SUCCESS, SQL_ROW_SUCCESS_WITH_INFO, SQL_ROW_ERROR and SQL_ROW_NOROW.
pub data RowStatus : Type 0 where
  row_success row_success_with_info row_error row_norow : RowStatus

-- The members of MADB_Stmt that fetching changes. `next` is Cursor.Next, `none` being -1; Position is
-- never negative. `status` is the array of the application's rowset, `processed` what
-- RowsProcessedPtr points to.
pub record Fetching (R : Type 0) : Type 0 where
  pub rs : R
  pub position : ℕ
  pub next : Option ℕ
  pub rowset_size : ℕ
  pub last_row_fetched : ℕ
  pub processed : ℕ
  pub status : ℕ → RowStatus
  pub result : SqlReturn

-- The members that it reads.
pub record Options : Type 0 where
  pub forward_only : Bool
  pub has_result : Bool
  pub no_cache : Bool
  pub array_size : ℕ
  pub column_count : ℕ

-- What a function of the statement gives: a return code, or an error reported by MADB_SetError;
-- `unended` stands for a loop over the rows that goes on behind the rounds that are run here.
pub data Reply : Type 0 where
  reply : SqlReturn → Reply
  raised : Code → Reply
  unended : Reply

-- MADB_STMT_SHOULD_STREAM
unfoldable pub should_stream : Options → Bool
should_stream o = o.no_cache && o.forward_only

-- MADB_MapToRowStatus
unfoldable pub map_to_row_status : SqlReturn → RowStatus
map_to_row_status sql_success_with_info = row_success_with_info
map_to_row_status sql_error = row_error
map_to_row_status _ = row_success

-- CALC_ALL_ROWS_RC
unfoldable pub calc_all_rows_rc : SqlReturn → SqlReturn → ℕ → SqlReturn
calc_all_rows_rc accumulated current row =
    if row == 0
    then current
    else if eq_return current accumulated
    then accumulated
    else sql_success_with_info

-- MADB_RowsToFetch without the assignment to RowsetSize; SQLULEN has 64 bits.
unfoldable pub rows_to_fetch : ℕ → ℕ → ℕ → ℕ
rows_to_fetch position array_size rows =
    if ltb rows ((position + array_size + 2 ^ 64 - 1) % 2 ^ 64)
    then (if ltb 0 position && leb position rows then rows - position + 1 else 1)
    else array_size

-- The value of an unsigned int, as j and RowNum are.
abbrev pub unsigned_int : ℕ → ℕ
unsigned_int n = n % 2 ^ 32

abbrev pub write_at {ℓ} : {A : Type ℓ} → (ℕ → A) → ℕ → A → ℕ → A
write_at f i a j = if i == j then a else f j

-- What FixFetchedValues changes in RowResult.
abbrev pub row_result : SqlReturn → SqlReturn → SqlReturn
row_result fetched sql_error = sql_error
row_result fetched sql_success_with_info = sql_success_with_info
row_result fetched _ = fetched

-- A round of the loop over the rows either returns or goes on.
pub data Round (R : Type 0) : Type 0 where
  returns : SqlReturn → Fetching R → Round R
  goes_on : Fetching R → Round R

abbrev pub proceed : {R : Type 0} → Round R → (Fetching R → Reply × Fetching R) → Reply × Fetching R
proceed (returns rc s) rest = (reply rc, s)
proceed (goes_on s) rest = rest s

module _ {R : Type 0} (ops : ResultSet R) where
  -- The round from where the row was read.
  unfoldable pub after_read : ℕ → RowRead → Fetching R → Round R
  unfolding map_to_row_status calc_all_rows_rc
  after_read row (lost rc) s =
      let whole = calc_all_rows_rc s.result rc row in
      returns whole
        (record s { result = whole; status = write_at s.status row (map_to_row_status rc) })
  after_read row (read fetched fixed) s = goes_on (record s {
    last_row_fetched = s.last_row_fetched + 1;
    result = calc_all_rows_rc s.result (row_result fetched fixed) row;
    status = write_at s.status row (map_to_row_status (row_result fetched fixed));
  })

  -- The round from where the place in the rowset is known.
  unfoldable pub fetch_at : ℕ → Fetching R → Round R
  unfolding after_read
  fetch_at row s =
      let moved = ops.next s.rs in
      let at = record s { rs = moved.1; position = if s.position == 0 then 1 else s.position } in
      if moved.0
      then after_read row (ops.read_row moved.1 row) (record at { processed = s.processed + 1 })
      else if row == 0
      then returns sql_no_data at
      else goes_on at

  -- A round of the loop: the number of rows in the rowset, SaveCursor, and j. The cursor goes back to
  -- the rowset's first row for the last round.
  unfoldable pub fetch_row : ℕ → Option ℕ → ℕ → Fetching R → Round R
  unfolding fetch_at
  fetch_row total none j s = fetch_at j s
  fetch_row total (some first) j s =
      if unsigned_int (j + 1) == total
      then fetch_at 0 (record s { next = some (ops.get_row s.rs); rs = ops.absolute first s.rs })
      else fetch_at (unsigned_int (j + 1)) s

  -- The loop, in at most `n` rounds. As many rounds as rows are enough below 2 ^ 32 rows; for more rows
  -- j starts again at 0 and stays below their number.
  unfoldable pub fetch_rows : ℕ → ℕ → Option ℕ → ℕ → Fetching R → Reply × Fetching R
  unfolding fetch_row
  fetch_rows zero total saved j s = if ltb j total then (unended, s) else (reply s.result, s)
  fetch_rows (suc n) total saved j s =
      let rest = fetch_rows n total saved (unsigned_int (j + 1)) in
      if ltb j total then proceed (fetch_row total saved j s) rest else (reply s.result, s)

  -- Everything from MADB_RowsToFetch on, for an ArraySize that is not zero. Skipping the first row is
  -- MoveNext of driver/ma_result.cpp, which finds something bound.
  unfoldable pub fetch_rowset : Options → Fetching R → Reply × Fetching R
  unfolding rows_to_fetch fetch_rows should_stream
  fetch_rowset o s =
      let total =
        rows_to_fetch s.position o.array_size
          (if should_stream o then 2 ^ 64 - 1 else ops.rows_count s.rs) in
      let start = record s {
        rowset_size = o.array_size;
        last_row_fetched = 0;
        processed = 0;
        status = λ i. row_norow;
        result = sql_success;
      } in
      if total == 0
      then (reply sql_no_data, record s { rowset_size = o.array_size; last_row_fetched = 0 })
      else if ltb 1 total && not o.forward_only
      then fetch_rows total total (some (ops.get_row s.rs)) 0
          (record start { rs = (ops.next s.rs).1 })
      else fetch_rows total total none 0 start

  -- MADB_StmtFetch
  unfoldable pub fetch : Options → Fetching R → Reply × Fetching R
  unfolding fetch_rowset
  fetch o s =
      if o.column_count == 0
      then (raised err_24000, s)
      else if o.array_size == 0
      then (reply sql_success, s)
      else fetch_rowset o s
