-- ===== src/Cursor/Scroll.antt =====
-- MADB_StmtFetchScroll of driver/ma_statement.cpp. A Position that is not positive is 0: the function
-- only asks whether it is positive.
use Prim.Native.Nat.{min, max}
use mariadb_connector_odbc.Base.{
  ℕ, zero, suc, ◌+◌, ◌-◌, ◌%◌, ◌^◌, Bool, true, false, not, ◌&&◌, ◌||◌, Option, none, some, ltb,
  leb, ◌==◌, if◌then◌else◌,
}
use mariadb_connector_odbc.Base.Int.{ℤ, pos, negsuc}
use mariadb_connector_odbc.Cursor.{
  ResultSet, Fetching, Options, Reply, reply, raised, should_stream, fetch,
}
use mariadb_connector_odbc.Error.Code.{err_24000, err_hy106}
use mariadb_connector_odbc.Sql.{sql_success, sql_no_data}

-- SQL_FETCH_NEXT and the others; `fetch_unknown` is any other value.
pub data Orientation : Type 0 where
  fetch_next fetch_prior fetch_relative fetch_absolute fetch_first fetch_last : Orientation
  fetch_bookmark fetch_unknown : Orientation

abbrev pub is_next : Orientation → Bool
is_next fetch_next = true
is_next _ = false

-- -FetchOffset < (SQLINTEGER)ArraySize, for the offset -(k + 1).
abbrev pub is_within_rowset : ℕ → ℕ → Bool
is_within_rowset k array_size =
    ltb (array_size % 2 ^ 32) (2 ^ 31) && ltb (k + 1) (array_size % 2 ^ 32)

-- The switch: the new Position from the offset, Cursor.Position, LastRowFetched, ArraySize and the
-- number of rows; `none` is the error HY106.
unfoldable pub target : Orientation → ℤ → ℕ → ℕ → ℕ → ℕ → Option ℕ
target fetch_next offset position last array_size rows =
    some (if position == 0 then 1 else position + last)
target fetch_prior offset position last array_size rows =
    some (if position == 0 then 0 else position - max 1 array_size)
target fetch_relative (pos k) position last array_size rows = some (position + k)
target fetch_relative (negsuc k) position last array_size rows = some (
    if leb position (k + 1) && (ltb 1 position && is_within_rowset k array_size)
    then 1
    else position - (k + 1))
target fetch_absolute (pos k) position last array_size rows = some k
target fetch_absolute (negsuc k) position last array_size rows =
    some (if leb rows (k + 1) && leb (k + 1) array_size then 1 else rows + 1 - (k + 1))
target fetch_first offset position last array_size rows = some 1
target fetch_last offset position last array_size rows =
    some (if array_size == 0 then rows + 1 else rows - (array_size - 1))
target fetch_bookmark offset position last array_size rows = none
target fetch_unknown offset position last array_size rows = none

module _ {R : Type 0} (ops : ResultSet R) where
  -- Where the next rowset starts: the row that the last one ended at, or the one before Position.
  abbrev pub seek : Fetching R → R
  seek s = ops.absolute (seek_row s.next) s.rs
    where
      seek_row : Option ℕ → ℕ
      seek_row none = s.position - 1
      seek_row (some n) = n

  -- SQL_NO_DATA after at least one row is a success.
  abbrev pub after_fetch : Reply × Fetching R → Reply × Fetching R
  after_fetch (reply sql_no_data, s) =
      (reply (if ltb 0 s.last_row_fetched then sql_success else sql_no_data), s)
  after_fetch (r, s) = (r, s)

  -- What follows the switch.
  unfoldable pub scroll_to : Options → Bool → Option ℕ → Fetching R → Reply × Fetching R
  unfolding fetch should_stream
  scroll_to o forward none s = (raised err_hy106, s)
  scroll_to o forward (some zero) s =
      (reply sql_no_data, record s { position = 0; next = none; rs = ops.absolute 0 s.rs })
  scroll_to o forward (some (suc p)) s =
      let at = record s { position = min (suc p) (ops.rows_count s.rs + 1) } in
      if not (should_stream o) && ltb (ops.rows_count s.rs) (suc p)
      then (reply sql_no_data, at)
      else if not forward || (ltb 1 s.last_row_fetched && not o.forward_only)
      then after_fetch (fetch ops o (record at { rs = seek at }))
      else after_fetch (fetch ops o at)

  -- MADB_StmtFetchScroll
  unfoldable pub fetch_scroll : Options → Orientation → ℤ → Fetching R → Reply × Fetching R
  unfolding scroll_to target
  fetch_scroll o orientation offset s =
      let forward = is_next orientation in
      let position =
        target orientation offset s.position s.last_row_fetched o.array_size
          (ops.rows_count s.rs) in
      if not o.has_result
      then (raised err_24000, s)
      else if o.forward_only && not forward
      then (raised err_hy106, s)
      else scroll_to o forward position (if forward then s else record s { next = none })
