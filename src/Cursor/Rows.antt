-- ===== src/Cursor/Rows.antt =====
-- The bounds of MADB_RowsToFetch.
use Prim.Native.Nat.{min}
use mariadb_connector_odbc.Base.{ℕ, ◌+◌, ◌-◌, ◌^◌, ◌≤◌, ◌<◌, ◌≡◌, arith}
use mariadb_connector_odbc.Cursor.{rows_to_fetch}

-- From a position inside the result set, MADB_RowsToFetch gives the rows of the rowset that the result
-- set has: the array size, or the rows from the position on where they are fewer. The array size is
-- not zero and its sum with the position is a number of 64 bits.
pub rows_to_fetch-min :
    (position array_size rows : ℕ)
    → 0 < position
    → position ≤ rows
    → 0 < array_size
    → position + array_size ≤ 2 ^ 64
    → rows_to_fetch position array_size rows ≡ min array_size (rows - position + 1)
unfolding rows_to_fetch
rows_to_fetch-min position array_size rows p q a w = ground arith
