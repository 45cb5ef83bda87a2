-- ===== src/Cursor/Move.antt =====
-- Fetching by an orientation other than SQL_FETCH_NEXT.
use Prim.Native.Nat.{min}
use mariadb_connector_odbc.Base.{ℕ, suc, ◌+◌, ◌-◌, ◌≡◌, false, none}
use mariadb_connector_odbc.Cursor.{ResultSet, Fetching, Options, Reply, reply}
use mariadb_connector_odbc.Cursor.Next.{CanFetch, IsReady, no_data_as_success}
use mariadb_connector_odbc.Cursor.Rowset.{Lawful}
use mariadb_connector_odbc.Cursor.Rowset.Loop.{result_at}
use mariadb_connector_odbc.Cursor.Rowset.Whole.{IsRowset}
use mariadb_connector_odbc.Sql.{SqlReturn}

module _ {R : Type 0} (ops : ResultSet R) (fetched fixed : ℕ → SqlReturn)
    (law : Lawful ops fetched fixed) (o : Options) (can : CanFetch o)
    (scrolls : o.forward_only ≡ false) where
  abbrev results : ℕ → SqlReturn
  results = result_at ops fetched fixed law

  abbrev moved_to : ℕ → Fetching R → Fetching R
  moved_to p s = record s { position = suc p; next = none; rs = ops.absolute (suc p - 1) s.rs }

  -- The rowset from the given row on has been read.
  pub record IsAt (start : ℕ) (s : Fetching R) (x : Reply × Fetching R) : Type 0 where
    pub rowset : IsRowset results start (min o.array_size (ops.rows_count s.rs - start + 1)) x.1
    pub ready : IsReady ops o.forward_only x.1
    pub same_count : ops.rows_count x.1.rs ≡ ops.rows_count s.rs
    pub returned : x.0 ≡ reply (no_data_as_success (results start))
