-- ===== src/Cursor/Next/Times.antt =====
-- SQL_FETCH_NEXT called again and again.
use mariadb_connector_odbc.Base.{ℕ, zero, suc}
use mariadb_connector_odbc.Base.Int.{pos}
use mariadb_connector_odbc.Cursor.{ResultSet, Fetching, Options}
use mariadb_connector_odbc.Cursor.Scroll.{fetch_next, fetch_scroll}

-- The statement after `k` calls.
unfoldable pub fetch_times : {R : Type 0} → ResultSet R → Options → ℕ → Fetching R → Fetching R
fetch_times ops o zero s = s
fetch_times ops o (suc k) s = fetch_times ops o k (fetch_scroll ops o fetch_next (pos 0) s).1
