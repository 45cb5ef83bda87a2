-- ===== src/Tests/Cursor.antt =====
-- Fetching from a result set of five rows, the third of which gives a warning.
use mariadb_connector_odbc.Base.{ℕ, ◌+◌, true, false, none, some, ltb, ◌==◌, if◌then◌else◌}
use mariadb_connector_odbc.Cursor.{ResultSet, Fetching, Options, read, row_norow}
use mariadb_connector_odbc.Sql.{SqlReturn, sql_success, sql_success_with_info}

abbrev five : ResultSet ℕ
five = record {
  next = λ r. (ltb r 5, if ltb r 5 then r + 1 else 6);
  get_row = λ r. r;
  absolute = λ n r. n;
  rows_count = λ r. 5;
  read_row = λ r i. read sql_success (if r == 3 then sql_success_with_info else sql_success);
}

abbrev taken : ℕ → SqlReturn
taken r = sql_success

abbrev converted : ℕ → SqlReturn
converted r = if r == 3 then sql_success_with_info else sql_success

abbrev scrolling : Options
scrolling = record {
  forward_only = false;
  has_result = true;
  no_cache = false;
  array_size = 2;
  column_count = 3;
}

-- Before the first fetch, and after two rows were read.
abbrev opened : Fetching ℕ
opened = record {
  rs = 0;
  position = 0;
  next = none;
  rowset_size = 1;
  last_row_fetched = 0;
  processed = 0;
  status = λ i. row_norow;
  result = sql_success;
}

abbrev after_two : Fetching ℕ
after_two = record opened { rs = 1; position = 1; next = some 2; last_row_fetched = 2 }
