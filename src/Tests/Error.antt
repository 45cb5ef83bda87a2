-- ===== src/Tests/Error.antt =====
-- The diagnostics of a handle, at concrete errors.
use mariadb_connector_odbc.Base.{◌≡◌, true, false, some, codes, arith}
use mariadb_connector_odbc.Error.Code.{err_hy000}
use mariadb_connector_odbc.Error.Diag.{MadbError, set_error}
use mariadb_connector_odbc.Error.Diag.Bounds.{IsBounded, apply, reported, apply-IsBounded}
use mariadb_connector_odbc.Error.Name.{state_name}
use mariadb_connector_odbc.Error.Record.{get_diag_rec}
use mariadb_connector_odbc.Error.Record.Laws.{get_diag_rec-set_error}
use mariadb_connector_odbc.Sql.{sql_success, sql_success_with_info}

abbrev failed : MadbError
failed = record {
  prefix_len = 4;
  text = codes "[ma]old";
  state = codes "HY000";
  native_error = 0;
  return_value = sql_success;
}

failed-IsBounded : IsBounded failed
failed-IsBounded = record { prefix_within = omega arith; text_within = omega arith }

apply-IsBounded_example : IsBounded (apply (reported err_hy000 (some (codes "gone")) 2013) failed)
apply-IsBounded_example =
    apply-IsBounded (reported err_hy000 (some (codes "gone")) 2013) failed tt failed-IsBounded

get_diag_rec-set_error_example :
    get_diag_rec (set_error failed err_hy000 (some (codes "gone")) 2013) (record {
      rec_number = 1;
      wants_state = true;
      wants_native = true;
      message_text = some 6;
      wants_length = true;
      is_odbc2 = false;
    })
    ≡ record {
      sql_state = some (codes "08S01");
      native = some 2013;
      message = some (codes "[ma]g");
      text_length = some 8;
      returned = sql_success_with_info;
    }
unfolding state_name
get_diag_rec-set_error_example =
    get_diag_rec-set_error failed err_hy000 (codes "gone") 2013 5 failed-IsBounded (omega arith)
