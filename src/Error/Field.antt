-- ===== src/Error/Field.antt =====
-- MADB_GetDiagField of driver/ma_error.cpp for an ANSI application. The pointer for a number is given.
use mariadb_connector_odbc.Base.{
  ℕ, suc, ◌≡◌, refl, Bool, true, false, not, ◌||◌, Option, none, some, ltb, ◌==◌, if◌then◌else◌,
  Bytes, codes, length, take,
}
use mariadb_connector_odbc.Base.Int.{ℤ, pos, minus}
use mariadb_connector_odbc.Error.Diag.{MadbError, eq_bytes}
use mariadb_connector_odbc.Error.Record.{Copied, set_string, fresh_error, get_diag_rec}
use mariadb_connector_odbc.Sql.{
  SqlReturn, sql_success, sql_no_data, sql_error, sql_invalid_handle, return_number,
}

-- SQL_DIAG_CURSOR_ROW_COUNT and the others; `diag_other` is any other value.
pub data DiagId : Type 0 where
  diag_cursor_row_count diag_dynamic_function diag_dynamic_function_code diag_number : DiagId
  diag_returncode diag_row_count diag_class_origin diag_column_number diag_connection_name : DiagId
  diag_message_text diag_native diag_row_number diag_server_name diag_sqlstate : DiagId
  diag_subclass_origin diag_other : DiagId

pub data HandleType : Type 0 where
  handle_dbc handle_stmt handle_env handle_desc handle_other : HandleType

-- What the handle has: its error, the rows of the result set and those that the statement changed, each 0
-- where there is none, and the server's name, empty where there is no connection.
pub record DiagSource : Type 0 where
  pub error : MadbError
  pub rows_count : ℕ
  pub update_count : ℕ
  pub server_name : Bytes

-- What is written through DiagInfoPtr, what through StringLengthPtr, and the value returned.
pub record DiagField : Type 0 where
  pub number : Option ℤ
  pub text : Option Bytes
  pub text_length : Option ℕ
  pub returned : SqlReturn

abbrev is_stmt : HandleType → Bool
is_stmt handle_stmt = true
is_stmt _ = false

abbrev is_handle : HandleType → Bool
is_handle handle_other = false
is_handle _ = true

abbrev as_number : ℤ → DiagField
as_number n = record { number = some n; text = none; text_length = some 0; returned = sql_success }

abbrev as_return : SqlReturn → DiagField
as_return rc = record { number = none; text = none; text_length = some 0; returned = rc }

-- A string is copied to the buffer, its length is written and a cut one is a warning.
abbrev as_text : Option ℕ → Bytes → DiagField
as_text buffer s = shown (set_string buffer s (length s) fresh_error)
  where
    shown : Copied → DiagField
    shown c = record {
      number = none;
      text = c.written;
      text_length = some c.result;
      returned = c.error.return_value;
    }

-- The switch over DiagIdentifier. SQL_COLUMN_NUMBER_UNKNOWN and SQL_ROW_NUMBER_UNKNOWN are -2.
unfoldable pub diag_value : HandleType → DiagSource → ℕ → DiagId → Option ℕ → DiagField
unfolding set_string fresh_error eq_bytes
diag_value h d rec_number diag_cursor_row_count buffer =
    if is_stmt h then as_number (pos d.rows_count) else as_return sql_error
diag_value h d rec_number diag_dynamic_function buffer =
    if is_stmt h then as_return sql_success else as_return sql_error
diag_value h d rec_number diag_dynamic_function_code buffer =
    if is_stmt h then as_number (pos 0) else as_return sql_error
diag_value h d rec_number diag_number buffer = as_number (pos 1)
diag_value h d rec_number diag_returncode buffer = as_number (return_number d.error.return_value)
diag_value h d rec_number diag_row_count buffer =
    if is_stmt h then as_number (pos d.update_count) else as_return sql_error
diag_value h d rec_number diag_class_origin buffer =
    as_text buffer
      (if eq_bytes (take 2 d.error.state) (codes "IM") then codes "ODBC 3.0" else codes "ISO 9075")
diag_value h d rec_number diag_column_number buffer = as_number (minus 2)
diag_value h d rec_number diag_connection_name buffer = as_return sql_success
diag_value h d rec_number diag_message_text buffer = as_text buffer d.error.text
diag_value h d rec_number diag_native buffer = as_number (pos d.error.native_error)
diag_value h d rec_number diag_row_number buffer =
    if not (is_stmt h) || rec_number == 0 then as_return sql_error else as_number (minus 2)
diag_value h d rec_number diag_server_name buffer = as_text buffer d.server_name
diag_value h d rec_number diag_sqlstate buffer = as_text buffer d.error.state
diag_value h d rec_number diag_subclass_origin buffer = as_text buffer (codes "ODBC 3.0")
diag_value h d rec_number diag_other buffer = as_return sql_error

-- MADB_GetDiagField
unfoldable pub get_diag_field : HandleType → DiagSource → ℕ → DiagId → Option ℕ → DiagField
unfolding diag_value
get_diag_field h d rec_number id buffer =
    if ltb 1 rec_number
    then record (as_return sql_no_data) { text_length = none }
    else if is_handle h
    then diag_value h d rec_number id buffer
    else as_return sql_invalid_handle

-- SQL_DIAG_MESSAGE_TEXT gives the message and SQL_DIAG_SQLSTATE the state that MADB_GetDiagRec gives to an
-- application of ODBC 3 in buffers of the same length, and the message comes with the same return code.
-- The state has five bytes.
pub get_diag_field-get_diag_rec :
    (h : HandleType) (d : DiagSource) (room : ℕ)
    → is_handle h ≡ true
    → length d.error.state ≡ 5
    → ((get_diag_field h d 1 diag_message_text (some (suc room))).text
        ≡ (get_diag_rec d.error (record {
          rec_number = 1;
          wants_state = false;
          wants_native = false;
          message_text = some (suc room);
          wants_length = false;
          is_odbc2 = false;
        })).message)
      × ((get_diag_field h d 1 diag_message_text (some (suc room))).returned
          ≡ (get_diag_rec d.error (record {
            rec_number = 1;
            wants_state = false;
            wants_native = false;
            message_text = some (suc room);
            wants_length = false;
            is_odbc2 = false;
          })).returned)
      × ((get_diag_field h d 1 diag_sqlstate (some 6)).text
          ≡ (get_diag_rec d.error (record {
            rec_number = 1;
            wants_state = true;
            wants_native = false;
            message_text = none;
            wants_length = false;
            is_odbc2 = false;
          })).sql_state)
unfolding get_diag_field diag_value get_diag_rec
get_diag_field-get_diag_rec h d room valid five = rw (valid, five) (refl, refl, refl)
