-- ===== src/Error/Record.antt =====
-- MADB_SetString of driver/ma_platform_posix.cpp without a character set, and MADB_GetDiagRec of
-- driver/ma_error.cpp on the buffers of an ANSI application. A buffer length of SQLSMALLINT is not
-- negative: the entry points refuse others.
pub mod Laws
use mariadb_connector_odbc.Base.{
  ℕ, zero, suc, ◌+◌, ◌-◌, Bool, true, false, not, ◌&&◌, Option, none, some, List, [], ◌∷◌, ltb, leb,
  ◌==◌, if◌then◌else◌, Bytes, codes, length, take,
}
use mariadb_connector_odbc.Error.Code.{err_01004}
use mariadb_connector_odbc.Error.Diag.{MadbError, eq_bytes, clear_error, set_error}
use mariadb_connector_odbc.Error.Table.{ErrorRecord, error_list}
use mariadb_connector_odbc.Sql.{SqlReturn, sql_success, sql_no_data}

-- What MADB_SetString does: the string put into the buffer, `none` where it is left alone, the value
-- returned, and the error structure.
pub record Copied : Type 0 where
  pub written : Option Bytes
  pub result : ℕ
  pub error : MadbError

abbrev is_empty : Bytes → Bool
is_empty [] = true
is_empty _ = false

-- The buffer's length, `none` being the null pointer, the string, how many of its bytes are meant,
-- and the error structure, which is not null here.
unfoldable pub set_string : Option ℕ → Bytes → ℕ → MadbError → Copied
unfolding set_error
set_string none src src_length error = record { written = none; result = src_length; error = error }
set_string (some zero) src src_length error = record {
  written = none;
  result = src_length;
  error = set_error error err_01004 none 0;
}
set_string (some (suc room)) src src_length error =
    if is_empty src
    then record { written = some []; result = 0; error = error }
    else if src_length == 0
    then record { written = some []; result = 0; error = error }
    else record {
      written = some (if ltb src_length room then take src_length src else take room src);
      result = src_length;
      error = if leb (suc room) src_length then set_error error err_01004 none 0 else error;
    }

-- The loop of MADB_GetDiagRec over the table: the state that an ODBC 2 application is given.
unfoldable pub state_version : List ErrorRecord → Bytes → Bytes
unfolding eq_bytes
state_version [] s = s
state_version (r ∷ rs) s =
    let rest = state_version rs s in
    if eq_bytes (take 5 s) (take 5 r.state)
    then (if is_empty r.state_v2 then s else r.state_v2)
    else rest

-- The arguments of MADB_GetDiagRec: which of the pointers are given, and the buffer's length.
pub record Request : Type 0 where
  pub rec_number : ℕ
  pub wants_state : Bool
  pub wants_native : Bool
  pub message_text : Option ℕ
  pub wants_length : Bool
  pub is_odbc2 : Bool

-- What is written through the pointers, and the value returned.
pub record DiagRec : Type 0 where
  pub sql_state : Option Bytes
  pub native : Option ℕ
  pub message : Option Bytes
  pub text_length : Option ℕ
  pub returned : SqlReturn

-- MADB_Error InternalError, after MADB_CLEAR_ERROR.
unfoldable pub fresh_error : MadbError
unfolding clear_error
fresh_error =
    clear_error (record {
      prefix_len = 0;
      text = [];
      state = [];
      native_error = 0;
      return_value = sql_success;
    })

abbrev when {ℓ} : {A : Type ℓ} → Bool → A → Option A
when b a = if b then some a else none

abbrev returned_for : Option ℕ → MadbError → SqlReturn
returned_for none error = sql_success
returned_for (some zero) error = sql_success
returned_for (some (suc room)) error = error.return_value

-- MADB_GetDiagRec
unfoldable pub get_diag_rec : MadbError → Request → DiagRec
unfolding set_string state_version error_list fresh_error
get_diag_rec err q =
    let version = if q.is_odbc2 then state_version error_list err.state else err.state in
    let state_copied = set_string (some 6) version 5 fresh_error in
    let error = if q.wants_state then state_copied.error else fresh_error in
    let message_copied = set_string q.message_text err.text (length err.text) error in
    if ltb 1 q.rec_number
    then record {
      sql_state = none;
      native = none;
      message = none;
      text_length = none;
      returned = sql_no_data;
    }
    else record {
      sql_state = if q.wants_state then state_copied.written else none;
      native = when q.wants_native err.native_error;
      message = message_copied.written;
      text_length = when q.wants_length (length err.text);
      returned = returned_for q.message_text message_copied.error;
    }
