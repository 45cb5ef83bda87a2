-- ===== src/Error/Diag.antt =====
-- MADB_Error and the functions of driver/ma_error.cpp that write it.
pub mod State
pub mod Bounds
use mariadb_connector_odbc.Base.{
  ℕ, zero, suc, ◌+◌, ◌-◌, Bool, true, false, not, ◌&&◌, ◌||◌, Option, none, some, List, [], ◌∷◌,
  ◌++◌, ltb, ◌==◌, if◌then◌else◌, Bytes, codes, length, take,
}
use mariadb_connector_odbc.Error.Code.{Code, value, err_hy000, err_08s01}
use mariadb_connector_odbc.Error.Table.{error_at}
use mariadb_connector_odbc.Sql.{SqlReturn, sql_success, sql_success_with_info, sql_error}
use mariadb_connector_odbc.Text.{head_or_nul, tail}

-- MADB_Error. `text` is the string in SqlErrorMsg, whose first `prefix_len` bytes are the prefix.
-- ErrRecord and ErrorNum are never read and are left out.
pub record MadbError : Type 0 where
  pub prefix_len : ℕ
  pub text : Bytes
  pub state : Bytes
  pub native_error : ℕ
  pub return_value : SqlReturn

-- SQL_MAX_MESSAGE_LENGTH
abbrev pub max_message : ℕ
max_message = 512

unfoldable pub eq_bytes : Bytes → Bytes → Bool
eq_bytes [] [] = true
eq_bytes (x ∷ xs) (y ∷ ys) = (x == y) && eq_bytes xs ys
eq_bytes _ _ = false

-- strcpy_s of driver/ma_platform_posix.cpp: the string that is in the buffer afterwards. A string
-- that does not fit leaves an empty one.
unfoldable pub strcpy_s : ℕ → Bytes → Bytes
strcpy_s size src = if ltb size (length src + 1) then [] else src

-- The message behind the prefix is replaced.
abbrev pub with_message : MadbError → Bytes → Bytes
with_message e msg = take e.prefix_len e.text ++ strcpy_s (max_message + 1 - e.prefix_len) msg

-- MADB_CLEAR_ERROR
unfoldable pub clear_error : MadbError → MadbError
clear_error e = record e {
  state = codes "00000";
  text = take e.prefix_len e.text;
  native_error = 0;
  return_value = sql_success;
}

-- MADB_PutErrorPrefix. The first argument is MARIADB_ODBC_ERR_PREFIX, a constant of the build, the
-- second the version that the server gives; `none` is no connection.
unfoldable pub put_error_prefix : Bytes → Option Bytes → MadbError → MadbError
unfolding strcpy_s
put_error_prefix prefix server e = if e.prefix_len == 0 then with_prefix server else e
  where
    whole : Bytes → Bytes
    whole info = prefix ++ b'[' ∷ (take 32 info ++ b']' ∷ [])

    with_prefix : Option Bytes → MadbError
    with_prefix none = record e {
      prefix_len = length prefix;
      text = strcpy_s (max_message + 1) prefix;
    }
    with_prefix (some info) = record e {
      prefix_len = length (whole info);
      text = take max_message (whole info);
    }

-- The numbers by which a lost connection is known.
abbrev pub is_lost : ℕ → Bool
is_lost n = n == 2013 || (n == 2006 || n == 1160)

abbrev is_general : Code → Bool
is_general err_hy000 = true
is_general _ = false

abbrev pub effective_code : Code → ℕ → Code
effective_code c native = if is_lost native && is_general c then err_08s01 else c

abbrev message_or : Option Bytes → Bytes → Bytes
message_or none d = d
message_or (some m) d = m

-- MADB_SetError
unfoldable pub set_error : MadbError → Code → Option Bytes → ℕ → MadbError
unfolding strcpy_s value
set_error e code msg native =
    let r = error_at (value (effective_code code native)) in
    record e {
      text = with_message e (message_or msg r.message);
      state = r.state;
      native_error = native;
      return_value = r.return_value;
    }

-- What a SQLSTATE's class means; the first tests of MADB_SetNativeError and MADB_FromException.
unfoldable pub class_return : Bytes → SqlReturn
class_return s =
    if head_or_nul s == b'0'
    then (if head_or_nul (tail s) == b'0'
        then sql_success
        else if head_or_nul (tail s) == b'1'
        then sql_success_with_info
        else sql_error)
    else sql_error

-- A lost connection is reported as 08S01 even where the library gives no state.
unfoldable pub adjusted_state : ℕ → Bytes → Bytes
unfolding eq_bytes
adjusted_state native s =
    if (is_lost native || native == 5014)
      && (eq_bytes s (codes "HY000") || eq_bytes s (codes "00000"))
    then codes "08S01"
    else s

-- MADB_SetNativeError, on what the library's functions give: the state, the message and the number.
unfoldable pub set_native_error : MadbError → Bytes → Option Bytes → ℕ → MadbError
unfolding strcpy_s adjusted_state class_return
set_native_error e s msg native =
    let state = strcpy_s 6 (adjusted_state native s) in
    record e {
      text = message_of msg;
      state = state;
      native_error = native;
      return_value = class_return state;
    }
  where
    message_of : Option Bytes → Bytes
    message_of none = e.text
    message_of (some m) = with_message e m

-- MADB_FromException
unfoldable pub from_exception : MadbError → Bytes → Bytes → ℕ → MadbError
unfolding strcpy_s adjusted_state class_return set_error eq_bytes
from_exception e s what native =
    let state = strcpy_s 6 (adjusted_state native s) in
    let filled = record e {
      text = with_message e what;
      state = state;
      native_error = native;
      return_value = sql_error;
    } in
    if eq_bytes state (codes "00000")
    then set_error filled err_hy000 (some (codes "Internal Error Occurred")) 0
    else record filled { return_value = class_return state }

-- MADB_CopyError
unfoldable pub copy_error : MadbError → MadbError → MadbError
unfolding strcpy_s
copy_error to from = record to {
  native_error = from.native_error;
  return_value = from.return_value;
  prefix_len = from.prefix_len;
  state = strcpy_s 6 from.state;
  text = strcpy_s (max_message + 1) from.text;
}
