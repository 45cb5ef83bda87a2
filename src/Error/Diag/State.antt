-- ===== src/Error/Diag/State.antt =====
-- The SQLSTATE and the return code that MADB_SetError leaves.
use mariadb_connector_odbc.Base.{ℕ, ◌≡◌, refl, Option, Bytes}
use mariadb_connector_odbc.Error.Code.{Code, value, err_00000}
use mariadb_connector_odbc.Error.Diag.{MadbError, set_error, effective_code, class_return}
use mariadb_connector_odbc.Error.Name.{state_name}
use mariadb_connector_odbc.Error.Table.{error_at}

-- The table's row at a code's value is the one of the state that the code is named after.
pub error_at-value : (c : Code) → (error_at (value c)).state ≡ state_name c
unfolding error_at value state_name
error_at-value err_00000 = refl
error_at-value _ = refl

return_value-error_at : (c : Code) → (error_at (value c)).return_value ≡ class_return (state_name c)
unfolding error_at value state_name class_return
return_value-error_at err_00000 = refl
return_value-error_at _ = refl

-- MADB_SetError stores the SQLSTATE that the code is named after, and returns SQL_SUCCESS for the
-- class 00, SQL_SUCCESS_WITH_INFO for the class 01 and SQL_ERROR for every other; only HY000 becomes
-- 08S01 if the native number is one of a lost connection.
pub set_error-state :
    (e : MadbError) (c : Code) (msg : Option Bytes) (native : ℕ)
    → ((set_error e c msg native).state ≡ state_name (effective_code c native))
      × ((set_error e c msg native).return_value
          ≡ class_return (state_name (effective_code c native)))
      × ((set_error e c msg native).native_error ≡ native)
unfolding set_error
set_error-state e c msg native = (
  error_at-value (effective_code c native),
  return_value-error_at (effective_code c native),
  refl,
)
