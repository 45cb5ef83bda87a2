-- ===== src/Sql.antt =====
-- The return codes of the ODBC functions, SQLRETURN.
use mariadb_connector_odbc.Base.{Bool, true, false}
use mariadb_connector_odbc.Base.Int.{ℤ, pos, minus, eq_ℤ}

pub data SqlReturn : Type 0 where
  sql_success sql_success_with_info sql_need_data sql_no_data sql_error : SqlReturn
  sql_invalid_handle : SqlReturn

-- SQL_SUCCEEDED
abbrev pub sql_succeeded : SqlReturn → Bool
sql_succeeded sql_success = true
sql_succeeded sql_success_with_info = true
sql_succeeded _ = false

-- The number of a return code, and the comparison of two.
abbrev pub return_number : SqlReturn → ℤ
return_number sql_success = pos 0
return_number sql_success_with_info = pos 1
return_number sql_need_data = pos 99
return_number sql_no_data = pos 100
return_number sql_error = minus 1
return_number sql_invalid_handle = minus 2

abbrev pub eq_return : SqlReturn → SqlReturn → Bool
eq_return a b = eq_ℤ (return_number a) (return_number b)
