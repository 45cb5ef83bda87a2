-- ===== src/Types/CType/Tables.antt =====
-- The tables of type codes agree with one another.
use mariadb_connector_odbc.Base.{ℕ, ◌≡◌, Bool, true, false, not, ◌||◌, [], ◌∷◌, arith}
use mariadb_connector_odbc.Base.Int.{ℤ, pos, negsuc, eq_ℤ}
use mariadb_connector_odbc.Types.CType.{
  check_odbc_type, get_default_type, get_type_length, get_madb_type_and_length, is_int_type,
}
use mariadb_connector_odbc.Types.Codes.{
  one_of, sql_numeric, sql_date, sql_time, sql_timestamp, sql_type_date, sql_type_time,
  sql_type_timestamp, sql_bigint, sql_bit, c_interval_hour_to_minute, c_interval_hour_to_second,
  FieldType,
}

-- The two tables of lengths agree at every code but those of SQL_C_NUMERIC, SQL_BIGINT and the two
-- intervals that the driver binds.
pub get_type_length-eq :
    (t : ℤ) (n : ℕ)
    → one_of t
        (sql_numeric ∷ sql_bigint ∷ c_interval_hour_to_minute ∷ c_interval_hour_to_second ∷ [])
      ≡ false
    → get_type_length t n ≡ (get_madb_type_and_length t n).length
unfolding get_type_length get_madb_type_and_length
get_type_length-eq (pos c) n h = ground arith
get_type_length-eq (negsuc c) n h = ground arith

abbrev pub is_int_field : FieldType → Bool
is_int_field FieldType.tiny = true
is_int_field FieldType.short = true
is_int_field FieldType.long = true
is_int_field FieldType.longlong = true
is_int_field _ = false

-- The codes that are bound as one of the server's integer types are those of MADB_IsIntType and
-- SQL_C_BIT.
pub is_int_type-field :
    (t : ℤ) (n : ℕ)
    → is_int_field (get_madb_type_and_length t n).field_type ≡ (is_int_type t || eq_ℤ t sql_bit)
unfolding is_int_type get_madb_type_and_length
is_int_type-field (pos c) n = ground arith
is_int_type-field (negsuc c) n = ground arith

-- The default C type is one that MADB_CheckODBCType accepts exactly if it is not one of the codes
-- SQL_C_DATE, SQL_C_TIME and SQL_C_TIMESTAMP of ODBC 2, and those are the defaults of the dates.
pub get_default_type-checked :
    (t : ℤ)
    → (check_odbc_type (get_default_type t)
        ≡ not (one_of (get_default_type t) (sql_date ∷ sql_time ∷ sql_timestamp ∷ [])))
      × (one_of (get_default_type t) (sql_date ∷ sql_time ∷ sql_timestamp ∷ [])
          ≡ one_of t (
              sql_date ∷ sql_time ∷ sql_timestamp ∷ sql_type_date ∷ sql_type_time
              ∷ sql_type_timestamp ∷ []))
unfolding check_odbc_type get_default_type
get_default_type-checked (pos c) = ground arith
get_default_type-checked (negsuc c) = ground arith
