-- ===== src/Types/CType.antt =====
-- What driver/ma_helper.cpp knows of a type code of the application.
pub mod Tables
use mariadb_connector_odbc.Base.{
  ℕ, zero, suc, ◌≡◌, refl, Bool, true, false, not, ◌&&◌, ◌||◌, List, [], ◌∷◌, arith, ◌==◌,
  if◌then◌else◌, Bool-cases, ◌⊎◌, inl, inr,
}
use mariadb_connector_odbc.Base.Int.{ℤ, pos, negsuc, minus, eq_ℤ}
use mariadb_connector_odbc.Types.Codes.{
  one_of, sql_char, sql_numeric, sql_decimal, sql_integer, sql_smallint, sql_float, sql_real,
  sql_double, sql_date, sql_time, sql_timestamp, sql_varchar, sql_type_date, sql_type_time,
  sql_type_timestamp, sql_longvarchar, sql_binary, sql_varbinary, sql_longvarbinary, sql_bigint,
  sql_tinyint, sql_bit, sql_wchar, sql_wvarchar, sql_wlongvarchar, sql_guid, c_sshort, c_slong,
  c_ushort, c_ulong, c_sbigint, c_stinyint, c_ubigint, c_utinyint, c_default,
  c_interval_hour_to_minute, c_interval_hour_to_second, c_intervals, size_of_date, size_of_time,
  size_of_timestamp, size_of_numeric, size_of_interval, FieldType,
}

-- MADB_GetWCharType
unfoldable pub get_wchar_type : ℤ → ℤ
get_wchar_type t =
    if eq_ℤ t sql_char
    then sql_wchar
    else if eq_ℤ t sql_varchar
    then sql_wvarchar
    else if eq_ℤ t sql_longvarchar
    then sql_wlongvarchar
    else t

-- MADB_CheckODBCType (the build sets ODBCVER to 0x0351).
unfoldable pub check_odbc_type : ℤ → Bool
check_odbc_type t = one_of t (
    sql_char ∷ sql_wchar ∷ c_sshort ∷ sql_smallint ∷ c_ushort ∷ c_slong ∷ sql_integer ∷ c_ulong
    ∷ sql_real ∷ sql_double ∷ sql_bit ∷ c_stinyint ∷ sql_tinyint ∷ c_utinyint ∷ c_sbigint
    ∷ c_ubigint ∷ sql_binary ∷ sql_type_date ∷ sql_type_time ∷ sql_type_timestamp ∷ sql_numeric
    ∷ sql_guid ∷ c_default ∷ [])

-- MADB_GetTypeFromConciseType; SQL_DATETIME is 9 and SQL_INTERVAL is 10.
unfoldable pub get_type_from_concise_type : ℤ → ℤ
get_type_from_concise_type t =
    if one_of t (
      sql_date ∷ sql_time ∷ sql_timestamp ∷ sql_type_date ∷ sql_type_time ∷ sql_type_timestamp ∷ [])
    then pos 9
    else if one_of t c_intervals
    then pos 10
    else t

-- MADB_GetDefaultType
unfoldable pub get_default_type : ℤ → ℤ
get_default_type t =
    if eq_ℤ t sql_bigint
    then c_sbigint
    else if eq_ℤ t sql_binary
    then sql_binary
    else if eq_ℤ t sql_bit
    then sql_bit
    else if eq_ℤ t sql_char
    then sql_char
    else if one_of t (sql_date ∷ sql_type_date ∷ [])
    then sql_date
    else if eq_ℤ t sql_decimal
    then sql_char
    else if eq_ℤ t sql_double
    then sql_double
    else if eq_ℤ t sql_float
    then sql_double
    else if eq_ℤ t sql_integer
    then sql_integer
    else if eq_ℤ t sql_longvarbinary
    then sql_binary
    else if eq_ℤ t sql_longvarchar
    then sql_char
    else if eq_ℤ t sql_numeric
    then sql_char
    else if eq_ℤ t sql_real
    then sql_real
    else if eq_ℤ t sql_smallint
    then sql_smallint
    else if one_of t (sql_time ∷ sql_type_time ∷ [])
    then sql_time
    else if one_of t (sql_timestamp ∷ sql_type_timestamp ∷ [])
    then sql_timestamp
    else if eq_ℤ t sql_tinyint
    then sql_tinyint
    else if eq_ℤ t sql_varbinary
    then sql_binary
    else sql_char

abbrev pub tiny_codes : List ℤ
tiny_codes = sql_bit ∷ sql_tinyint ∷ c_stinyint ∷ c_utinyint ∷ []

abbrev pub short_codes : List ℤ
short_codes = sql_smallint ∷ c_sshort ∷ c_ushort ∷ []

abbrev pub long_codes : List ℤ
long_codes = sql_integer ∷ c_slong ∷ c_ulong ∷ []

-- MADB_GetTypeLength
unfoldable pub get_type_length : ℤ → ℕ → ℕ
get_type_length t n =
    if one_of t tiny_codes
    then 1
    else if one_of t short_codes
    then 2
    else if one_of t long_codes
    then 4
    else if one_of t (c_ubigint ∷ c_sbigint ∷ [])
    then 8
    else if eq_ℤ t sql_double
    then 8
    else if eq_ℤ t sql_real
    then 4
    else if eq_ℤ t sql_numeric
    then size_of_numeric
    else if one_of t (sql_type_time ∷ sql_time ∷ [])
    then size_of_time
    else if one_of t (sql_type_date ∷ sql_date ∷ [])
    then size_of_date
    else if one_of t (sql_type_timestamp ∷ sql_timestamp ∷ [])
    then size_of_timestamp
    else n

-- What MADB_GetMaDBTypeAndLength returns and writes.
pub record Bound : Type 0 where
  pub field_type : FieldType
  pub unsigned : Bool
  pub length : ℕ

abbrev bound : FieldType → Bool → ℕ → Bound
bound t u n = record { field_type = t; unsigned = u; length = n }

-- MADB_GetMaDBTypeAndLength; the last argument is what `*Length` holds before.
unfoldable pub get_madb_type_and_length : ℤ → ℕ → Bound
get_madb_type_and_length t n =
    if one_of t tiny_codes
    then bound FieldType.tiny (eq_ℤ t c_utinyint) 1
    else if one_of t short_codes
    then bound FieldType.short (eq_ℤ t c_ushort) 2
    else if one_of t long_codes
    then bound FieldType.long (eq_ℤ t c_ulong) 4
    else if one_of t (c_ubigint ∷ c_sbigint ∷ sql_bigint ∷ [])
    then bound FieldType.longlong (eq_ℤ t c_ubigint) 8
    else if eq_ℤ t sql_double
    then bound FieldType.double false 8
    else if eq_ℤ t sql_real
    then bound FieldType.float false 4
    else if eq_ℤ t sql_numeric
    then bound FieldType.decimal false n
    else if one_of t (sql_type_time ∷ sql_time ∷ [])
    then bound FieldType.time false size_of_time
    else if one_of t (sql_type_date ∷ sql_date ∷ [])
    then bound FieldType.date false size_of_date
    else if one_of t (sql_type_timestamp ∷ sql_timestamp ∷ [])
    then bound FieldType.timestamp false size_of_timestamp
    else if one_of t (c_interval_hour_to_minute ∷ c_interval_hour_to_second ∷ [])
    then bound FieldType.time false size_of_interval
    else if eq_ℤ t sql_char
    then bound FieldType.string false n
    else bound FieldType.blob false n

-- MADB_IsDecimalType, MADB_IsIntType, MADB_IsNumericType
unfoldable pub is_decimal_type : ℤ → Bool
is_decimal_type t = one_of t (sql_double ∷ sql_real ∷ sql_decimal ∷ sql_numeric ∷ [])

unfoldable pub is_int_type : ℤ → Bool
is_int_type t = one_of t (
    sql_tinyint ∷ c_stinyint ∷ c_utinyint ∷ sql_smallint ∷ c_sshort ∷ c_ushort ∷ sql_integer
    ∷ c_slong ∷ c_ulong ∷ c_ubigint ∷ c_sbigint ∷ sql_bigint ∷ [])

unfoldable pub is_numeric_type : ℤ → Bool
unfolding is_decimal_type is_int_type
is_numeric_type t = is_decimal_type t || is_int_type t
