-- ===== src/Types/Column.antt =====
-- What driver/ma_helper.cpp and driver/ma_desc.cpp derive from a column's MYSQL_FIELD.
pub mod Sizes
use Prim.Native.Nat.{min}
use mariadb_connector_odbc.Base.{
  ℕ, zero, suc, ◌+◌, ◌-◌, ◌*◌, ◌/◌, ◌%◌, ◌^◌, Bool, true, false, not, ◌&&◌, ◌||◌, List, [], ◌∷◌,
  ltb, leb, ◌==◌, if◌then◌else◌, Bytes, codes,
}
use mariadb_connector_odbc.Base.Int.{ℤ, pos, eq_ℤ}
use mariadb_connector_odbc.Types.Codes.{
  one_of, sql_unknown_type, sql_char, sql_numeric, sql_decimal, sql_integer, sql_smallint,
  sql_float, sql_real, sql_double, sql_varchar, sql_type_date, sql_type_time, sql_type_timestamp,
  sql_longvarchar, sql_binary, sql_varbinary, sql_longvarbinary, sql_bigint, sql_tinyint, sql_bit,
  sql_guid, size_of_date, size_of_time, size_of_timestamp, FieldType, decimal, tiny, short, long,
  float, double, null, timestamp, longlong, int24, date, time, datetime, year, newdate, varchar,
  bit, newdecimal, enum, set, tiny_blob, medium_blob, long_blob, blob, var_string, string, geometry,
  other,
}

-- The fields of MYSQL_FIELD that are read. The flags UNSIGNED_FLAG and NUM_FLAG are Booleans.
pub record Field : Type 0 where
  pub field_type : FieldType
  pub length : ℕ
  pub is_unsigned : Bool
  pub is_num : Bool
  pub decimals : ℕ
  pub charsetnr : ℕ

abbrev pub madb_test : Bool → ℕ
madb_test b = if b then 1 else 0

-- MADB_FIELD_IS_BINARY
abbrev pub is_binary : Field → Bool
is_binary f = f.charsetnr == 63

-- MADB_FRACTIONAL_PART
abbrev pub fractional_part : ℕ → ℕ
fractional_part d = if ltb 0 d then d + 1 else 0

-- SQL_DATE_LEN, SQL_TIME_LEN, SQL_TIMESTAMP_LEN of sqlext.h
abbrev pub date_len : ℕ
date_len = 10

abbrev pub time_len : ℕ
time_len = 8

abbrev pub timestamp_len : ℕ
timestamp_len = 19

-- SQL_NO_TOTAL, -4, as a size_t.
abbrev pub no_total : ℕ
no_total = 2 ^ 64 - 4

abbrev pub int_max32 : ℕ
int_max32 = 2147483647

-- MapMariadDbToOdbcType; the two Booleans are the data source's NoBigint and whether the
-- application is MS Access.
unfoldable pub map_to_odbc_type : Bool → Bool → Field → FieldType → ℤ
map_to_odbc_type nb ms f bit = if ltb 1 f.length then sql_binary else sql_bit
map_to_odbc_type nb ms f null = sql_varchar
map_to_odbc_type nb ms f tiny = if f.is_num then sql_tinyint else sql_char
map_to_odbc_type nb ms f year = sql_smallint
map_to_odbc_type nb ms f short = sql_smallint
map_to_odbc_type nb ms f int24 = sql_integer
map_to_odbc_type nb ms f long = sql_integer
map_to_odbc_type nb ms f float = sql_real
map_to_odbc_type nb ms f double = sql_double
map_to_odbc_type nb ms f timestamp = sql_type_timestamp
map_to_odbc_type nb ms f datetime = sql_type_timestamp
map_to_odbc_type nb ms f newdate = sql_type_date
map_to_odbc_type nb ms f date = sql_type_date
map_to_odbc_type nb ms f time = sql_type_time
map_to_odbc_type nb ms f tiny_blob = if is_binary f then sql_longvarbinary else sql_longvarchar
map_to_odbc_type nb ms f blob = if is_binary f then sql_longvarbinary else sql_longvarchar
map_to_odbc_type nb ms f medium_blob = if is_binary f then sql_longvarbinary else sql_longvarchar
map_to_odbc_type nb ms f long_blob = if is_binary f then sql_longvarbinary else sql_longvarchar
map_to_odbc_type nb ms f longlong =
    if nb then sql_integer else if ms then sql_varchar else sql_bigint
map_to_odbc_type nb ms f string = if is_binary f then sql_binary else sql_char
map_to_odbc_type nb ms f var_string = if is_binary f then sql_varbinary else sql_varchar
map_to_odbc_type nb ms f set = sql_char
map_to_odbc_type nb ms f enum = sql_char
map_to_odbc_type nb ms f geometry = sql_longvarbinary
map_to_odbc_type nb ms f decimal = sql_decimal
map_to_odbc_type nb ms f newdecimal = sql_decimal
map_to_odbc_type nb ms f varchar = sql_unknown_type
map_to_odbc_type nb ms f other = sql_unknown_type

-- The number of characters of a decimal: its precision is a size_t, and wraps below 0.
unfoldable pub decimal_length : Field → ℕ
decimal_length f =
    let precision =
      (f.length + 2 ^ 64 - madb_test (not f.is_unsigned) - madb_test (not (f.decimals == 0)))
      % 2 ^ 64 in
    f.length + madb_test (precision == f.decimals)

-- MADB_GetOctetLength
unfoldable pub get_octet_length : Field → FieldType → ℕ
get_octet_length f null = 1
get_octet_length f bit = (f.length + 7) / 8
get_octet_length f tiny = 1
get_octet_length f year = 2
get_octet_length f short = 2
get_octet_length f int24 = 4
get_octet_length f long = 4
get_octet_length f longlong = 8
get_octet_length f double = 8
get_octet_length f float = 4
get_octet_length f decimal = decimal_length f
get_octet_length f newdecimal = decimal_length f
get_octet_length f date = size_of_date
get_octet_length f time = size_of_time
get_octet_length f newdate = size_of_timestamp
get_octet_length f timestamp = size_of_timestamp
get_octet_length f datetime = size_of_timestamp
get_octet_length f other = no_total
get_octet_length f _ = min int_max32 f.length

-- The size of a text or a binary column; `char_maxlen` is 0 where the charset is not known.
unfoldable pub text_display_size : Field → ℕ → ℕ
text_display_size f char_maxlen =
    if is_binary f
    then f.length * 2
    else if ltb char_maxlen 2
    then f.length
    else f.length / char_maxlen

-- MADB_GetDisplaySize
unfoldable pub get_display_size : Field → FieldType → ℕ → Bool → ℕ
get_display_size f null m nb = 1
get_display_size f bit m nb = if f.length == 1 then 1 else (f.length + 7) / 8 * 2
get_display_size f tiny m nb = 4 - madb_test f.is_unsigned
get_display_size f short m nb = 6 - madb_test f.is_unsigned
get_display_size f year m nb = 6 - madb_test f.is_unsigned
get_display_size f int24 m nb = 9 - madb_test f.is_unsigned
get_display_size f long m nb = 11 - madb_test f.is_unsigned
get_display_size f longlong m nb = if nb then 11 - madb_test f.is_unsigned else 20
get_display_size f double m nb = 15
get_display_size f float m nb = 7
get_display_size f decimal m nb = decimal_length f
get_display_size f newdecimal m nb = decimal_length f
get_display_size f date m nb = date_len
get_display_size f time m nb = time_len + fractional_part f.decimals
get_display_size f newdate m nb = timestamp_len + fractional_part f.decimals
get_display_size f timestamp m nb = timestamp_len + fractional_part f.decimals
get_display_size f datetime m nb = timestamp_len + fractional_part f.decimals
get_display_size f other m nb = no_total
get_display_size f _ m nb = text_display_size f m

-- MADB_GetDataSize, the column size.
unfoldable pub get_data_size : ℤ → ℕ → Bool → ℕ → ℕ → ℕ → ℕ
get_data_size t octets is_unsigned precision scale char_maxlen =
    if eq_ℤ t sql_bit
    then 1
    else if eq_ℤ t sql_tinyint
    then 3
    else if eq_ℤ t sql_smallint
    then 5
    else if eq_ℤ t sql_integer
    then 10
    else if eq_ℤ t sql_bigint
    then 20 - madb_test is_unsigned
    else if eq_ℤ t sql_real
    then 7
    else if one_of t (sql_double ∷ sql_float ∷ [])
    then 15
    else if one_of t (sql_decimal ∷ sql_numeric ∷ [])
    then precision
    else if eq_ℤ t sql_type_date
    then date_len
    else if eq_ℤ t sql_type_time
    then time_len + fractional_part scale
    else if eq_ℤ t sql_type_timestamp
    then timestamp_len + fractional_part scale
    else if one_of t (sql_binary ∷ sql_varbinary ∷ sql_longvarbinary ∷ [])
    then octets
    else if eq_ℤ t sql_guid
    then 36
    else if ltb 1 char_maxlen
    then octets / char_maxlen
    else octets

-- MADB_FixOctetLength of driver/ma_desc.cpp, on the record's type and octet length.
unfoldable pub fix_octet_length : ℤ → ℕ → ℕ
fix_octet_length t octets =
    if one_of t (sql_bit ∷ sql_tinyint ∷ [])
    then 1
    else if eq_ℤ t sql_smallint
    then 2
    else if one_of t (sql_integer ∷ sql_real ∷ [])
    then 4
    else if one_of t (sql_bigint ∷ sql_double ∷ [])
    then 8
    else if eq_ℤ t sql_type_date
    then size_of_date
    else if eq_ℤ t sql_type_time
    then size_of_time
    else if eq_ℤ t sql_type_timestamp
    then size_of_timestamp
    else min int_max32 octets

-- MADB_GetTypeName
unfoldable pub get_type_name : Field → FieldType → Bytes
get_type_name f decimal = codes "decimal"
get_type_name f newdecimal = codes "decimal"
get_type_name f null = codes "null"
get_type_name f tiny = if f.is_num then codes "tinyint" else codes "char"
get_type_name f short = codes "smallint"
get_type_name f long = codes "integer"
get_type_name f float = codes "float"
get_type_name f double = codes "double"
get_type_name f timestamp = codes "timestamp"
get_type_name f longlong = codes "bigint"
get_type_name f int24 = codes "mediumint"
get_type_name f date = codes "date"
get_type_name f time = codes "time"
get_type_name f datetime = codes "datetime"
get_type_name f year = codes "year"
get_type_name f newdate = codes "date"
get_type_name f varchar = if is_binary f then codes "varbinary" else codes "varchar"
get_type_name f var_string = if is_binary f then codes "varbinary" else codes "varchar"
get_type_name f bit = codes "bit"
get_type_name f enum = codes "enum"
get_type_name f set = codes "set"
get_type_name f tiny_blob = if is_binary f then codes "tinyblob" else codes "tinytext"
get_type_name f medium_blob = if is_binary f then codes "mediumblob" else codes "mediumtext"
get_type_name f long_blob = if is_binary f then codes "longblob" else codes "longtext"
get_type_name f blob = if is_binary f then codes "blob" else codes "text"
get_type_name f string = if is_binary f then codes "binary" else codes "char"
get_type_name f geometry = codes "geometry"
get_type_name f other = []
