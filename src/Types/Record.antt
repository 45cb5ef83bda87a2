-- ===== src/Types/Record.antt =====
-- What driver/ma_desc.cpp derives for a column's record in the row descriptor: MADB_FixIrdRecord,
-- MADB_FixDisplaySize and MADB_FixDataSize.
pub mod Laws
use mariadb_connector_odbc.Base.{
  ℕ, ◌+◌, ◌-◌, ◌*◌, ◌/◌, ◌^◌, Bool, true, false, Option, none, some, [], ◌∷◌, ltb, if◌then◌else◌,
  Bytes, codes,
}
use mariadb_connector_odbc.Base.Int.{ℤ, pos, negsuc, eq_ℤ}
use mariadb_connector_odbc.Convert.Times.{short_of}
use mariadb_connector_odbc.Types.Codes.{
  one_of, sql_numeric, sql_decimal, sql_integer, sql_smallint, sql_float, sql_real, sql_double,
  sql_date, sql_time, sql_timestamp, sql_type_date, sql_type_time, sql_type_timestamp,
  sql_longvarchar, sql_binary, sql_varbinary, sql_longvarbinary, sql_bigint, sql_tinyint, sql_bit,
  sql_guid, sql_wlongvarchar,
}
use mariadb_connector_odbc.Types.Column.{
  madb_test, fractional_part, date_len, time_len, timestamp_len, get_data_size, fix_octet_length,
}

-- The members of MADB_DescRecord that are read or written here. An octet length is not negative
-- (an unknown type's, SQL_NO_TOTAL, is left out); the precision is a short.
pub record DescRecord : Type 0 where
  pub concise_type : ℤ
  pub octet_length : ℕ
  pub is_unsigned : Bool
  pub precision : ℤ
  pub scale : ℕ
  pub num_prec_radix : ℕ
  pub verbose_type : ℤ
  pub datetime_interval_code : ℕ
  pub searchable : ℕ
  pub display_size : ℤ
  pub length : ℕ
  pub literal_prefix : Bytes
  pub literal_suffix : Bytes

-- `Precision + 2`
unfoldable pub plus_two : ℤ → ℤ
plus_two (pos n) = pos (n + 2)
plus_two (negsuc n) = if ltb 1 n then negsuc (n - 2) else pos (1 - n)

-- MADB_FixDisplaySize: what it stores, `mbmaxlen` being that of the connection's character set.
unfoldable pub fix_display_size : ℕ → DescRecord → ℤ
unfolding plus_two
fix_display_size mbmaxlen r =
    let t = r.concise_type in
    if eq_ℤ t sql_bit
    then pos 1
    else if eq_ℤ t sql_tinyint
    then pos (4 - madb_test r.is_unsigned)
    else if eq_ℤ t sql_smallint
    then pos (6 - madb_test r.is_unsigned)
    else if eq_ℤ t sql_integer
    then pos (11 - madb_test r.is_unsigned)
    else if eq_ℤ t sql_real
    then pos 14
    else if eq_ℤ t sql_bigint
    then pos 20
    else if one_of t (sql_float ∷ sql_double ∷ [])
    then pos 24
    else if one_of t (sql_decimal ∷ sql_numeric ∷ [])
    then plus_two r.precision
    else if eq_ℤ t sql_type_date
    then pos date_len
    else if eq_ℤ t sql_type_time
    then pos (time_len + fractional_part r.scale)
    else if eq_ℤ t sql_type_timestamp
    then pos (timestamp_len + fractional_part r.scale)
    else if one_of t (sql_binary ∷ sql_varbinary ∷ sql_longvarbinary ∷ [])
    then pos (r.octet_length * 2)
    else if eq_ℤ t sql_guid
    then pos 36
    else if ltb mbmaxlen 2
    then pos r.octet_length
    else pos (r.octet_length / mbmaxlen)

-- A short as a size_t.
abbrev pub size_of_short : ℤ → ℕ
size_of_short (pos n) = n
size_of_short (negsuc n) = 2 ^ 64 - 1 - n

-- MADB_FixDataSize
unfoldable pub fix_data_size : ℕ → DescRecord → ℕ
fix_data_size mbmaxlen r =
    get_data_size r.concise_type r.octet_length r.is_unsigned (size_of_short r.precision) r.scale
      mbmaxlen

-- `(SQLSMALLINT)Record->OctetLength - 2`, stored as a short.
abbrev pub precision_of : ℕ → ℤ
precision_of octets = short_of (octets + 2 ^ 16 - 2)

-- The first `switch`: the radix, and the precision, which only two of its cases store.
unfoldable pub radix_of : ℤ → ℕ
radix_of t =
    if eq_ℤ t sql_decimal
    then 10
    else if eq_ℤ t sql_real
    then 2
    else if one_of t (sql_double ∷ sql_tinyint ∷ sql_smallint ∷ sql_integer ∷ sql_bigint ∷ [])
    then 10
    else 0

unfoldable pub fixed_precision : ℤ → ℕ → ℤ → ℤ
fixed_precision t octets before =
    if one_of t (sql_decimal ∷ sql_real ∷ []) then precision_of octets else before

abbrev pub fix_radix : DescRecord → DescRecord
fix_radix r = record r {
  num_prec_radix = radix_of r.concise_type;
  precision = fixed_precision r.concise_type r.octet_length r.precision;
}

-- SQL_DATETIME is 9.
unfoldable pub verbose_type_of : ℤ → ℤ
verbose_type_of t =
    if one_of t (
      sql_type_date ∷ sql_date ∷ sql_type_time ∷ sql_time ∷ sql_type_timestamp ∷ sql_timestamp ∷ [])
    then pos 9
    else t

-- SQL_CODE_DATE, SQL_CODE_TIME and SQL_CODE_TIMESTAMP; any other type leaves the code.
unfoldable pub interval_code_of : ℤ → ℕ → ℕ
interval_code_of t before =
    if eq_ℤ t sql_type_date
    then 1
    else if eq_ℤ t sql_type_time
    then 2
    else if eq_ℤ t sql_type_timestamp
    then 3
    else before

-- SQL_PRED_CHAR is 1, SQL_SEARCHABLE is 3.
unfoldable pub searchable_of : ℤ → ℕ
searchable_of t =
    if one_of t (sql_longvarchar ∷ sql_wlongvarchar ∷ sql_longvarbinary ∷ []) then 1 else 3

abbrev pub is_binary_type : ℤ → Bool
is_binary_type t = one_of t (sql_binary ∷ sql_varbinary ∷ sql_longvarbinary ∷ [])

abbrev pub is_datetime_type : ℤ → Bool
is_datetime_type t = one_of t (sql_type_date ∷ sql_type_time ∷ sql_type_timestamp ∷ [])

-- The last `switch`.
unfoldable pub literal_prefix_of : ℤ → Bytes
literal_prefix_of t =
    if is_binary_type t then codes "0x" else if is_datetime_type t then codes "'" else []

unfoldable pub literal_suffix_of : ℤ → Bytes
literal_suffix_of t = if is_binary_type t then [] else if is_datetime_type t then codes "'" else []

abbrev pub fix_literals : DescRecord → DescRecord
fix_literals r = record r {
  literal_prefix = literal_prefix_of r.concise_type;
  literal_suffix = literal_suffix_of r.concise_type;
}

abbrev pub fix_types : DescRecord → DescRecord
fix_types r = record r {
  verbose_type = verbose_type_of r.concise_type;
  datetime_interval_code = interval_code_of r.concise_type r.datetime_interval_code;
  searchable = searchable_of r.concise_type;
}

abbrev pub fix_sizes : ℕ → DescRecord → DescRecord
fix_sizes mbmaxlen r = record r {
  display_size = fix_display_size mbmaxlen r;
  length = fix_data_size mbmaxlen r;
}

-- MADB_FixIrdRecord on a record that is there.
unfoldable pub fix_ird_record : ℕ → DescRecord → DescRecord
fix_ird_record mbmaxlen r = fix_literals (
    fix_sizes mbmaxlen (
      fix_types
        (fix_radix (record r { octet_length = fix_octet_length r.concise_type r.octet_length }))))
