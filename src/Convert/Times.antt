-- ===== src/Convert/Times.antt =====
-- The structures of date and time values, the copies between them in driver/ma_helper.cpp, and the
-- check of driver/ma_typeconv.cpp that a value fits its SQL type.
use mariadb_connector_odbc.Base.{
  ℕ, ◌-◌, ◌*◌, ◌/◌, ◌%◌, ◌^◌, Bool, not, ◌&&◌, ◌||◌, Option, none, some, [], ◌∷◌, ltb, ◌==◌,
  if◌then◌else◌,
}
use mariadb_connector_odbc.Base.Int.{ℤ, pos, negsuc, eq_ℤ}
use mariadb_connector_odbc.Types.Codes.{one_of, sql_date, sql_time, sql_type_date, sql_type_time}

-- An int as an unsigned int, and the low 16 bits of an unsigned int as a short.
unfoldable pub uint_of : ℤ → ℕ
uint_of (pos n) = n % 2 ^ 32
uint_of (negsuc n) = 2 ^ 32 - 1 - n

unfoldable pub short_of : ℕ → ℤ
short_of n = let low = n % 2 ^ 16 in if ltb low (2 ^ 15) then pos low else negsuc (2 ^ 16 - 1 - low)

abbrev pub ushort_of : ℕ → ℕ
ushort_of n = n % 2 ^ 16

-- SQL_TIMESTAMP_STRUCT: the year is a short, the fraction is in nanoseconds.
pub record Timestamp : Type 0 where
  pub year : ℤ
  pub month : ℕ
  pub day : ℕ
  pub hour : ℕ
  pub minute : ℕ
  pub second : ℕ
  pub fraction : ℕ

-- SQL_TIME_STRUCT and SQL_DATE_STRUCT
pub record Time : Type 0 where
  pub hour : ℕ
  pub minute : ℕ
  pub second : ℕ

pub record Date : Type 0 where
  pub year : ℤ
  pub month : ℕ
  pub day : ℕ

-- The values of enum_mysql_timestamp_type that are stored.
pub data TimeType : Type 0 where
  timestamp_date timestamp_datetime timestamp_time : TimeType

-- MYSQL_TIME, all of unsigned int, and the microseconds; no function here reads or writes `neg`.
pub record MysqlTime : Type 0 where
  pub year : ℕ
  pub month : ℕ
  pub day : ℕ
  pub hour : ℕ
  pub minute : ℕ
  pub second : ℕ
  pub second_part : ℕ
  pub time_type : TimeType

-- MADB_CopyOdbcTsToMadbTime
unfoldable pub copy_odbc_ts_to_madb_time : Timestamp → MysqlTime → MysqlTime
copy_odbc_ts_to_madb_time src dst = record dst {
  year = uint_of src.year;
  month = src.month;
  day = src.day;
  hour = src.hour;
  minute = src.minute;
  second = src.second;
  second_part = src.fraction / 1000;
}

-- MADB_CopyMadbTimeToOdbcTs, which writes every member of its target.
unfoldable pub copy_madb_time_to_odbc_ts : MysqlTime → Timestamp
copy_madb_time_to_odbc_ts src = record {
  year = short_of src.year;
  month = ushort_of src.month;
  day = ushort_of src.day;
  hour = ushort_of src.hour;
  minute = ushort_of src.minute;
  second = ushort_of src.second;
  fraction = src.second_part * 1000 % 2 ^ 32;
}

-- VALID_TIME
unfoldable pub valid_time : ℕ → ℕ → ℕ → Bool
valid_time hour minute second = ltb hour 24 && (ltb minute 60 && ltb second 60)

-- The SQLSTATEs of the conversions.
pub data SqlState : Type 0 where
  state_01s07 state_22002 state_22007 state_22008 state_22018 state_hy001 : SqlState

abbrev check_date : Timestamp → SqlState → Bool → Option SqlState
check_date ts state is_time =
    if (not is_time && eq_ℤ ts.year (pos 0)) || (ts.month == 0 || ts.day == 0)
    then some state
    else none

-- MADB_TsConversionIsPossible: the state that is thrown. The first argument is AllowDtTruncation.
unfoldable pub ts_conversion_is_possible : Bool → Timestamp → ℤ → SqlState → Bool → Option SqlState
ts_conversion_is_possible allow ts sql_type state is_time =
    if one_of sql_type (sql_time ∷ sql_type_time ∷ [])
    then (if not (ts.fraction == 0) && not allow then some state_22008 else none)
    else if one_of sql_type (sql_date ∷ sql_type_date ∷ [])
        && (not (ts.hour == 0 && (ts.minute == 0 && (ts.second == 0 && ts.fraction == 0)))
            && not allow)
    then some state_22008
    else check_date ts state is_time
