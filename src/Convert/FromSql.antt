-- ===== src/Convert/FromSql.antt =====
-- MADB_CopyMadbTimestamp of driver/ma_helper.cpp: a MYSQL_TIME from the server for the application.
use mariadb_connector_odbc.Base.{
  ℕ, ◌+◌, ◌*◌, ◌%◌, ◌^◌, Bool, true, false, Option, none, some, [], ◌∷◌, ◌==◌, if◌then◌else◌,
}
use mariadb_connector_odbc.Base.Int.{ℤ}
use mariadb_connector_odbc.Convert.Times.{
  uint_of, short_of, ushort_of, Timestamp, Time, Date, MysqlTime, valid_time, SqlState, state_01s07,
  state_22002, state_22007, copy_madb_time_to_odbc_ts,
}
use mariadb_connector_odbc.Types.Codes.{
  one_of, sql_date, sql_time, sql_timestamp, sql_type_date, sql_type_time, sql_type_timestamp,
  size_of_date, size_of_time, size_of_timestamp,
}

-- The application's buffer.
pub data Value : Type 0 where
  timestamp_value : Timestamp → Value
  time_value : Time → Value
  date_value : Date → Value

-- What one call leaves: the value in the buffer if it was stored, whether SQL_NULL_DATA went to the
-- indicator, what went to `*Length`, and the state set as an error if there is one.
pub record Fetched : Type 0 where
  pub value : Option Value
  pub is_null : Bool
  pub length : Option ℕ
  pub state : Option SqlState

abbrev all_zero : Timestamp → Bool
all_zero ts =
    (uint_of ts.year + ts.month + ts.day + ts.hour + ts.minute + ts.fraction + ts.second) % 2 ^ 32
    == 0

-- A value of zeros is NULL, and an error without an indicator.
abbrev null_or : Bool → Bool → Value → ℕ → Fetched
null_or zeros has_ind v n =
    if zeros
    then (if has_ind
        then record { value = some v; is_null = true; length = none; state = none }
        else record { value = some v; is_null = false; length = none; state = some state_22002 })
    else record { value = some v; is_null = false; length = some n; state = none }

-- The timestamp that is stored: a TIME gets the current date, and its fraction only with
-- AllowDtTruncation.
unfoldable pub fetched_timestamp : Bool → Date → MysqlTime → ℤ → Timestamp
fetched_timestamp allow today tm sql_type =
    if one_of sql_type (sql_time ∷ sql_type_time ∷ [])
    then record (copy_madb_time_to_odbc_ts tm) {
      year = today.year;
      month = today.month;
      day = today.day;
      fraction = if allow then tm.second_part * 1000 % 2 ^ 32 else 0;
    }
    else copy_madb_time_to_odbc_ts tm

unfoldable pub fetched_date : MysqlTime → Date
fetched_date tm = record {
  year = short_of tm.year;
  month = ushort_of tm.month;
  day = ushort_of tm.day;
}

-- MADB_CopyMadbTimestamp for a DataPtr that is not null. The Booleans are AllowDtTruncation and
-- whether there is an indicator.
unfoldable pub copy_madb_timestamp : Bool → Date → Bool → MysqlTime → ℤ → ℤ → Fetched
unfolding fetched_timestamp fetched_date
copy_madb_timestamp allow today has_ind tm c_type sql_type =
    if one_of c_type (sql_timestamp ∷ sql_type_timestamp ∷ [])
    then (let ts = fetched_timestamp allow today tm sql_type in
        null_or (all_zero ts) has_ind (timestamp_value ts) size_of_timestamp)
    else if one_of c_type (sql_time ∷ sql_type_time ∷ [])
    then (if valid_time tm.hour tm.minute tm.second
        then record {
          value = some (
              time_value (record {
                hour = ushort_of tm.hour;
                minute = ushort_of tm.minute;
                second = ushort_of tm.second;
              }));
          is_null = false;
          length = some size_of_time;
          state = if tm.second_part == 0 then none else some state_01s07;
        }
        else record { value = none; is_null = false; length = none; state = some state_22007 })
    else if one_of c_type (sql_date ∷ sql_type_date ∷ [])
    then (let d = fetched_date tm in
        null_or ((uint_of d.year + d.month + d.day) % 2 ^ 32 == 0) has_ind (date_value d)
          size_of_date)
    else record { value = none; is_null = false; length = none; state = none }
