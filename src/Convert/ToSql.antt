-- ===== src/Convert/ToSql.antt =====
-- The conversions of driver/ma_typeconv.cpp that write a MYSQL_TIME for a parameter.
use mariadb_connector_odbc.Base.{
  ℕ, ◌/◌, Bool, true, false, not, ◌&&◌, ◌||◌, Option, none, some, [], ◌∷◌, if◌then◌else◌,
}
use mariadb_connector_odbc.Base.Int.{ℤ, eq_ℤ}
use mariadb_connector_odbc.Convert.Times.{
  uint_of, Timestamp, Time, Date, timestamp_date, timestamp_datetime, timestamp_time, MysqlTime,
  copy_odbc_ts_to_madb_time, valid_time, SqlState, state_22007, state_hy001,
  ts_conversion_is_possible,
}
use mariadb_connector_odbc.Types.Codes.{
  one_of, sql_date, sql_time, sql_timestamp, sql_type_date, sql_type_time, sql_type_timestamp,
  c_interval_hour_to_second, FieldType, date, time, datetime, timestamp,
}

-- What a conversion takes from its surroundings: AllowDtTruncation, RebindParams, whether the next
-- allocation succeeds, sizeof(MYSQL_TIME), and the day that localtime gives.
pub record Env : Type 0 where
  pub allow_truncation : Bool
  pub rebind : Bool
  pub has_memory : Bool
  pub mysql_time_size : ℕ
  pub today : Date

-- Where `*Buffer` points: nowhere, to the record's InternalBuffer, or to memory of the caller.
pub data Place : Type 0 where
  null in_record : Place
  at_bind : MysqlTime → Place

-- `*Buffer`, InternalBuffer, `MaBind->buffer_type` and `*LengthPtr`.
pub record Target : Type 0 where
  pub place : Place
  pub internal : Option MysqlTime
  pub buffer_type : FieldType
  pub length : ℕ

-- SQL_SUCCESS, the state of an error that is set and returned, or of one that is thrown.
pub data Outcome : Type 0 where
  success : Outcome
  error thrown : SqlState → Outcome

-- MADB_CALLOC's bytes.
abbrev pub zero_time : MysqlTime
zero_time = record {
  year = 0;
  month = 0;
  day = 0;
  hour = 0;
  minute = 0;
  second = 0;
  second_part = 0;
  time_type = timestamp_date;
}

abbrev is_none {ℓ} : {A : Type ℓ} → Option A → Bool
is_none none = true
is_none (some a) = false

-- MADB_GetBufferForSqlValue
unfoldable pub get_buffer_for_sql_value : Env → Target → Target × Bool
get_buffer_for_sql_value env t =
    if env.rebind || is_none t.internal
    then (if env.has_memory
        then (record t { internal = some zero_time }, true)
        else (record t { internal = none }, false))
    else (t, true)

abbrev pointed : Target × Bool → Target × Bool
pointed (t, true) = (record t { place = in_record }, true)
pointed (t, false) = (t, false)

-- The choice of `tm`, the same in all conversions; the Boolean is false without memory.
unfoldable pub acquire : Env → Target → Target × Bool
unfolding get_buffer_for_sql_value
acquire env t = elim t.place [
  | null ↦ pointed (get_buffer_for_sql_value env t)
  | in_record ↦ (t, true)
  | at_bind m ↦ (t, true)
]

-- `*tm`, before and after a store.
abbrev pub read_at : Place → Option MysqlTime → MysqlTime
read_at null i = zero_time
read_at in_record none = zero_time
read_at in_record (some m) = m
read_at (at_bind m) i = m

abbrev pub contents : Target → MysqlTime
contents t = read_at t.place t.internal

unfoldable pub write : Target → MysqlTime → Target
write t m = elim t.place [
  | null ↦ t
  | in_record ↦ record t { internal = some m }
  | at_bind old ↦ record t { place = at_bind m }
]

abbrev bind_as : Env → FieldType → (MysqlTime → MysqlTime) → Target → Target × Outcome
bind_as env type change t = (
  record (write t (change (contents t))) { buffer_type = type; length = env.mysql_time_size },
  success,
)

-- A conversion from the choice of `tm` on.
abbrev pub with_buffer : (Target → Target × Outcome) → Target × Bool → Target × Outcome
with_buffer f (t, true) = f t
with_buffer f (t, false) = (t, error state_hy001)

abbrev set_date : ℕ → ℕ → ℕ → MysqlTime → MysqlTime
set_date year month day m = record m { year = year; month = month; day = day }

abbrev set_time : ℕ → ℕ → ℕ → MysqlTime → MysqlTime
set_time hour minute second m = record m { hour = hour; minute = minute; second = second }

abbrev time_of_timestamp : Env → Timestamp → MysqlTime → MysqlTime
time_of_timestamp env ts m = record (set_time ts.hour ts.minute ts.second m) {
  second_part = if env.allow_truncation then ts.fraction / 1000 else m.second_part;
  time_type = timestamp_time;
}

-- The `switch` of MADB_Timestamp2Sql, on the SQL type.
unfoldable pub store_timestamp : Env → ℤ → Timestamp → Target → Target × Outcome
unfolding write
store_timestamp env sql_type ts t =
    if eq_ℤ sql_type sql_type_date
    then bind_as env date
        (λ m. record (set_date (uint_of ts.year) ts.month ts.day m) { time_type = timestamp_date })
        t
    else if eq_ℤ sql_type sql_type_time
    then (if valid_time ts.hour ts.minute ts.second
        then bind_as env time (time_of_timestamp env ts) t
        else (
          record (write t (record (contents t) { time_type = timestamp_datetime })) {
            buffer_type = datetime;
          },
          error state_22007,
        ))
    else bind_as env datetime
        (λ m. copy_odbc_ts_to_madb_time ts (record m { time_type = timestamp_datetime })) t

-- MADB_Timestamp2Sql
unfoldable pub timestamp_to_sql : Env → ℤ → Timestamp → Target → Target × Outcome
unfolding acquire store_timestamp
timestamp_to_sql env sql_type ts t =
    elim (ts_conversion_is_possible env.allow_truncation ts sql_type state_22007 false) [
      | some e ↦ (t, thrown e)
      | none ↦ with_buffer (store_timestamp env sql_type ts) (acquire env t)
    ]

-- SQL_DATETIME has the value of SQL_DATE.
abbrev pub is_timestamp_type : ℤ → Bool
is_timestamp_type t = one_of t (sql_type_timestamp ∷ sql_timestamp ∷ sql_date ∷ [])

-- The stores of MADB_Time2Sql.
unfoldable pub store_time : Env → ℤ → Time → Target → Target × Outcome
unfolding write
store_time env sql_type ts t =
    if is_timestamp_type sql_type
    then bind_as env timestamp
        (λ m.
          record (set_time ts.hour ts.minute ts.second
            (set_date (uint_of env.today.year) env.today.month env.today.day m)) {
              second_part = 0;
              time_type = timestamp_datetime;
            })
        t
    else bind_as env time
        (λ m. record (set_time ts.hour ts.minute ts.second (set_date 0 0 0 m)) {
          second_part = 0;
          time_type = timestamp_time;
        })
        t

abbrev pub checks_time : ℤ → Bool
checks_time t =
    one_of t (sql_type_time ∷ sql_type_timestamp ∷ sql_time ∷ sql_timestamp ∷ sql_date ∷ [])

-- MADB_Time2Sql
unfoldable pub time_to_sql : Env → ℤ → Time → Target → Target × Outcome
unfolding acquire store_time
time_to_sql env sql_type ts t =
    if checks_time sql_type && not (valid_time ts.hour ts.minute ts.second)
    then (t, error state_22007)
    else with_buffer (store_time env sql_type ts) (acquire env t)

-- MADB_IntervalHtoMS2Sql, on the C type and the interval's `day_second`.
unfoldable pub interval_to_sql : Env → ℤ → Time → Target → Target × Outcome
unfolding acquire write
interval_to_sql env c_type i t =
    with_buffer
      (bind_as env time (λ m.
        record (set_time i.hour i.minute
          (if eq_ℤ c_type c_interval_hour_to_second then i.second else 0) m) {
            second_part = 0;
            time_type = timestamp_time;
          }))
      (acquire env t)

-- MADB_Date2Sql
unfoldable pub date_to_sql : Env → Date → Target → Target × Outcome
unfolding acquire write
date_to_sql env d t =
    with_buffer
      (bind_as env date (λ m. record (set_time 0 0 0 (set_date (uint_of d.year) d.month d.day m)) {
        second_part = 0;
        time_type = timestamp_date;
      }))
      (acquire env t)
