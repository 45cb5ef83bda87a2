-- ===== src/Convert/Roundtrip.antt =====
-- A date or time that goes to the server and comes back.
use mariadb_connector_odbc.Base.{
  ℕ, ◌+◌, ◌*◌, ◌/◌, ◌%◌, ◌^◌, ◌<◌, ◌≡◌, refl, Bool, true, false, none, some, arith, ◌==◌, subst,
  sym,
}
use mariadb_connector_odbc.Base.Int.{ℤ, pos}
use mariadb_connector_odbc.Convert.FromSql.{
  timestamp_value, time_value, date_value, copy_madb_timestamp, fetched_timestamp, fetched_date,
}
use mariadb_connector_odbc.Convert.Times.{
  uint_of, Timestamp, Time, Date, MysqlTime, copy_odbc_ts_to_madb_time, valid_time, state_22007,
  ts_conversion_is_possible,
}
use mariadb_connector_odbc.Convert.ToSql.{
  Env, Target, success, contents, store_timestamp, timestamp_to_sql, store_time, time_to_sql,
  date_to_sql,
}
use mariadb_connector_odbc.Types.Codes.{
  sql_type_date, sql_type_time, sql_type_timestamp, size_of_timestamp, size_of_time, size_of_date,
}
use mariadb_connector_odbc.Convert.Copies.{
  IsShort, IsTimestamp, short_of-uint_of, ushort_small, to_microseconds,
  copy_madb_time_to_odbc_ts-copy,
}
use mariadb_connector_odbc.Convert.Acquire.{acquire_lem, contents-write}

-- The day is one of the calendar's years from 1 on, as far as a sum of the fields tells.
pub record IsDate (year : ℤ) (month day : ℕ) : Type 0 where
  pub number : ℕ
  pub is_number : year ≡ pos number
  pub from_one : 0 < number
  pub short : number < 2 ^ 15
  pub month_short : month < 2 ^ 16
  pub day_short : day < 2 ^ 16

not_zero :
    (y m d : ℕ)
    → 0 < y
    → y < 2 ^ 15
    → m < 2 ^ 16
    → d < 2 ^ 16
    → ((uint_of (pos y) + m + d) % 2 ^ 32 == 0) ≡ false
unfolding uint_of
not_zero y m d a b c e = ground arith

fetched_date_back :
    (d : Date) (tm : MysqlTime) (allow has_ind : Bool) (today : Date) (sql_type : ℤ)
    → IsDate d.year d.month d.day
    → tm.year ≡ uint_of d.year
    → tm.month ≡ d.month
    → tm.day ≡ d.day
    → copy_madb_timestamp allow today has_ind tm sql_type_date sql_type ≡ record {
      value = some (date_value d);
      is_null = false;
      length = some size_of_date;
      state = none;
    }
unfolding copy_madb_timestamp fetched_date
fetched_date_back d tm allow has_ind today sql_type k a b c = rw (
  a,
  b,
  c,
  k.is_number,
  short_of-uint_of (pos k.number) k.short,
  ushort_small k.month_short,
  ushort_small k.day_short,
  not_zero k.number d.month d.day k.from_one k.short k.month_short k.day_short,
)

-- MADB_Date2Sql with memory stores a date from year 1 on so that MADB_CopyMadbTimestamp gives that
-- very date back, not NULL, whatever the buffer held before.
pub date_to_sql-copy :
    (env : Env) (d : Date) (t : Target) (allow has_ind : Bool) (today : Date) (sql_type : ℤ)
    → env.has_memory ≡ true
    → IsDate d.year d.month d.day
    → (u : Target) × (date_to_sql env d t ≡ (u, success))
      × (copy_madb_timestamp allow today has_ind (contents u) sql_type_date sql_type ≡ record {
        value = some (date_value d);
        is_null = false;
        length = some size_of_date;
        state = none;
      })
unfolding date_to_sql
date_to_sql-copy env d t allow has_ind today sql_type memory k =
    let (u, e, p) = acquire_lem env t memory in
    rw e (
      _,
      refl,
      rw (contents-write u _ p)
          (fetched_date_back d _ allow has_ind today sql_type k refl refl refl),
    )

-- A timestamp from year 1 on: its fraction is less than a second.
pub record IsMoment (ts : Timestamp) : Type 0 where
  pub on : IsDate ts.year ts.month ts.day
  pub month_from_one : 0 < ts.month
  pub day_from_one : 0 < ts.day
  pub hour_short : ts.hour < 2 ^ 16
  pub minute_short : ts.minute < 2 ^ 16
  pub second_short : ts.second < 2 ^ 16
  pub below_second : ts.fraction < 1000000000

moment_not_zero :
    (y m d h i f s : ℕ)
    → 0 < y
    → y < 2 ^ 15
    → m < 2 ^ 16
    → d < 2 ^ 16
    → h < 2 ^ 16
    → i < 2 ^ 16
    → s < 2 ^ 16
    → f < 1000000000
    → ((uint_of (pos y) + m + d + h + i + f / 1000 * 1000 + s) % 2 ^ 32 == 0) ≡ false
unfolding uint_of
moment_not_zero y m d h i f s a b c e g j k l = ground arith

moment_possible :
    (ts : Timestamp) (allow : Bool)
    → IsMoment ts
    → ts_conversion_is_possible allow ts sql_type_timestamp state_22007 false ≡ none
unfolding ts_conversion_is_possible
moment_possible ts allow m =
    rw m.on.is_number (ground (arith, m.on.from_one, m.month_from_one, m.day_from_one))

moment-IsTimestamp : (ts : Timestamp) → IsMoment ts → IsTimestamp ts
moment-IsTimestamp ts m = record {
  year = subst IsShort (sym m.on.is_number) m.on.short;
  month = m.on.month_short;
  day = m.on.day_short;
  hour = m.hour_short;
  minute = m.minute_short;
  second = m.second_short;
  fraction = omega (arith, m.below_second);
}

fetched_back :
    (ts : Timestamp) (old : MysqlTime) (allow has_ind : Bool) (today : Date)
    → IsMoment ts
    → copy_madb_timestamp allow today has_ind
        (copy_odbc_ts_to_madb_time ts old)
        sql_type_timestamp
        sql_type_timestamp
      ≡ record {
        value = some (timestamp_value (to_microseconds ts));
        is_null = false;
        length = some size_of_timestamp;
        state = none;
      }
unfolding copy_madb_timestamp fetched_timestamp
fetched_back ts old allow has_ind today m = rw (
  copy_madb_time_to_odbc_ts-copy ts old (moment-IsTimestamp ts m),
  m.on.is_number,
  moment_not_zero m.on.number ts.month ts.day ts.hour ts.minute ts.fraction ts.second m.on.from_one
      m.on.short m.on.month_short m.on.day_short m.hour_short m.minute_short m.second_short
      m.below_second,
)

-- MADB_Timestamp2Sql with memory accepts, for a column of timestamps, every timestamp from year 1
-- on whose month and day are not 0 and whose fraction is below a second, and MADB_CopyMadbTimestamp
-- gives it back, its fraction cut to microseconds, and not NULL.
pub timestamp_to_sql-copy :
    (env : Env) (ts : Timestamp) (t : Target) (allow has_ind : Bool) (today : Date)
    → env.has_memory ≡ true
    → IsMoment ts
    → (u : Target) × (timestamp_to_sql env sql_type_timestamp ts t ≡ (u, success))
      × (copy_madb_timestamp allow today has_ind (contents u) sql_type_timestamp sql_type_timestamp
          ≡ record {
            value = some (timestamp_value (to_microseconds ts));
            is_null = false;
            length = some size_of_timestamp;
            state = none;
          })
unfolding timestamp_to_sql store_timestamp
timestamp_to_sql-copy env ts t allow has_ind today memory m =
    let (u, e, p) = acquire_lem env t memory in
    rw (moment_possible ts env.allow_truncation m, timestamp_to_sql, e)
      (_, refl, rw (contents-write u _ p) (fetched_back ts _ allow has_ind today m))

valid_small :
    (ts : Time)
    → valid_time ts.hour ts.minute ts.second ≡ true
    → (ts.hour < 2 ^ 16) × (ts.minute < 2 ^ 16) × (ts.second < 2 ^ 16)
unfolding valid_time
valid_small ts h = ground arith

fetched_time_back :
    (ts : Time) (tm : MysqlTime) (allow has_ind : Bool) (today : Date)
    → valid_time ts.hour ts.minute ts.second ≡ true
    → tm.hour ≡ ts.hour
    → tm.minute ≡ ts.minute
    → tm.second ≡ ts.second
    → tm.second_part ≡ 0
    → copy_madb_timestamp allow today has_ind tm sql_type_time sql_type_time ≡ record {
      value = some (time_value ts);
      is_null = false;
      length = some size_of_time;
      state = none;
    }
unfolding copy_madb_timestamp
fetched_time_back ts tm allow has_ind today v a b c d =
    let (h, m, n) = valid_small ts v in
    rw (a, b, c, d, v, ushort_small h, ushort_small m, ushort_small n)

-- MADB_Time2Sql with memory stores a valid time in a TIME column so that it comes back as it was,
-- with no warning, whatever the buffer held before.
pub time_to_sql-copy :
    (env : Env) (ts : Time) (t : Target) (allow has_ind : Bool) (today : Date)
    → env.has_memory ≡ true
    → valid_time ts.hour ts.minute ts.second ≡ true
    → (u : Target) × (time_to_sql env sql_type_time ts t ≡ (u, success))
      × (copy_madb_timestamp allow today has_ind (contents u) sql_type_time sql_type_time ≡ record {
        value = some (time_value ts);
        is_null = false;
        length = some size_of_time;
        state = none;
      })
unfolding time_to_sql store_time
time_to_sql-copy env ts t allow has_ind today memory v =
    let (u, e, p) = acquire_lem env t memory in
    rw (v, e)
      (
        _,
        refl,
        rw (contents-write u _ p)
            (fetched_time_back ts _ allow has_ind today v refl refl refl refl),
      )
