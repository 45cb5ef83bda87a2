-- ===== src/Convert/Copies.antt =====
-- The copies between the two structures of a timestamp undo each other.
use mariadb_connector_odbc.Base.{ℕ, ◌*◌, ◌/◌, ◌%◌, ◌^◌, ◌<◌, ◌≡◌, arith}
use mariadb_connector_odbc.Base.Int.{ℤ, pos, negsuc}
use mariadb_connector_odbc.Convert.Times.{
  uint_of, short_of, ushort_of, Timestamp, MysqlTime, copy_odbc_ts_to_madb_time,
  copy_madb_time_to_odbc_ts,
}

abbrev pub IsShort : ℤ → Type 0
IsShort (pos n) = n < 2 ^ 15
IsShort (negsuc n) = n < 2 ^ 15

-- The members have values of their types.
pub record IsTimestamp (ts : Timestamp) : Type 0 where
  pub year : IsShort ts.year
  pub month : ts.month < 2 ^ 16
  pub day : ts.day < 2 ^ 16
  pub hour : ts.hour < 2 ^ 16
  pub minute : ts.minute < 2 ^ 16
  pub second : ts.second < 2 ^ 16
  pub fraction : ts.fraction < 2 ^ 32

pub short_of-uint_of : (z : ℤ) → IsShort z → short_of (uint_of z) ≡ z
unfolding short_of uint_of
short_of-uint_of (pos n) h = ground arith
short_of-uint_of (negsuc n) h = ground arith

pub ushort_small : {n : ℕ} → n < 2 ^ 16 → ushort_of n ≡ n
ushort_small h = omega arith

nanoseconds : {n : ℕ} → n < 2 ^ 32 → n / 1000 * 1000 % 2 ^ 32 ≡ n / 1000 * 1000
nanoseconds h = omega arith

pub microseconds : {n : ℕ} → n < 1000000 → n * 1000 % 2 ^ 32 / 1000 ≡ n
microseconds h = omega arith

uint_of-short_of : {n : ℕ} → n < 2 ^ 15 → uint_of (short_of n) ≡ n
unfolding short_of uint_of
uint_of-short_of h = ground arith

abbrev pub to_microseconds : Timestamp → Timestamp
to_microseconds ts = record ts { fraction = ts.fraction / 1000 * 1000 }

-- A timestamp that is copied to a MYSQL_TIME and back is itself, its fraction cut to microseconds.
pub copy_madb_time_to_odbc_ts-copy :
    (ts : Timestamp) (dst : MysqlTime)
    → IsTimestamp ts
    → copy_madb_time_to_odbc_ts (copy_odbc_ts_to_madb_time ts dst) ≡ to_microseconds ts
unfolding copy_madb_time_to_odbc_ts copy_odbc_ts_to_madb_time
copy_madb_time_to_odbc_ts-copy ts dst h = rw (
  short_of-uint_of ts.year h.year,
  ushort_small h.month,
  ushort_small h.day,
  ushort_small h.hour,
  ushort_small h.minute,
  ushort_small h.second,
  nanoseconds h.fraction,
)

-- The fields of a MYSQL_TIME are in the range of a date of the server.
pub record IsServerTime (tm : MysqlTime) : Type 0 where
  pub year : tm.year < 2 ^ 15
  pub month : tm.month < 2 ^ 16
  pub day : tm.day < 2 ^ 16
  pub hour : tm.hour < 2 ^ 16
  pub minute : tm.minute < 2 ^ 16
  pub second : tm.second < 2 ^ 16
  pub second_part : tm.second_part < 1000000

-- A MYSQL_TIME whose year is below 2 ^ 15 and whose microseconds are below one second comes back
-- from a timestamp structure as it was.
pub copy_odbc_ts_to_madb_time-copy :
    (tm : MysqlTime)
    → IsServerTime tm
    → copy_odbc_ts_to_madb_time (copy_madb_time_to_odbc_ts tm) tm ≡ tm
unfolding copy_madb_time_to_odbc_ts copy_odbc_ts_to_madb_time
copy_odbc_ts_to_madb_time-copy tm h = rw (
  uint_of-short_of h.year,
  ushort_small h.month,
  ushort_small h.day,
  ushort_small h.hour,
  ushort_small h.minute,
  ushort_small h.second,
  microseconds h.second_part,
)
