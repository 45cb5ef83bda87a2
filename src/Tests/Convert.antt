-- ===== src/Tests/Convert.antt =====
-- The theorems on date and time values at concrete values.
use mariadb_connector_odbc.Base.{◌≡◌, refl, true, false, none, some, arith}
use mariadb_connector_odbc.Base.Int.{pos}
use mariadb_connector_odbc.Convert.FromSql.{timestamp_value, copy_madb_timestamp}
use mariadb_connector_odbc.Convert.Copies.{to_microseconds}
use mariadb_connector_odbc.Convert.Roundtrip.{IsMoment, timestamp_to_sql-copy}
use mariadb_connector_odbc.Convert.Times.{Timestamp, Time, Date, MysqlTime, timestamp_datetime}
use mariadb_connector_odbc.Convert.ToSql.{
  Env, Target, null, at_bind, success, contents, timestamp_to_sql,
}
use mariadb_connector_odbc.Types.Codes.{sql_type_timestamp, size_of_timestamp, string}

abbrev moment : Timestamp
moment = record {
  year = pos 2024;
  month = 2;
  day = 29;
  hour = 23;
  minute = 59;
  second = 58;
  fraction = 123456789;
}

abbrev server_time : MysqlTime
server_time = record {
  year = 1999;
  month = 12;
  day = 31;
  hour = 1;
  minute = 2;
  second = 3;
  second_part = 999999;
  time_type = timestamp_datetime;
}

abbrev today : Date
today = record { year = pos 2025; month = 1; day = 2 }

abbrev env : Env
env = record {
  allow_truncation = false;
  rebind = false;
  has_memory = true;
  mysql_time_size = 40;
  today = today;
}

abbrev fresh_target : Target
fresh_target = record { place = null; internal = none; buffer_type = string; length = 0 }

abbrev bulk_target : Target
bulk_target = record fresh_target { place = at_bind server_time }

moment-IsMoment : IsMoment moment
moment-IsMoment = record {
  on = record {
    number = 2024;
    is_number = refl;
    from_one = omega arith;
    short = omega arith;
    month_short = omega arith;
    day_short = omega arith;
  };
  month_from_one = omega arith;
  day_from_one = omega arith;
  hour_short = omega arith;
  minute_short = omega arith;
  second_short = omega arith;
  below_second = omega arith;
}

timestamp_to_sql-copy_example :
    (u : Target) × (timestamp_to_sql env sql_type_timestamp moment bulk_target ≡ (u, success))
    × (copy_madb_timestamp false today true (contents u) sql_type_timestamp sql_type_timestamp
        ≡ record {
          value = some (timestamp_value (to_microseconds moment));
          is_null = false;
          length = some size_of_timestamp;
          state = none;
        })
timestamp_to_sql-copy_example =
    timestamp_to_sql-copy env moment bulk_target false true today refl moment-IsMoment

abbrev late : Time
late = record { hour = 23; minute = 59; second = 59 }
