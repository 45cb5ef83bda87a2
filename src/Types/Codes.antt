-- ===== src/Types/Codes.antt =====
-- The codes of sql.h and sqlext.h, as ODBC 3 fixes them, and the server's field types as mysql.h has
-- them. Where two names of a header have one code, the source's name for the use at hand is given.
use mariadb_connector_odbc.Base.{ℕ, Bool, false, ◌||◌, List, [], ◌∷◌}
use mariadb_connector_odbc.Base.Int.{ℤ, pos, minus, eq_ℤ}

abbrev pub one_of : ℤ → List ℤ → Bool
one_of c [] = false
one_of c (x ∷ xs) = eq_ℤ c x || one_of c xs

-- SQL data types; SQL_C_CHAR, SQL_C_NUMERIC, SQL_C_LONG, SQL_C_SHORT, SQL_C_FLOAT, SQL_C_DOUBLE,
-- SQL_C_BIT, SQL_C_TINYINT, SQL_C_BINARY, SQL_C_WCHAR and the date types have the code of their
-- SQL namesakes (CHAR, NUMERIC, INTEGER, SMALLINT, REAL, DOUBLE, BIT, TINYINT, BINARY, WCHAR).
abbrev pub sql_unknown_type : ℤ
sql_unknown_type = pos 0

abbrev pub sql_char : ℤ
sql_char = pos 1

abbrev pub sql_numeric : ℤ
sql_numeric = pos 2

abbrev pub sql_decimal : ℤ
sql_decimal = pos 3

abbrev pub sql_integer : ℤ
sql_integer = pos 4

abbrev pub sql_smallint : ℤ
sql_smallint = pos 5

abbrev pub sql_float : ℤ
sql_float = pos 6

abbrev pub sql_real : ℤ
sql_real = pos 7

abbrev pub sql_double : ℤ
sql_double = pos 8

-- SQL_DATETIME and SQL_DATE; SQL_INTERVAL and SQL_TIME.
abbrev pub sql_date : ℤ
sql_date = pos 9

abbrev pub sql_time : ℤ
sql_time = pos 10

abbrev pub sql_timestamp : ℤ
sql_timestamp = pos 11

abbrev pub sql_varchar : ℤ
sql_varchar = pos 12

abbrev pub sql_type_date : ℤ
sql_type_date = pos 91

abbrev pub sql_type_time : ℤ
sql_type_time = pos 92

abbrev pub sql_type_timestamp : ℤ
sql_type_timestamp = pos 93

abbrev pub sql_longvarchar : ℤ
sql_longvarchar = minus 1

abbrev pub sql_binary : ℤ
sql_binary = minus 2

abbrev pub sql_varbinary : ℤ
sql_varbinary = minus 3

abbrev pub sql_longvarbinary : ℤ
sql_longvarbinary = minus 4

abbrev pub sql_bigint : ℤ
sql_bigint = minus 5

abbrev pub sql_tinyint : ℤ
sql_tinyint = minus 6

abbrev pub sql_bit : ℤ
sql_bit = minus 7

abbrev pub sql_wchar : ℤ
sql_wchar = minus 8

abbrev pub sql_wvarchar : ℤ
sql_wvarchar = minus 9

abbrev pub sql_wlongvarchar : ℤ
sql_wlongvarchar = minus 10

abbrev pub sql_guid : ℤ
sql_guid = minus 11

abbrev pub c_sshort : ℤ
c_sshort = minus 15

abbrev pub c_slong : ℤ
c_slong = minus 16

abbrev pub c_ushort : ℤ
c_ushort = minus 17

abbrev pub c_ulong : ℤ
c_ulong = minus 18

abbrev pub c_sbigint : ℤ
c_sbigint = minus 25

abbrev pub c_stinyint : ℤ
c_stinyint = minus 26

abbrev pub c_ubigint : ℤ
c_ubigint = minus 27

abbrev pub c_utinyint : ℤ
c_utinyint = minus 28

abbrev pub c_default : ℤ
c_default = pos 99

abbrev pub c_interval_hour_to_minute : ℤ
c_interval_hour_to_minute = pos 111

abbrev pub c_interval_hour_to_second : ℤ
c_interval_hour_to_second = pos 112

-- SQL_C_INTERVAL_YEAR to SQL_C_INTERVAL_MINUTE_TO_SECOND.
abbrev pub c_intervals : List ℤ
c_intervals =
    pos 101
    ∷ pos 102
    ∷ pos 103
    ∷ pos 104
    ∷ pos 105
    ∷ pos 106
    ∷ pos 107
    ∷ pos 108
    ∷ pos 109
    ∷ pos 110
    ∷ pos 111
    ∷ pos 112
    ∷ pos 113
    ∷ []

-- sizeof of the ODBC structures, on the usual platforms.
abbrev pub size_of_date : ℕ
size_of_date = 6

abbrev pub size_of_time : ℕ
size_of_time = 6

abbrev pub size_of_timestamp : ℕ
size_of_timestamp = 16

abbrev pub size_of_numeric : ℕ
size_of_numeric = 19

abbrev pub size_of_interval : ℕ
size_of_interval = 28

-- enum_field_types; `other` is any code that the driver does not name.
pub data FieldType : Type 0 where
  decimal tiny short long float double null timestamp longlong int24 date time datetime : FieldType
  year newdate varchar bit newdecimal enum set tiny_blob medium_blob long_blob blob : FieldType
  var_string string geometry other : FieldType
