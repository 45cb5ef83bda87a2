-- ===== src/Types/Column/Sizes.antt =====
-- The tables of a column's sizes agree with one another.
use mariadb_connector_odbc.Base.{◌<◌, ◌≡◌, ◌≢◌, Bool, arith}
use mariadb_connector_odbc.Types.Codes.{FieldType, newdate, longlong, other, bit}
use mariadb_connector_odbc.Types.Column.{
  Field, int_max32, decimal_length, map_to_odbc_type, get_octet_length, fix_octet_length,
}

-- The octet length that MADB_GetOctetLength gives is the one that MADB_FixOctetLength gives the
-- column's SQL type, for a column of at least one byte and less than 2 ^ 31 - 1 of them that is not a NEWDATE, a BIGINT or
-- of a type that the driver does not name.
pub fix_octet_length-get :
    (nb ms : Bool) (f : Field) (t : FieldType)
    → 0 < f.length
    → f.length < int_max32
    → t ≢ newdate
    → t ≢ longlong
    → t ≢ other
    → fix_octet_length (map_to_odbc_type nb ms f t) (get_octet_length f t) ≡ get_octet_length f t
unfolding fix_octet_length map_to_odbc_type get_octet_length decimal_length
fix_octet_length-get nb ms f bit p h a b c = ground arith
fix_octet_length-get nb ms f _ p h a b c = ground arith
