-- ===== src/Tests/Types.antt =====
-- The theorems on the type tables of driver/ma_helper.cpp at concrete types.
use mariadb_connector_odbc.Base.{true, false, []}
use mariadb_connector_odbc.Base.Int.{pos}
use mariadb_connector_odbc.Types.Codes.{newdecimal}
use mariadb_connector_odbc.Types.Record.{DescRecord}
use mariadb_connector_odbc.Types.Codes.{sql_decimal}
use mariadb_connector_odbc.Types.Column.{Field}

abbrev price : Field
price = record {
  field_type = newdecimal;
  length = 12;
  is_unsigned = false;
  is_num = true;
  decimals = 2;
  charsetnr = 63;
}

abbrev price_record : DescRecord
price_record = record {
  concise_type = sql_decimal;
  octet_length = 12;
  is_unsigned = false;
  precision = pos 0;
  scale = 2;
  num_prec_radix = 0;
  verbose_type = pos 0;
  datetime_interval_code = 0;
  searchable = 0;
  display_size = pos 0;
  length = 0;
  literal_prefix = [];
  literal_suffix = [];
}
