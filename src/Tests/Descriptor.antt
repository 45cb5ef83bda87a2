-- ===== src/Tests/Descriptor.antt =====
-- Fields of a descriptor of an application's rows with one bound column.
use mariadb_connector_odbc.Base.{◌≡◌, refl, inl, true, [], ◌∷◌, arith}
use mariadb_connector_odbc.Base.Int.{pos, negsuc}
use mariadb_connector_odbc.Descriptor.{DescFields, Descriptor, desc_ard, get_internal_record}
use mariadb_connector_odbc.Descriptor.Field.{
  in_record, scale, data_ptr, field_access, set_desc_field, get_field, got,
}
use mariadb_connector_odbc.Descriptor.Readback.{
  get_field-set_desc_field, get_field-set_desc_field_other,
}
use mariadb_connector_odbc.Descriptor.Records.{GetsRecord, get_internal_record-GetsRecord}

abbrev one_column : Descriptor
one_column = record {
  desc_type = desc_ard;
  header = record {
    array_size = 1;
    array_status_ptr = 0;
    bind_offset_ptr = 0;
    bind_type = 0;
    count = pos 1;
    rows_processed_ptr = 0;
  };
  records = column ∷ [];
}
  where
    column : DescFields
    column = record {
      concise_type = pos 4;
      verbose_type = pos 4;
      data_ptr = 1000;
      datetime_interval_code = pos 0;
      datetime_interval_precision = pos 0;
      fixed_prec_scale = pos 0;
      indicator_ptr = 0;
      desc_length = pos 0;
      num_prec_radix = pos 0;
      octet_length = pos 4;
      octet_length_ptr = 2000;
      parameter_type = pos 0;
      precision = pos 0;
      scale = pos 0;
      base_column_name = [];
      in_use = true;
    }

-- The scale 65486 is -50 as a short, which is cut to -38, in a third record that is made for it.
get_field-set_desc_field_example :
    (get_field (set_desc_field one_column 3 (in_record scale) 65486).1 3 (in_record scale)).0
    ≡ got (negsuc 37)
unfolding field_access
get_field-set_desc_field_example =
    get_field-set_desc_field one_column 3 (in_record scale) 65486 refl refl (omega arith)

get_field-set_desc_field_other_example :
    (get_field (set_desc_field one_column 3 (in_record scale) 2).1 1 (in_record data_ptr)).0
    ≡ (get_field one_column 1 (in_record data_ptr)).0
unfolding field_access
get_field-set_desc_field_other_example =
    get_field-set_desc_field_other one_column 2 0 scale data_ptr 2 refl refl (omega arith)
      (inl (omega arith))

get_internal_record-GetsRecord_example :
    GetsRecord one_column 2 true (get_internal_record one_column 2 true)
get_internal_record-GetsRecord_example =
    get_internal_record-GetsRecord one_column 2 true (omega arith)
