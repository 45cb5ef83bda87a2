-- ===== src/Descriptor/Field.antt =====
-- MADB_ValidateDescFieldAccess, MADB_DescSetField and MADB_DescGetField of driver/ma_desc.cpp. A value is
-- the 64 bits of ValuePtr, and a record number is not negative.
use mariadb_connector_odbc.Base.{
  ℕ, zero, suc, ◌+◌, ◌-◌, ◌%◌, ◌^◌, ◌⊎◌, inl, inr, Bool, true, false, not, ◌&&◌, ltb, leb, ◌==◌,
  if◌then◌else◌, Bytes,
}
use mariadb_connector_odbc.Base.Int.{ℤ, pos, negsuc, eq_ℤ}
use mariadb_connector_odbc.Cursor.{Reply, reply, raised}
use mariadb_connector_odbc.Descriptor.{
  DescType, desc_apd, desc_ard, desc_ipd, desc_ird, DescFields, DescHeader, Descriptor,
  get_internal_record, record_at, set_elem, signed,
}
use mariadb_connector_odbc.Error.Code.{Code, err_01s02, err_hy091, err_hy092}
use mariadb_connector_odbc.Sql.{sql_success}
use mariadb_connector_odbc.Types.CType.{get_type_from_concise_type}

-- The identifiers of the fields of the header and of a record.
pub data HeaderField : Type 0 where
  array_size array_status_ptr bind_offset_ptr bind_type count rows_processed_ptr : HeaderField

pub data RecordField : Type 0 where
  concise_type type_field data_ptr datetime_interval_code datetime_interval_precision : RecordField
  fixed_prec_scale indicator_ptr desc_length num_prec_radix octet_length : RecordField
  octet_length_ptr parameter_type precision scale desc_name unnamed : RecordField

pub data FieldId : Type 0 where
  in_header : HeaderField → FieldId
  in_record : RecordField → FieldId

-- MADB_DESC_NONE, MADB_DESC_READ and MADB_DESC_RW.
pub data Access : Type 0 where
  no_access read_only read_write : Access

abbrev pub can_read : Access → Bool
can_read no_access = false
can_read _ = true

abbrev pub can_write : Access → Bool
can_write read_write = true
can_write _ = false

abbrev of_type : Access → Access → Access → Access → DescType → Access
of_type apd ard ipd ird desc_apd = apd
of_type apd ard ipd ird desc_ard = ard
of_type apd ard ipd ird desc_ipd = ipd
of_type apd ard ipd ird desc_ird = ird

-- MADB_DESC_FLDID
unfoldable pub field_access : FieldId → DescType → Access
field_access (in_header array_size) = of_type read_write read_write no_access no_access
field_access (in_header array_status_ptr) = of_type read_write read_write read_write read_write
field_access (in_header bind_offset_ptr) = of_type read_write read_write no_access no_access
field_access (in_header bind_type) = of_type read_write read_write no_access no_access
field_access (in_header count) = of_type read_write read_write no_access read_only
field_access (in_header rows_processed_ptr) = of_type no_access no_access read_write read_write
field_access (in_record concise_type) = of_type read_write read_write read_write read_write
field_access (in_record data_ptr) = of_type read_write read_write no_access no_access
field_access (in_record fixed_prec_scale) = of_type no_access no_access read_write read_write
field_access (in_record indicator_ptr) = of_type read_write read_write no_access no_access
field_access (in_record octet_length_ptr) = of_type read_write read_write no_access no_access
field_access (in_record parameter_type) = of_type no_access no_access read_write no_access
field_access (in_record desc_name) = of_type no_access no_access read_write read_only
field_access (in_record unnamed) = of_type no_access no_access read_write read_only
field_access (in_record _) = of_type read_write read_write read_write read_only

-- `(SQLINTEGER)(SQLLEN)` stored in an SQLULEN.
abbrev pub sign_extended : ℕ → ℕ
sign_extended v = let low = v % 2 ^ 32 in if ltb low (2 ^ 31) then low else low + (2 ^ 64 - 2 ^ 32)

-- What is subtracted from the concise type of an interval; the type codes are above 100.
abbrev minus_hundred : ℤ → ℤ
minus_hundred (pos n) = if leb 100 n then pos (n - 100) else negsuc (99 - n)
minus_hundred (negsuc n) = negsuc (n + 100)

-- The scale that is stored: MADB_MAX_SCALE is 38.
abbrev pub clamped_scale : ℤ → ℤ
clamped_scale (pos n) = if ltb 38 n then pos 38 else pos n
clamped_scale (negsuc n) = if ltb 37 n then negsuc 37 else negsuc n

unfoldable pub set_header : HeaderField → ℕ → DescHeader → DescHeader
set_header array_size v h = record h { array_size = v }
set_header array_status_ptr v h = record h { array_status_ptr = v }
set_header bind_offset_ptr v h = record h { bind_offset_ptr = v }
set_header bind_type v h = record h { bind_type = sign_extended v }
set_header count v h = record h { count = signed 16 v }
set_header rows_processed_ptr v h = record h { rows_processed_ptr = v }

-- The switch over the fields of a record; it has no case for SQL_DESC_NAME and SQL_DESC_UNNAMED.
unfoldable pub set_record : RecordField → ℕ → DescFields → DescFields
unfolding get_type_from_concise_type
set_record concise_type v r =
    let t = signed 16 v in
    let verbose = get_type_from_concise_type t in
    record r {
      concise_type = t;
      verbose_type = verbose;
      datetime_interval_code =
          if eq_ℤ verbose (pos 10) then minus_hundred t else r.datetime_interval_code;
    }
set_record type_field v r = record r { verbose_type = signed 16 v; concise_type = signed 16 v }
set_record data_ptr v r = record r { data_ptr = v }
set_record datetime_interval_code v r = record r { datetime_interval_code = signed 16 v }
set_record datetime_interval_precision v r = record r { datetime_interval_precision = signed 32 v }
set_record fixed_prec_scale v r = record r { fixed_prec_scale = signed 16 v }
set_record indicator_ptr v r = record r { indicator_ptr = v }
set_record desc_length v r = record r { desc_length = signed 32 v }
set_record num_prec_radix v r = record r { num_prec_radix = signed 32 v }
set_record octet_length v r = record r { octet_length = signed 64 v }
set_record octet_length_ptr v r = record r { octet_length_ptr = v }
set_record parameter_type v r = record r { parameter_type = signed 16 v }
set_record precision v r = record r { precision = signed 16 v }
set_record scale v r = record r { scale = clamped_scale (signed 16 v) }
set_record desc_name v r = r
set_record unnamed v r = r

abbrev pub keeps_binding : RecordField → Bool
keeps_binding data_ptr = true
keeps_binding octet_length_ptr = true
keeps_binding indicator_ptr = true
keeps_binding _ = false

abbrev pub is_ard : DescType → Bool
is_ard desc_ard = true
is_ard _ = false

-- A column of an application's row descriptor is unbound when another field of it is set.
abbrev pub unbound : DescType → RecordField → DescFields → DescFields
unbound t f r = if is_ard t && not (keeps_binding f) then record r { data_ptr = 0 } else r

abbrev pub used : DescFields → DescFields
used r = record r {
  in_use =
      if r.data_ptr == 0 && (r.octet_length_ptr == 0 && r.indicator_ptr == 0)
      then r.in_use
      else true;
}

abbrev pub scale_reply : RecordField → ℕ → Reply
scale_reply scale v =
    if eq_ℤ (clamped_scale (signed 16 v)) (signed 16 v) then reply sql_success else raised err_01s02
scale_reply _ v = reply sql_success

-- MADB_DescSetField
unfoldable pub set_field : Descriptor → ℕ → FieldId → ℕ → Reply × Descriptor
unfolding set_header set_record get_internal_record
set_field d n (in_header f) v = (reply sql_success, record d { header = set_header f v d.header })
set_field d zero (in_record f) v = (reply sql_success, d)
set_field d (suc n) (in_record f) v = at_record (get_internal_record d n false)
  where
    at_record : Code × Descriptor ⊎ Descriptor → Reply × Descriptor
    at_record (inl (c, e)) = (raised c, e)
    at_record (inr e) = (
      scale_reply f v,
      record e {
        records =
            set_elem e.records n (used (unbound e.desc_type f (set_record f v (record_at e n))));
      },
    )

-- MADB_ValidateDescFieldAccess: SQL_NAMED, which is 0, is not for SQL_DESC_UNNAMED.
abbrev pub names_it : FieldId → ℕ → Bool
names_it (in_record unnamed) v = v % 2 ^ 16 == 0
names_it _ v = false

-- The calls of SQLSetDescField: the application's right to write the field, and the field.
unfoldable pub set_desc_field : Descriptor → ℕ → FieldId → ℕ → Reply × Descriptor
unfolding field_access set_field
set_desc_field d n f v =
    if names_it f v
    then (raised err_hy092, d)
    else if can_write (field_access f d.desc_type)
    then set_field d n f v
    else (raised err_hy091, d)

-- What MADB_DescGetField gives: an error, the value, a text before it is put into the buffer, success
-- with nothing written, or a field of the record that is not there for the number 0, which the code reads
-- through a null pointer.
pub data Got : Type 0 where
  got_error : Code → Got
  got : ℤ → Got
  got_text : Bytes → Got
  got_nothing : Got
  null_record : Got

unfoldable pub header_value : HeaderField → DescHeader → ℤ
header_value array_size h = pos h.array_size
header_value array_status_ptr h = pos h.array_status_ptr
header_value bind_offset_ptr h = pos h.bind_offset_ptr
header_value bind_type h = pos h.bind_type
header_value count h = h.count
header_value rows_processed_ptr h = pos h.rows_processed_ptr

unfoldable pub record_value : RecordField → DescFields → Got
record_value concise_type r = got r.concise_type
record_value type_field r = got r.verbose_type
record_value data_ptr r = got (pos r.data_ptr)
record_value datetime_interval_code r = got r.datetime_interval_code
record_value datetime_interval_precision r = got r.datetime_interval_precision
record_value fixed_prec_scale r = got r.fixed_prec_scale
record_value indicator_ptr r = got (pos r.indicator_ptr)
record_value desc_length r = got r.desc_length
record_value num_prec_radix r = got r.num_prec_radix
record_value octet_length r = got r.octet_length
record_value octet_length_ptr r = got (pos r.octet_length_ptr)
record_value parameter_type r = got r.parameter_type
record_value precision r = got r.precision
record_value scale r = got r.scale
record_value desc_name r = got_text r.base_column_name
record_value unnamed r = got_nothing

-- MADB_DescGetField, without the member Unnamed that reading the name sets: no field reads it.
unfoldable pub get_field : Descriptor → ℕ → FieldId → Got × Descriptor
unfolding field_access header_value record_value get_internal_record
get_field d n f =
    if can_read (field_access f d.desc_type) then readable n f else (got_error err_hy091, d)
  where
    value_at : FieldId → ℕ → Code × Descriptor ⊎ Descriptor → Got × Descriptor
    value_at f n (inl (c, e)) = (got_error c, e)
    value_at (in_header f) n (inr e) = (got (header_value f e.header), e)
    value_at (in_record f) n (inr e) = (record_value f (record_at e n), e)

    readable : ℕ → FieldId → Got × Descriptor
    readable zero (in_header f) = (got (header_value f d.header), d)
    readable zero (in_record f) = (null_record, d)
    readable (suc n) f = value_at f n (get_internal_record d n true)
