-- ===== src/Descriptor.antt =====
-- Descriptors, driver/ma_desc.cpp: their records, and the fields that an application can set. The
-- fields that only describe a column are left out, and so is the type MADB_DESC_UNKNOWN, 254, of a
-- descriptor that no statement has used yet, for which the code reads behind its arrays of four access
-- rights. Allocation succeeds.
pub mod Field
pub mod Records
pub mod Readback
use mariadb_connector_odbc.Base.{
  ℕ, zero, suc, ◌+◌, ◌-◌, ◌%◌, ◌^◌, ◌⊎◌, inl, inr, Bool, true, false, ◌&&◌, List, [], ◌∷◌, ◌++◌,
  ltb, leb, ◌==◌, if◌then◌else◌, Bytes, length, get_or,
}
use mariadb_connector_odbc.Base.Int.{ℤ, pos, negsuc}
use mariadb_connector_odbc.Error.Code.{Code, err_07009}

-- enum_madb_desc_type, for a descriptor that a statement has used
pub data DescType : Type 0 where
  desc_apd desc_ard desc_ipd desc_ird : DescType

-- The members of MADB_DescRecord that an application can set or that stand for a field it can, and
-- inUse. A pointer is its address.
pub record DescFields : Type 0 where
  pub concise_type : ℤ
  pub verbose_type : ℤ
  pub data_ptr : ℕ
  pub datetime_interval_code : ℤ
  pub datetime_interval_precision : ℤ
  pub fixed_prec_scale : ℤ
  pub indicator_ptr : ℕ
  pub desc_length : ℤ
  pub num_prec_radix : ℤ
  pub octet_length : ℤ
  pub octet_length_ptr : ℕ
  pub parameter_type : ℤ
  pub precision : ℤ
  pub scale : ℤ
  pub base_column_name : Bytes
  pub in_use : Bool

-- MADB_Header without AllocType.
pub record DescHeader : Type 0 where
  pub array_size : ℕ
  pub array_status_ptr : ℕ
  pub bind_offset_ptr : ℕ
  pub bind_type : ℕ
  pub count : ℤ
  pub rows_processed_ptr : ℕ

pub record Descriptor : Type 0 where
  pub desc_type : DescType
  pub header : DescHeader
  pub records : List DescFields

abbrev zero_record : DescFields
zero_record = record {
  concise_type = pos 0;
  verbose_type = pos 0;
  data_ptr = 0;
  datetime_interval_code = pos 0;
  datetime_interval_precision = pos 0;
  fixed_prec_scale = pos 0;
  indicator_ptr = 0;
  desc_length = pos 0;
  num_prec_radix = pos 0;
  octet_length = pos 0;
  octet_length_ptr = 0;
  parameter_type = pos 0;
  precision = pos 0;
  scale = pos 0;
  base_column_name = [];
  in_use = false;
}

-- MADB_DescSetRecordDefaults. SQL_C_DEFAULT is 99, SQL_VARCHAR 12 and SQL_PARAM_INPUT 1.
unfoldable pub record_defaults : DescType → DescFields
record_defaults desc_apd = record zero_record { concise_type = pos 99; verbose_type = pos 99 }
record_defaults desc_ard = record zero_record { concise_type = pos 99; verbose_type = pos 99 }
record_defaults desc_ipd = record zero_record { parameter_type = pos 1 }
record_defaults desc_ird = record zero_record { concise_type = pos 12; verbose_type = pos 12 }

-- `n` new records.
abbrev pub repeated {ℓ} : {A : Type ℓ} → ℕ → A → List A
repeated zero a = []
repeated (suc n) a = a ∷ repeated n a

-- A conversion to a signed integer of `w` bits.
abbrev pub signed : ℕ → ℕ → ℤ
signed w v =
    let low = v % 2 ^ w in if ltb low (2 ^ (w - 1)) then pos low else negsuc (2 ^ w - 1 - low)

-- Whether the count is below the number.
abbrev pub count_below : ℤ → ℕ → Bool
count_below (pos c) n = ltb c n
count_below (negsuc c) n = true

-- MADB_DescGetInternalRecord with a number that is not negative: the descriptor whose record of this
-- number is there, or the error 07009. The Boolean is whether the access is MADB_DESC_READ.
unfoldable pub get_internal_record : Descriptor → ℕ → Bool → Code × Descriptor ⊎ Descriptor
unfolding record_defaults
get_internal_record d n reads =
    if reads && ltb (length d.records) n
    then inl (err_07009, d)
    else inr (record d {
      records = d.records ++ repeated (n + 1 - length d.records) (record_defaults d.desc_type);
      header = record d.header {
        count = if count_below d.header.count (n + 1) then signed 16 (n + 1) else d.header.count;
      };
    })

-- The record of a number.
abbrev pub record_at : Descriptor → ℕ → DescFields
record_at d n = get_or d.records n (record_defaults d.desc_type)

abbrev pub set_elem {ℓ} : {A : Type ℓ} → List A → ℕ → A → List A
set_elem [] i a = []
set_elem (x ∷ xs) zero a = a ∷ xs
set_elem (x ∷ xs) (suc i) a = x ∷ set_elem xs i a
