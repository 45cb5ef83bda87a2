-- ===== src/Types/Record/Laws.antt =====
-- MADB_FixIrdRecord settles a record.
use mariadb_connector_odbc.Base.{ℕ, ◌≡◌, false, inl, inr, arith, Bool-cases, [], ◌∷◌}
use mariadb_connector_odbc.Base.Int.{ℤ, pos, negsuc}
use mariadb_connector_odbc.Types.CType.{get_type_from_concise_type}
use mariadb_connector_odbc.Types.Codes.{one_of, c_intervals, sql_decimal, sql_real}
use mariadb_connector_odbc.Types.Column.{fix_octet_length}
use mariadb_connector_odbc.Types.Record.{
  radix_of, searchable_of, fix_display_size, fix_data_size, literal_prefix_of, literal_suffix_of,
  DescRecord, fixed_precision, verbose_type_of, interval_code_of, fix_ird_record,
}

fix_octet_length_idem :
    (t : ℤ) (n : ℕ) → fix_octet_length t (fix_octet_length t n) ≡ fix_octet_length t n
unfolding fix_octet_length
fix_octet_length_idem t n = ground arith

interval_code_of_idem :
    (t : ℤ) (n : ℕ) → interval_code_of t (interval_code_of t n) ≡ interval_code_of t n
unfolding interval_code_of
interval_code_of_idem t n = ground arith

fixed_precision_idem :
    (t : ℤ) (n : ℕ) (p : ℤ) → fixed_precision t n (fixed_precision t n p) ≡ fixed_precision t n p
unfolding fixed_precision
fixed_precision_idem t n p = elim (Bool-cases (one_of t (sql_decimal ∷ sql_real ∷ []))) [
  | inl e ↦ rw e
  | inr e ↦ rw e
]

verbose_type_lem :
    (t : ℤ) → one_of t c_intervals ≡ false → verbose_type_of t ≡ get_type_from_concise_type t
unfolding get_type_from_concise_type verbose_type_of
verbose_type_lem (pos n) h = ground (arith, h)
verbose_type_lem (negsuc n) h = ground (arith, h)

-- A second MADB_FixIrdRecord of the same record, as when a statement is executed again, changes
-- nothing.
pub fix_ird_record_idem :
    (mbmaxlen : ℕ) (r : DescRecord)
    → fix_ird_record mbmaxlen (fix_ird_record mbmaxlen r) ≡ fix_ird_record mbmaxlen r
unfolding fix_ird_record fix_octet_length fixed_precision radix_of verbose_type_of interval_code_of
    searchable_of fix_display_size fix_data_size literal_prefix_of literal_suffix_of
fix_ird_record_idem mbmaxlen r = rw (
  fix_octet_length_idem r.concise_type r.octet_length,
  fixed_precision_idem r.concise_type (fix_octet_length r.concise_type r.octet_length) r.precision,
  interval_code_of_idem r.concise_type r.datetime_interval_code,
)

-- The verbose type that MADB_FixIrdRecord stores is the one that MADB_GetTypeFromConciseType gives,
-- for every type that is no interval.
pub verbose_type-fix_ird_record :
    (mbmaxlen : ℕ) (r : DescRecord)
    → one_of r.concise_type c_intervals ≡ false
    → (fix_ird_record mbmaxlen r).verbose_type ≡ get_type_from_concise_type r.concise_type
unfolding fix_ird_record
verbose_type-fix_ird_record mbmaxlen r h = verbose_type_lem r.concise_type h
