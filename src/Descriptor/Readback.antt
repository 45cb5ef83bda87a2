-- ===== src/Descriptor/Readback.antt =====
-- What MADB_DescGetField reads of a field that was set.
use mariadb_connector_odbc.Base.{
  ℕ, zero, suc, ◌+◌, ◌-◌, ◌<◌, ◌≡◌, refl, sym, ap, ◌∙◌, ◌⊎◌, inl, inr, Bool, true, false, not, ◌&&◌,
  arith, ltb, if◌then◌else◌, length, Bool-cases, length-append,
}
use mariadb_connector_odbc.Base.Int.{ℤ, pos}
use mariadb_connector_odbc.Descriptor.{
  DescType, DescFields, DescHeader, Descriptor, record_defaults, repeated, get_internal_record,
  record_at, set_elem, signed,
}
use mariadb_connector_odbc.Descriptor.Field.{
  HeaderField, RecordField, FieldId, in_header, in_record, read_write, field_access, sign_extended,
  clamped_scale, set_header, set_record, set_field, set_desc_field, concise_type, data_ptr,
  datetime_interval_precision, indicator_ptr, desc_length, num_prec_radix, octet_length,
  octet_length_ptr, scale, bind_type, count, unbound, used, keeps_binding, is_ard, can_write,
  can_read, got, names_it, desc_name, unnamed, header_value, record_value, get_field,
}
use mariadb_connector_odbc.Descriptor.Records.{
  grown, grown-IsGrown, length-set_elem, get_or-set_elem, get_or-set_elem_other, get_or-append,
}

-- A value as the member of the field's type holds it.
abbrev pub stored : FieldId → ℕ → ℤ
stored (in_header bind_type) v = pos (sign_extended v)
stored (in_header count) v = signed 16 v
stored (in_header _) v = pos v
stored (in_record data_ptr) v = pos v
stored (in_record indicator_ptr) v = pos v
stored (in_record octet_length_ptr) v = pos v
stored (in_record octet_length) v = signed 64 v
stored (in_record datetime_interval_precision) v = signed 32 v
stored (in_record desc_length) v = signed 32 v
stored (in_record num_prec_radix) v = signed 32 v
stored (in_record scale) v = clamped_scale (signed 16 v)
stored (in_record _) v = signed 16 v

-- The fields that MADB_DescSetField has a case for: it takes SQL_DESC_NAME and SQL_DESC_UNNAMED of an
-- implementation's parameter descriptor too, and stores nothing.
abbrev pub is_stored : FieldId → Bool
is_stored (in_record desc_name) = false
is_stored (in_record unnamed) = false
is_stored _ = true

-- The record number that goes with the field: 0 for the header, another for a record.
abbrev pub FitsField : FieldId → ℕ → Type 0
FitsField (in_header f) n = n ≡ 0
FitsField (in_record f) n = 0 < n

pub header_value-set_header :
    (f : HeaderField) (v : ℕ) (h : DescHeader)
    → header_value f (set_header f v h) ≡ stored (in_header f) v
unfolding header_value set_header
header_value-set_header bind_type v h = refl
header_value-set_header _ v h = refl

record_value-set_record :
    (f : RecordField) (v : ℕ) (r : DescFields)
    → is_stored (in_record f) ≡ true
    → record_value f (set_record f v r) ≡ got (stored (in_record f) v)
unfolding record_value set_record
record_value-set_record concise_type v r h = refl
record_value-set_record desc_name v r h = absurd (ground (arith, h))
record_value-set_record unnamed v r h = absurd (ground (arith, h))
record_value-set_record _ v r h = refl

-- Marking a record as used and unbinding a column change no field that was just set.
record_value-used : (f : RecordField) (r : DescFields) → record_value f (used r) ≡ record_value f r
unfolding record_value
record_value-used concise_type r = refl
record_value-used _ r = refl

record_value-if :
    (f : RecordField) (b : Bool) (r : DescFields)
    → keeps_binding f ≡ false
    → record_value f (if b then record r { data_ptr = 0 } else r) ≡ record_value f r
unfolding record_value
record_value-if f false r h = refl
record_value-if data_ptr true r h = absurd (ground (arith, h))
record_value-if _ true r h = refl

and_false : (b : Bool) → (b && false) ≡ false
and_false true = refl
and_false false = refl

record_value-unbound :
    (t : DescType) (f : RecordField) (r : DescFields)
    → record_value f (unbound t f r) ≡ record_value f r
record_value-unbound t f r = elim (Bool-cases (keeps_binding f)) [
  | inl h ↦ rw (h, and_false (is_ard t)) refl
  | inr h ↦ record_value-if f (is_ard t && not (keeps_binding f)) r h
]

abbrev written : Descriptor → ℕ → RecordField → ℕ → DescFields
written d n f v = used (unbound d.desc_type f (set_record f v (record_at (grown d n) n)))

abbrev with_written : Descriptor → ℕ → RecordField → ℕ → Descriptor
with_written d n f v = record (grown d n) {
  records = set_elem (grown d n).records n (written d n f v);
}

set_field-written :
    (d : Descriptor) (n : ℕ) (f : RecordField) (v : ℕ)
    → (set_field d (suc n) (in_record f) v).1 ≡ with_written d n f v
unfolding set_field get_internal_record
set_field-written d n f v = refl

get_field-record :
    (e : Descriptor) (n : ℕ) (f : RecordField)
    → can_read (field_access (in_record f) e.desc_type) ≡ true
    → n < length e.records
    → (get_field e (suc n) (in_record f)).0 ≡ record_value f (record_at e n)
unfolding get_field get_internal_record
get_field-record e n f a h =
    let inside : ltb (length e.records) n ≡ false = ground (arith, h) in
    rw (a, inside)
      (ap (λ r. record_value f r)
        (get_or-append e.records (repeated (n + 1 - length e.records) (record_defaults e.desc_type))
          n (record_defaults e.desc_type) h))

read_written :
    (d : Descriptor) (n : ℕ) (f : RecordField) (v : ℕ)
    → field_access (in_record f) d.desc_type ≡ read_write
    → is_stored (in_record f) ≡ true
    → (get_field (with_written d n f v) (suc n) (in_record f)).0 ≡ got (stored (in_record f) v)
read_written d n f v a kept =
    let here = (grown-IsGrown d n).has_record in
    get_field-record (with_written d n f v) n f (ap can_read a)
      (omega (arith, here, length-set_elem (grown d n).records n (written d n f v)))
    ∙ ap (λ r. record_value f r)
        (get_or-set_elem (grown d n).records n (written d n f v) (record_defaults d.desc_type) here)
    ∙ (record_value-used f (unbound d.desc_type f (set_record f v (record_at (grown d n) n)))
        ∙ record_value-unbound d.desc_type f (set_record f v (record_at (grown d n) n))
        ∙ record_value-set_record f v (record_at (grown d n) n) kept)

set_desc_field-set_field :
    (d : Descriptor) (n : ℕ) (f : FieldId) (v : ℕ)
    → can_write (field_access f d.desc_type) ≡ true
    → names_it f v ≡ false
    → set_desc_field d n f v ≡ set_field d n f v
unfolding set_desc_field
set_desc_field-set_field d n f v a h = rw (h, a) refl

set_desc_field-named :
    (d : Descriptor) (n : ℕ) (f : FieldId) (v : ℕ)
    → names_it f v ≡ true
    → (set_desc_field d n f v).1 ≡ d
unfolding set_desc_field
set_desc_field-named d n f v h = rw h refl

stored_not_named : (f : FieldId) (v : ℕ) → is_stored f ≡ true → names_it f v ≡ false
stored_not_named (in_record unnamed) v h = absurd (ground (arith, h))
stored_not_named (in_record _) v h = refl
stored_not_named (in_header _) v h = refl

read_header :
    (d : Descriptor) (f : HeaderField) (v : ℕ)
    → field_access (in_header f) d.desc_type ≡ read_write
    → (get_field (set_field d 0 (in_header f) v).1 0 (in_header f)).0 ≡ got (stored (in_header f) v)
unfolding get_field set_field
read_header d f v a = rw a (ap got (header_value-set_header f v d.header))

-- A field that the application may read and write, set by SQLSetDescField in a descriptor of a statement,
-- is read back by SQLGetDescField as the value that the member of its type can hold: cut to 16, 32 or 64
-- bits, a scale to -38 to 38, a pointer whole. The field is neither SQL_DESC_NAME nor SQL_DESC_UNNAMED. A
-- field of the header goes with the record number 0 and one of a record with another, whether or not that
-- record was there before.
pub get_field-set_desc_field :
    (d : Descriptor) (n : ℕ) (f : FieldId) (v : ℕ)
    → field_access f d.desc_type ≡ read_write
    → is_stored f ≡ true
    → FitsField f n
    → (get_field (set_desc_field d n f v).1 n f).0 ≡ got (stored f v)
get_field-set_desc_field d n (in_header f) v a kept fits =
    ap (λ k. (get_field (set_desc_field d k (in_header f) v).1 k (in_header f)).0) fits
    ∙ ap (λ x. (get_field x.1 0 (in_header f)).0)
        (set_desc_field-set_field d 0 (in_header f) v (ap can_write a) refl)
    ∙ read_header d f v a
get_field-set_desc_field d zero (in_record f) v a kept fits = absurd (omega (arith, fits))
get_field-set_desc_field d (suc n) (in_record f) v a kept fits =
    ap (λ x. (get_field x.1 (suc n) (in_record f)).0)
      (set_desc_field-set_field d (suc n) (in_record f) v (ap can_write a)
        (stored_not_named (in_record f) v kept))
    ∙ ap (λ e. (get_field e (suc n) (in_record f)).0) (set_field-written d n f v)
    ∙ read_written d n f v a kept

other_kept :
    (d : Descriptor) (n m : ℕ) (f g : RecordField) (v : ℕ)
    → field_access (in_record f) d.desc_type ≡ read_write
    → can_read (field_access (in_record g) d.desc_type) ≡ true
    → m < length d.records
    → (m < n) ⊎ (n < m)
    → names_it (in_record f) v ≡ false
    → (get_field (set_desc_field d (suc n) (in_record f) v).1 (suc m) (in_record g)).0
      ≡ (get_field d (suc m) (in_record g)).0
other_kept d n m f g v a b h other q =
    let grew = grown-IsGrown d n in
    ap (λ x. (get_field x.1 (suc m) (in_record g)).0)
      (set_desc_field-set_field d (suc n) (in_record f) v (ap can_write a) q)
    ∙ ap (λ e. (get_field e (suc m) (in_record g)).0) (set_field-written d n f v)
    ∙ get_field-record (with_written d n f v) m g b (
        omega (
          arith,
          h,
          length-set_elem (grown d n).records n (written d n f v),
          length-append d.records
              (repeated (n + 1 - length d.records) (record_defaults d.desc_type)),
        ))
    ∙ ap (λ r. record_value g r)
        (get_or-set_elem_other (grown d n).records n m (written d n f v)
            (record_defaults d.desc_type) (omega (arith, other))
          ∙ grew.kept m h)
    ∙ sym (get_field-record d m g b h)

-- Setting a field of one record leaves what is read of every other record that was there.
pub get_field-set_desc_field_other :
    (d : Descriptor) (n m : ℕ) (f g : RecordField) (v : ℕ)
    → field_access (in_record f) d.desc_type ≡ read_write
    → can_read (field_access (in_record g) d.desc_type) ≡ true
    → m < length d.records
    → (m < n) ⊎ (n < m)
    → (get_field (set_desc_field d (suc n) (in_record f) v).1 (suc m) (in_record g)).0
      ≡ (get_field d (suc m) (in_record g)).0
get_field-set_desc_field_other d n m f g v a b h other =
    elim (Bool-cases (names_it (in_record f) v)) [
      | inl q ↦
          ap (λ e. (get_field e (suc m) (in_record g)).0)
            (set_desc_field-named d (suc n) (in_record f) v q)
      | inr q ↦ other_kept d n m f g v a b h other q
    ]
