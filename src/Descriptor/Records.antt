-- ===== src/Descriptor/Records.antt =====
-- The records that MADB_DescGetInternalRecord makes.
use mariadb_connector_odbc.Base.{
  ℕ, zero, suc, ◌+◌, ◌-◌, ◌^◌, ◌≤◌, ◌<◌, ◌≡◌, refl, ap, ◌∙◌, ◌⊎◌, inl, inr, Bool, true, false, ◌&&◌,
  List, [], ◌∷◌, ◌++◌, arith, ltb, if◌then◌else◌, length, get_or, length-append, Bool-cases,
}
use mariadb_connector_odbc.Base.Int.{ℤ, pos, negsuc}
use mariadb_connector_odbc.Descriptor.{
  Descriptor, record_defaults, repeated, count_below, get_internal_record, record_at, set_elem,
  signed,
}
use mariadb_connector_odbc.Error.Code.{Code, err_07009}

module _ {ℓ} {A : Type ℓ} where
  length-repeated : (n : ℕ) (a : A) → length (repeated n a) ≡ n
  length-repeated zero a = refl
  length-repeated (suc n) a = ap suc (length-repeated n a)

  pub length-set_elem : (xs : List A) (i : ℕ) (a : A) → length (set_elem xs i a) ≡ length xs
  length-set_elem [] i a = refl
  length-set_elem (x ∷ xs) zero a = refl
  length-set_elem (x ∷ xs) (suc i) a = ap suc (length-set_elem xs i a)

  pub get_or-set_elem :
      (xs : List A) (i : ℕ) (a d : A) → i < length xs → get_or (set_elem xs i a) i d ≡ a
  get_or-set_elem [] i a d h = absurd (omega (arith, h))
  get_or-set_elem (x ∷ xs) zero a d h = refl
  get_or-set_elem (x ∷ xs) (suc i) a d h = get_or-set_elem xs i a d (omega (arith, h))

  pub get_or-set_elem_other :
      (xs : List A) (i j : ℕ) (a d : A)
      → (i < j) ⊎ (j < i)
      → get_or (set_elem xs i a) j d ≡ get_or xs j d
  get_or-set_elem_other [] i j a d h = refl
  get_or-set_elem_other (x ∷ xs) zero zero a d h = absurd (omega (arith, h))
  get_or-set_elem_other (x ∷ xs) zero (suc j) a d h = refl
  get_or-set_elem_other (x ∷ xs) (suc i) zero a d h = refl
  get_or-set_elem_other (x ∷ xs) (suc i) (suc j) a d h =
      get_or-set_elem_other xs i j a d (omega (arith, h))

  pub get_or-append :
      (xs ys : List A) (i : ℕ) (d : A) → i < length xs → get_or (xs ++ ys) i d ≡ get_or xs i d
  get_or-append [] ys i d h = absurd (omega (arith, h))
  get_or-append (x ∷ xs) ys zero d h = refl
  get_or-append (x ∷ xs) ys (suc i) d h = get_or-append xs ys i d (omega (arith, h))

  get_or-repeated : (n i : ℕ) (d : A) → get_or (repeated n d) i d ≡ d
  get_or-repeated zero i d = refl
  get_or-repeated (suc n) zero d = refl
  get_or-repeated (suc n) (suc i) d = get_or-repeated n i d

  -- Behind the list stand copies of the default, which is what is read past the end too.
  pub get_or-append_repeated :
      (xs : List A) (n i : ℕ) (d : A) → get_or (xs ++ repeated n d) i d ≡ get_or xs i d
  get_or-append_repeated [] n i d = get_or-repeated n i d
  get_or-append_repeated (x ∷ xs) n zero d = refl
  get_or-append_repeated (x ∷ xs) n (suc i) d = get_or-append_repeated xs n i d

-- The descriptor has the record of number `n` and nothing else has changed: the records that it had are
-- as they were and the new ones have the defaults of their type.
pub record IsGrown (d : Descriptor) (n : ℕ) (e : Descriptor) : Type 0 where
  pub has_record : n < length e.records
  pub kept : (i : ℕ) → i < length d.records → record_at e i ≡ record_at d i
  pub made :
      (i : ℕ)
      → length d.records ≤ i
      → i < length e.records
      → record_at e i ≡ record_defaults d.desc_type
  pub same_type : e.desc_type ≡ d.desc_type

-- The two outcomes of MADB_DescGetInternalRecord.
abbrev pub GetsRecord : Descriptor → ℕ → Bool → Code × Descriptor ⊎ Descriptor → Type 0
GetsRecord d n reads (inl (c, e)) =
    (reads ≡ true) × (length d.records < n) × (c ≡ err_07009) × (e ≡ d)
GetsRecord d n reads (inr e) = IsGrown d n e × (count_below e.header.count (n + 1) ≡ false)

counted_up :
    (c : ℤ) (n : ℕ)
    → n < 2 ^ 15
    → count_below (if count_below c n then signed 16 n else c) n ≡ false
counted_up (pos c) n h = ground arith
counted_up (negsuc c) n h = ground arith

past_end {ℓ} : {A : Type ℓ} (xs : List A) (i : ℕ) (d : A) → length xs ≤ i → get_or xs i d ≡ d
past_end [] i d h = refl
past_end (x ∷ xs) zero d h = absurd (omega (arith, h))
past_end (x ∷ xs) (suc i) d h = past_end xs i d (omega (arith, h))

reads_of : (a b : Bool) → a && b ≡ true → a ≡ true
reads_of true b h = refl
reads_of false b h = h

reads_behind : (a b : Bool) → a && b ≡ true → b ≡ true
reads_behind true b h = h
reads_behind false b h = absurd (ground (arith, h))

abbrev pub grown : Descriptor → ℕ → Descriptor
grown d n = record d {
  records = d.records ++ repeated (n + 1 - length d.records) (record_defaults d.desc_type);
  header = record d.header {
    count = if count_below d.header.count (n + 1) then signed 16 (n + 1) else d.header.count;
  };
}

pub grown-IsGrown : (d : Descriptor) (n : ℕ) → IsGrown d n (grown d n)
grown-IsGrown d n =
    let same = get_or-append_repeated d.records (n + 1 - length d.records) in
    record {
      has_record = omega (
        arith,
        length-append d.records (repeated (n + 1 - length d.records) (record_defaults d.desc_type)),
        length-repeated (n + 1 - length d.records) (record_defaults d.desc_type),
      );
      kept = λ i h. same i (record_defaults d.desc_type);
      made = λ i h k.
          same i (record_defaults d.desc_type)
          ∙ past_end d.records i (record_defaults d.desc_type) h;
      same_type = refl;
    }

-- MADB_DescGetInternalRecord refuses only to read a record behind the one that follows the last, with
-- 07009 and no change; otherwise the record is there, the ones there were are as before, the new ones
-- have the defaults of the descriptor's type, and Count is large enough. The number is below 32767.
pub get_internal_record-GetsRecord :
    (d : Descriptor) (n : ℕ) (reads : Bool)
    → n < 2 ^ 15 - 1
    → GetsRecord d n reads (get_internal_record d n reads)
unfolding get_internal_record
get_internal_record-GetsRecord d n reads b = elim (Bool-cases (reads && ltb (length d.records) n)) [
  | inl h ↦ rw h (
    reads_of reads (ltb (length d.records) n) h,
    ground (arith, reads_behind reads (ltb (length d.records) n) h),
    refl,
    refl,
  )
  | inr h ↦ rw h (grown-IsGrown d n, counted_up d.header.count (n + 1) (omega (arith, b)))
]
