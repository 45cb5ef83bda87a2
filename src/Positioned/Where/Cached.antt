-- ===== src/Positioned/Where/Cached.antt =====
-- The index that is remembered for the next rows.
use mariadb_connector_odbc.Base.{
  ℕ, suc, ◌+◌, ◌-◌, ◌≡◌, refl, ap, ◌∙◌, sym, Bool, false, Option, some, List, [], ◌∷◌, map, Bytes,
  codes, length, Bool-cases, inl, inr, arith, get_elem?, Option-cases,
}
use mariadb_connector_odbc.Descriptor.{set_elem}
use mariadb_connector_odbc.Positioned.{MysqlField}
use mariadb_connector_odbc.Positioned.Where.{
  KeyFlag, Index, by_key, index_unknown, index_impossible, every_column, Cell, cell_null, cell_text,
  Built, built, read_failed, cannot_build, undefined_index, KeyCounts, has_flag, count_flag,
  unwritten, best_index, over_key, over_index, first_where, get_where, limited,
}
use mariadb_connector_odbc.Positioned.Where.Search.{
  key_columns, length-unwritten, conditions, over_key-eq-conditions, over_key-index,
  over_index-eq-conditions,
}
use mariadb_connector_odbc.Positioned.Where.Sizes.{HasSize, best_index-HasSize}

limited-built : (b : Built) (t : Bytes) → limited b ≡ built t → (s : Bytes) × (b ≡ built s)
limited-built (built s) t e = (s, refl)
limited-built read_failed t e = cc
limited-built cannot_build t e = cc
limited-built undefined_index t e = cc

module _ (escape : Bytes → Bytes) where
  -- The text of the first call, for an index of the right size.
  abbrev pub key_text : Bool → (ℕ → Cell) → KeyFlag → List MysqlField → Built
  key_text markers cell k fields =
      limited (conditions escape markers cell k fields 0 (codes " WHERE 1"))

  pub first_where-key :
      (markers : Bool) (cell : ℕ → Cell) (k : KeyFlag) (index : List (Option ℕ))
      (fields : List MysqlField)
      → (first_where escape markers cell (by_key k index) fields).0 ≡ key_text markers cell k fields
  unfolding first_where
  first_where-key markers cell k index fields = ap limited (
      over_key-eq-conditions escape markers cell k fields 0 (length index) index (codes " WHERE 1"))

  pub first_where-index :
      (markers : Bool) (cell : ℕ → Cell) (k : KeyFlag) (index : List (Option ℕ))
      (fields : List MysqlField) (t : Bytes)
      → index ≡ unwritten (count_flag k fields)
      → (first_where escape markers cell (by_key k index) fields).0 ≡ built t
      → (first_where escape markers cell (by_key k index) fields).1
        ≡ by_key k (map some (key_columns k fields 0))
  unfolding first_where
  first_where-index markers cell k index fields t size h =
      let n = count_flag k fields in
      let s =
        limited-built (conditions escape markers cell k fields 0 (codes " WHERE 1")) t
          (sym (first_where-key markers cell k index fields) ∙ h) in
      rw size (
        ap (by_key k) (
          rw (length-unwritten n)
            (over_key-index escape markers cell k fields 0 n [] (codes " WHERE 1") s.0 refl s.1)))

  remembered :
      (m m' : Bool) (c c' : ℕ → Cell) (ix : Index) (fields : List MysqlField)
      (counts : Option KeyCounts) (t : Bytes)
      → HasSize fields ix
      → (first_where escape m c ix fields).0 ≡ built t
      → get_where escape m' c' (first_where escape m c ix fields).1 fields counts
        ≡ ((first_where escape m' c' ix fields).0, (first_where escape m c ix fields).1)
  unfolding first_where get_where
  remembered m m' c c' (by_key k index) fields counts t size h =
      let cols = map some (key_columns k fields 0) in
      let base = first_where-index m c k index fields t size h in
      ap (λ ix. get_where escape m' c' ix fields counts) base
      ∙ ap (λ b. (limited b, by_key k cols))
          (over_index-eq-conditions escape m' c' k [] fields 0 (codes " WHERE 1") refl)
      ∙ ap (λ b. (b, by_key k cols)) (sym (first_where-key m' c' k index fields))
      ∙ ap (λ ix. ((first_where escape m' c' (by_key k index) fields).0, ix)) (sym base)
  remembered m m' c c' every_column fields counts t size h = refl
  remembered m m' c c' index_impossible fields counts t size h = refl
  remembered m m' c c' index_unknown fields counts t size h = elim size [ ]

  -- Once a condition was built for a row, the index that is remembered gives for any other row what the search gives
  -- for it, be it a text or a failure, and does not ask for the keys of the table again; it stays as it is.
  pub get_where-remembered :
      (m m' : Bool) (c c' : ℕ → Cell) (fields : List MysqlField) (keys : KeyCounts)
      (counts : Option KeyCounts) (t : Bytes)
      → (get_where escape m c index_unknown fields (some keys)).0 ≡ built t
      → get_where escape m' c'
          (get_where escape m c index_unknown fields (some keys)).1
          fields
          counts
        ≡ (
          (get_where escape m' c' index_unknown fields (some keys)).0,
          (get_where escape m c index_unknown fields (some keys)).1,
        )
  unfolding get_where
  get_where-remembered m m' c c' fields keys counts t h =
      remembered m m' c c' (best_index fields keys) fields counts t (best_index-HasSize fields keys)
        h

  -- The loop is left at the first column of the key.
  over_key-null :
      (c : ℕ → Cell) (k : KeyFlag) (fs : List MysqlField) (i left j : ℕ) (rest : List ℕ)
      (index : List (Option ℕ)) (text : Bytes)
      → key_columns k fs i ≡ j ∷ rest
      → c j ≡ cell_null
      → over_key escape false c k fs i left index text
        ≡ (cannot_build, set_elem index (length index - left) (some j))
  unfolding over_key
  over_key-null c k [] i left j rest index text e n = cc
  over_key-null c k (f ∷ fs) i left j rest index text e n = elim (Bool-cases (has_flag k f)) [
    | inl y ↦
        let here : i ∷ key_columns k fs (i + 1) ≡ j ∷ rest = rw y at e in
        let same : i ≡ j = cc in
        let empty : c i ≡ cell_null = rw same n in
        rw (y, over_key)
          (rw empty (ap (λ a. (cannot_build, set_elem index (length index - left) (some a))) same))
    | inr y ↦ rw (y, over_key) (over_key-null c k fs (i + 1) left j rest index text (rw y at e) n)
  ]

  over_index-unwritten :
      (c : ℕ → Cell) (fields : List MysqlField) (j n : ℕ) (s text : Bytes)
      → c j ≡ cell_text s
      → over_index escape false c fields (some j ∷ unwritten (suc n)) text ≡ undefined_index
  unfolding over_index
  over_index-unwritten c fields j n s text e = elim (Option-cases (get_elem? fields j)) [
    | inl m ↦ rw (m, over_index) refl
    | inr (f, m) ↦ rw (m, over_index) (rw e refl)
  ]

  -- When the first row has NULL in the first column of a key of several, the call fails, as it is meant to. It leaves
  -- an index whose other entries were never written, and the call for a later row with a text in that column reads
  -- one of them.
  pub get_where-unwritten :
      (c c' : ℕ → Cell) (fields : List MysqlField) (keys : KeyCounts) (counts : Option KeyCounts)
      (k : KeyFlag) (n j : ℕ) (rest : List ℕ) (s : Bytes)
      → best_index fields keys ≡ by_key k (unwritten (suc (suc n)))
      → key_columns k fields 0 ≡ j ∷ rest
      → c j ≡ cell_null
      → c' j ≡ cell_text s
      → ((get_where escape false c index_unknown fields (some keys)).0 ≡ cannot_build)
        × ((get_where escape false c'
              (get_where escape false c index_unknown fields (some keys)).1
              fields
              counts).0
            ≡ undefined_index)
  unfolding get_where first_where
  get_where-unwritten c c' fields keys counts k n j rest s best columns empty full =
      let size : suc (suc (length (unwritten n))) - suc (suc (length (unwritten n))) ≡ 0 =
        omega arith in
      let left : over_key escape false c k fields 0 (suc (suc (length (unwritten n))))
            (unwritten (suc (suc n))) (codes " WHERE 1")
          ≡ (cannot_build, some j ∷ unwritten (suc n)) =
        over_key-null c k fields 0 (suc (suc (length (unwritten n)))) j rest
          (unwritten (suc (suc n))) (codes " WHERE 1") columns empty
        ∙ rw size refl in
      rw best
        (rw left (refl, ap limited (over_index-unwritten c' fields j n s (codes " WHERE 1") full)))
