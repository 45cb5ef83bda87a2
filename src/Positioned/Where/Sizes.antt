-- ===== src/Positioned/Where/Sizes.antt =====
-- The size of the index that is chosen.
use mariadb_connector_odbc.Base.{
  ◌≡◌, refl, ap, sym, not, List, if◌then◌else◌, length, Bool-cases, inl, inr, ◌==◌, eq_of_==,
}
use mariadb_connector_odbc.Positioned.{MysqlField}
use mariadb_connector_odbc.Positioned.Where.{
  pri_key_flag, unique_key_flag, Index, by_key, index_unknown, index_impossible, every_column,
  KeyCounts, count_flag, unwritten, best_index, zero_unless,
}

-- The index is as long as the key has columns.
abbrev pub HasSize : List MysqlField → Index → Type 0
HasSize fields (by_key k index) = index ≡ unwritten (count_flag k fields)
HasSize fields every_column = Unit
HasSize fields index_impossible = Unit
HasSize fields index_unknown = ⊥

abbrev without_key : List MysqlField → KeyCounts → Index
without_key fields c =
    if not (c.total_fields == length fields) then index_impossible else every_column

without_key-HasSize :
    (fields : List MysqlField) (c : KeyCounts) → HasSize fields (without_key fields c)
without_key-HasSize fields c = elim (Bool-cases (c.total_fields == length fields)) [
  | inl e ↦ rw e tt
  | inr e ↦ rw e tt
]

unique_size :
    (fields : List MysqlField) (c : KeyCounts)
    → HasSize fields (
        if not (
          zero_unless
            (count_flag unique_key_flag fields == c.total_unique)
            (count_flag unique_key_flag fields)
          == 0)
        then by_key unique_key_flag (unwritten c.total_unique)
        else without_key fields c)
unique_size fields c = elim (Bool-cases (count_flag unique_key_flag fields == c.total_unique)) [
  | inl p ↦ elim (Bool-cases (count_flag unique_key_flag fields == 0)) [
    | inl z ↦ rw p (rw z (without_key-HasSize fields c))
    | inr z ↦ rw p (rw z (ap unwritten (sym (eq_of_== p))))
  ]
  | inr p ↦ rw p (without_key-HasSize fields c)
]

pub best_index-HasSize :
    (fields : List MysqlField) (c : KeyCounts) → HasSize fields (best_index fields c)
best_index-HasSize fields c =
    elim (Bool-cases (count_flag pri_key_flag fields == c.total_primary)) [
      | inl p ↦ elim (Bool-cases (count_flag pri_key_flag fields == 0)) [
        | inl z ↦ rw p (rw z (unique_size fields c))
        | inr z ↦ rw p (rw z refl)
      ]
      | inr p ↦ rw p (unique_size fields c)
    ]
