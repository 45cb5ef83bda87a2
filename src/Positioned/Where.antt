-- ===== src/Positioned/Where.antt =====
-- MADB_DynStrGetWhere of driver/ma_string.cpp: the condition that finds the current row again, and the
-- columns of a key that it remembers. Ird->Header.Count is the number of fields.
pub mod Sizes
pub mod Search
pub mod Cached
pub mod Bound
use mariadb_connector_odbc.Base.{
  ℕ, zero, suc, ◌+◌, ◌-◌, Bool, true, false, not, ◌&&◌, Option, none, some, List, [], ◌∷◌, ◌++◌,
  ◌==◌, if◌then◌else◌, Bytes, codes, length, get_elem?,
}
use mariadb_connector_odbc.Descriptor.{set_elem}
use mariadb_connector_odbc.Positioned.{MysqlField}

-- PRI_KEY_FLAG and UNIQUE_KEY_FLAG.
pub data KeyFlag : Type 0 where
  pri_key_flag unique_key_flag : KeyFlag

-- IndexType with UniqueIndex: 0, -1, 1, and the flag with the array from UniqueIndex[1] on, in which
-- `none` is memory that malloc gave and nothing was written to. UniqueIndex[0] is its length.
pub data Index : Type 0 where
  index_unknown index_impossible every_column : Index
  by_key : KeyFlag → List (Option ℕ) → Index

-- What MADB_StmtGetData gives of a column of the current row.
pub data Cell : Type 0 where
  cell_failed cell_null : Cell
  cell_text : Bytes → Cell

-- The text, which is what the callers read on success only; a failure of MADB_StmtGetData or of
-- MADB_KeyTypeCount, which have set the error; the error S1000; an index that was never written.
pub data Built : Type 0 where
  built : Bytes → Built
  read_failed cannot_build undefined_index : Built

-- What MADB_KeyTypeCount gives of the table: -1, or its number of columns and those with each flag.
pub record KeyCounts : Type 0 where
  pub total_fields : ℕ
  pub total_primary : ℕ
  pub total_unique : ℕ

abbrev pub has_flag : KeyFlag → MysqlField → Bool
has_flag pri_key_flag f = f.pri_key
has_flag unique_key_flag f = f.unique_key

abbrev pub count_flag : KeyFlag → List MysqlField → ℕ
count_flag k [] = 0
count_flag k (f ∷ fs) = (if has_flag k f then 1 else 0) + count_flag k fs

-- MADB_KeyTypeCount, from the columns of the table as the server describes them, if it does.
abbrev pub key_type_count : Option (List MysqlField) → Option KeyCounts
key_type_count none = none
key_type_count (some fields) = some (record {
  total_fields = length fields;
  total_primary = count_flag pri_key_flag fields;
  total_unique = count_flag unique_key_flag fields;
})

abbrev pub zero_unless : Bool → ℕ → ℕ
zero_unless b n = if b then n else 0

-- UniqueIndex when it was allocated.
abbrev pub unwritten : ℕ → List (Option ℕ)
unwritten zero = []
unwritten (suc n) = none ∷ unwritten n

-- The choice of an index, with the size of it.
abbrev pub best_index : List MysqlField → KeyCounts → Index
best_index fields c =
    let primary : ℕ =
      zero_unless (count_flag pri_key_flag fields == c.total_primary)
        (count_flag pri_key_flag fields) in
    let unique : ℕ =
      zero_unless (count_flag unique_key_flag fields == c.total_unique)
        (count_flag unique_key_flag fields) in
    if not (primary == 0)
    then by_key pri_key_flag (unwritten primary)
    else if not (unique == 0)
    then by_key unique_key_flag (unwritten c.total_unique)
    else if not (c.total_fields == length fields)
    then index_impossible
    else every_column

-- The text is appended to what was built.
abbrev pub appended : Bytes → Built → Built
appended text (built more) = built (text ++ more)
appended text other = other

-- On a failure the loops are left.
abbrev pub and_then : Built → (Bytes → Built) → Built
and_then (built part) next = next part
and_then read_failed next = read_failed
and_then cannot_build next = cannot_build
and_then undefined_index next = undefined_index

abbrev pub and_then_with :
    Built → List (Option ℕ) → (Bytes → Built × List (Option ℕ)) → Built × List (Option ℕ)
and_then_with (built part) index next = next part
and_then_with read_failed index next = (read_failed, index)
and_then_with cannot_build index next = (cannot_build, index)
and_then_with undefined_index index next = (undefined_index, index)

abbrev pub column_at : List MysqlField → Option ℕ → Option (ℕ × MysqlField)
column_at fields none = none
column_at fields (some i) = elim (get_elem? fields i) [ none ↦ none | some f ↦ some (i, f) ]

abbrev pub limited : Built → Built
limited (built text) = built (text ++ codes " LIMIT 1")
limited other = other

module _ (escape : Bytes → Bytes) (markers : Bool) (cell : ℕ → Cell) where
  -- The comparison with a value; `flagged` tells that Flag is not 0. escape is mysql_real_escape_string.
  abbrev pub compared : Bool → Cell → Built
  compared flagged cell_failed = read_failed
  compared flagged cell_null = if flagged then cannot_build else built (codes " IS NULL")
  compared flagged (cell_text t) = built (codes "= '" ++ (escape t ++ codes "'"))

  -- One column's part of the condition.
  abbrev pub condition : Bool → MysqlField → ℕ → Built
  condition flagged f i =
      appended (codes " AND `" ++ (f.org_name ++ codes "`"))
        (if markers then built (codes "=?") else compared flagged (cell i))

  -- The loop over all columns, where Flag is 0.
  unfoldable pub over_columns : List MysqlField → ℕ → Bytes → Built
  over_columns [] i text = built text
  over_columns (f ∷ fs) i text =
      and_then (condition false f i) (λ part. over_columns fs (i + 1) (text ++ part))

  -- The loop that looks for the columns of the key; `left` is TotalUniqueCount.
  unfoldable pub over_key :
      KeyFlag → List MysqlField → ℕ → ℕ → List (Option ℕ) → Bytes → Built × List (Option ℕ)
  over_key k [] i left index text = (built text, index)
  over_key k (f ∷ fs) i left index text = elim (has_flag k f) [
    | false ↦ over_key k fs (i + 1) left index text
    | true ↦
        let noted = set_elem index (length index - left) (some i) in
        and_then_with (condition true f i) noted
          (λ part. over_key k fs (i + 1) (left - 1) noted (text ++ part))
  ]

  -- The loop over the columns that UniqueIndex has; the code also writes each entry back to its place.
  unfoldable pub over_index : List MysqlField → List (Option ℕ) → Bytes → Built
  over_index fields [] text = built text
  over_index fields (entry ∷ entries) text = elim (column_at fields entry) [
    | none ↦ undefined_index
    | some (i, f) ↦ and_then (condition true f i) (λ part. over_index fields entries (text ++ part))
  ]

  -- The first call, after the choice of an index.
  unfoldable pub first_where : Index → List MysqlField → Built × Index
  unfolding over_columns over_key
  first_where (by_key k index) fields =
      let r = over_key k fields 0 (length index) index (codes " WHERE 1") in
      (limited r.0, by_key k r.1)
  first_where every_column fields =
      (limited (over_columns fields 0 (codes " WHERE 1")), every_column)
  first_where other fields = (cannot_build, other)

  -- MADB_DynStrGetWhere, as what is appended, with the index that is kept.
  unfoldable pub get_where : Index → List MysqlField → Option KeyCounts → Built × Index
  unfolding first_where over_columns over_index
  get_where index_unknown fields none = (read_failed, index_unknown)
  get_where index_unknown fields (some c) = first_where (best_index fields c) fields
  get_where index_impossible fields counts = (cannot_build, index_impossible)
  get_where every_column fields counts =
      (limited (over_columns fields 0 (codes " WHERE 1")), every_column)
  get_where (by_key k index) fields counts =
      (limited (over_index fields index (codes " WHERE 1")), by_key k index)

-- The loop of MADB_ExecutePositionedUpdate from column `j` on, with `left` columns to come: the number of
-- each parameter that is bound, with its column. `before` are the parameters that the statement had itself.
unfoldable pub bind_all : ℕ → ℕ → ℕ → List (ℕ × ℕ)
bind_all before j zero = []
bind_all before j (suc left) = (j + before, j) ∷ bind_all before (j + 1) left

-- The test on a column that the index has next, of which the past of the array is not read.
abbrev pub next_in_index : List (Option ℕ) → ℕ → Bool
next_in_index [] j = false
next_in_index (none ∷ _) j = false
next_in_index (some i ∷ _) j = j == i + 1

abbrev rest_of : List (Option ℕ) → List (Option ℕ)
rest_of [] = []
rest_of (_ ∷ xs) = xs

unfoldable pub bind_index : ℕ → List (Option ℕ) → ℕ → ℕ → ℕ → List (ℕ × ℕ)
bind_index before index idx j zero = []
bind_index before index idx j (suc left) = elim (next_in_index index j) [
  | true ↦ (idx + before, j) ∷ bind_index before (rest_of index) (idx + 1) (j + 1) left
  | false ↦ bind_index before index idx (j + 1) left
]

-- The parameters that the loop binds for a statement with `param_count` of them; a number is 16 bits wide
-- in the code.
unfoldable pub bind_positioned : Index → ℕ → ℕ → List (ℕ × ℕ)
unfolding bind_all bind_index
bind_positioned (by_key k index) columns param_count =
    bind_index (param_count - length index) index 1 1 columns
bind_positioned other columns param_count = bind_all (param_count - columns) 1 columns
