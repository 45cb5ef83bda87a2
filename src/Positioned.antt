-- ===== src/Positioned.antt =====
-- The texts of positioned statements: driver/ma_string.cpp, with the parameters that MADB_StmtSetPos and
-- MADB_ExecutePositionedUpdate of driver/ma_statement.cpp bind for them. Allocation succeeds.
pub mod Texts
pub mod Where
pub mod SetPos
use mariadb_connector_odbc.Base.{
  ℕ, zero, suc, ◌+◌, ◌-◌, Bool, true, false, not, ◌&&◌, ◌||◌, Option, none, some, List, [], ◌∷◌,
  ◌++◌, ltb, ◌==◌, if◌then◌else◌, Bytes, codes, length,
}
use mariadb_connector_odbc.Bind.{
  Header, Memory, get_bind_offset, ignored_at, column_ignored_in_all_rows,
}

-- What is read of a MYSQL_FIELD: its names, and PRI_KEY_FLAG and UNIQUE_KEY_FLAG of its flags.
pub record MysqlField : Type 0 where
  pub org_name : Bytes
  pub org_table : Option Bytes
  pub db : Bytes
  pub pri_key : Bool
  pub unique_key : Bool

-- A column of the cursor, with the members of its record in the application's descriptor.
pub record Column : Type 0 where
  pub field : MysqlField
  pub in_use : Bool
  pub indicator_ptr : Option ℕ
  pub octet_length_ptr : Option ℕ

-- `strcmp` with the result 0.
abbrev pub eq_bytes : Bytes → Bytes → Bool
eq_bytes [] [] = true
eq_bytes [] (_ ∷ _) = false
eq_bytes (_ ∷ _) [] = false
eq_bytes (a ∷ x) (b ∷ y) = a == b && eq_bytes x y

-- What a search for the only name gives: `several` is the error HY000.
pub data NameReply : Type 0 where
  unique : Option Bytes → NameReply
  several : NameReply

abbrev pub first_or : Option Bytes → Bytes → Bytes
first_or none n = n
first_or (some m) n = m

-- The loop of MADB_GetTableName over the columns that have a table; the first argument is TableName.
unfoldable pub table_from : Option Bytes → List MysqlField → NameReply
table_from found [] = unique found
table_from found (f ∷ fs) = elim f.org_table [
  | none ↦ table_from found fs
  | some t ↦ elim (eq_bytes (first_or found t) t) [
    | true ↦ table_from (some (first_or found t)) fs
    | false ↦ several
  ]
]

-- The loop of MADB_GetCatalogName.
unfoldable pub catalog_from : Option Bytes → List MysqlField → NameReply
catalog_from found [] = unique found
catalog_from found (f ∷ fs) = elim f.org_table [
  | none ↦ catalog_from found fs
  | some t ↦ elim (eq_bytes (first_or found f.db) f.db) [
    | true ↦ catalog_from (some (first_or found f.db)) fs
    | false ↦ several
  ]
]

abbrev pub kept_name : Option Bytes → NameReply → NameReply
kept_name stored (unique none) = unique stored
kept_name stored (unique (some n)) = unique (some n)
kept_name stored several = several

-- A name that is stored and not empty is kept. `open` tells that the statement has the result set, or its
-- metadata.
abbrev pub named : Option Bytes → Bool → NameReply → NameReply
named (some (c ∷ cs)) open_set search = unique (some (c ∷ cs))
named stored open_set search = if open_set then kept_name stored search else unique none

-- MADB_GetTableName; the name that is given is stored too.
unfoldable pub get_table_name : Option Bytes → Bool → List MysqlField → NameReply
unfolding table_from
get_table_name stored open_set fields = named stored open_set (table_from none fields)

-- MADB_GetCatalogName
unfoldable pub get_catalog_name : Option Bytes → Bool → List MysqlField → NameReply
unfolding catalog_from
get_catalog_name stored open_set fields = named stored open_set (catalog_from none fields)

-- MADB_DynStrAppendQuoted, as what is appended.
abbrev pub quoted : Bytes → Bytes
quoted name = codes "`" ++ name ++ codes "`"

-- The row of the application's arrays that is read for DaeRowNumber.
abbrev pub dae_row : ℕ → ℕ
dae_row n = if ltb 1 n then n - 1 else 0

-- The columns that MADB_DynStrUpdateSet leaves out.
abbrev pub left_out : Memory → Header → ℕ → Column → Bool
left_out mem h n c =
    ignored_at mem (get_bind_offset h c.indicator_ptr (dae_row n) 8) || not c.in_use

abbrev pub set_item : MysqlField → Bytes
set_item f = codes "`" ++ f.org_name ++ codes "`=? "

-- The loop of MADB_DynStrUpdateSet: i, IgnoredColumns and the text, which it gives with IgnoredColumns.
unfoldable pub set_from : Memory → Header → ℕ → List Column → ℕ → ℕ → Bytes → Bytes × ℕ
unfolding get_bind_offset
set_from mem h n [] i ignored text = (text, ignored)
set_from mem h n (c ∷ cs) i ignored text = elim (left_out mem h n c) [
  | true ↦ set_from mem h n cs (i + 1) (ignored + 1) text
  | false ↦
      set_from mem h n cs (i + 1) ignored
        (text ++ ((if i == ignored then [] else codes ",") ++ set_item c.field))
]

-- MADB_DynStrUpdateSet; `none` is the error 21S02.
unfoldable pub update_set : Memory → Header → ℕ → List Column → Option Bytes
unfolding set_from
update_set mem h n cs =
    let r = set_from mem h n cs 0 0 (codes " SET ") in if r.1 == length cs then none else some r.0

-- The columns that MADB_DynStrInsertSet writes.
abbrev pub inserted : Memory → Header → Column → Bool
inserted mem h c = c.in_use && not (column_ignored_in_all_rows mem h c.indicator_ptr)

abbrev pub comma_if : Bool → Bytes
comma_if b = if b then codes "," else []

-- The loop of MADB_DynStrInsertSet: NeedComma, DynString and ColVals.
unfoldable pub insert_from : Memory → Header → List Column → Bool → Bytes → Bytes → Bytes × Bytes
unfolding column_ignored_in_all_rows
insert_from mem h [] need_comma text col_vals = (text, col_vals)
insert_from mem h (c ∷ cs) need_comma text col_vals = elim (inserted mem h c) [
  | false ↦ insert_from mem h cs need_comma text col_vals
  | true ↦
      insert_from mem h cs true (text ++ (comma_if need_comma ++ quoted c.field.org_name))
        (col_vals ++ (comma_if need_comma ++ codes "?"))
]

-- MADB_DynStrInsertSet, as what is appended.
unfoldable pub insert_set : Memory → Header → List Column → Bytes
unfolding insert_from
insert_set mem h cs =
    let r = insert_from mem h cs false (codes " (") (codes "VALUES (") in
    r.0 ++ (codes ") " ++ (r.1 ++ codes ")"))

-- The loop of SQL_ADD in MADB_StmtSetPos: the number of each parameter that is bound, with its column.
unfoldable pub bind_for_add : Memory → Header → List Column → ℕ → ℕ → List (ℕ × ℕ)
unfolding column_ignored_in_all_rows
bind_for_add mem h [] column param = []
bind_for_add mem h (c ∷ cs) column param = elim (inserted mem h c) [
  | false ↦ bind_for_add mem h cs (column + 1) param
  | true ↦ (param + 1, column) ∷ bind_for_add mem h cs (column + 1) (param + 1)
]

-- The columns that the loop of SQL_UPDATE passes by: it reads OctetLengthPtr.
abbrev pub passed_by : Memory → Header → ℕ → Column → Bool
passed_by mem h n c =
    not c.in_use || ignored_at mem (get_bind_offset h c.octet_length_ptr (dae_row n) 8)

-- The loop of SQL_UPDATE in MADB_StmtSetPos: the number of each parameter that is bound, with its column.
unfoldable pub bind_for_update : Memory → Header → ℕ → List Column → ℕ → ℕ → List (ℕ × ℕ)
unfolding get_bind_offset
bind_for_update mem h n [] column param = []
bind_for_update mem h n (c ∷ cs) column param = elim (passed_by mem h n c) [
  | true ↦ bind_for_update mem h n cs (column + 1) param
  | false ↦ (param + 1, column) ∷ bind_for_update mem h n cs (column + 1) (param + 1)
]

-- MADB_DynStrGetColumns, as what is appended.
unfoldable pub columns_from : ℕ → List MysqlField → Bytes
columns_from i [] = codes " )"
columns_from i (f ∷ fs) =
    (if i == 0 then [] else codes ", ") ++ (quoted f.org_name ++ columns_from (i + 1) fs)

unfoldable pub get_columns : List MysqlField → Bytes
unfolding columns_from
get_columns fields = codes " (" ++ columns_from 0 fields

-- MADB_DynStrGetValues, as what is appended.
unfoldable pub values_from : ℕ → ℕ → Bytes
values_from i zero = codes ")"
values_from i (suc left) = (if i == 0 then codes "?" else codes ",?") ++ values_from (i + 1) left

unfoldable pub get_values : ℕ → Bytes
unfolding values_from
get_values n = codes " VALUES(" ++ values_from 0 n
