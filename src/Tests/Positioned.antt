-- ===== src/Tests/Positioned.antt =====
-- A cursor on a table with a key of one column and one of two.
use mariadb_connector_odbc.Base.{
  ℕ, ◌≡◌, refl, true, false, Option, none, some, List, [], ◌∷◌, ◌++◌, ◌==◌, if◌then◌else◌, Bytes,
  codes, map, get_elem?, join,
}
use mariadb_connector_odbc.Base.Int.{pos, minus}
use mariadb_connector_odbc.Bind.{Header, Memory, get_bind_offset}
use mariadb_connector_odbc.Positioned.{
  MysqlField, Column, quoted, inserted, insert_set, bind_for_add, update_set, bind_for_update,
  unique, get_table_name, get_columns, get_values,
}
use mariadb_connector_odbc.Positioned.Texts.{selected, numbered, insert_set-bind_for_add}
use mariadb_connector_odbc.Positioned.Where.{
  KeyCounts, key_type_count, Cell, cell_null, cell_text, cannot_build, undefined_index, built,
  get_where, index_unknown, unique_key_flag, bind_positioned,
}
use mariadb_connector_odbc.Positioned.Where.Cached.{get_where-remembered, get_where-unwritten}
use mariadb_connector_odbc.Positioned.SetPos.{SetPosEnv, PosStmt, pos_delete, pos_update}
use mariadb_connector_odbc.Positioned.SetPos.Call.{
  Done, delete_range, looped, rounds, set_pos, set_pos_delete, start_of,
}
use mariadb_connector_odbc.Positioned.SetPos.Remembered.{fresh_rows, searched, set_pos_delete-fresh}
use mariadb_connector_odbc.Sql.{sql_success}

abbrev field : Bytes → MysqlField
field name = record {
  org_name = name;
  org_table = some (codes "t");
  db = codes "d";
  pri_key = false;
  unique_key = false;
}

-- id is the primary key; a and b are each unique.
abbrev with_primary : List MysqlField
with_primary = record (field (codes "id")) { pri_key = true } ∷ field (codes "a") ∷ []

abbrev with_unique : List MysqlField
with_unique =
    record (field (codes "a")) { unique_key = true }
    ∷ record (field (codes "b")) { unique_key = true }
    ∷ []

abbrev primary_counts : KeyCounts
primary_counts = record { total_fields = 3; total_primary = 1; total_unique = 0 }

abbrev unique_counts : KeyCounts
unique_counts = record { total_fields = 3; total_primary = 0; total_unique = 2 }

counted : key_type_count (some (field (codes "c") ∷ with_unique)) ≡ some unique_counts
counted = refl

abbrev same_text : Bytes → Bytes
same_text s = s

abbrev row_of : Bytes → ℕ → Cell
row_of s i = cell_text s

abbrev null_row : ℕ → Cell
null_row i = cell_null

abbrev seven : Bytes
seven = codes "7"

where_text :
    (get_where same_text false (row_of seven) index_unknown with_primary (some primary_counts)).0
    ≡ built (codes " WHERE 1 AND `id`= '7' LIMIT 1")
unfolding get_where
where_text = refl

get_where-remembered_example :
    get_where same_text false
      (row_of (codes "8"))
      (get_where same_text false (row_of seven) index_unknown with_primary (some primary_counts)).1
      with_primary
      none
    ≡ (
      (get_where same_text false
          (row_of (codes "8"))
          index_unknown
          with_primary
          (some primary_counts)).0,
      (get_where same_text false (row_of seven) index_unknown with_primary (some primary_counts)).1,
    )
get_where-remembered_example =
    get_where-remembered same_text false false (row_of seven) (row_of (codes "8")) with_primary
      primary_counts none (codes " WHERE 1 AND `id`= '7' LIMIT 1") where_text

get_where-unwritten_example :
    ((get_where same_text false null_row index_unknown with_unique (some unique_counts)).0
      ≡ cannot_build)
    × ((get_where same_text false
          (row_of seven)
          (get_where same_text false null_row index_unknown with_unique (some unique_counts)).1
          with_unique
          none).0
        ≡ undefined_index)
get_where-unwritten_example =
    get_where-unwritten same_text null_row (row_of seven) with_unique unique_counts none
      unique_key_flag 0 0 (1 ∷ []) seven refl refl refl refl

bound_numbers :
    bind_positioned
      (get_where same_text true null_row index_unknown with_unique (some unique_counts)).1
      2
      5
    ≡ (4, 1) ∷ (5, 2) ∷ []
unfolding bind_positioned get_where
bound_numbers = refl

-- The second column is ignored in the only row.
abbrev header : Header
header = record { bind_offset = none; bind_type = 0; array_size = 1; count = 3 }

abbrev memory : Memory
memory a = if a == 200 then minus 6 else pos 1

abbrev column : Bytes → ℕ → Column
column name a = record {
  field = field name;
  in_use = true;
  indicator_ptr = some a;
  octet_length_ptr = some a;
}

abbrev columns : List Column
columns = column (codes "id") 100 ∷ column (codes "a") 200 ∷ column (codes "b") 300 ∷ []

insert_text : insert_set memory header columns ≡ codes " (`id`,`b`) VALUES (?,?)"
unfolding insert_set get_bind_offset
insert_text = refl

insert_set-bind_for_add_example :
    let sel = selected (inserted memory header) columns in
    (insert_set memory header columns
      ≡ codes " ("
        ++ (join (codes ",") (map (λ c. quoted c.field.org_name) sel)
            ++ (codes ") VALUES (" ++ (join (codes ",") (map (λ c. codes "?") sel) ++ codes ")"))))
    × ((ps : List ℕ) × (bind_for_add memory header columns 0 0 ≡ numbered 1 ps)
        × (map (get_elem? columns) ps ≡ map some sel))
insert_set-bind_for_add_example = insert_set-bind_for_add memory header columns

update_text : update_set memory header 1 columns ≡ some (codes " SET `id`=? ,`b`=? ")
unfolding update_set
update_text = refl

update_binds : bind_for_update memory header 1 columns 0 0 ≡ (1, 0) ∷ (2, 2) ∷ []
unfolding bind_for_update
update_binds = refl

table_name : get_table_name none true with_unique ≡ unique (some (codes "t"))
unfolding get_table_name
table_name = refl

lists : get_columns with_unique ++ get_values 2 ≡ codes " (`a`, `b` ) VALUES(?,?)"
unfolding get_columns get_values
lists = refl

abbrev env : SetPosEnv
env = record {
  escape = same_text;
  columns = columns;
  fields = with_primary;
  counts = some primary_counts;
  cells = λ row. row_of (if row == 2 then seven else codes "8");
  failed = λ row. sql_success;
  run = λ statement. 1;
  prepare = λ statement. sql_success;
  execute = λ row statement binds. (sql_success, 1);
  memory = memory;
  header = header;
  table = codes "t";
  catalog = codes "d";
}

abbrev cursor : PosStmt
cursor = record {
  has_result = true;
  forward_only = false;
  position = 2;
  rows_count = 3;
  last_row_fetched = 2;
  array_size = 2;
  affected_rows = 0;
  seek = 0;
  index = index_unknown;
}

abbrev map_sent : Option Done → List Bytes
map_sent none = []
map_sent (some d) = d.statements

deleted :
    map_sent (set_pos env cursor 0 pos_delete true (unique (some (codes "t"))))
    ≡ codes "DELETE FROM t WHERE 1 AND `id`= '7' LIMIT 1"
      ∷ codes "DELETE FROM t WHERE 1 AND `id`= '8' LIMIT 1"
      ∷ []
unfolding set_pos
deleted = refl

updated :
    map_sent (set_pos env cursor 1 pos_update true (unique (some (codes "t"))))
    ≡ codes "UPDATE `d`.`t` SET `id`=? ,`b`=?  WHERE 1 AND `id`= '7' LIMIT 1" ∷ []
unfolding set_pos
updated = refl

first_found :
    (searched env (delete_range cursor 0).0).0 ≡ built (codes " WHERE 1 AND `id`= '7' LIMIT 1")
unfolding delete_range get_where
first_found = refl

two_rounds : rounds (delete_range cursor 0).0 (delete_range cursor 0).1 ≡ 2
unfolding delete_range
two_rounds = refl

set_pos_delete-fresh_example :
    set_pos_delete env cursor 0
    ≡ looped cursor (delete_range cursor 0) (
        fresh_rows env 2
          (delete_range cursor 0).0
          (record (start_of cursor) { kept = (searched env (delete_range cursor 0).0).1 }))
set_pos_delete-fresh_example =
    set_pos_delete-fresh env cursor 0 1 primary_counts (codes " WHERE 1 AND `id`= '7' LIMIT 1") refl
      refl two_rounds first_found
