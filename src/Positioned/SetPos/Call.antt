-- ===== src/Positioned/SetPos/Call.antt =====
-- MADB_StmtSetPos as a whole: its tests, the rows that SQL_UPDATE and SQL_DELETE go through, and its answer.
use mariadb_connector_odbc.Base.{
  ℕ, ◌+◌, ◌-◌, ◌%◌, ◌^◌, Bool, true, false, not, ◌&&◌, ◌||◌, Option, none, some, List, [], ◌∷◌,
  ◌++◌, ltb, ◌==◌, if◌then◌else◌, Bytes,
}
use mariadb_connector_odbc.Cursor.{Reply, reply, raised}
use mariadb_connector_odbc.Error.Code.{Code, err_24000, err_hy109, err_hyc00, err_im001, err_s1107}
use mariadb_connector_odbc.Positioned.{NameReply, unique, several}
use mariadb_connector_odbc.Sql.{sql_success}
use mariadb_connector_odbc.Positioned.SetPos.{
  Operation, pos_position, pos_refresh, pos_update, pos_delete, PosStmt, Progress,
  result_or_success, SetPosEnv, update_rows, delete_rows,
}

abbrev pub min_of : ℕ → ℕ → ℕ
min_of a b = if ltb a b then a else b

-- The rounds of `while (Start <= End)`.
abbrev pub rounds : ℕ → ℕ → ℕ
rounds start last = last + 1 - start

-- A number less one, in the 64 bits of Start and End.
abbrev pub row_before : ℕ → ℕ
row_before n = (n + 2 ^ 64 - 1) % 2 ^ 64

-- Start and End of SQL_DELETE, and of SQL_UPDATE.
unfoldable pub delete_range : PosStmt → ℕ → ℕ × ℕ
delete_range s n =
    if n == 0
    then (
      s.position,
      if s.array_size == 0
          then s.position
          else min_of s.rows_count (row_before (s.position + s.array_size)),
    )
    else (row_before (s.position + n), row_before (s.position + n))

unfoldable pub update_range : ℕ → PosStmt → ℕ → ℕ × ℕ
update_range position s n =
    if n == 0
    then (position, min_of s.rows_count (row_before (position + s.array_size)))
    else (row_before (position + n), row_before (position + n))

-- The tests at the begin, with SQL_LOCK_NO_CHANGE for `lock_kept`.
unfoldable pub refused : PosStmt → ℕ → Operation → Bool → Option Code
refused s n op lock_kept =
    if not s.has_result
    then some err_24000
    else if s.forward_only && is_position op && not (n == 1)
    then some err_hy109
    else if not lock_kept
    then some err_hyc00
    else if ltb s.rows_count n || (n == 0 && is_position op)
    then some err_hy109
    else none
  where
    is_position : Operation → Bool
    is_position pos_position = true
    is_position _ = false

-- What a call gives: `none` is undefined behaviour; the statements come in the order in which they were sent.
pub record Done : Type 0 where
  pub answer : Reply
  pub stmt : PosStmt
  pub statements : List Bytes

abbrev pub start_of : PosStmt → Progress
start_of s = record { kept = s.index; sent = []; affected = 0; agg = none }

abbrev pub in_order : List Bytes → List Bytes
in_order [] = []
in_order (x ∷ xs) = in_order xs ++ x ∷ []

-- The row that the last round went to.
abbrev pub last_seek : PosStmt → ℕ × ℕ → ℕ
last_seek s r = if rounds r.0 r.1 == 0 then s.seek else r.1

abbrev pub looped : PosStmt → ℕ × ℕ → Option Progress → Option Done
looped s range none = none
looped s range (some p) = some (record {
  answer = reply (result_or_success p.agg);
  stmt = record s { seek = last_seek s range; index = p.kept; affected_rows = p.affected };
  statements = in_order p.sent;
})

abbrev pub answered : Reply → PosStmt → Option Done
answered r s = some (record { answer = r; stmt = s; statements = [] })

-- SQL_UPDATE, where a cursor that has fetched no row stands on the first one.
unfoldable pub set_pos_update : SetPosEnv → PosStmt → ℕ → Option Done
unfolding update_rows update_range
set_pos_update env s n =
    let position : ℕ = if s.position == 0 then 1 else s.position in
    let range = update_range position s n in
    let first : ℕ = if ltb 1 n then n else 1 in
    if ltb s.last_row_fetched n
    then answered (raised err_s1107) (record s { affected_rows = 0 })
    else looped (record s { position = position }) range
        (update_rows env (rounds range.0 range.1) range.0 first (start_of s))

unfoldable pub set_pos_delete : SetPosEnv → PosStmt → ℕ → Option Done
unfolding delete_rows delete_range
set_pos_delete env s n =
    let range = delete_range s n in
    looped s range (delete_rows env (rounds range.0 range.1) range.0 (start_of s))

-- The operations that need the table.
abbrev pub on_table : SetPosEnv → PosStmt → ℕ → Operation → NameReply → Option Done
on_table env s n pos_update (unique (some t)) = set_pos_update (record env { table = t }) s n
on_table env s n pos_delete (unique (some t)) = set_pos_delete (record env { table = t }) s n
on_table env s n _ (unique (some t)) = answered (raised err_hyc00) s
on_table env s n _ (unique none) = answered (raised err_im001) s
on_table env s n _ several = answered (raised err_im001) s

abbrev pub operation : SetPosEnv → PosStmt → ℕ → Operation → NameReply → Option Done
operation env s n pos_position name =
    answered (reply sql_success) (record s { seek = s.position + n - 1 })
operation env s n pos_refresh name = answered (reply sql_success) s
operation env s n op name = on_table env s n op name

abbrev pub unless_refused : Option Code → PosStmt → Option Done → Option Done
unless_refused none s go = go
unless_refused (some c) s go = answered (raised c) s

-- MADB_StmtSetPos; `name` is what MADB_GetTableName gives.
unfoldable pub set_pos : SetPosEnv → PosStmt → ℕ → Operation → Bool → NameReply → Option Done
unfolding refused set_pos_update set_pos_delete
set_pos env s n op lock_kept name =
    unless_refused (refused s n op lock_kept) s (operation env s n op name)
