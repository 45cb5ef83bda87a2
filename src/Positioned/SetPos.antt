-- ===== src/Positioned/SetPos.antt =====
-- MADB_StmtSetPos of driver/ma_statement.cpp, for each operation but SQL_ADD; the cursor is not dynamic.
-- The server library's calls are parameters, and none of them throws.
pub mod Call
pub mod Remembered
use mariadb_connector_odbc.Base.{
  ℕ, zero, suc, ◌+◌, ◌-◌, ◌%◌, ◌^◌, Bool, true, false, not, ◌&&◌, ◌||◌, Option, none, some, List,
  [], ◌∷◌, ◌++◌, ltb, leb, ◌==◌, if◌then◌else◌, Bytes, codes, length,
}
use mariadb_connector_odbc.Bind.{Header, Memory}
use mariadb_connector_odbc.Cursor.{Reply, reply, raised}
use mariadb_connector_odbc.Error.Code.{Code, err_24000, err_hy109, err_hyc00, err_im001, err_s1107}
use mariadb_connector_odbc.Positioned.{
  Column, MysqlField, NameReply, unique, several, update_set, bind_for_update,
}
use mariadb_connector_odbc.Positioned.Where.{
  Index, Cell, Built, built, read_failed, cannot_build, undefined_index, KeyCounts, get_where,
}
use mariadb_connector_odbc.Sql.{SqlReturn, sql_success, sql_success_with_info, sql_error, eq_return}

-- The operations, `pos_other` being any but SQL_ADD.
pub data Operation : Type 0 where
  pos_position pos_refresh pos_update pos_delete pos_other : Operation

-- The members of MADB_Stmt that are read or changed; `seek` is the row that the result set stands on, and
-- `index` is UniqueIndex with IndexType.
pub record PosStmt : Type 0 where
  pub has_result : Bool
  pub forward_only : Bool
  pub position : ℕ
  pub rows_count : ℕ
  pub last_row_fetched : ℕ
  pub array_size : ℕ
  pub affected_rows : ℕ
  pub seek : ℕ
  pub index : Index

-- What the loops carry: `agg` is `result`, with `none` for SQL_INVALID_HANDLE; `sent` are the statements
-- that went to the server, the last one first.
pub record Progress : Type 0 where
  pub kept : Index
  pub sent : List Bytes
  pub affected : ℕ
  pub agg : Option SqlReturn

-- MADB_SETPOS_AGG_RESULT
unfoldable pub agg_result : Option SqlReturn → SqlReturn → Option SqlReturn
agg_result none row = some row
agg_result (some a) row = if eq_return row a then some a else some sql_success_with_info

abbrev pub result_or_success : Option SqlReturn → SqlReturn
result_or_success none = sql_success
result_or_success (some r) = r

-- What a call works with: the columns, the values of the rows, and what the server library does. `failed`
-- is Stmt->Error.ReturnValue after MADB_StmtGetData or MADB_KeyTypeCount failed for a row; `run` is the
-- number of rows that a DELETE removes. `execute` gives the value that an UPDATE returns, which it leaves
-- in Error.ReturnValue of DaeStmt, too, and the number of its rows.
pub record SetPosEnv : Type 0 where
  pub escape : Bytes → Bytes
  pub columns : List Column
  pub fields : List MysqlField
  pub counts : Option KeyCounts
  pub cells : ℕ → ℕ → Cell
  pub failed : ℕ → SqlReturn
  pub run : Bytes → ℕ
  pub prepare : Bytes → SqlReturn
  pub execute : ℕ → Bytes → List (ℕ × ℕ) → SqlReturn × ℕ
  pub memory : Memory
  pub header : Header
  pub table : Bytes
  pub catalog : Bytes

module _ (env : SetPosEnv) where
  -- The end of a row for which no statement was sent.
  abbrev pub row_failed : SqlReturn → Progress → Progress
  row_failed r p = record p { agg = agg_result p.agg r }

  -- SQL_DELETE for one row, once its condition was built; `none` is undefined behaviour.
  unfoldable pub delete_built : ℕ → Built → Progress → Option Progress
  unfolding agg_result
  delete_built row (built text) p =
      let statement : Bytes = codes "DELETE FROM " ++ (env.table ++ text) in
      some (record p {
        sent = statement ∷ p.sent;
        affected = p.affected + env.run statement;
        agg = agg_result p.agg sql_success;
      })
  delete_built row read_failed p = some (row_failed (env.failed row) p)
  delete_built row cannot_build p = some (row_failed sql_error p)
  delete_built row undefined_index p = none

  -- The condition of a row, with the index that is kept.
  abbrev pub where_of : ℕ → Index → Built × Index
  where_of row index = get_where env.escape false (env.cells row) index env.fields env.counts

  unfoldable pub delete_row : ℕ → Progress → Option Progress
  unfolding delete_built get_where
  delete_row row p = let w = where_of row p.kept in delete_built row w.0 (record p { kept = w.1 })

  -- MADB_DaeStmt with SQL_UPDATE for one row, and the execution of the statement; `n` is DaeRowNumber. No
  -- parameter has its data at execution.
  unfoldable pub update_built : ℕ → ℕ → Bytes → Built → Progress → Option Progress
  unfolding agg_result bind_for_update
  update_built row n settings (built text) p =
      let statement : Bytes =
        codes "UPDATE `"
        ++ (env.catalog ++ (codes "`.`" ++ (env.table ++ (codes "`" ++ (settings ++ text))))) in
      let prepared = env.prepare statement in
      let done =
        env.execute row statement (bind_for_update env.memory env.header n env.columns 0 0) in
      if not (eq_return prepared sql_success || eq_return prepared sql_success_with_info)
      then some (row_failed prepared p)
      else some (record p {
        sent = statement ∷ p.sent;
        affected = p.affected + (if eq_return done.0 sql_error then 0 else done.1);
        agg = agg_result p.agg done.0;
      })
  update_built row n settings read_failed p = some (row_failed (env.failed row) p)
  update_built row n settings cannot_build p = some (row_failed sql_error p)
  update_built row n settings undefined_index p = none

  abbrev with_settings : ℕ → ℕ → Option Bytes → Progress → Option Progress
  with_settings row n none p = some (row_failed sql_error p)
  with_settings row n (some settings) p =
      let w = where_of row p.kept in update_built row n settings w.0 (record p { kept = w.1 })

  unfoldable pub update_row : ℕ → ℕ → Progress → Option Progress
  unfolding update_built get_where update_set
  update_row row n p = with_settings row n (update_set env.memory env.header n env.columns) p

  -- The loops, with `left` rows to come from `row` on.
  unfoldable pub delete_rows : ℕ → ℕ → Progress → Option Progress
  unfolding delete_row
  delete_rows zero row p = some p
  delete_rows (suc left) row p = elim (delete_row row p) [
    | none ↦ none
    | some q ↦ delete_rows left (row + 1) q
  ]

  unfoldable pub update_rows : ℕ → ℕ → ℕ → Progress → Option Progress
  unfolding update_row
  update_rows zero row n p = some p
  update_rows (suc left) row n p = elim (update_row row n p) [
    | none ↦ none
    | some q ↦ update_rows left (row + 1) (n + 1) q
  ]
