-- ===== src/Bind/ParamData.antt =====
-- MADB_StmtParamData and MADB_StmtPutData of driver/ma_statement.cpp: the application gives the values
-- of parameters while a statement is executed. The execution that follows the last value is not
-- modelled, nor a value in wide characters.
pub mod Order
pub mod Pieces
use mariadb_connector_odbc.Base.{
  ℕ, zero, suc, ◌+◌, ◌-◌, ◌%◌, ◌^◌, Bool, true, false, not, ◌&&◌, ◌||◌, Option, none, some, List,
  [], ◌∷◌, ◌++◌, ltb, ◌==◌, if◌then◌else◌, Bytes, length, take,
}
use mariadb_connector_odbc.Base.Int.{ℤ, pos, negsuc, minus, eq_ℤ}
use mariadb_connector_odbc.Bind.{Memory, Desc, get_bind_offset, is_dae, find_in_row, first_param}
use mariadb_connector_odbc.Text.{c_string}
use mariadb_connector_odbc.Error.Code.{Code, err_hy009, err_hy010, err_hy090}

-- MADB_DaeType
pub data DaeType : Type 0 where
  dae_normal dae_add dae_update dae_delete : DaeType

-- A descriptor of parameters: what the search reads, and for each record DataPtr and OctetLength.
pub record ParamDesc : Type 0 where
  pub desc : Desc
  pub data_ptr : ℕ → Option ℕ
  pub octet_length : ℕ → ℕ

-- The members of MADB_Stmt that MADB_StmtParamData uses; the `dae_` ones are those of DaeStmt. A
-- descriptor that is missing is `none`, and `dae_row_number` is counted from 1.
pub record ParamStmt : Type 0 where
  pub data_execution_type : DaeType
  pub put_param : ℤ
  pub param_count : ℕ
  pub apd : Option ParamDesc
  pub has_ard : Bool
  pub dae_row_number : ℕ
  pub dae_put_param : ℤ
  pub dae_param_count : ℕ
  pub dae_apd : Option ParamDesc

-- What the function does before any execution: the error HY010, SQL_NEED_DATA with the address for
-- *ValuePtrPtr, or going on to the execution.
pub data ParamData : Type 0 where
  sequence_error : ParamData
  need_data : Option ℕ → ParamStmt → ParamData
  executes : ParamStmt → ParamData

abbrev is_normal : DaeType → Bool
is_normal dae_normal = true
is_normal _ = false

-- The descriptor and the number of parameters, where both are there.
unfoldable pub param_source : ParamStmt → Option (ParamDesc × ℕ)
param_source s =
    if is_normal s.data_execution_type
    then both s.apd s.param_count
    else if s.has_ard
    then both s.dae_apd s.dae_param_count
    else none
  where
    both : Option ParamDesc → ℕ → Option (ParamDesc × ℕ)
    both none count = none
    both (some d) zero = none
    both (some d) (suc n) = some (d, suc n)

abbrev pub row_index : ℕ → ℕ
row_index row_number = if ltb 1 row_number then row_number - 1 else 0

-- MARK_DAE_DONE for the statement and, when rows are added or updated, for DaeStmt.
unfoldable pub mark_dae_done : ParamStmt → ParamStmt
mark_dae_done s = record s {
  put_param = pos s.param_count;
  dae_put_param = done_for s.data_execution_type;
}
  where
    done_for : DaeType → ℤ
    done_for dae_add = pos s.dae_param_count
    done_for dae_update = pos s.dae_param_count
    done_for _ = s.dae_put_param

-- The loop from the parameter behind the last one given on.
unfoldable pub next_param : Memory → ParamStmt → ParamDesc → ℕ → Option ℕ
unfolding find_in_row
next_param mem s d count =
    find_in_row (count - first_param s.put_param) (first_param s.put_param) mem d.desc
      (row_index s.dae_row_number)

-- MADB_StmtParamData
unfoldable pub param_data : Memory → ParamStmt → ParamData
unfolding param_source mark_dae_done next_param get_bind_offset
param_data mem s = from_source (param_source s)
  where
    from_next : ParamDesc → Option ℕ → ParamData
    from_next d none = executes (mark_dae_done s)
    from_next d (some i) =
        need_data
          (get_bind_offset d.desc.header (d.data_ptr i) (row_index s.dae_row_number)
            (d.octet_length i))
          (record s { put_param = pos i })

    from_source : Option (ParamDesc × ℕ) → ParamData
    from_source none = sequence_error
    from_source (some (d, count)) = from_next d (next_param mem s d count)

abbrev with_first : ℤ → Option (List ℤ) → Option (List ℤ)
with_first i none = none
with_first i (some is) = some (i ∷ is)

abbrev after : ParamData → (ParamStmt → Option (List ℤ)) → Option (List ℤ)
after sequence_error rest = none
after (executes s) rest = some []
after (need_data value s) rest = with_first s.put_param (rest s)

-- The parameters that the application is asked for, call after call, with `fuel` calls at most; `none`
-- is too little fuel or an error.
unfoldable pub asked : ℕ → Memory → ParamStmt → Option (List ℤ)
unfolding param_data
asked zero mem s = none
asked (suc fuel) mem s = after (param_data mem s) (asked fuel mem)

-- What MADB_StmtPutData changes: whether the record's type has become SQL_TYPE_NULL, its
-- InternalLength, and what the server library was given.
pub record Putting (S : Type 0) : Type 0 where
  pub is_null : Bool
  pub internal_length : ℕ
  pub server : S

-- The value returned: a success, an error that the driver reports, or one of the library.
pub data Put : Type 0 where
  put_success : Put
  put_error : Code → Put
  put_native_error : Put

abbrev is_negative : ℤ → Bool
is_negative (pos n) = false
is_negative (negsuc n) = true

-- SQL_NTS is -3 and SQL_NULL_DATA is -1.
abbrev is_nts : ℤ → Bool
is_nts n = eq_ℤ n (minus 3)

abbrev is_null_data : ℤ → Bool
is_null_data n = eq_ℤ n (minus 1)

abbrev data_or_empty : Option Bytes → Bytes
data_or_empty none = []
data_or_empty (some d) = d

-- The bytes that are sent: the whole string for SQL_NTS, and else as many as are said.
unfoldable pub sent_bytes : Bytes → ℤ → Bytes
unfolding c_string
sent_bytes d (pos n) = take n d
sent_bytes d (negsuc n) = c_string d

-- MADB_StmtPutData. `send` is PreparedStatement::sendLongData, whose result is true for an error; its
-- arguments are the parameter's number and the bytes. `ptr` is what DataPtr points to.
module _ {S : Type 0} (send : S → ℤ → Bytes → Bool × S) where
  unfoldable pub put_data : ℤ → Option Bytes → ℤ → Putting S → Put × Putting S
  unfolding sent_bytes
  put_data param ptr len s =
      let given = data_or_empty ptr in
      let sent = send s.server param (sent_bytes given len) in
      if has_data ptr && (is_negative len && not (is_nts len || is_null_data len))
      then (put_error err_hy090, s)
      else if is_null_data len
      then (put_success, record s { is_null = true })
      else if not (has_data ptr) && not (eq_ℤ len (pos 0))
      then (put_error err_hy009, s)
      else if sent.0
      then (put_native_error, record s { server = sent.1 })
      else (
        put_success,
        record s {
          server = sent.1;
          internal_length = (s.internal_length + length (sent_bytes given len)) % 2 ^ 64;
        },
      )
    where
      has_data : Option Bytes → Bool
      has_data none = false
      has_data (some d) = true

  -- The pieces of a value, one call for each, until one does not succeed.
  unfoldable pub put_pieces : ℤ → List Bytes → Putting S → Put × Putting S
  unfolding put_data
  put_pieces param [] s = (put_success, s)
  put_pieces param (piece ∷ pieces) s =
      next_piece (put_data param (some piece) (pos (length piece)) s) (put_pieces param pieces)
    where
      next_piece : Put × Putting S → (Putting S → Put × Putting S) → Put × Putting S
      next_piece (put_success, s2) rest = rest s2
      next_piece (other, s2) rest = (other, s2)
