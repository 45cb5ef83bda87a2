-- ===== src/Connection/Transaction.antt =====
-- MADB_Dbc::EndTran of driver/ma_connection.cpp and MA_SQLEndTran of driver/ma_api_internal.cpp.
use mariadb_connector_odbc.Base.{
  ◌≡◌, ◌≢◌, refl, ap, ◌∙◌, Bool, true, false, Option, none, some, List, [], ◌∷◌, map, if◌then◌else◌,
  All,
}
use mariadb_connector_odbc.Cursor.{Reply, reply, raised}
use mariadb_connector_odbc.Error.Code.{Code, err_08002, err_hy001, err_hy012}
use mariadb_connector_odbc.Sql.{sql_success}

-- SQL_COMMIT, SQL_ROLLBACK, and any other value.
pub data Completion : Type 0 where
  sql_commit sql_rollback other_completion : Completion

-- How commit() and rollback() of the server library end: they return, or throw SQLException or
-- std::bad_alloc.
pub data Ended : Type 0 where
  returned sql_exception bad_alloc : Ended

-- The state of the library's object for a connection, and Error of it where MADB_SetError was called.
pub record Conn (G : Type 0) : Type 0 where
  pub open_conn : Bool
  pub guard : G
  pub error : Option Code

-- What a call of the entry point gives: the answer, and the exception of the library is reported as it is.
pub data TranReply : Type 0 where
  answer : Reply → TranReply
  from_exception : TranReply

module _ {G : Type 0} (commit rollback : G → Ended × G) where
  -- MADB_Dbc::EndTran, with how it ends.
  unfoldable pub end_tran : Completion → Conn G → Ended × Conn G
  end_tran sql_rollback c =
      let r = rollback c.guard in (r.0, record c { guard = r.1; error = none })
  end_tran sql_commit c = let r = commit c.guard in (r.0, record c { guard = r.1; error = none })
  end_tran other_completion c = (returned, record c { error = some err_hy012 })

  abbrev with_rest : Conn G → Reply × List (Conn G) → Reply × List (Conn G)
  with_rest c r = (r.0, c ∷ r.1)

  abbrev pub unless_bad_alloc :
      Ended × Conn G → List (Conn G) → Reply × List (Conn G) → Reply × List (Conn G)
  unless_bad_alloc (bad_alloc, c) cs rest = (raised err_hy001, c ∷ cs)
  unless_bad_alloc (returned, c) cs rest = with_rest c rest
  unless_bad_alloc (sql_exception, c) cs rest = with_rest c rest

  -- The loop over the connections of an environment.
  unfoldable pub end_tran_env : Completion → List (Conn G) → Reply × List (Conn G)
  unfolding end_tran
  end_tran_env t [] = (reply sql_success, [])
  end_tran_env t (c ∷ cs) =
      let rest = end_tran_env t cs in
      if c.open_conn then unless_bad_alloc (end_tran t c) cs rest else with_rest c rest

  abbrev pub dbc_answer : Ended × Conn G → TranReply × Conn G
  dbc_answer (returned, c) = (answer (reply sql_success), c)
  dbc_answer (sql_exception, c) = (from_exception, c)
  dbc_answer (bad_alloc, c) = (answer (raised err_hy001), record c { error = some err_hy001 })

  -- The case of one connection.
  unfoldable pub end_tran_dbc : Completion → Conn G → TranReply × Conn G
  unfolding end_tran
  end_tran_dbc t c =
      if c.open_conn
      then dbc_answer (end_tran t c)
      else (answer (raised err_08002), record c { error = some err_08002 })

  -- What is left of a connection after the transaction of the environment was ended.
  abbrev pub ended : Completion → Conn G → Conn G
  ended t c = if c.open_conn then (end_tran t c).1 else c

  -- No function of the library runs out of memory.
  abbrev pub HasMemory : Completion → Conn G → Type 0
  HasMemory t c = (end_tran t c).0 ≢ bad_alloc

  goes_on :
      (e : Ended) (c : Conn G) (cs : List (Conn G)) (rest : Reply × List (Conn G))
      → e ≢ bad_alloc
      → unless_bad_alloc (e, c) cs rest ≡ (rest.0, c ∷ rest.1)
  goes_on returned c cs rest h = refl
  goes_on sql_exception c cs rest h = refl
  goes_on bad_alloc c cs rest h = absurd (h refl)

  one_step :
      (b : Bool) (r : Ended × Conn G) (c : Conn G) (cs : List (Conn G))
      (rest : Reply × List (Conn G))
      → r.0 ≢ bad_alloc
      → (if b then unless_bad_alloc r cs rest else with_rest c rest)
        ≡ (rest.0, (if b then r.1 else c) ∷ rest.1)
  one_step true r c cs rest h = goes_on r.0 r.1 cs rest h
  one_step false r c cs rest h = refl

  -- Unless memory runs out, ending the transactions of an environment reaches each open connection once, also those
  -- after one whose commit or rollback fails, leaves the others as they are, and answers SQL_SUCCESS
  -- whatever has failed.
  pub end_tran_env-reaches_all :
      (t : Completion) (cs : List (Conn G))
      → All (HasMemory t) cs
      → end_tran_env t cs ≡ (reply sql_success, map (ended t) cs)
  unfolding end_tran_env
  end_tran_env-reaches_all t [] h = refl
  end_tran_env-reaches_all t (c ∷ cs) h =
      one_step c.open_conn (end_tran t c) c cs (end_tran_env t cs) h.0
      ∙ ap (λ r. (r.0, ended t c ∷ r.1)) (end_tran_env-reaches_all t cs h.1)
