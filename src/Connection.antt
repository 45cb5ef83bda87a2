-- ===== src/Connection.antt =====
-- A connection's attributes: MADB_Dbc::SetAttr and MADB_Dbc::GetAttr of driver/ma_connection.cpp, without
-- SQL_ATTR_CURRENT_CATALOG. A value is the 64 bits of ValuePtr. The server library's object is a parameter.
pub mod Readback
pub mod Functions
pub mod Tokens
pub mod Transaction
pub mod Environment
pub mod Connecting
use mariadb_connector_odbc.Base.{
  ℕ, ◌%◌, ◌^◌, ◌-◌, ltb, Bool, true, false, not, ◌&&◌, ◌||◌, Option, none, some, ◌==◌,
  if◌then◌else◌,
}
use mariadb_connector_odbc.Cursor.{Reply, reply, raised}
use mariadb_connector_odbc.Error.Code.{
  Code, err_01s02, err_25000, err_hy001, err_hy024, err_hy092, err_hyc00,
}
use mariadb_connector_odbc.Sql.{sql_success}

-- The functions of the server library for an open connection with the state G: mysql_autocommit, which
-- tells of a failure, getAutocommit, setTransactionIsolation, which throws for a level it does not know
-- and takes an enum of 32 bits,
-- getTransactionIsolationLevel, reset, ping, whether the last error is that the server is gone, and
-- MYSQL_OPT_NET_BUFFER_LENGTH.
pub record Protocol (G : Type 0) : Type 0 where
  pub set_autocommit : Bool → G → Bool × G
  pub get_autocommit : G → Bool
  pub set_isolation : ℕ → G → Option G
  pub get_isolation : G → ℕ
  pub reset : G → G
  pub ping : G → Bool × G
  pub server_gone : G → Bool
  pub net_buffer_length : G → ℕ

-- The members of MADB_Dbc that attributes stand for. `server` is guard and `connected` whether mariadb is
-- not null; `source_charset` tells that ConnOrSrcCharset is that of an ANSI application.
pub record Dbc (G : Type 0) : Type 0 where
  pub connected : Bool
  pub server : G
  pub access_mode : ℕ
  pub is_ansi : Bool
  pub source_charset : Bool
  pub async_enable : ℕ
  pub auto_commit : ℕ
  pub enlist_in_dtc : Bool
  pub login_timeout : ℕ
  pub metadata_id : ℕ
  pub odbc_cursors : ℕ
  pub packet_size : ℕ
  pub quiet_mode : ℕ
  pub txn_isolation : ℕ
  pub exec_direct_on_server : Bool
  pub prepare_on_client : Bool

-- `no_effect` are SQL_ATTR_TRACE, SQL_ATTR_TRACEFILE and the two for translation; `driver_attr` is an
-- unknown one from SQL_DRIVER_CONN_ATTR_BASE up to 0x7FFF, `other_attr` one below that base.
pub data ConnAttr : Type 0 where
  attr_access_mode attr_ansi_app attr_async_enable attr_auto_ipd attr_autocommit : ConnAttr
  attr_connection_dead attr_login_timeout attr_metadata_id attr_connection_timeout : ConnAttr
  attr_odbc_cursors attr_enlist_in_dtc attr_packet_size attr_quiet_mode : ConnAttr
  attr_reset_connection no_effect attr_txn_isolation attr_execdirect_on_server : ConnAttr
  attr_prepare_on_client driver_attr other_attr : ConnAttr

abbrev pub is_set : ℕ → Bool
is_set v = not (v == 0)

-- A setting that has one value: another one is a warning.
abbrev pub warned_unless : Bool → Reply
warned_unless b = if b then reply sql_success else raised err_01s02

module _ {G : Type 0} (p : Protocol G) where
  abbrev committed : ℕ → Bool × G → Dbc G → Reply × Dbc G
  committed v (true, g) d = (raised err_hy001, record d { server = g })
  committed v (false, g) d = (reply sql_success, record d { server = g; auto_commit = v % 2 ^ 32 })

  -- SQL_ATTR_AUTOCOMMIT; SQL_AUTOCOMMIT_OFF is 0 and SQL_AUTOCOMMIT_ON 1.
  unfoldable pub set_autocommit_attr : ℕ → Dbc G → Reply × Dbc G
  set_autocommit_attr v d =
      if not (v == 1 || v == 0)
      then (raised err_hy024, d)
      else if not d.connected
      then (reply sql_success, record d { auto_commit = v % 2 ^ 32 })
      else if d.enlist_in_dtc
      then (raised err_25000, d)
      else committed v (p.set_autocommit (is_set v) d.server) d

  abbrev isolated : ℕ → Option G → Dbc G → Reply × Dbc G
  isolated v none d = (raised err_hy024, d)
  isolated v (some g) d = (reply sql_success, record d { server = g; txn_isolation = v % 2 ^ 32 })

  -- MADB_Dbc::SetAttr
  unfoldable pub set_conn_attr : ConnAttr → ℕ → Dbc G → Reply × Dbc G
  unfolding set_autocommit_attr
  set_conn_attr attr_access_mode v d = (warned_unless (v == 0), record d { access_mode = 0 })
  set_conn_attr attr_ansi_app v d = (
    reply sql_success,
    if is_set v
        then record d { is_ansi = true; source_charset = true }
        else record d { is_ansi = false },
  )
  set_conn_attr attr_async_enable v d = (warned_unless (v == 0), record d { async_enable = 0 })
  set_conn_attr attr_auto_ipd v d = (raised err_hy092, d)
  set_conn_attr attr_autocommit v d = set_autocommit_attr v d
  set_conn_attr attr_connection_dead v d = (raised err_hy092, d)
  set_conn_attr attr_login_timeout v d =
      let value : ℕ = v % 2 ^ 32 in
      if ltb (2 ^ 32 - 1) value
      then (raised err_01s02, record d { login_timeout = 2 ^ 32 - 1 })
      else (reply sql_success, record d { login_timeout = value })
  set_conn_attr attr_metadata_id v d = (reply sql_success, record d { metadata_id = v % 2 ^ 32 })
  set_conn_attr attr_connection_timeout v d = (raised err_01s02, d)
  set_conn_attr attr_odbc_cursors v d =
      if not (v == 0 || v == 1 || v == 2)
      then (raised err_hy024, d)
      else (warned_unless (v == 1), record d { odbc_cursors = 1 })
  set_conn_attr attr_enlist_in_dtc v d = (raised err_hyc00, d)
  set_conn_attr attr_packet_size v d =
      if d.connected
      then (raised err_hy001, d)
      else (reply sql_success, record d { packet_size = v % 2 ^ 32 })
  set_conn_attr attr_quiet_mode v d = (reply sql_success, record d { quiet_mode = v })
  set_conn_attr attr_reset_connection v d =
      if v % 2 ^ 32 == 1
      then (reply sql_success, record d { server = p.reset d.server })
      else (raised err_hy024, d)
  set_conn_attr no_effect v d = (reply sql_success, d)
  set_conn_attr attr_txn_isolation v d =
      if d.connected
      then isolated v (p.set_isolation (v % 2 ^ 32) d.server) d
      else (reply sql_success, record d { txn_isolation = v % 2 ^ 32 })
  set_conn_attr attr_execdirect_on_server v d =
      (reply sql_success, record d { exec_direct_on_server = is_set v })
  set_conn_attr attr_prepare_on_client v d =
      (reply sql_success, record d { prepare_on_client = is_set v })
  set_conn_attr driver_attr v d = (raised err_hyc00, d)
  set_conn_attr other_attr v d = (reply sql_success, d)

  abbrev pub bit : Bool → ℕ
  bit b = if b then 1 else 0

  abbrev pub given : ℕ → Dbc G → Reply × Option ℕ × Dbc G
  given v d = (reply sql_success, some v, d)

  -- Without a connection, SQL_TRANSACTION_REPEATABLE_READ stands for a level that was not set.
  abbrev pub kept_isolation : Dbc G → Reply × Option ℕ × Dbc G
  kept_isolation d =
      let level : ℕ = if d.txn_isolation == 0 then 4 else d.txn_isolation in
      given level (record d { txn_isolation = level })

  -- MADB_Dbc::GetAttr with a ValuePtr that is not null: what it answers, what it writes there, if anything,
  -- and the connection afterwards. On Windows SQL_ATTR_QUIET_MODE assigns the parameter only.
  unfoldable pub get_conn_attr : ConnAttr → Dbc G → Reply × Option ℕ × Dbc G
  get_conn_attr attr_access_mode d = given 0 d
  get_conn_attr attr_async_enable d = given 0 d
  get_conn_attr attr_auto_ipd d = given 0 d
  get_conn_attr attr_autocommit d =
      given
        (bit
          ((d.connected && p.get_autocommit d.server) || (not d.connected && is_set d.auto_commit)))
        d
  get_conn_attr attr_connection_dead d =
      let r = p.ping d.server in
      given (bit (not r.0 && p.server_gone r.1)) (record d { server = r.1 })
  get_conn_attr attr_login_timeout d = given d.login_timeout d
  get_conn_attr attr_connection_timeout d = given 0 d
  get_conn_attr attr_metadata_id d = given d.metadata_id d
  get_conn_attr attr_odbc_cursors d = given 2 d
  get_conn_attr attr_enlist_in_dtc d = (raised err_hyc00, none, d)
  get_conn_attr attr_packet_size d = given (p.net_buffer_length d.server % 2 ^ 32) d
  get_conn_attr attr_quiet_mode d = (reply sql_success, none, d)
  get_conn_attr no_effect d = (reply sql_success, none, d)
  get_conn_attr attr_txn_isolation d =
      if d.connected then given (p.get_isolation d.server % 2 ^ 32) d else kept_isolation d
  get_conn_attr attr_execdirect_on_server d = given (bit d.exec_direct_on_server) d
  get_conn_attr attr_prepare_on_client d = given (bit d.prepare_on_client) d
  get_conn_attr driver_attr d = (raised err_hyc00, none, d)
  get_conn_attr _ d = (raised err_hy024, none, d)
