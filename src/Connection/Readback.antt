-- ===== src/Connection/Readback.antt =====
-- What MADB_Dbc::GetAttr reads of an attribute that was set.
use mariadb_connector_odbc.Base.{
  ℕ, ◌%◌, ◌^◌, ◌≡◌, ◌∙◌, sym, Bool, not, ◌&&◌, false, Option, none, some, ◌==◌, if◌then◌else◌,
  Option-cases, inl, inr, arith,
}
use mariadb_connector_odbc.Cursor.{reply}
use mariadb_connector_odbc.Sql.{sql_success}
use mariadb_connector_odbc.Connection.{
  Protocol, Dbc, ConnAttr, attr_access_mode, attr_async_enable, attr_autocommit, attr_login_timeout,
  attr_metadata_id, attr_txn_isolation, attr_execdirect_on_server, attr_prepare_on_client, is_set,
  set_conn_attr, get_conn_attr, set_autocommit_attr,
}

-- What the server library documents: a setting that was taken is the one that is read.
pub record ReadsBack {G : Type 0} (p : Protocol G) : Type 0 where
  pub autocommit_read :
      (b : Bool) (g g' : G) → p.set_autocommit b g ≡ (false, g') → p.get_autocommit g' ≡ b
  pub isolation_read : (v : ℕ) (g g' : G) → p.set_isolation v g ≡ some g' → p.get_isolation g' ≡ v

-- The attributes that are read as they were set, with the value that is read.
abbrev pub kept_value : ConnAttr → ℕ → Bool → Option ℕ
kept_value attr_access_mode v connected = some v
kept_value attr_async_enable v connected = some v
kept_value attr_autocommit v connected = some v
kept_value attr_login_timeout v connected = some (v % 2 ^ 32)
kept_value attr_metadata_id v connected = some (v % 2 ^ 32)
kept_value attr_txn_isolation v connected =
    some (if not connected && v % 2 ^ 32 == 0 then 4 else v % 2 ^ 32)
kept_value attr_execdirect_on_server v connected = some (if v == 0 then 0 else 1)
kept_value attr_prepare_on_client v connected = some (if v == 0 then 0 else 1)
kept_value _ v connected = none

module _ {G : Type 0} (p : Protocol G) (law : ReadsBack p) where
  autocommit_kept :
      (v : ℕ) (d d' : Dbc G)
      → set_autocommit_attr p v d ≡ (reply sql_success, d')
      → (get_conn_attr p attr_autocommit d').1 ≡ some v
  unfolding set_autocommit_attr get_conn_attr
  autocommit_kept v d d' h =
      ground
        (arith, h, law.autocommit_read (is_set v) d.server (p.set_autocommit (is_set v) d.server).1)

  isolation_kept :
      (v : ℕ) (d d' : Dbc G)
      → set_conn_attr p attr_txn_isolation v d ≡ (reply sql_success, d')
      → some (if not d.connected && v % 2 ^ 32 == 0 then 4 else v % 2 ^ 32)
        ≡ (get_conn_attr p attr_txn_isolation d').1
  unfolding set_conn_attr get_conn_attr
  isolation_kept v d d' h = elim (Option-cases (p.set_isolation (v % 2 ^ 32) d.server)) [
    | inl e ↦ ground (arith, h, e)
    | inr (g, e) ↦ ground (arith, h, e, law.isolation_read (v % 2 ^ 32) d.server g e)
  ]

  -- An attribute of a connection that is set with SQL_SUCCESS is read as it was set: access mode, asynchronous mode
  -- and autocommit whole, the login timeout, the identifier mode and the isolation level by their low 32
  -- bits, the two driver switches as 1 or 0; only the isolation level 0 of a connection that is not open is
  -- read as 4. On an open connection the server library reads back the settings that it took.
  pub get_conn_attr-set_conn_attr :
      (a : ConnAttr) (v n : ℕ) (d d' : Dbc G)
      → set_conn_attr p a v d ≡ (reply sql_success, d')
      → kept_value a v d.connected ≡ some n
      → (get_conn_attr p a d').1 ≡ some n
  unfolding set_conn_attr get_conn_attr
  get_conn_attr-set_conn_attr attr_access_mode v n d d' h k = ground (arith, h, k)
  get_conn_attr-set_conn_attr attr_async_enable v n d d' h k = ground (arith, h, k)
  get_conn_attr-set_conn_attr attr_autocommit v n d d' h k = autocommit_kept v d d' h ∙ k
  get_conn_attr-set_conn_attr attr_login_timeout v n d d' h k = ground (arith, h, k)
  get_conn_attr-set_conn_attr attr_metadata_id v n d d' h k = ground (arith, h, k)
  get_conn_attr-set_conn_attr attr_txn_isolation v n d d' h k = sym (isolation_kept v d d' h) ∙ k
  get_conn_attr-set_conn_attr attr_execdirect_on_server v n d d' h k = ground (arith, h, k)
  get_conn_attr-set_conn_attr attr_prepare_on_client v n d d' h k = ground (arith, h, k)
  get_conn_attr-set_conn_attr _ v n d d' h k = cc
