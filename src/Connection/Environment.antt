-- ===== src/Connection/Environment.antt =====
-- The environment's attributes: MADB_EnvSetAttr, MADB_EnvGetAttr and the list of connections of
-- driver/ma_environment.cpp. A connection is its address.
use mariadb_connector_odbc.Base.{
  ℕ, ◌%◌, ◌^◌, ◌≡◌, ◌≢◌, refl, ap, inl, inr, Bool, true, false, not, ◌||◌, Option, none, some, List,
  [], ◌∷◌, ◌==◌, if◌then◌else◌, Bool-cases, arith, eq_of_==,
}
use mariadb_connector_odbc.Cursor.{Reply, reply, raised}
use mariadb_connector_odbc.Error.Code.{err_hy010, err_hy024, err_hyc00, err_s1c00}
use mariadb_connector_odbc.Sql.{sql_success}

pub record Environment : Type 0 where
  pub odbc_version : ℕ
  pub dbcs : List ℕ

pub data EnvAttr : Type 0 where
  odbc_version_attr output_nts connection_pooling other_env_attr : EnvAttr

abbrev pub no_connections : List ℕ → Bool
no_connections [] = true
no_connections (_ ∷ _) = false

-- SQL_OV_ODBC2 is 2, SQL_OV_ODBC3 is 3 and MADB_SUPPORTED_OV is SQL_OV_ODBC3_80, which is 380.
abbrev pub known_version : ℕ → Bool
known_version v = v == 2 || v == 3 || v == 380

-- MADB_EnvSetAttr, after the entry point has cleared the error.
unfoldable pub env_set_attr : EnvAttr → ℕ → Environment → Reply × Environment
env_set_attr odbc_version_attr v e =
    if not (no_connections e.dbcs)
    then (raised err_hy010, e)
    else if not (known_version (v % 2 ^ 32))
    then (raised err_hy024, e)
    else (reply sql_success, record e { odbc_version = v % 2 ^ 32 })
env_set_attr output_nts v e = (if v % 2 ^ 32 == 1 then reply sql_success else raised err_s1c00, e)
env_set_attr _ v e = (raised err_hyc00, e)

-- MADB_EnvGetAttr: what it answers and what it writes. SQL_CP_OFF is 0.
unfoldable pub env_get_attr : EnvAttr → Environment → Reply × Option ℕ
env_get_attr connection_pooling e = (reply sql_success, some 0)
env_get_attr odbc_version_attr e = (reply sql_success, some e.odbc_version)
env_get_attr output_nts e = (reply sql_success, some 1)
env_get_attr other_env_attr e = (raised err_hyc00, none)

-- MADB_Env::addConnection
abbrev pub add_connection : ℕ → Environment → Environment
add_connection c e = record e { dbcs = c ∷ e.dbcs }

abbrev pub erased : ℕ → List ℕ → List ℕ
erased c [] = []
erased c (d ∷ ds) = if c == d then ds else d ∷ erased c ds

-- MADB_Env::forgetConnection
abbrev pub forget_connection : ℕ → Environment → Environment
forget_connection c e = record e { dbcs = erased c e.dbcs }

-- What an application does to an environment, one call after the other.
pub data Calls : Environment → Environment → Type 0 where
  no_calls : {e : Environment} → Calls e e
  then_set : {e f : Environment} (a : EnvAttr) (v : ℕ) → Calls e f → Calls e (env_set_attr a v f).1
  then_add : {e f : Environment} (c : ℕ) → Calls e f → Calls e (add_connection c f)
  then_forget : {e f : Environment} (c : ℕ) → Calls e f → Calls e (forget_connection c f)

abbrev pub holds : ℕ → List ℕ → Bool
holds d [] = false
holds d (c ∷ cs) = c == d || holds d cs

-- A connection that no call forgets.
abbrev pub NeverForgets : ℕ → {e f : Environment} → Calls e f → Type 0
NeverForgets d no_calls = Unit
NeverForgets d (then_set a v k) = NeverForgets d k
NeverForgets d (then_add c k) = NeverForgets d k
NeverForgets d (then_forget c k) = (c ≢ d) × NeverForgets d k

holds-erased : (d c : ℕ) (cs : List ℕ) → c ≢ d → holds d cs ≡ true → holds d (erased c cs) ≡ true
holds-erased d c [] ne h = h
holds-erased d c (x ∷ cs) ne h = elim (Bool-cases (c == x)) [
  | inl e ↦
      let same : c ≡ x = eq_of_== e in
      let other : (x == d) ≡ false = ground arith in rw e (rw other at h)
  | inr e ↦ rw e (elim (Bool-cases (x == d)) [
    | inl q ↦ rw q refl
    | inr q ↦ rw q (holds-erased d c cs ne (rw q at h))
  ])
]

holds-filled : (d : ℕ) (cs : List ℕ) → holds d cs ≡ true → no_connections cs ≡ false
holds-filled d [] h = cc
holds-filled d (c ∷ cs) h = refl

set_refused :
    (a : EnvAttr) (v d : ℕ) (f : Environment) → holds d f.dbcs ≡ true → (env_set_attr a v f).1 ≡ f
unfolding env_set_attr
set_refused odbc_version_attr v d f h = ground (arith, holds-filled d f.dbcs h)
set_refused output_nts v d f h = refl
set_refused connection_pooling v d f h = refl
set_refused other_env_attr v d f h = refl

-- The connection that is held keeps the version, whatever is called.
version_held :
    (d : ℕ) {e f : Environment} (k : Calls e f)
    → NeverForgets d k
    → holds d e.dbcs ≡ true
    → (f.odbc_version ≡ e.odbc_version) × (holds d f.dbcs ≡ true)
version_held d no_calls n h = (refl, h)
version_held d (then_set {f = f} a v k) n h =
    let before = version_held d k n h in rw (set_refused a v d f before.1) before
version_held d (then_add c k) n h =
    let before = version_held d k n h in (before.0, ground (arith, before.1))
version_held d (then_forget {f = f} c k) n h =
    let before = version_held d k n.1 h in (before.0, holds-erased d c f.dbcs n.0 before.1)

env_set_attr-known :
    (a : EnvAttr) (v : ℕ) (f : Environment)
    → known_version f.odbc_version ≡ true
    → known_version (env_set_attr a v f).1.odbc_version ≡ true
unfolding env_set_attr
env_set_attr-known odbc_version_attr v f h = elim (Bool-cases (no_connections f.dbcs)) [
  | inl e ↦ elim (Bool-cases (known_version (v % 2 ^ 32))) [
    | inl q ↦ simp e (simp q refl)
    | inr q ↦ simp e (simp q h)
  ]
  | inr e ↦ simp e h
]
env_set_attr-known output_nts v f h = h
env_set_attr-known connection_pooling v f h = h
env_set_attr-known other_env_attr v f h = h

version_known :
    {e f : Environment} (k : Calls e f)
    → known_version e.odbc_version ≡ true
    → known_version f.odbc_version ≡ true
version_known no_calls h = h
version_known (then_set {f = f} a v k) h = env_set_attr-known a v f (version_known k h)
version_known (then_add c k) h = version_known k h
version_known (then_forget c k) h = version_known k h

-- Whatever is called on an environment, in any order, as long as one connection that it had is not forgotten:
-- its ODBC version stays one of the known ones, and the version that is read stays the same.
pub env_get_attr-calls :
    {e f : Environment} (k : Calls e f) (d : ℕ)
    → known_version e.odbc_version ≡ true
    → NeverForgets d k
    → holds d e.dbcs ≡ true
    → (known_version f.odbc_version ≡ true)
      × (env_get_attr odbc_version_attr f ≡ env_get_attr odbc_version_attr e)
unfolding env_get_attr
env_get_attr-calls k d known n h =
    (version_known k known, ap (λ v. (reply sql_success, some v)) (version_held d k n h).0)
