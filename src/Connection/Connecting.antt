-- ===== src/Connection/Connecting.antt =====
-- What MADB_Dbc::CoreConnect and MADB_Dbc::ConnectDB of driver/ma_connection.cpp hand to the server
-- library before they connect, as the list of their calls of mysql_optionsv; not on Windows.
pub mod Silent
pub mod Encrypted
pub mod Commands
use mariadb_connector_odbc.Base.{
  ℕ, ◌+◌, Bool, true, false, not, ◌&&◌, ◌||◌, Option, none, some, List, [], ◌∷◌, ◌++◌, ltb, ◌==◌,
  if◌then◌else◌, Bytes, codes,
}
use mariadb_connector_odbc.Positioned.{eq_bytes}
use mariadb_connector_odbc.Text.{ltrim}

-- SslVerify: '\0', '\1', DSN_DEFAULT_TRUE, and any other byte that atoi gives.
pub data SslVerify : Type 0 where
  verify_off verify_on verify_default verify_other : SslVerify

-- The members of MADB_Dsn that are read. A string is empty where the code also takes a null pointer, but
-- for the socket. `tls_versions` has each version's name with its bit of TlsVersion, and `tls_set` says
-- whether TlsVersion is above 0, which it may be with none of these bits.
pub record ConnDsn : Type 0 where
  pub plugins_dir : Bytes
  pub read_my_cnf : Bool
  pub connection_timeout : ℕ
  pub read_timeout : ℕ
  pub write_timeout : ℕ
  pub is_named_pipe : Bool
  pub socket : Option Bytes
  pub port : ℕ
  pub is_tcp_ip : Bool
  pub ssl_key : Bytes
  pub ssl_cert : Bytes
  pub ssl_ca : Bytes
  pub ssl_ca_path : Bytes
  pub ssl_cipher : Bytes
  pub ssl_verify : SslVerify
  pub tls_set : Bool
  pub tls_versions : List (Bool × Bytes)
  pub force_tls : Bool
  pub ssl_crl : Bytes
  pub ssl_crl_path : Bytes
  pub server_key : Bytes
  pub tls_peer_fp : Bytes
  pub tls_peer_fp_list : Bytes
  pub tls_key_pwd : Bytes

pub data TransportProtocol : Type 0 where
  protocol_tcp protocol_socket protocol_pipe : TransportProtocol

-- The options with a text.
pub data TextOption : Type 0 where
  plugin_dir ssl_key_option ssl_cert_option ssl_ca_option ssl_capath_option : TextOption
  ssl_cipher_option tls_version_option ssl_crl_option ssl_crlpath_option : TextOption
  server_public_key tls_peer_fp_option tls_peer_fp_list_option tls_passphrase : TextOption

-- A call of mysql_optionsv; `tls_version_unwritten` is MARIADB_OPT_TLS_VERSION with an array of the
-- stack that nothing was written to.
pub data ConnOption : Type 0 where
  text_option : TextOption → Bytes → ConnOption
  read_default_group named_pipe ssl_enforce tls_version_unwritten : ConnOption
  connect_timeout read_timeout_option write_timeout_option : ℕ → ConnOption
  protocol_option : TransportProtocol → ConnOption
  ssl_verify_server_cert : Bool → ConnOption
  init_command_option : Bytes → ConnOption

-- MADB_IS_EMPTY
abbrev pub is_blank : Bytes → Bool
is_blank [] = true
is_blank (_ ∷ _) = false

abbrev pub option_if : Bool → ConnOption → List ConnOption
option_if b o = if b then o ∷ [] else []

abbrev pub unless_blank : TextOption → Bytes → List ConnOption
unless_blank t s = option_if (not (is_blank s)) (text_option t s)

-- The plugins' directory; `default_location` is DefaultPluginLocation.
abbrev pub plugin_options : Option Bytes → ConnDsn → List ConnOption
plugin_options none d = unless_blank plugin_dir d.plugins_dir
plugin_options (some l) d =
    text_option plugin_dir (if is_blank d.plugins_dir then l else d.plugins_dir) ∷ []

-- The timeouts; the one of the connection string takes precedence.
abbrev pub timeout_options : ℕ → ConnDsn → List ConnOption
timeout_options login d =
    (if not (d.connection_timeout == 0)
      then connect_timeout d.connection_timeout ∷ []
      else option_if (ltb 0 login) (connect_timeout login))
    ++ (option_if (not (d.read_timeout == 0)) (read_timeout_option d.read_timeout)
        ++ option_if (not (d.write_timeout == 0)) (write_timeout_option d.write_timeout))

abbrev pub has_text : Option Bytes → Bool
has_text none = false
has_text (some _) = true

-- The protocol, and the port that is used.
abbrev pub protocol_options : ConnDsn → List ConnOption
protocol_options d =
    if d.is_named_pipe
    then named_pipe ∷ protocol_option protocol_pipe ∷ []
    else protocol_option (if has_text d.socket then protocol_socket else protocol_tcp) ∷ []

unfoldable pub port_of : ConnDsn → ℕ
port_of d =
    if not d.is_named_pipe && not (has_text d.socket) && d.is_tcp_ip && d.port == 0
    then 3306
    else d.port

abbrev pub is_default : SslVerify → Bool
is_default verify_default = true
is_default _ = false

-- Some certificate, key or cipher is given.
abbrev pub asks_tls : ConnDsn → Bool
asks_tls d =
    not (is_blank (ltrim d.ssl_ca))
    || not (is_blank (ltrim d.ssl_ca_path))
    || not (is_blank (ltrim d.ssl_cipher))
    || not (is_blank (ltrim d.ssl_cert))
    || not (is_blank (ltrim d.ssl_key))

abbrev pub certificate_options : ConnDsn → List ConnOption
certificate_options d =
    unless_blank ssl_key_option (ltrim d.ssl_key)
    ++ (unless_blank ssl_cert_option (ltrim d.ssl_cert)
        ++ (unless_blank ssl_ca_option (ltrim d.ssl_ca)
            ++ (unless_blank ssl_capath_option (ltrim d.ssl_ca_path)
                ++ unless_blank ssl_cipher_option (ltrim d.ssl_cipher))))

unfoldable pub ssl_options : ConnDsn → List ConnOption
unfolding ltrim
ssl_options d =
    if asks_tls d
    then ssl_enforce
      ∷ (option_if (is_default d.ssl_verify) (ssl_verify_server_cert true) ++ certificate_options d)
    else option_if (is_default d.ssl_verify) (ssl_verify_server_cert false)

-- The loop over TlsVersionBits, with NeedComma.
unfoldable pub tls_text : Bool → List (Bool × Bytes) → Bytes
tls_text need_comma [] = []
tls_text need_comma ((b, name) ∷ vs) =
    (if b then (if need_comma then codes "," else []) ++ name else [])
    ++ tls_text (b || need_comma) vs

abbrev pub any_version : List (Bool × Bytes) → Bool
any_version [] = false
any_version ((b, _) ∷ vs) = b || any_version vs

abbrev pub tls_options : ConnDsn → List ConnOption
tls_options d = option_if d.tls_set (
    if any_version d.tls_versions
    then text_option tls_version_option (tls_text false d.tls_versions)
    else tls_version_unwritten)

abbrev pub verify_options : SslVerify → List ConnOption
verify_options verify_on = ssl_verify_server_cert true ∷ []
verify_options verify_off = ssl_verify_server_cert false ∷ []
verify_options _ = []

abbrev pub force_options : ConnDsn → List ConnOption
force_options d =
    if d.force_tls
    then ssl_enforce ∷ option_if (is_default d.ssl_verify) (ssl_verify_server_cert true)
    else []

abbrev pub last_options : ConnDsn → List ConnOption
last_options d =
    unless_blank ssl_crl_option d.ssl_crl
    ++ (unless_blank ssl_crlpath_option d.ssl_crl_path
        ++ (unless_blank server_public_key d.server_key
            ++ (unless_blank tls_peer_fp_option d.tls_peer_fp
                ++ (unless_blank tls_peer_fp_list_option d.tls_peer_fp_list
                    ++ unless_blank tls_passphrase d.tls_key_pwd))))

-- The options of MADB_Dbc::CoreConnect, with LoginTimeout.
unfoldable pub core_options : Option Bytes → ℕ → ConnDsn → List ConnOption
unfolding ssl_options tls_text
core_options default_location login d =
    plugin_options default_location d
    ++ (option_if d.read_my_cnf read_default_group
        ++ (timeout_options login d
            ++ (protocol_options d
                ++ (ssl_options d
                    ++ (tls_options d
                        ++ (verify_options d.ssl_verify ++ (force_options d ++ last_options d)))))))

-- The state that is reported when mysql_real_connect fails with the given one.
unfoldable pub connect_state : ℕ → ConnDsn → Bytes → Bytes
connect_state login d state =
    if (ltb 0 login || ltb 0 d.connection_timeout) && eq_bytes state (codes "08S01")
    then codes "HYT00"
    else state

-- MADB_AddInitCommand: InitCmd and the options so far, the last one first.
unfoldable pub add_init_command : Bool → Bytes → Bytes × List ConnOption → Bytes × List ConnOption
add_init_command multi statement r =
    if not multi
    then (r.0, init_command_option statement ∷ r.1)
    else ((if is_blank r.0 then [] else r.0 ++ codes ";") ++ statement, r.1)

abbrev pub add_if : Bool → Bool → Bytes → Bytes × List ConnOption → Bytes × List ConnOption
add_if b multi statement r = if b then add_init_command multi statement r else r

abbrev pub add_isolation : Bool → Option Bytes → Bytes × List ConnOption → Bytes × List ConnOption
add_isolation multi none r = r
add_isolation multi (some name) r =
    add_init_command multi (codes "SET SESSION TRANSACTION ISOLATION LEVEL " ++ name) r

abbrev pub in_call_order : List ConnOption → List ConnOption
in_call_order [] = []
in_call_order (x ∷ xs) = in_call_order xs ++ x ∷ []

-- Where several statements are allowed, the commands are one option.
abbrev pub finished : Bool → Bytes × List ConnOption → List ConnOption
finished multi r =
    if multi then in_call_order (init_command_option r.0 ∷ r.1) else in_call_order r.1

abbrev pub auto_is_null_command : Bool → Bytes
auto_is_null_command b =
    if b then codes "SET SESSION sql_auto_is_null=1" else codes "SET SESSION sql_auto_is_null=0"

abbrev pub autocommit_command : ℕ → Bytes
autocommit_command v = if v == 0 then codes "SET autocommit=0" else codes "SET autocommit=1"

-- The part of MADB_Dbc::ConnectDB that sets commands up, with InitCommand, AutoCommit and the text for
-- TxnIsolation, if it is not 0, as addTxIsolationName2Query of the server library makes it.
unfoldable pub init_options : Bool → Bytes → Bool → ℕ → Option Bytes → List ConnOption
unfolding add_init_command
init_options multi command auto_is_null auto_commit isolation =
    let a = add_if (not (is_blank command)) multi command ([], []) in
    let b = add_init_command multi (auto_is_null_command auto_is_null) a in
    let c = add_init_command multi (autocommit_command auto_commit) b in
    finished multi (add_isolation multi isolation c)
