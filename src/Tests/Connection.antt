-- ===== src/Tests/Connection.antt =====
-- A connection, an environment with two of them, and texts of connection attributes.
use mariadb_connector_odbc.Base.{
  ℕ, ◌≡◌, ◌≢◌, refl, Bool, true, false, none, some, List, [], ◌∷◌, ◌==◌, if◌then◌else◌, Bytes,
  codes, map, join, arith, All, ◌+◌, ◌||◌,
}
use mariadb_connector_odbc.Cursor.{reply}
use mariadb_connector_odbc.Sql.{sql_success}
use mariadb_connector_odbc.Connection.{
  Protocol, Dbc, attr_txn_isolation, set_conn_attr, get_conn_attr,
}
use mariadb_connector_odbc.Connection.Readback.{ReadsBack, get_conn_attr-set_conn_attr}
use mariadb_connector_odbc.Connection.Functions.{
  Words, zero_word, get_functions, odbc3_all_functions,
}
use mariadb_connector_odbc.Connection.Tokens.{set_attributes}
use mariadb_connector_odbc.Connection.Tokens.Laws.{written, set_attributes-written}
use mariadb_connector_odbc.Connection.Transaction.{
  HasMemory, Conn, Ended, returned, sql_exception, bad_alloc, sql_commit, other_completion,
  end_tran, end_tran_env, end_tran_dbc, ended, answer, end_tran_env-reaches_all,
}
use mariadb_connector_odbc.Connection.Connecting.{
  ConnDsn, verify_default, core_options, asks_tls, connect_timeout, protocol_option, protocol_tcp,
  ssl_verify_server_cert, text_option, tls_version_option, ssl_enforce, port_of, connect_state,
  init_options, init_command_option,
}
use mariadb_connector_odbc.Connection.Connecting.Silent.{verifies, enforces}
use mariadb_connector_odbc.Connection.Connecting.Encrypted.{wanted, core_options-verifies}
use mariadb_connector_odbc.Connection.Connecting.Commands.{commands, init_options-eq-commands}
use mariadb_connector_odbc.Connection.Environment.{
  Environment, Calls, no_calls, then_set, then_add, then_forget, odbc_version_attr, env_set_attr,
  env_get_attr, add_connection, forget_connection, known_version, env_get_attr-calls,
}

-- A server whose state is whether it commits at once, and its isolation level.
abbrev server : Protocol (Bool × ℕ)
server = record {
  set_autocommit = λ b g. (false, (b, g.1));
  get_autocommit = λ g. g.0;
  set_isolation = λ v g. if v == 9 then none else some (g.0, v);
  get_isolation = λ g. g.1;
  reset = λ g. (true, 4);
  ping = λ g. (true, g);
  server_gone = λ g. false;
  net_buffer_length = λ g. 1024;
}

set_isolation_read :
    (v : ℕ) (g g' : Bool × ℕ) → server.set_isolation v g ≡ some g' → server.get_isolation g' ≡ v
set_isolation_read v g g' h = ground (arith, h)

set_autocommit_read :
    (b : Bool) (g g' : Bool × ℕ)
    → server.set_autocommit b g ≡ (false, g')
    → server.get_autocommit g' ≡ b
set_autocommit_read b g g' h = cc

abbrev reads_back : ReadsBack server
reads_back = record { autocommit_read = set_autocommit_read; isolation_read = set_isolation_read }

abbrev connection : Dbc (Bool × ℕ)
connection = record {
  connected = true;
  server = (true, 4);
  access_mode = 0;
  is_ansi = false;
  source_charset = false;
  async_enable = 0;
  auto_commit = 4;
  enlist_in_dtc = false;
  login_timeout = 0;
  metadata_id = 0;
  odbc_cursors = 1;
  packet_size = 0;
  quiet_mode = 0;
  txn_isolation = 0;
  exec_direct_on_server = false;
  prepare_on_client = false;
}

isolation_set :
    set_conn_attr server attr_txn_isolation 8 connection
    ≡ (reply sql_success, record connection { server = (true, 8); txn_isolation = 8 })
unfolding set_conn_attr
isolation_set = refl

get_conn_attr-set_conn_attr_example :
    (get_conn_attr server attr_txn_isolation
      (record connection { server = (true, 8); txn_isolation = 8 })).1
    ≡ some 8
get_conn_attr-set_conn_attr_example =
    get_conn_attr-set_conn_attr server reads_back attr_txn_isolation 8 8 connection
      (record connection { server = (true, 8); txn_isolation = 8 }) isolation_set refl

abbrev no_words : Words
no_words i = zero_word

function_found : get_functions (1 ∷ 61 ∷ 1003 ∷ []) odbc3_all_functions no_words 62 11 ≡ true
unfolding get_functions
function_found = refl

abbrev unchanged : Bytes → Bytes
unchanged s = s

abbrev pair_a : Bytes × Bytes
pair_a = (codes "app", codes "test")

abbrev pair_b : Bytes × Bytes
pair_b = (codes "v", codes "2")

no_pair : set_attributes unchanged unchanged (codes "app,v=2") ≡ (true, (codes "v", codes "2") ∷ [])
unfolding set_attributes
no_pair = refl

set_attributes-written_example :
    set_attributes unchanged unchanged (join (codes ",") (map written (pair_a ∷ pair_b ∷ [])))
    ≡ (false, pair_a ∷ pair_b ∷ [])
set_attributes-written_example = set_attributes-written unchanged unchanged pair_a (pair_b ∷ []) (
  (
    (refl, (refl, (refl, tt))),
    (refl, (refl, (refl, tt))),
    (refl, (refl, (refl, (refl, tt)))),
    refl,
    refl,
    refl,
  ),
  (((refl, tt), (refl, tt), (refl, tt), refl, refl, refl), tt),
)

-- The second of three connections is closed, and the first one fails; the state counts the commits.
abbrev commit : ℕ → Ended × ℕ
commit n = (if n == 0 then sql_exception else returned, n + 1)

abbrev conns : List (Conn ℕ)
conns =
    record { open_conn = true; guard = 0; error = none }
    ∷ record { open_conn = false; guard = 5; error = none }
    ∷ record { open_conn = true; guard = 7; error = none }
    ∷ []

sql_exception-ne-bad_alloc : sql_exception ≢ bad_alloc
sql_exception-ne-bad_alloc h = cc

returned-ne-bad_alloc : returned ≢ bad_alloc
returned-ne-bad_alloc h = cc

has_memory : All (HasMemory commit commit sql_commit) conns
unfolding end_tran
has_memory = (sql_exception-ne-bad_alloc, (returned-ne-bad_alloc, (returned-ne-bad_alloc, tt)))

end_tran_env-reaches_all_example :
    end_tran_env commit commit sql_commit conns
    ≡ (reply sql_success, map (ended commit commit sql_commit) conns)
end_tran_env-reaches_all_example =
    end_tran_env-reaches_all commit commit sql_commit conns has_memory

committed : map (λ c. c.guard) (end_tran_env commit commit sql_commit conns).1 ≡ 1 ∷ 5 ∷ 8 ∷ []
unfolding end_tran_env
committed = refl

-- An unknown kind of completion is answered by SQL_SUCCESS, though the error is set.
unknown_completion :
    (end_tran_dbc commit commit other_completion
      (record { open_conn = true; guard = 1; error = none })).0
    ≡ answer (reply sql_success)
unfolding end_tran_dbc
unknown_completion = refl

abbrev begun : Environment
begun = record { odbc_version = 3; dbcs = 7 ∷ [] }

abbrev calls :
    Calls begun (forget_connection 9 (add_connection 9 (env_set_attr odbc_version_attr 2 begun).1))
calls = then_forget 9 (then_add 9 (then_set odbc_version_attr 2 no_calls))

other_connection : ◌≢◌ {A = ℕ} 9 7
other_connection h = omega (arith, h)

env_get_attr-calls_example :
    (known_version
        (forget_connection 9
          (add_connection 9 (env_set_attr odbc_version_attr 2 begun).1)).odbc_version
      ≡ true)
    × (env_get_attr odbc_version_attr
          (forget_connection 9 (add_connection 9 (env_set_attr odbc_version_attr 2 begun).1))
        ≡ env_get_attr odbc_version_attr begun)
env_get_attr-calls_example = env_get_attr-calls calls 7 refl (other_connection, tt) refl

-- FORCETLS with no certificate and nothing said on verification.
abbrev forced : ConnDsn
forced = record {
  plugins_dir = [];
  read_my_cnf = false;
  connection_timeout = 0;
  read_timeout = 0;
  write_timeout = 0;
  is_named_pipe = false;
  socket = none;
  port = 0;
  is_tcp_ip = true;
  ssl_key = [];
  ssl_cert = [];
  ssl_ca = [];
  ssl_ca_path = [];
  ssl_cipher = [];
  ssl_verify = verify_default;
  tls_set = true;
  tls_versions = (true, codes "TLSv1.2") ∷ (false, codes "TLSv1.1") ∷ (true, codes "TLSv1.3") ∷ [];
  force_tls = true;
  ssl_crl = [];
  ssl_crl_path = [];
  server_key = [];
  tls_peer_fp = [];
  tls_peer_fp_list = [];
  tls_key_pwd = [];
}

core_options-verifies_example :
    (verifies (core_options none 5 forced) ≡ wanted verify_default (asks_tls forced || true))
    × (enforces (core_options none 5 forced) ≡ (asks_tls forced || true))
core_options-verifies_example = core_options-verifies none 5 forced

options_run :
    core_options none 5 forced
    ≡ connect_timeout 5
      ∷ protocol_option protocol_tcp
      ∷ ssl_verify_server_cert false
      ∷ text_option tls_version_option (codes "TLSv1.2,TLSv1.3")
      ∷ ssl_enforce
      ∷ ssl_verify_server_cert true
      ∷ []
unfolding core_options
options_run = refl

default_port : port_of forced ≡ 3306
unfolding port_of
default_port = refl

timed_out : connect_state 5 forced (codes "08S01") ≡ codes "HYT00"
unfolding connect_state
timed_out = refl

init_options-eq-commands_example :
    init_options true (codes "USE d") false 1 none
    ≡ init_command_option (join (codes ";") (commands (codes "USE d") false 1 none)) ∷ []
init_options-eq-commands_example = init_options-eq-commands true (codes "USE d") false 1 none

commands_run :
    init_options true (codes "USE d") false 1 none
    ≡ init_command_option (codes "USE d;SET SESSION sql_auto_is_null=0;SET autocommit=1") ∷ []
unfolding init_options
commands_run = refl
