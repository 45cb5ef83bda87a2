-- ===== src/Tests/Dsn.antt =====
-- The theorems on driver/ma_dsn.c at concrete settings.
use mariadb_connector_odbc.Base.{◌∷◌, ◌++◌, ◌≡◌, refl, inl, Bool, true, some, codes, arith}
use mariadb_connector_odbc.Dsn.ConnString.Coherent.{parse_conn_string-IsCoherent}
use mariadb_connector_odbc.Dsn.ConnString.{parse_conn_string}
use mariadb_connector_odbc.Dsn.ConnString.Braces.{escape, read_value-escape}
use mariadb_connector_odbc.Dsn.ConnString.{read_value}
use mariadb_connector_odbc.Dsn.Print.Buffer.{Whole, dsn_to_string-Whole}
use mariadb_connector_odbc.Dsn.Print.Readback.{read_value-shown}
use mariadb_connector_odbc.Dsn.Print.{shown, dsn_to_string, print_keys, has_byte}
use mariadb_connector_odbc.Dsn.Keys.{set_text, Dsn, init, key_at, set_num}
use mariadb_connector_odbc.Dsn.Options.Kept.{store_value-IsCoherent}
use mariadb_connector_odbc.Dsn.Options.{
  IsCoherent, Mirrors, OptionKey, named_pipe, auto_reconnect, no_prompt, use_mycnf, forward_only,
  stream_rs, no_bigint,
}
use mariadb_connector_odbc.Text.{trim, c_string}
use mariadb_connector_odbc.Dsn.Store.{store_value}

init-Mirrors : (k : OptionKey) → Mirrors init k
unfolding init key_at
init-Mirrors named_pipe = refl
init-Mirrors auto_reconnect = refl
init-Mirrors no_prompt = refl
init-Mirrors use_mycnf = refl
init-Mirrors forward_only = refl
init-Mirrors stream_rs = refl
init-Mirrors no_bigint = refl

init-IsCoherent : IsCoherent init
unfolding init
init-IsCoherent = record { mirrors = init-Mirrors; exclusive = inl refl }

parse_conn_string-IsCoherent_example :
    (e : Dsn) × (b : Bool) × (parse_conn_string init
        (some (codes "OPTION=4194304;TCPIP=1;PWD={a}}b};NamedPipe=1"))
        b';'
      ≡ some (e, b))
    × IsCoherent e
parse_conn_string-IsCoherent_example =
    parse_conn_string-IsCoherent init (some (codes "OPTION=4194304;TCPIP=1;PWD={a}}b};NamedPipe=1"))
      b';' init-IsCoherent

store_value-IsCoherent_example : IsCoherent (store_value init 14 (codes "1") true).0
store_value-IsCoherent_example =
    store_value-IsCoherent init 14 (codes "1") true (λ h. omega arith) init-IsCoherent

abbrev named_pipe_options : Dsn
named_pipe_options = set_num init 3 8192

read_value-escape_example :
    read_value b';' (b'{' ∷ (escape (codes "a}b; ") ++ b'}' ∷ b';' ∷ codes "UID=x"))
    ≡ (trim (codes "a}b; "), some (codes "UID=x"))
read_value-escape_example =
    read_value-escape b';' (codes "a}b; ") b';' (codes "UID=x")
      (refl, (refl, (refl, (refl, (refl, tt))))) refl

read_value-shown_example :
    read_value b';' (shown (codes "a;b") ++ b';' ∷ codes "UID=x")
    ≡ (codes "a;b", some (codes "UID=x"))
unfolding has_byte trim
read_value-shown_example =
    read_value-shown (codes "a;b") (codes "UID=x") (refl, (refl, (refl, tt))) refl refl refl refl

abbrev settings : Dsn
settings = set_num (set_text init 9 (some (codes "p w"))) 11 3306

settings_printed : dsn_to_string settings ≡ (
  some (codes "PWD={p w};PORT=3306;NULLISCURRENT=1;PSCACHESIZE=250;MAXCACHEKEY=2112;PCALLBACK=1"),
  80,
)
unfolding dsn_to_string print_keys init c_string shown
settings_printed = refl

dsn_to_string-Whole_example : Whole (dsn_to_string settings)
dsn_to_string-Whole_example = dsn_to_string-Whole settings (rw settings_printed (omega arith))
