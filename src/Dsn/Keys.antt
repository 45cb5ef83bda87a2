-- ===== src/Dsn/Keys.antt =====
-- The keywords DsnKeys, the switches DsnKeysSwitch and the structure MADB_Dsn. A member is named by
-- its keyword's index in the table, which stands for the source's `offsetof`; a member that no
-- keyword has is left out.
use Prim.Native.String.{String}
use mariadb_connector_odbc.Base.{
  ℕ, ◌+◌, ◌-◌, ◌/◌, ◌%◌, Bool, true, false, Option, none, some, List, [], ◌∷◌, ◌==◌, if◌then◌else◌,
  Bytes, codes, get_or,
}
use mariadb_connector_odbc.Text.{stricmp_eq}

-- enum_dsn_item_type
pub data ItemType : Type 0 where
  string_item int_item bool_item combo_item option_item cboxgroup_item : ItemType
  rbgroup_item boolex_item : ItemType

-- MADB_DsnKey. For an alias `offset` is the index of the main keyword.
pub record DsnKey : Type 0 where
  pub name : Bytes
  pub offset : ℕ
  pub item_type : ItemType
  pub flag_value : ℕ
  pub is_alias : Bool

abbrev item : String → ℕ → ItemType → DsnKey
item s i t = record { name = codes s; offset = i; item_type = t; flag_value = 0; is_alias = false }

abbrev option : String → ℕ → ℕ → DsnKey
option s i f = record {
  name = codes s;
  offset = i;
  item_type = option_item;
  flag_value = f;
  is_alias = false;
}

abbrev alias : String → ℕ → ItemType → DsnKey
alias s i t = record { name = codes s; offset = i; item_type = t; flag_value = 0; is_alias = true }

unfoldable pub dsn_keys : List DsnKey
dsn_keys =
    item "DSN" 0 string_item
    ∷ item "DESCRIPTION" 1 string_item
    ∷ item "DRIVER" 2 string_item
    ∷ item "OPTIONS" 3 int_item
    ∷ alias "OPTION" 3 int_item
    ∷ option "NamedPipe" 5 8192
    ∷ item "TCPIP" 6 bool_item
    ∷ item "SERVER" 7 string_item
    ∷ item "UID" 8 string_item
    ∷ item "PWD" 9 string_item
    ∷ item "DATABASE" 10 combo_item
    ∷ item "PORT" 11 int_item
    ∷ item "INITSTMT" 12 string_item
    ∷ item "CONN_TIMEOUT" 13 int_item
    ∷ option "AUTO_RECONNECT" 14 4194304
    ∷ option "NO_PROMPT" 15 16
    ∷ item "CHARSET" 16 combo_item
    ∷ item "TRACE" 17 bool_item
    ∷ item "PLUGIN_DIR" 18 string_item
    ∷ item "SSLKEY" 19 string_item
    ∷ item "SSLCERT" 20 string_item
    ∷ item "SSLCA" 21 string_item
    ∷ item "SSLCAPATH" 22 string_item
    ∷ item "SSLCIPHER" 23 string_item
    ∷ item "SSLVERIFY" 24 boolex_item
    ∷ item "TLSPEERFP" 25 string_item
    ∷ item "TLSPEERFPLIST" 26 string_item
    ∷ item "SSLCRL" 27 string_item
    ∷ item "SSLCRLPATH" 28 string_item
    ∷ item "SOCKET" 29 string_item
    ∷ item "SAVEFILE" 30 string_item
    ∷ option "USE_MYCNF" 31 65536
    ∷ item "TLSVERSION" 32 cboxgroup_item
    ∷ item "FORCETLS" 33 bool_item
    ∷ item "SERVERKEY" 34 string_item
    ∷ item "TLSKEYPWD" 35 string_item
    ∷ item "INTERACTIVE" 36 bool_item
    ∷ option "FORWARDONLY" 37 2097152
    ∷ item "SCHEMANOERROR" 38 bool_item
    ∷ item "READ_TIMEOUT" 39 int_item
    ∷ item "WRITE_TIMEOUT" 40 int_item
    ∷ item "NOLOCALINFILE" 41 bool_item
    ∷ item "NULLISCURRENT" 42 bool_item
    ∷ option "STREAMRS" 43 1048576
    ∷ item "ATTR" 44 string_item
    ∷ item "EDSERVER" 45 bool_item
    ∷ item "PREPONCLIENT" 46 bool_item
    ∷ item "PSCACHESIZE" 47 int_item
    ∷ item "MAXCACHEKEY" 48 int_item
    ∷ item "PCALLBACK" 49 bool_item
    ∷ item "RCALLBACK" 50 bool_item
    ∷ option "NOBIGINT" 51 16384
    ∷ item "TRUNCDT" 52 bool_item
    ∷ alias "SERVERNAME" 7 string_item
    ∷ alias "USER" 8 string_item
    ∷ alias "PASSWORD" 9 string_item
    ∷ alias "DB" 10 combo_item
    ∷ alias "SSLFP" 25 string_item
    ∷ alias "SSLFPLIST" 26 string_item
    ∷ alias "NO_CACHE" 43 bool_item
    ∷ []

-- DsnKeys[i]; the terminating entry stands for every place behind the last.
unfoldable pub key_at : ℕ → DsnKey
unfolding dsn_keys
key_at i = get_or dsn_keys i (item "" 0 bool_item)

-- The number of keywords, where the terminating entry stands.
abbrev pub key_count : ℕ
key_count = 60

abbrev pub options_index : ℕ
options_index = 3

abbrev pub namedpipe_index : ℕ
namedpipe_index = 5

abbrev pub tcpip_index : ℕ
tcpip_index = 6

-- MADB_DsnKeyDep
pub record DsnKeyDep : Type 0 where
  pub key : ℕ
  pub dependent : ℕ
  pub same : ℕ

unfoldable pub dsn_keys_switch : List DsnKeyDep
dsn_keys_switch =
    record { key = namedpipe_index; dependent = tcpip_index; same = 0 }
    ∷ record { key = tcpip_index; dependent = namedpipe_index; same = 0 }
    ∷ []

-- MADB_Dsn: the members of type char *, those of type my_bool or char (a byte each) and those of
-- type unsigned int, `Options` among them.
pub record Dsn : Type 0 where
  pub text : ℕ → Option Bytes
  pub flag : ℕ → ℕ
  pub num : ℕ → ℕ

-- A family of members with the one of index `i` changed.
abbrev pub update {ℓ} : {A : Type ℓ} (members : ℕ → A) (i : ℕ) (value : A) → ℕ → A
update members i value j = if i == j then value else members j

abbrev pub set_text : Dsn → ℕ → Option Bytes → Dsn
set_text d i v = record d { text = update d.text i v }

abbrev pub set_flag : Dsn → ℕ → ℕ → Dsn
set_flag d i v = record d { flag = update d.flag i v }

abbrev pub set_num : Dsn → ℕ → ℕ → Dsn
set_num d i v = record d { num = update d.num i v }

abbrev pub options : Dsn → ℕ
options d = d.num options_index

-- `Options & flag` for a flag of one bit, and the two ways to store that bit.
abbrev pub has_bit : ℕ → ℕ → Bool
has_bit o f = (o / f) % 2 == 1

abbrev pub with_bit : ℕ → ℕ → ℕ
with_bit o f = if has_bit o f then o else o + f

abbrev pub without_bit : ℕ → ℕ → ℕ
without_bit o f = if has_bit o f then o - f else o

abbrev pub bool_byte : Bool → ℕ
bool_byte b = if b then 1 else 0

-- MADB_DSN_Init on a structure of zeros.
unfoldable pub init : Dsn
init = record {
  text = λ _. none;
  flag = update (update (update (λ _. 0) 24 255) 42 1) 49 1;
  num = update (update (λ _. 0) 47 250) 48 2112;
}

-- MADB_DSN_SetDefaults
unfoldable pub set_defaults : Dsn → Dsn
set_defaults d = set_flag d tcpip_index 1

-- The search for a keyword, from index `i` on.
unfoldable pub find_key_from : ℕ → List DsnKey → Bytes → Option ℕ
find_key_from i [] key = none
find_key_from i (k ∷ ks) key =
    let rest = find_key_from (i + 1) ks key in
    if stricmp_eq k.name key then some (if k.is_alias then k.offset else i) else rest

-- The index under which a keyword's value is stored: an alias gives that of its main keyword.
unfoldable pub find_key : Bytes → Option ℕ
unfolding find_key_from dsn_keys stricmp_eq
find_key key = find_key_from 0 dsn_keys key
