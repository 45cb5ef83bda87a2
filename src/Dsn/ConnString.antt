-- ===== src/Dsn/ConnString.antt =====
-- MADB_ParseConnString of driver/ma_dsn.c. `Key` is the text
-- left to read; behind the buffer's last byte the code reads the terminating zero.
pub mod Coherent
pub mod Braces
pub mod Within
use mariadb_connector_odbc.Base.{
  ℕ, zero, suc, ◌+◌, Bool, true, false, not, ◌&&◌, ◌||◌, Option, none, some, List, [], ◌∷◌, ◌++◌,
  ◌==◌, if◌then◌else◌, Bytes, length,
}
use mariadb_connector_odbc.Dsn.Keys.{
  Dsn, key_at, key_count, find_key, options_index, set_flag, set_text, bool_byte, has_bit, options,
  option_item,
}
use mariadb_connector_odbc.Dsn.Store.{is_option, store_value, update_options_fields}
use mariadb_connector_odbc.Text.{head_or_nul, tail, c_string, ltrim, trim}

abbrev pub cons_before : ℕ → Option (Bytes × Bytes) → Option (Bytes × Bytes)
cons_before x none = none
cons_before x (some (before, after)) = some (x ∷ before, after)

-- `strchr` for a byte that is not zero: the text before its first occurrence and the text behind.
unfoldable pub split_at : ℕ → Bytes → Option (Bytes × Bytes)
split_at c [] = none
split_at c (x ∷ xs) =
    let rest = cons_before x (split_at c xs) in
    if x == c then some ([], xs) else if x == 0 then none else rest

-- The text behind the first zero byte, or behind the whole buffer.
unfoldable pub past_nul : Bytes → Bytes
past_nul [] = []
past_nul (x ∷ xs) = let rest = past_nul xs in if x == 0 then xs else rest

-- `strchr(Value, Delimiter)`: the delimiter may be the zero byte, which is always found.
unfoldable pub split_delimiter : ℕ → Bytes → Option (Bytes × Bytes)
unfolding split_at past_nul c_string
split_delimiter delimiter s =
    if delimiter == 0 then some (c_string s, past_nul s) else split_at delimiter s

-- The loop that reads a value in braces, from behind the opening brace, into ValueBuf. Two closing
-- braces stand for one. The second part is the text at `p`: behind the closing brace, if there is one.
unfoldable pub read_braced : ℕ → Bytes → Bytes → Bytes × Option Bytes
read_braced zero acc s = (acc, none)
read_braced (suc f) acc s = elim (split_at b'}' s) [
  | none ↦ (acc, none)
  | some (before, after) ↦ elim (head_or_nul after == b'}') [
    | true ↦ read_braced f (acc ++ (before ++ b'}' ∷ [])) (tail after)
    | false ↦ (acc ++ before, some after)
  ]
]

-- A value and `Key` after it; `none` is the null pointer.
abbrev pub Reading : Type 0
Reading = Bytes × Option Bytes

abbrev pub past : Option Bytes → Option Bytes
past none = none
past (some p) = some (tail p)

abbrev pub closed_brace : Reading → Reading
closed_brace (value, p) = (trim value, past p)

abbrev pub plain_value : Bytes → Option (Bytes × Bytes) → Reading
plain_value s none = (trim s, none)
plain_value s (some (before, after)) = (trim before, some after)

-- The value of a known keyword, from behind the `=`.
unfoldable pub read_value : ℕ → Bytes → Reading
unfolding read_braced split_delimiter trim
read_value delimiter text =
    let s = ltrim text in
    if head_or_nul s == b'{'
    then closed_brace (read_braced (length s) [] (tail s))
    else plain_value s (split_delimiter delimiter s)

abbrev pub after_of : Option (Bytes × Bytes) → Option Bytes
after_of none = none
after_of (some (before, after)) = some after

-- What one round of the loop finds at `Key`.
pub data Segment : Type 0 where
  -- An empty pair, or an unknown keyword: nothing is stored.
  skip : Option Bytes → Segment
  -- No `=`.
  malformed : Segment
  -- The index of a keyword, its value, and `Key` after it.
  pair : ℕ → Bytes → Option Bytes → Segment

abbrev pub segment_of : ℕ → Option ℕ → Bytes → Segment
segment_of delimiter none text = skip (after_of (split_delimiter delimiter text))
segment_of delimiter (some i) text =
    let (value, next) = read_value delimiter text in pair i value next

abbrev pub segment_at : ℕ → Option (Bytes × Bytes) → Segment
segment_at delimiter none = malformed
segment_at delimiter (some (key, text)) = segment_of delimiter (find_key (trim key)) text

unfoldable pub next_segment : ℕ → Bytes → Segment
unfolding split_at read_value split_delimiter trim
next_segment delimiter s =
    if not (delimiter == 0) && head_or_nul s == delimiter
    then skip (some (tail s))
    else segment_at delimiter (split_at b'=' s)

-- The options' fields follow a change of `Options`.
abbrev pub refreshed : ℕ → Dsn → Dsn
refreshed i d = if i == options_index then update_options_fields d else d

unfoldable pub store_pair : Dsn → ℕ → Bytes → Dsn × Bool
store_pair d i value =
    let (e, stored) = store_value d i value true in
    if stored then (refreshed i e, true) else (e, false)

-- The loop; `none` means that the bound on the rounds was met, and the flag is what is returned.
unfoldable pub parse_pairs : ℕ → Dsn → ℕ → Option Bytes → Option (Dsn × Bool)
parse_pairs f d delimiter none = some (d, true)
parse_pairs f d delimiter (some []) = some (d, true)
parse_pairs zero d delimiter (some (c ∷ cs)) = none
parse_pairs (suc f) d delimiter (some (c ∷ cs)) = elim (next_segment delimiter (c ∷ cs)) [
  | skip next ↦ parse_pairs f d delimiter next
  | malformed ↦ some (d, false)
  | pair i value next ↦ elim (store_pair d i value).1 [
    | true ↦ parse_pairs f (store_pair d i value).0 delimiter next
    | false ↦ some ((store_pair d i value).0, false)
  ]
]

-- MADB_ParseConnString on a string of the given bytes; a null string is refused.
unfoldable pub parse_conn_string : Dsn → Option Bytes → ℕ → Option (Dsn × Bool)
parse_conn_string d none delimiter = some (d, false)
parse_conn_string d (some s) delimiter = parse_pairs (length s) d delimiter (some s)
