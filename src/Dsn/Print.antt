-- ===== src/Dsn/Print.antt =====
-- MADB_DsnToString of driver/ma_dsn.c: the connection string that stands for the settings.
pub mod Buffer
pub mod Readback
use mariadb_connector_odbc.Base.{
  ℕ, zero, suc, ◌+◌, ◌-◌, ◌/◌, ◌%◌, ◌^◌, Bool, true, false, not, ◌&&◌, ◌||◌, Option, none, some,
  List, [], ◌∷◌, ◌++◌, leb, ltb, ◌==◌, if◌then◌else◌, Bytes, codes, length, take,
}
use mariadb_connector_odbc.Dsn.Keys.{
  ItemType, string_item, int_item, bool_item, combo_item, option_item, cboxgroup_item, rbgroup_item,
  boolex_item, DsnKey, dsn_keys, Dsn,
}
use mariadb_connector_odbc.Text.{head_or_nul, c_string}

-- `%u` for a number of at most as many digits as the first argument.
unfoldable pub show_digits : ℕ → ℕ → Bytes
show_digits zero n = []
show_digits (suc f) n =
    let rest = show_digits f (n / 10) in
    if ltb n 10 then (b'0' + n) ∷ [] else rest ++ (b'0' + n % 10) ∷ []

-- `%d` of an unsigned int: ten digits are enough for 32 bits.
unfoldable pub show_int : ℕ → Bytes
unfolding show_digits
show_int n = if ltb n (2 ^ 31) then show_digits 10 n else b'-' ∷ show_digits 10 (2 ^ 32 - n)

-- `%hu` of a char that is cast to short.
unfoldable pub show_char : ℕ → Bytes
unfolding show_digits
show_char n = show_digits 10 (if ltb n 128 then n else 2 ^ 16 - (256 - n))

abbrev nonempty : Option Bytes → Option Bytes
nonempty none = none
nonempty (some v) = let w = c_string v in if length w == 0 then none else some w

abbrev show_unless : Bool → Bytes → Option Bytes
show_unless skip v = if skip then none else some v

-- The `switch` on the type of a keyword that is no alias: `Value`, which starts as a null pointer.
unfoldable pub item_value : ItemType → Dsn → ℕ → Option Bytes
unfolding show_int show_char
item_value string_item d i = nonempty (d.text i)
item_value combo_item d i = nonempty (d.text i)
item_value int_item d i = show_unless (d.num i == 0) (show_int (d.num i))
item_value bool_item d i = show_unless (d.flag i == 0 || d.flag i == 255) (codes "1")
item_value boolex_item d i =
    show_unless (d.flag i == 255) (if d.flag i == 0 then codes "0" else codes "1")
item_value cboxgroup_item d i = show_unless (d.flag i == 0) (show_char (d.flag i))
item_value rbgroup_item d i = show_unless (d.flag i == 0) (show_char (d.flag i))
item_value option_item d i = none

unfoldable pub has_byte : ℕ → Bytes → Bool
has_byte c [] = false
has_byte c (x ∷ xs) = let rest = has_byte c xs in x == c || rest

abbrev pub is_special : Bytes → Bool
is_special v = has_byte b' ' v || (has_byte b';' v || has_byte b'@' v)

-- The value as it is printed.
unfoldable pub shown : Bytes → Bytes
unfolding has_byte
shown v = if is_special v then b'{' ∷ (v ++ b'}' ∷ []) else v

-- What is behind the separator.
abbrev pub assignment : DsnKey → Bytes → Bytes
assignment k v = k.name ++ b'=' ∷ shown v

-- TmpStr as a string and TotalLength; `none` once a write went past TmpStr's 1024 bytes.
abbrev pub Printed : Type 0
Printed = Option Bytes × ℕ

-- `snprintf(TmpStr + TotalLength, 1024 - TotalLength, ...)`: the size is of 64 bits, so past 1024 it
-- wraps to one that is no limit.
unfoldable pub append_piece : Printed → Bytes → Printed
append_piece (buffer, total) piece = elim (ltb 1024 total) [
  | true ↦ (none, total + length piece)
  | false ↦ elim buffer [
    | none ↦ (none, total + length piece)
    | some text ↦ (some (text ++ take (1023 - total) piece), total + length piece)
  ]
]

abbrev pub separated : ℕ → Bytes → Bytes
separated total piece = if total == 0 then piece else b';' ∷ piece

abbrev pub print_value : Printed → DsnKey → Option Bytes → Printed
print_value p k none = p
print_value p k (some v) = append_piece p (separated p.1 (assignment k v))

abbrev pub key_value : Dsn → ℕ → DsnKey → Option Bytes
key_value d i k = if k.is_alias then none else item_value k.item_type d i

-- The loop over the keywords, from index `i` on.
unfoldable pub print_keys : ℕ → List DsnKey → Dsn → Printed → Printed
unfolding append_piece item_value
print_keys i [] d p = p
print_keys i (k ∷ ks) d p = print_keys (i + 1) ks d (print_value p k (key_value d i k))

-- MADB_DsnToString: what is in TmpStr, of which strncpy copies the first OutLength bytes, and the
-- length returned.
unfoldable pub dsn_to_string : Dsn → Printed
unfolding print_keys dsn_keys
dsn_to_string d = print_keys 0 dsn_keys d (some [], 0)
