-- ===== src/Text.antt =====
-- The C strings of driver/ma_common.c and the string functions of the C library that the driver
-- calls. A pointer into a string is the list of bytes from there on; past the last byte the code
-- reads the terminating zero.
pub mod Laws
use mariadb_connector_odbc.Base.{
  ℕ, ◌-◌, ◌+◌, Bool, true, false, ◌&&◌, ◌||◌, Option, none, some, List, [], ◌∷◌, ◌++◌, ltb, leb,
  ◌==◌, if◌then◌else◌, Bytes,
}

-- `*p`: the byte at the pointer.
abbrev pub head_or_nul : Bytes → ℕ
head_or_nul [] = 0
head_or_nul (c ∷ _) = c

abbrev pub tail : Bytes → Bytes
tail [] = []
tail (_ ∷ cs) = cs

-- `isspace` and `isalpha` of the C locale, on the bytes 0 to 127.
abbrev pub is_space : ℕ → Bool
is_space c = c == 32 || (leb 9 c && leb c 13)

abbrev pub is_upper : ℕ → Bool
is_upper c = leb b'A' c && leb c b'Z'

abbrev pub is_lower : ℕ → Bool
is_lower c = leb b'a' c && leb c b'z'

abbrev pub is_alpha : ℕ → Bool
is_alpha c = is_upper c || is_lower c

abbrev pub to_upper : ℕ → ℕ
to_upper c = if is_lower c then c - 32 else c

-- `*Str > 0 && isspace(*Str)` with a signed char: `is_space` holds of no byte above 127.
unfoldable pub ltrim : Bytes → Bytes
ltrim [] = []
ltrim (c ∷ cs) = let rest = ltrim cs in if is_space c then rest else c ∷ cs

-- The part of a buffer before its first zero byte.
unfoldable pub c_string : Bytes → Bytes
c_string [] = []
c_string (c ∷ cs) = let rest = c_string cs in if c == 0 then [] else c ∷ rest

-- The loop of `trim` that cuts blanks off the end of the string.
abbrev pub cons_trimmed : ℕ → Bytes → Bytes
cons_trimmed c [] = if is_space c then [] else c ∷ []
cons_trimmed c (d ∷ ds) = c ∷ d ∷ ds

unfoldable pub rtrim : Bytes → Bytes
rtrim [] = []
rtrim (c ∷ cs) = cons_trimmed c (rtrim cs)

unfoldable pub trim : Bytes → Bytes
unfolding ltrim rtrim c_string
trim s = rtrim (c_string (ltrim s))

-- `strchr` for a byte that is not zero: the suffix at the first such byte before the terminator.
unfoldable pub strchr : ℕ → Bytes → Option Bytes
strchr c [] = none
strchr c (x ∷ xs) =
    let rest = strchr c xs in if x == c then some (x ∷ xs) else if x == 0 then none else rest

-- `strstr` for a needle of two bytes.
unfoldable pub strstr2 : ℕ → ℕ → Bytes → Option Bytes
strstr2 a b [] = none
strstr2 a b (x ∷ xs) =
    let rest = strstr2 a b xs in
    if x == a && head_or_nul xs == b then some (x ∷ xs) else if x == 0 then none else rest

-- `_strnicmp(s, word, strlen(word)) == 0`: `word` is a prefix, whatever the case of the letters.
unfoldable pub has_prefix_ci : Bytes → Bytes → Bool
has_prefix_ci s [] = true
has_prefix_ci [] (w ∷ ws) = false
has_prefix_ci (c ∷ cs) (w ∷ ws) = (to_upper c == to_upper w) && has_prefix_ci cs ws

-- `_stricmp(a, b) == 0`.
unfoldable pub stricmp_eq : Bytes → Bytes → Bool
stricmp_eq [] [] = true
stricmp_eq (c ∷ cs) (w ∷ ws) = (to_upper c == to_upper w) && stricmp_eq cs ws
stricmp_eq _ _ = false
