-- ===== src/Dsn/Number.antt =====
-- The C library's `atoi` and `strtoul(s, NULL, 10)`, cast to the types that the driver stores.
use mariadb_connector_odbc.Base.{
  ℕ, ◌+◌, ◌-◌, ◌*◌, ◌%◌, ◌^◌, ◌<◌, Bool, ◌&&◌, [], ◌∷◌, arith, leb, ◌==◌, if◌then◌else◌, Bytes,
}
use mariadb_connector_odbc.Text.{head_or_nul, tail, ltrim}

abbrev pub is_digit : ℕ → Bool
is_digit c = leb b'0' c && leb c b'9'

-- The value of the digits that a text starts with, behind those that gave `acc`.
unfoldable pub digits_value : ℕ → Bytes → ℕ
digits_value acc [] = acc
digits_value acc (c ∷ cs) =
    let rest = digits_value (acc * 10 + (c - b'0')) cs in if is_digit c then rest else acc

abbrev pub is_negative : Bytes → Bool
is_negative s = head_or_nul (ltrim s) == b'-'

-- Blanks and one sign are skipped.
unfoldable pub magnitude : Bytes → ℕ
unfolding digits_value ltrim
magnitude s =
    let t = ltrim s in
    digits_value 0
      (if head_or_nul t == b'-' then tail t else if head_or_nul t == b'+' then tail t else t)

-- `atoi(s)` cast to char, as a byte. The standard leaves a value beyond int open; it wraps here.
unfoldable pub atoi_char : Bytes → ℕ
unfolding magnitude
atoi_char s = let m = magnitude s % 256 in if is_negative s then (256 - m) % 256 else m

-- `strtoul(s, NULL, 10)` with a 64-bit unsigned long: ULONG_MAX beyond the range, and a minus sign
-- negates modulo 2 ^ 64.
unfoldable pub strtoul : Bytes → ℕ
unfolding magnitude
strtoul s =
    let m = magnitude s in
    if leb (2 ^ 64) m then 2 ^ 64 - 1 else if is_negative s then (2 ^ 64 - m) % 2 ^ 64 else m

-- The same, stored into an unsigned int.
unfoldable pub strtoul_uint : Bytes → ℕ
unfolding strtoul
strtoul_uint s = strtoul s % 2 ^ 32

pub strtoul_uint-lt : (s : Bytes) → strtoul_uint s < 2 ^ 32
unfolding strtoul_uint
strtoul_uint-lt s = omega arith
