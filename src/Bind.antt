-- ===== src/Bind.antt =====
-- Bound parameters of driver/ma_helper.cpp: the addresses of GetBindOffset and the search for a
-- parameter whose data comes at execution. Memory is the SQLLEN that stands at an address.
pub mod Dae
pub mod ParamData
use mariadb_connector_odbc.Base.{
  ℕ, zero, suc, ◌+◌, ◌-◌, ◌*◌, ◌%◌, ◌^◌, Bool, true, false, not, ◌||◌, Option, none, some, ltb, leb,
  ◌==◌, if◌then◌else◌,
}
use mariadb_connector_odbc.Base.Int.{ℤ, pos, negsuc, minus, eq_ℤ}

-- The members of MADB_Header that are read; `bind_offset` is what BindOffsetPtr points to, and
-- SQL_BIND_BY_COLUMN and SQL_PARAM_BIND_BY_COLUMN are 0.
pub record Header : Type 0 where
  pub bind_offset : Option ℕ
  pub bind_type : ℕ
  pub array_size : ℕ
  pub count : ℕ

abbrev offset_or_zero : Option ℕ → ℕ
offset_or_zero none = 0
offset_or_zero (some o) = o

-- getArrayStep
unfoldable pub get_array_step : Header → ℕ → ℕ
get_array_step h pointed_size = if h.bind_type == 0 then pointed_size else h.bind_type

-- GetBindOffset, on addresses of 64 bits.
unfoldable pub get_bind_offset : Header → Option ℕ → ℕ → ℕ → Option ℕ
get_bind_offset h none row size = none
get_bind_offset h (some p) row size = some (
    (p
      + offset_or_zero h.bind_offset
      + (if h.bind_type == 0 then size * row else h.bind_type * row))
    % 2 ^ 64)

abbrev pub Memory : Type 0
Memory = ℕ → ℤ

-- SQL_DATA_AT_EXEC is -2 and SQL_LEN_DATA_AT_EXEC_OFFSET is -100.
abbrev pub is_dae_length : ℤ → Bool
is_dae_length (pos n) = false
is_dae_length (negsuc n) = n == 1 || leb 99 n

-- PARAM_IS_DAE
unfoldable pub param_is_dae : Memory → Option ℕ → Bool
param_is_dae mem none = false
param_is_dae mem (some a) = is_dae_length (mem a)

-- SQL_COLUMN_IGNORE is -6.
abbrev pub ignored_at : Memory → Option ℕ → Bool
ignored_at mem none = false
ignored_at mem (some a) = eq_ℤ (mem a) (minus 6)

-- MADB_ColumnIgnoredInAllRows: `n` rows are left from `row` on.
unfoldable pub ignored_from : ℕ → ℕ → Memory → Header → Option ℕ → Bool
ignored_from zero row mem h indicator = true
ignored_from (suc n) row mem h indicator =
    let rest = ignored_from n (row + 1) mem h indicator in
    if ignored_at mem (get_bind_offset h indicator row 8) then rest else false

unfoldable pub column_ignored_in_all_rows : Memory → Header → Option ℕ → Bool
unfolding ignored_from
column_ignored_in_all_rows mem h indicator = ignored_from h.array_size 0 mem h indicator

-- A descriptor: its header, and for a number below Count the record's OctetLengthPtr, if
-- MADB_DescGetInternalRecord gives a record.
pub record Desc : Type 0 where
  pub header : Header
  pub octet_length_ptr : ℕ → Option (Option ℕ)

abbrev dae_record : Memory → Header → Option (Option ℕ) → ℕ → Bool
dae_record mem h none row = false
dae_record mem h (some ptr) row = param_is_dae mem (get_bind_offset h ptr row 8)

-- The test in the inner loop.
unfoldable pub is_dae : Memory → Desc → ℕ → ℕ → Bool
unfolding param_is_dae get_bind_offset
is_dae mem d row i = dae_record mem d.header (d.octet_length_ptr i) row

-- The inner loop, with `n` parameters left from `i` on.
unfoldable pub find_in_row : ℕ → ℕ → Memory → Desc → ℕ → Option ℕ
find_in_row zero i mem d row = none
find_in_row (suc n) i mem d row =
    let rest = find_in_row n (i + 1) mem d row in if is_dae mem d row i then some i else rest

abbrev pub first_param : ℤ → ℕ
first_param (pos n) = n + 1
first_param (negsuc n) = 0

abbrev pub first_row : ℤ → ℕ
first_row (pos n) = if ltb 1 n then n - 1 else 0
first_row (negsuc n) = 0

abbrev pub last_row : Header → ℤ → ℕ
last_row h (pos n) = first_row (pos n) + 1
last_row h (negsuc zero) = h.array_size
last_row h (negsuc (suc n)) = 1

abbrev or_later : Option ℕ → Option ℕ → Option ℕ
or_later none later = later
or_later (some i) later = some i

-- The outer loop, with `n` rows left from `row` on, each searched from parameter `from` on.
unfoldable pub find_in_rows : ℕ → ℕ → ℕ → Memory → Desc → Option ℕ
find_in_rows zero row from mem d = none
find_in_rows (suc n) row from mem d =
    or_later (find_in_row (d.header.count - from) from mem d row)
      (find_in_rows n (row + 1) from mem d)

-- MADB_FindNextDaeParam; `none` is MADB_NOPARAM.
unfoldable pub find_next_dae_param : Memory → Desc → ℤ → ℤ → Option ℕ
find_next_dae_param mem d initial row_number =
    find_in_rows (last_row d.header row_number - first_row row_number) (first_row row_number)
      (first_param initial) mem d
