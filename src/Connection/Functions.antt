-- ===== src/Connection/Functions.antt =====
-- MADB_Dbc::GetFunctions of driver/ma_connection.cpp. A word of 16 bits is the function from a bit's place
-- to the bit; MADB_supported_api, numbers of the ODBC headers up to the 0 at its end, is a parameter.
use mariadb_connector_odbc.Base.{
  ℕ, ◌/◌, ◌%◌, Bool, true, false, ◌&&◌, ◌||◌, List, [], ◌∷◌, ltb, ◌==◌, if◌then◌else◌,
}

abbrev pub Word : Type 0
Word = ℕ → Bool

-- What SupportedPtr points to.
abbrev pub Words : Type 0
Words = ℕ → Word

-- SQL_API_ODBC3_ALL_FUNCTIONS, SQL_API_ALL_FUNCTIONS and the number of one function.
pub data FunctionId : Type 0 where
  odbc3_all_functions all_functions : FunctionId
  one_function : ℕ → FunctionId

abbrev pub zero_word : Word
zero_word b = false

-- SQL_TRUE, which is 1.
abbrev pub true_word : Word
true_word b = b == 0

-- `memset` of the first words to 0.
abbrev pub cleared : ℕ → Words → Words
cleared n mem i = if ltb i n then zero_word else mem i

abbrev pub store : Words → ℕ → Word → Words
store mem at_word w i = if i == at_word then w else mem i

-- `SupportedPtr[function >> 4]|= (1 << (function & 0x000F))`
abbrev pub set_bit : Words → ℕ → Words
set_bit mem f i b = if i == f / 16 && b == f % 16 then true else mem i b

unfoldable pub set_bits : List ℕ → Words → Words
set_bits [] mem = mem
set_bits (f ∷ fs) mem = set_bits fs (set_bit mem f)

unfoldable pub set_words : List ℕ → Words → Words
set_words [] mem = mem
set_words (f ∷ fs) mem = set_words fs (if ltb f 100 then store mem f true_word else mem)

-- The loop that stops at the function.
unfoldable pub find_function : List ℕ → ℕ → Words → Words
find_function [] f mem = mem
find_function (g ∷ gs) f mem = if g == f then store mem 0 true_word else find_function gs f mem

-- SQL_API_ODBC3_ALL_FUNCTIONS_SIZE is 250.
unfoldable pub get_functions : List ℕ → FunctionId → Words → Words
unfolding set_bits set_words find_function
get_functions api odbc3_all_functions mem = set_bits api (cleared 250 mem)
get_functions api all_functions mem = set_words api (cleared 100 mem)
get_functions api (one_function f) mem = find_function api f (store mem 0 zero_word)

abbrev pub listed : List ℕ → ℕ → Bool
listed [] f = false
listed (g ∷ gs) f = g == f || listed gs f
