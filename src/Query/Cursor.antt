-- ===== src/Query/Cursor.antt =====
-- The search for `WHERE CURRENT OF name` in driver/ma_parse.cpp. A pointer into the query's text is
-- its offset; `Offset`, an unsigned int which the functions write through, is passed on and returned.
pub mod Found
use mariadb_connector_odbc.Base.{
  ℕ, zero, suc, ◌+◌, ◌-◌, ◌*◌, ◌%◌, ◌^◌, Bool, true, false, ◌&&◌, Option, none, some, List, [], ◌∷◌,
  arith, ltb, ◌==◌, if◌then◌else◌, Bool-cases, Bytes, codes, length, get_elem?, drop,
}
use mariadb_connector_odbc.Query.Parse.{parse_query}
use mariadb_connector_odbc.Query.{Query, no_result}
use mariadb_connector_odbc.Text.{c_string, ltrim, has_prefix_ci}

-- MADB_Token, as the offset of the token.
abbrev pub token : Query → ℕ → Option ℕ
token q i = get_elem? q.tokens i

abbrev pub starts_at : Query → Bytes → Option ℕ → Bool
starts_at q word none = false
starts_at q word (some o) = has_prefix_ci (drop o q.refined_text) word

-- MADB_CompareToken with `Length` the word's length; what it stores is `stored_offset`.
unfoldable pub compare_token : Query → ℕ → Bytes → Bool
compare_token q i word = starts_at q word (token q i)

abbrev or_else : Option ℕ → ℕ → ℕ
or_else none d = d
or_else (some o) d = o

unfoldable pub stored_offset : Query → ℕ → Bytes → ℕ → ℕ
stored_offset q i word before =
    if compare_token q i word then or_else (token q i) before % 2 ^ 32 else before

-- MADB_FindToken: the loop over the tokens from `i` on, `n` of which are left.
unfoldable pub find_token_from : ℕ → ℕ → Query → Bytes → ℕ
find_token_from zero i q word = 0
find_token_from (suc n) i q word =
    let rest = find_token_from n (i + 1) q word in
    if compare_token q i word then or_else (token q i) 0 % 2 ^ 32 else rest

unfoldable pub find_token : Query → Bytes → ℕ
find_token q word = find_token_from (length q.tokens) 0 q word

abbrev pub is_current_of : Query → ℕ → Bool
is_current_of q i =
    compare_token q i (codes "WHERE")
    && (compare_token q (i + 1) (codes "CURRENT") && compare_token q (i + 2) (codes "OF"))

-- The loop of ParseCursorName from `i` on, with `n` rounds left.
unfoldable pub cursor_name_from : ℕ → ℕ → Query → ℕ → Option ℕ × ℕ
cursor_name_from zero i q before = (none, before)
cursor_name_from (suc n) i q before =
    let here = stored_offset q i (codes "WHERE") before in
    let rest = cursor_name_from n (i + 1) q here in
    if is_current_of q i then (token q (i + 3), here) else rest

unfoldable pub parse_cursor_name : Query → ℕ → Option ℕ × ℕ
parse_cursor_name q before =
    if ltb (length q.tokens) 4
    then (none, before)
    else cursor_name_from (length q.tokens - 3) 0 q before

-- `RefinedText.length() - MADB_MAX_CURSOR_NAME - 32`: the macro is `64 * 4 + 1` with no
-- parentheses, so the 1 is added back.
abbrev pub piece_start : ℕ → ℕ
piece_start n = n - 64 * 4 + 1 - 32

-- A MADB_QUERY as its constructor leaves it, with a text.
abbrev pub new_query : Bytes → Query
new_query text = record {
  tokens = [];
  original = [];
  refined_text = text;
  query_type = no_result;
  returns_result = false;
  poor_man_parsing = false;
  batch_allowed = false;
  ansi_quotes = false;
  no_backslash_escape = false;
}

abbrev pub shifted : ℕ → Option ℕ × ℕ → Option ℕ × ℕ
shifted by (none, at) = (none, at)
shifted by (some name, at) = (some (by + name), (at + by) % 2 ^ 32)

abbrev pub cursor_name_in : ℕ → ℕ → Option Query → Option ℕ × ℕ
cursor_name_in by before none = (none, before)
cursor_name_in by before (some piece) = shifted by (parse_cursor_name piece before)

-- PoorManCursorName. It is called for texts of more than 32768 bytes.
unfoldable pub poor_man_cursor_name : Query → ℕ → Option ℕ × ℕ
poor_man_cursor_name q before =
    let text = q.refined_text in
    let str = ltrim (drop (piece_start (length text)) text) in
    cursor_name_in (length text - length str) before (parse_query (new_query (c_string str)))

-- MADB_ParseCursorName
unfoldable pub find_cursor_name : Query → ℕ → Option ℕ × ℕ
find_cursor_name q before =
    if q.poor_man_parsing then poor_man_cursor_name q before else parse_cursor_name q before
