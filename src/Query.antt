-- ===== src/Query.antt =====
-- The query parser of driver/ma_parse.cpp and driver/ma_parse.h: the data that it keeps, the
-- functions that walk over comments and quoted strings, and the classification of a statement.
-- `Query.Parse` has the tokenizer, `Query.Cursor` the search for a cursor's name.
pub mod Comments
pub mod Quotes
pub mod Classify
pub mod Parse
pub mod Cursor
pub mod Prepare
use mariadb_connector_odbc.Base.{
  ℕ, zero, suc, ◌+◌, Bool, true, false, not, ◌&&◌, ◌||◌, Option, none, some, List, [], ◌∷◌, ltb,
  ◌==◌, if◌then◌else◌, Bytes, codes, length,
}
use mariadb_connector_odbc.Text.{head_or_nul, tail, is_alpha, ltrim, strchr, strstr2, has_prefix_ci}

pub data QueryType : Type 0 where
  no_result insert update delete create_proc create_func create_definer set set_names : QueryType
  select show call analyze explain check execute describe not_atomic_block optimize : QueryType

-- The enumerators' values; SQL_UPDATE and SQL_DELETE are 2 and 3 in sqlext.h.
unfoldable pub type_value : QueryType → ℕ
type_value no_result = 0
type_value insert = 1
type_value update = 2
type_value delete = 3
type_value create_proc = 4
type_value create_func = 5
type_value create_definer = 6
type_value set = 7
type_value set_names = 8
type_value select = 9
type_value show = 10
type_value call = 11
type_value analyze = 12
type_value explain = 13
type_value check = 14
type_value execute = 15
type_value describe = 16
type_value not_atomic_block = 17
type_value optimize = 18

-- MADB_QUERY; `MultiStatement` is never written by the parser and is left out.
pub record Query : Type 0 where
  pub tokens : List ℕ
  pub original : Bytes
  pub refined_text : Bytes
  pub query_type : QueryType
  pub returns_result : Bool
  pub poor_man_parsing : Bool
  pub batch_allowed : Bool
  pub ansi_quotes : Bool
  pub no_backslash_escape : Bool

-- MADB_QUERY::reset. It leaves `QueryType` and the three flags.
unfoldable pub reset : Query → Query
reset q = record q {
  original = [];
  refined_text = [];
  tokens = [];
  poor_man_parsing = false;
  returns_result = false;
}

-- MADB_ResetParser; the connection's option and modes are arguments, `none` is a null pointer.
unfoldable pub reset_parser : Query → Option Bytes → Bool → Bool → Bool → Query
unfolding reset
reset_parser q none multi_statements ansi no_backslash = reset q
reset_parser q (some text) multi_statements ansi no_backslash = record (reset q) {
  refined_text = text;
  batch_allowed = multi_statements;
  ansi_quotes = ansi;
  no_backslash_escape = no_backslash;
}

-- What `Res` is once a comment is open: behind the closing string, or the end of the text.
abbrev past_closing : ℕ → Option Bytes → Bytes
past_closing n none = []
past_closing zero (some s) = s
past_closing (suc n) (some s) = past_closing n (some (tail s))

-- StripLeadingComments. `*Length` is always the number of bytes left, so it is not kept; the
-- argument `OverWrite` has no effect in the source.
unfoldable pub strip_leading_comments : Bytes → Bytes
strip_leading_comments [] = []
strip_leading_comments (c ∷ cs) =
    if c == b'-' && head_or_nul cs == b'-'
    then past_closing 1 (strchr b'\n' (tail cs))
    else if c == b'#'
    then past_closing 1 (strchr b'\n' cs)
    else if c == b'/' && head_or_nul cs == b'*'
    then past_closing 2 (strstr2 b'*' b'/' (tail cs))
    else c ∷ cs

-- The loop of SkipSpacesAndComments, which ends once a round moves the pointer no further.
unfoldable pub skip_rounds : ℕ → Bytes → Bytes
skip_rounds zero s = s
skip_rounds (suc f) s =
    let next = ltrim (strip_leading_comments s) in
    let again = skip_rounds f next in
    if length next == 0 || length next == length s then next else again

-- Every round but the last moves the pointer, so the number of bytes bounds the rounds.
unfoldable pub skip_spaces_and_comments : Bytes → Bytes
unfolding skip_rounds strip_leading_comments
skip_spaces_and_comments s = skip_rounds (length s) s

-- SkipQuotedString: to the closing quote, or to the end; a backslash skips the next byte.
unfoldable pub skip_quoted_string : ℕ → Bytes → Bytes
skip_quoted_string quote [] = []
skip_quoted_string quote (c ∷ []) = if c == quote then c ∷ [] else []
skip_quoted_string quote (c ∷ d ∷ ds) = elim (c == quote) [
  | true ↦ c ∷ d ∷ ds
  | false ↦ elim (c == b'\\') [
    | true ↦ skip_quoted_string quote ds
    | false ↦ skip_quoted_string quote (d ∷ ds)
  ]
]

unfoldable pub skip_quoted_string_noescapes : ℕ → Bytes → Bytes
skip_quoted_string_noescapes quote [] = []
skip_quoted_string_noescapes quote (c ∷ cs) =
    let rest = skip_quoted_string_noescapes quote cs in if c == quote then c ∷ cs else rest

-- `while (*Token1 && !isalpha(*Token1)) ++Token1;`
unfoldable pub skip_to_alpha : Bytes → Bytes
skip_to_alpha [] = []
skip_to_alpha (c ∷ cs) =
    let rest = skip_to_alpha cs in if c == 0 || is_alpha c then c ∷ cs else rest

-- The tests that follow the search for the first letter.
unfoldable pub classify : Bytes → Bytes → QueryType
classify t u =
    if has_prefix_ci t (codes "SELECT") || has_prefix_ci t (codes "WITH")
    then select
    else if has_prefix_ci t (codes "INSERT") || has_prefix_ci t (codes "REPLACE")
    then insert
    else if has_prefix_ci t (codes "UPDATE")
    then update
    else if has_prefix_ci t (codes "DELETE")
    then delete
    else if has_prefix_ci t (codes "CALL")
    then call
    else if has_prefix_ci t (codes "SHOW")
    then show
    else if has_prefix_ci t (codes "ANALYZE")
    then analyze
    else if has_prefix_ci t (codes "EXPLAIN")
    then explain
    else if has_prefix_ci t (codes "CHECK")
    then check
    else if has_prefix_ci t (codes "EXECUTE")
    then execute
    else if has_prefix_ci t (codes "CREATE") && has_prefix_ci u (codes "PROCEDURE")
    then create_proc
    else if has_prefix_ci t (codes "CREATE") && has_prefix_ci u (codes "FUNCTION")
    then create_func
    else if has_prefix_ci t (codes "CREATE") && has_prefix_ci u (codes "DEFINER")
    then create_definer
    else if has_prefix_ci t (codes "SET")
    then (if has_prefix_ci u (codes "NAMES") then set_names else set)
    else if has_prefix_ci t (codes "DESC")
    then describe
    else if has_prefix_ci t (codes "BEGIN") && has_prefix_ci u (codes "NOT")
    then not_atomic_block
    else if has_prefix_ci t (codes "OPTIMIZE")
    then optimize
    else no_result

-- MADB_GetQueryType, on the text from the statement's first token on, and from its second.
unfoldable pub get_query_type : Bytes → Bytes → QueryType
get_query_type token1 token2 = classify (skip_to_alpha token1) token2

-- QUERY_DOESNT_RETURN_RESULT
unfoldable pub doesnt_return_result : QueryType → Bool
unfolding type_value
doesnt_return_result t = ltb (type_value t) (type_value select)

-- QueryIsPossiblyMultistmt of driver/ma_helper.cpp, on the query's type.
unfoldable pub is_possibly_multistmt : QueryType → Bool
is_possibly_multistmt create_proc = false
is_possibly_multistmt create_func = false
is_possibly_multistmt create_definer = false
is_possibly_multistmt not_atomic_block = false
is_possibly_multistmt _ = true
