-- ===== src/Query/Parse.antt =====
-- ParseQuery of driver/ma_parse.cpp: the tokenizer. The pointer `p` is the text left to read, and
-- an offset is the text's length less what is left.
pub mod Offsets
pub mod Single
pub mod Steps
use mariadb_connector_odbc.Base.{
  ℕ, zero, suc, ◌+◌, ◌-◌, ◌*◌, Bool, true, false, not, ◌&&◌, ◌||◌, Option, none, some, List, [],
  ◌∷◌, ◌++◌, ltb, ◌==◌, if◌then◌else◌, Bytes, length, get_or, drop,
}
use mariadb_connector_odbc.Query.{
  Query, get_query_type, doesnt_return_result, is_possibly_multistmt, skip_spaces_and_comments,
  skip_quoted_string, skip_quoted_string_noescapes,
}
use mariadb_connector_odbc.Text.{head_or_nul, tail}

-- QUERY_LEN_FOR_POOR_MAN_PARSING
abbrev pub poor_man_length : ℕ
poor_man_length = 32768

-- `find_first_of(c) == npos`
unfoldable pub lacks : ℕ → Bytes → Bool
lacks c [] = true
lacks c (x ∷ xs) = not (x == c) && lacks c xs

unfoldable pub should_try_poor_man : Bytes → Bool
unfolding lacks
should_try_poor_man text = ltb poor_man_length (length text) && lacks b';' text && lacks b'?' text

-- The variables of the loop. Once the pointer is at or past the end, `rest` is empty.
pub record Scan : Type 0 where
  pub query : Query
  pub rest : Bytes
  pub reading_token : Bool
  pub stmt_tokens : ℕ

-- `p - RefinedText.data()`
abbrev pub offset : Query → Bytes → ℕ
offset q rest = length q.refined_text - length rest

-- The text from a token's place on.
abbrev pub text_at : Query → ℕ → Bytes
text_at q i = drop i q.refined_text

-- The statement's type, once its second token is found: `previous` is the place of the first.
unfoldable pub note_type : Query → ℕ → Bytes → Query
note_type q previous p =
    let t = get_query_type (text_at q previous) p in
    record q {
      returns_result = q.returns_result || not (doesnt_return_result t);
      query_type = if length q.tokens == 2 then t else q.query_type;
    }

-- `Tokens[Tokens.size() - 1]` before the new token is pushed.
abbrev pub last_token : List ℕ → ℕ
last_token [] = 0
last_token (x ∷ []) = x
last_token (x ∷ y ∷ l) = last_token (y ∷ l)

-- The start of a token: comments and blanks are skipped, its offset is kept.
unfoldable pub open_token : Scan → Scan
unfolding note_type
open_token s =
    let p = skip_spaces_and_comments s.rest in
    let q = record (s.query) { tokens = s.query.tokens ++ offset s.query p ∷ [] } in
    record s {
      query = if s.stmt_tokens + 1 == 2 then note_type q (last_token s.query.tokens) p else q;
      rest = p;
      reading_token = true;
      stmt_tokens = s.stmt_tokens + 1;
    }

-- The early return: the second token of a long text, when it is that of the first statement.
abbrev pub is_poor_man_done : Scan → Bool
is_poor_man_done s = s.stmt_tokens == 2 && (length s.query.tokens == 2 && s.query.poor_man_parsing)

abbrev pub to_closing_quote : Query → ℕ → Bytes → Bytes
to_closing_quote q quote p =
    if q.no_backslash_escape || quote == b'`' || (q.ansi_quotes && quote == b'"')
    then skip_quoted_string_noescapes quote p
    else skip_quoted_string quote p

-- A quote that is never closed is passed alone, and a token may start behind it.
abbrev pub at_quote_end : Scan → Bytes → Bytes → Scan
at_quote_end s saved [] = record s { rest = saved; reading_token = false }
at_quote_end s saved (c ∷ cs) = record s { rest = c ∷ cs }

abbrev pub is_quote : ℕ → Bool
is_quote c = c == b'"' || c == b'\'' || c == b'`'

-- The `switch` on a token's first byte.
unfoldable pub first_byte : Scan → Scan
first_byte s =
    let c = head_or_nul s.rest in
    if is_quote c
    then at_quote_end s (tail s.rest) (to_closing_quote s.query c (tail s.rest))
    else if c == b'?'
    then record s { reading_token = false }
    else if c == b';'
    then record s {
      reading_token = false;
      stmt_tokens = if is_possibly_multistmt s.query.query_type then 0 else s.stmt_tokens;
    }
    else s

-- The bytes that end a token, and may start the next one.
unfoldable pub breaks_token : ℕ → Bool
breaks_token c =
    c == b'?'
    || c == b'"'
    || c == b'\''
    || c == b'`'
    || c == b' '
    || c == b'\t'
    || c == b'\r'
    || c == b'\n'
    || c == b'-'
    || c == b'#'
    || c == b'/'
    || c == b';'

-- `++p` at the end of a round.
abbrev pub advance : Scan → Scan
advance s = record s { rest = tail s.rest }

-- One round of the loop, from a place before the end.
pub data Round : Type 0 where
  more : Scan → Round
  done : Query → Round

round_open : Scan → Round
round_open s = if is_poor_man_done s then done s.query else more (advance (first_byte s))

-- The argument is `ReadingToken`.
unfoldable pub round_in : Bool → Scan → Round
unfolding round_open
round_in false s = round_open (open_token s)
round_in true s =
    if breaks_token (head_or_nul s.rest)
    then more (record s { reading_token = false })
    else more (advance s)

abbrev pub round : Scan → Round
round s = round_in s.reading_token s

-- The loop `while (p < end)`; `none` means that the bound on the rounds was met.
unfoldable pub parse_rounds : ℕ → Scan → Option Query
parse_rounds zero s = none
parse_rounds (suc f) s = elim s.rest [
  | [] ↦ some s.query
  | c ∷ cs ↦ elim (round s) [ more t ↦ parse_rounds f t | done q ↦ some q ]
]

-- A token takes two rounds at its first byte at most, and every other round moves the pointer.
abbrev pub max_rounds : Bytes → ℕ
max_rounds text = 2 * length text + 2

abbrev pub start : Query → Scan
start q = record {
  query = record q { poor_man_parsing = should_try_poor_man q.refined_text };
  rest = q.refined_text;
  reading_token = false;
  stmt_tokens = 0;
}

-- ParseQuery
unfoldable pub parse_query : Query → Option Query
parse_query q = parse_rounds (max_rounds q.refined_text) (start q)
