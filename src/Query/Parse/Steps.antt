-- ===== src/Query/Parse/Steps.antt =====
-- How far each step of ParseQuery's loop moves the pointer, and what it does to the query.
use mariadb_connector_odbc.Base.{
  ℕ, ◌+◌, ◌≡◌, refl, inl, inr, ◌&&◌, ◌||◌, [], ◌∷◌, ◌++◌, ◌==◌, Bool-cases, Bytes,
}
use mariadb_connector_odbc.Query.Comments.{tail-IsSuffix}
use mariadb_connector_odbc.Query.Parse.{
  Scan, is_quote, offset, open_token, to_closing_quote, at_quote_end, first_byte, advance,
}
use mariadb_connector_odbc.Query.{
  Query, skip_spaces_and_comments, skip_quoted_string, skip_quoted_string_noescapes,
}
use mariadb_connector_odbc.Text.Laws.{IsSuffix, here, later, IsSuffix-trans}
use mariadb_connector_odbc.Text.{head_or_nul, tail}

noescapes-IsSuffix : (quote : ℕ) (s : Bytes) → IsSuffix (skip_quoted_string_noescapes quote s) s
unfolding skip_quoted_string_noescapes
noescapes-IsSuffix quote [] = here
noescapes-IsSuffix quote (c ∷ cs) = elim (Bool-cases (c == quote)) [
  | inl e ↦ rw e here
  | inr e ↦ rw e (later (noescapes-IsSuffix quote cs))
]

quoted-IsSuffix : (quote : ℕ) (s : Bytes) → IsSuffix (skip_quoted_string quote s) s
unfolding skip_quoted_string
quoted-IsSuffix quote [] = here
quoted-IsSuffix quote (c ∷ []) = elim (Bool-cases (c == quote)) [
  | inl e ↦ rw e here
  | inr e ↦ rw e (later here)
]
quoted-IsSuffix quote (c ∷ d ∷ ds) = elim (Bool-cases (c == quote)) [
  | inl e ↦ rw (e, skip_quoted_string) here
  | inr e ↦ elim (Bool-cases (c == b'\\')) [
    | inl z ↦ rw (e, z, skip_quoted_string) (later (later (quoted-IsSuffix quote ds)))
    | inr z ↦ rw (e, z, skip_quoted_string) (later (quoted-IsSuffix quote (d ∷ ds)))
  ]
]

closing-IsSuffix : (q : Query) (quote : ℕ) (s : Bytes) → IsSuffix (to_closing_quote q quote s) s
closing-IsSuffix q quote s =
    elim (Bool-cases (q.no_backslash_escape || quote == b'`' || (q.ansi_quotes && quote == b'"'))) [
      | inl e ↦ rw e (noescapes-IsSuffix quote s)
      | inr e ↦ rw e (quoted-IsSuffix quote s)
    ]

quote_end-query : (s : Scan) (saved p : Bytes) → (at_quote_end s saved p).query ≡ s.query
quote_end-query s saved [] = refl
quote_end-query s saved (c ∷ cs) = refl

quote_end-rest :
    (s : Scan) (saved p : Bytes) → IsSuffix p saved → IsSuffix (at_quote_end s saved p).rest saved
quote_end-rest s saved [] h = here
quote_end-rest s saved (c ∷ cs) h = h

-- The switch on the first byte changes neither the text nor the tokens.
pub first_byte-query : (s : Scan) → (first_byte s).query ≡ s.query
unfolding first_byte
first_byte-query s =
    let c = head_or_nul s.rest in
    elim (Bool-cases (is_quote c)) [
      | inl e ↦ rw e (quote_end-query s _ _)
      | inr e ↦ elim (Bool-cases (c == b'?')) [
        | inl z ↦ rw (e, z)
        | inr z ↦ elim (Bool-cases (c == b';')) [ inl y ↦ rw (e, z, y) | inr y ↦ rw (e, z, y) ]
      ]
    ]

-- Past the first byte, a token's start leaves the pointer behind that byte.
pub first_byte-rest : (s : Scan) → IsSuffix (advance (first_byte s)).rest (tail s.rest)
unfolding first_byte
first_byte-rest s =
    let c = head_or_nul s.rest in
    let saved = tail s.rest in
    let q = to_closing_quote s.query c saved in
    elim (Bool-cases (is_quote c)) [
      | inl e ↦ rw e (
          IsSuffix-trans (tail-IsSuffix (at_quote_end s saved q).rest)
            (quote_end-rest s saved q (closing-IsSuffix s.query c saved)))
      | inr e ↦ elim (Bool-cases (c == b'?')) [
        | inl z ↦ rw (e, z) here
        | inr z ↦ elim (Bool-cases (c == b';')) [
          | inl y ↦ rw (e, z, y) here
          | inr y ↦ rw (e, z, y) here
        ]
      ]
    ]

-- What the opening of a token does to the text, the pointer and the tokens.
pub open_token-query :
    (s : Scan)
    → ((open_token s).query.refined_text ≡ s.query.refined_text)
      × ((open_token s).query.tokens
          ≡ s.query.tokens ++ offset s.query (skip_spaces_and_comments s.rest) ∷ [])
      × ((open_token s).rest ≡ skip_spaces_and_comments s.rest)
unfolding open_token
open_token-query s = elim (Bool-cases (s.stmt_tokens + 1 == 2)) [
  | inl e ↦ rw e (refl, refl, refl)
  | inr e ↦ rw e (refl, refl, refl)
]
