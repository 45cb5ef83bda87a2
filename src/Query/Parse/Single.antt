-- ===== src/Query/Parse/Single.antt =====
-- A statement of a single token, for example COMMIT or SELECT(1).
use mariadb_connector_odbc.Base.{
  ℕ, zero, suc, ◌+◌, ◌-◌, ◌*◌, ◌<◌, ◌≡◌, refl, Bool, true, false, some, [], ◌∷◌, arith, Bytes,
  length, All,
}
use mariadb_connector_odbc.Query.Parse.{
  Scan, open_token, first_byte, breaks_token, should_try_poor_man, more, round_open, round_in,
  round, parse_rounds, max_rounds, start, parse_query,
}
use mariadb_connector_odbc.Query.{
  Query, reset_parser, strip_leading_comments, skip_spaces_and_comments,
}
use mariadb_connector_odbc.Text.{is_space, ltrim}

abbrev pub IsPlain : ℕ → Type 0
IsPlain c = breaks_token c ≡ false

strip_plain : (c : ℕ) (cs : Bytes) → IsPlain c → strip_leading_comments (c ∷ cs) ≡ c ∷ cs
unfolding strip_leading_comments breaks_token
strip_plain c cs h = ground arith

skip_plain :
    (c : ℕ) (cs : Bytes)
    → IsPlain c
    → is_space c ≡ false
    → skip_spaces_and_comments (c ∷ cs) ≡ c ∷ cs
unfolding skip_spaces_and_comments ltrim
skip_plain c cs h k = rw (strip_plain c cs h, k) (ground arith)

abbrev reading_at : Query → Bytes → Scan
reading_at q r = record { query = q; rest = r; reading_token = true; stmt_tokens = 1 }

round_plain :
    (q : Query) (c : ℕ) (cs : Bytes)
    → IsPlain c
    → round (reading_at q (c ∷ cs)) ≡ more (reading_at q cs)
unfolding round_in
round_plain q c cs h = rw h

-- The rounds inside a token only move the pointer.
rounds_plain :
    (f : ℕ) (q : Query) (r : Bytes)
    → All IsPlain r
    → length r < f
    → parse_rounds f (reading_at q r) ≡ some q
unfolding parse_rounds
rounds_plain zero q r h k = absurd (omega arith)
rounds_plain (suc f) q [] h k = refl
rounds_plain (suc f) q (c ∷ cs) h k =
    rw (round_plain q c cs h.0, parse_rounds) (rounds_plain f q cs h.1 (omega arith))

first_plain :
    (q : Query) (c : ℕ) (cs : Bytes)
    → IsPlain c
    → first_byte (reading_at q (c ∷ cs)) ≡ reading_at q (c ∷ cs)
unfolding first_byte breaks_token
first_plain q c cs h = ground arith

abbrev with_text : Query → Bytes → Query
with_text q text = record q { refined_text = text; tokens = [] }

abbrev tokenized : Query → Bytes → Query
tokenized q text = record q {
  refined_text = text;
  tokens = 0 ∷ [];
  poor_man_parsing = should_try_poor_man text;
}

open_start :
    (q : Query) (c : ℕ) (cs : Bytes)
    → IsPlain c
    → is_space c ≡ false
    → open_token (start (with_text q (c ∷ cs))) ≡ reading_at (tokenized q (c ∷ cs)) (c ∷ cs)
unfolding open_token
open_start q c cs h k =
    rw (skip_plain c cs h k) (let e : suc (length cs) - suc (length cs) ≡ 0 = omega arith in rw e)

first_round :
    (q : Query) (c : ℕ) (cs : Bytes)
    → IsPlain c
    → is_space c ≡ false
    → round (start (with_text q (c ∷ cs))) ≡ more (reading_at (tokenized q (c ∷ cs)) cs)
unfolding round_in round_open
first_round q c cs h k = rw (open_start q c cs h k) (rw (first_plain (tokenized q (c ∷ cs)) c cs h))

parse_plain :
    (q : Query) (c : ℕ) (cs : Bytes)
    → All IsPlain (c ∷ cs)
    → is_space c ≡ false
    → parse_query (with_text q (c ∷ cs)) ≡ some (tokenized q (c ∷ cs))
unfolding parse_query parse_rounds should_try_poor_man
parse_plain q c cs h k =
    let e : max_rounds (c ∷ cs) ≡ suc (2 * length cs + 3) = omega arith in
    rw e (
      rw (first_round q c cs h.0 k, parse_rounds)
        (rounds_plain (2 * length cs + 3) (tokenized q (c ∷ cs)) cs h.1 (omega arith)))

-- A statement that is one token, with no byte that ends a token and no blank in front, is found to
-- be that one token; but whatever it says, the statement's type stays what the object held before
-- it was reset for this text, and the statement counts as one without a result.
pub parse_query-single :
    (q : Query) (c : ℕ) (cs : Bytes) (multi ansi no_backslash : Bool)
    → All IsPlain (c ∷ cs)
    → is_space c ≡ false
    → (q' : Query) × (parse_query (reset_parser q (some (c ∷ cs)) multi ansi no_backslash)
        ≡ some q')
      × (q'.tokens ≡ 0 ∷ [])
      × (q'.query_type ≡ q.query_type)
      × (q'.returns_result ≡ false)
unfolding reset_parser
parse_query-single q c cs multi ansi no_backslash h k =
    let q0 = reset_parser q (some (c ∷ cs)) multi ansi no_backslash in
    (tokenized q0 (c ∷ cs), parse_plain q0 c cs h k, refl, refl, refl)
