-- ===== src/Query/Cursor/Found.antt =====
-- ParseCursorName finds the first `WHERE CURRENT OF` that a name follows.
use mariadb_connector_odbc.Base.{
  ℕ, zero, suc, ◌+◌, ◌-◌, ◌≤◌, ◌<◌, ◌≡◌, refl, inl, inr, true, false, Option, none, some, List, [],
  ◌∷◌, arith, ltb, ◌==◌, Bool-cases, eq_of_==, subst, Bytes, codes, length, get_elem?, map, take,
  drop, ◌%◌, ◌^◌, Option-cases,
}
use mariadb_connector_odbc.Query.Cursor.{
  token, compare_token, stored_offset, is_current_of, cursor_name_from, parse_cursor_name,
}
use mariadb_connector_odbc.Query.{Query}
use mariadb_connector_odbc.Text.{to_upper, has_prefix_ci}

-- The text at a token begins with the word, whatever the case of the letters.
abbrev pub IsSpelled : Query → ℕ → Bytes → Type 0
IsSpelled q i word =
    (o : ℕ) × (token q i ≡ some o)
    × (map to_upper (take (length word) (drop o q.refined_text)) ≡ map to_upper word)

-- Three tokens in a row that begin with WHERE, CURRENT and OF.
abbrev pub WhereCurrentOf : Query → ℕ → Type 0
WhereCurrentOf q i =
    IsSpelled q i (codes "WHERE")
    × IsSpelled q (i + 1) (codes "CURRENT")
    × IsSpelled q (i + 2) (codes "OF")

-- The words stand at token `i`, the name is the fourth token, and its place is `name`; that of WHERE, in
-- 32 bits, is `at`.
pub record FoundAt (q : Query) (i name at : ℕ) : Type 0 where
  pub words : WhereCurrentOf q i
  pub name_is : token q (i + 3) ≡ some name
  pub where_is : at ≡ words.0.0 % 2 ^ 32

-- No token from `lo` on and before `hi` starts the words.
abbrev NoneIn : Query → ℕ → ℕ → Type 0
NoneIn q lo hi = (i : ℕ) → lo ≤ i → i < hi → ¬ WhereCurrentOf q i

-- What a search of the first `n` tokens has to answer.
pub data Search (q : Query) (lo n : ℕ) : Option ℕ → ℕ → Type 0 where
  found :
      {i name at : ℕ}
      → lo ≤ i
      → i < n
      → FoundAt q i name at
      → NoneIn q lo i
      → Search q lo n (some name) at
  missing : {at : ℕ} → NoneIn q lo n → Search q lo n none at

get_elem?-lt : {i : ℕ} (xs : List ℕ) → i < length xs → (x : ℕ) × (get_elem? xs i ≡ some x)
get_elem?-lt {i} [] h = absurd (omega arith)
get_elem?-lt {i = zero} (x ∷ xs) h = (x, refl)
get_elem?-lt {i = suc i} (x ∷ xs) h = get_elem?-lt xs (omega arith)

NoneIn-cons : (q : Query) (i hi : ℕ) → ¬ WhereCurrentOf q i → NoneIn q (i + 1) hi → NoneIn q i hi
NoneIn-cons q i hi e h j lo lt = elim (Bool-cases (i == j)) [
  | inl same ↦ subst (λ k. ¬ WhereCurrentOf q k) (eq_of_== same) e
  | inr other ↦ h j (ground arith) lt
]

Search-cons :
    (q : Query) (i n : ℕ) {r : Option ℕ} {at : ℕ}
    → ¬ WhereCurrentOf q i
    → Search q (i + 1) n r at
    → Search q i n r at
Search-cons q i n e (found lo lt f h) = found (omega arith) lt f (NoneIn-cons q i _ e h)
Search-cons q i n e (missing h) = missing (NoneIn-cons q i n e h)

prefix_spelled :
    (s word : Bytes)
    → has_prefix_ci s word ≡ true
    → map to_upper (take (length word) s) ≡ map to_upper word
unfolding has_prefix_ci
prefix_spelled s [] h = refl
prefix_spelled [] (w ∷ ws) h = absurd (ground (arith, h))
prefix_spelled (c ∷ cs) (w ∷ ws) h =
    let same : to_upper c ≡ to_upper w = ground (arith, h) in
    rw (same, prefix_spelled cs ws (ground (arith, h))) refl

spelled_prefix :
    (s word : Bytes)
    → map to_upper (take (length word) s) ≡ map to_upper word
    → has_prefix_ci s word ≡ true
unfolding has_prefix_ci
spelled_prefix s [] h = refl
spelled_prefix [] (w ∷ ws) h = absurd cc
spelled_prefix (c ∷ cs) (w ∷ ws) h =
    let head : to_upper c ≡ to_upper w = cc in
    let rest : map to_upper (take (length ws) cs) ≡ map to_upper ws = cc in
    rw (head, spelled_prefix cs ws rest) (ground arith)

compared-IsSpelled :
    (q : Query) (i : ℕ) (word : Bytes) → compare_token q i word ≡ true → IsSpelled q i word
unfolding compare_token
compared-IsSpelled q i word h = elim (Option-cases (token q i)) [
  | inl e ↦ absurd (ground (arith, h, e))
  | inr (o, e) ↦ (o, e, prefix_spelled (drop o q.refined_text) word (rw e at h))
]

IsSpelled-compared :
    (q : Query) (i : ℕ) (word : Bytes) → IsSpelled q i word → compare_token q i word ≡ true
unfolding compare_token
IsSpelled-compared q i word (o, e, h) = rw e (spelled_prefix (drop o q.refined_text) word h)

is_current_of-WhereCurrentOf : (q : Query) (i : ℕ) → is_current_of q i ≡ true → WhereCurrentOf q i
is_current_of-WhereCurrentOf q i h = (
  compared-IsSpelled q i (codes "WHERE") (ground (arith, h)),
  compared-IsSpelled q (i + 1) (codes "CURRENT") (ground (arith, h)),
  compared-IsSpelled q (i + 2) (codes "OF") (ground (arith, h)),
)

not_current_of : (q : Query) (i : ℕ) → is_current_of q i ≡ false → ¬ WhereCurrentOf q i
not_current_of q i h (a, b, c) = ground (
  arith,
  h,
  IsSpelled-compared q i (codes "WHERE") a,
  IsSpelled-compared q (i + 1) (codes "CURRENT") b,
  IsSpelled-compared q (i + 2) (codes "OF") c,
)

offset_stored :
    (q : Query) (i : ℕ) (word : Bytes) (before : ℕ) (h : IsSpelled q i word)
    → stored_offset q i word before ≡ h.0 % 2 ^ 32
unfolding stored_offset
offset_stored q i word before h = rw (IsSpelled-compared q i word h, h.1) refl

found-here :
    (q : Query) (i n before : ℕ)
    → i < n
    → n + 3 ≡ length q.tokens
    → is_current_of q i ≡ true
    → Search q i n (token q (i + 3)) (stored_offset q i (codes "WHERE") before)
found-here q i n before lt k e =
    let (name, p) = get_elem?-lt {i = i + 3} q.tokens (omega arith) in
    let words = is_current_of-WhereCurrentOf q i e in
    rw p (
      found (omega arith) lt
        (record {
          words = words;
          name_is = p;
          where_is = offset_stored q i (codes "WHERE") before words.0;
        })
        (λ j lo hi. absurd (omega arith)))

cursor_name_from-Search :
    (n i m : ℕ) (q : Query) (before : ℕ)
    → i + n ≡ m
    → m + 3 ≡ length q.tokens
    → Search q i m (cursor_name_from n i q before).0 (cursor_name_from n i q before).1
unfolding cursor_name_from
cursor_name_from-Search zero i m q before e k = missing (λ j lo lt. absurd (omega arith))
cursor_name_from-Search (suc n) i m q before e k = elim (Bool-cases (is_current_of q i)) [
  | inl yes_ ↦ rw yes_ (found-here q i m before (omega arith) k yes_)
  | inr no_ ↦ rw no_ (
      Search-cons q i m (not_current_of q i no_)
        (cursor_name_from-Search n (i + 1) m q _ (omega arith) k))
]

-- ParseCursorName over a query's tokens: a name is returned exactly where three tokens in a row begin
-- with WHERE, CURRENT and OF, in capitals or not, and one more stands behind them; it is the token behind
-- the first such place, and the offset stored is that of its WHERE, in 32 bits. Without a name no such
-- place exists. The tokens may go on behind these letters.
pub parse_cursor_name-Search :
    (q : Query) (before : ℕ)
    → Search q 0 (length q.tokens - 3) (parse_cursor_name q before).0 (parse_cursor_name q before).1
unfolding parse_cursor_name
parse_cursor_name-Search q before = elim (Bool-cases (ltb (length q.tokens) 4)) [
  | inl few ↦ rw few (missing (λ j lo lt. absurd (ground arith)))
  | inr many ↦ rw many (
      cursor_name_from-Search (length q.tokens - 3) 0 (length q.tokens - 3) q before (omega arith)
        (ground arith))
]
