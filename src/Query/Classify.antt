-- ===== src/Query/Classify.antt =====
-- MADB_GetQueryType: letter case and what stands before the first letter do not matter.
use mariadb_connector_odbc.Base.{
  ℕ, ◌≡◌, ◌≢◌, refl, inl, inr, false, ◌||◌, [], ◌∷◌, ◌++◌, arith, ◌==◌, Bool-cases, Bytes, map, All,
}
use mariadb_connector_odbc.Query.{skip_to_alpha, classify, get_query_type}
use mariadb_connector_odbc.Text.{is_alpha, to_upper, has_prefix_ci}

to_upper_idem : (c : ℕ) → to_upper (to_upper c) ≡ to_upper c
to_upper_idem c = ground arith

has_prefix_ci-upper : (s word : Bytes) → has_prefix_ci (map to_upper s) word ≡ has_prefix_ci s word
unfolding has_prefix_ci
has_prefix_ci-upper [] [] = refl
has_prefix_ci-upper (c ∷ cs) [] = refl
has_prefix_ci-upper [] (w ∷ ws) = refl
has_prefix_ci-upper (c ∷ cs) (w ∷ ws) = rw (to_upper_idem c, has_prefix_ci-upper cs ws)

starts_upper : (c : ℕ) → (to_upper c == 0 || is_alpha (to_upper c)) ≡ (c == 0 || is_alpha c)
starts_upper c = ground arith

skip_to_alpha-upper : (s : Bytes) → skip_to_alpha (map to_upper s) ≡ map to_upper (skip_to_alpha s)
unfolding skip_to_alpha
skip_to_alpha-upper [] = refl
skip_to_alpha-upper (c ∷ cs) = elim (Bool-cases (c == 0 || is_alpha c)) [
  | inl e ↦ rw (starts_upper c, e)
  | inr e ↦ rw (starts_upper c, e) (skip_to_alpha-upper cs)
]

classify-upper : (s t : Bytes) → classify (map to_upper s) (map to_upper t) ≡ classify s t
unfolding classify
classify-upper s t = simp has_prefix_ci-upper

-- The type found does not depend on the case of any letter of the statement.
pub get_query_type-upper :
    (s t : Bytes) → get_query_type (map to_upper s) (map to_upper t) ≡ get_query_type s t
unfolding get_query_type
get_query_type-upper s t = rw skip_to_alpha-upper (classify-upper (skip_to_alpha s) t)

skip_to_alpha-append :
    (pre s : Bytes)
    → All (λ c. (c ≢ 0) × (is_alpha c ≡ false)) pre
    → skip_to_alpha (pre ++ s) ≡ skip_to_alpha s
unfolding skip_to_alpha
skip_to_alpha-append [] s h = refl
skip_to_alpha-append (c ∷ cs) s h = ground (arith, skip_to_alpha-append cs s h.1)

-- Bytes in front of a statement that are neither letters nor zero, such as the parentheses that MS
-- Access adds, do not change the type found.
pub get_query_type-append :
    (pre s t : Bytes)
    → All (λ c. (c ≢ 0) × (is_alpha c ≡ false)) pre
    → get_query_type (pre ++ s) t ≡ get_query_type s t
unfolding get_query_type
get_query_type-append pre s t h = rw (skip_to_alpha-append pre s h)
