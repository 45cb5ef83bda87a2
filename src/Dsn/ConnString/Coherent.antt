-- ===== src/Dsn/ConnString/Coherent.antt =====
-- MADB_ParseConnString ends, and leaves the options coherent.
use mariadb_connector_odbc.Base.{
  ℕ, zero, suc, ◌≡◌, refl, ◌⊎◌, inl, inr, Bool, true, false, arith, Option, none, some, [], ◌∷◌,
  ◌==◌, Bool-cases, Bytes, length, eq_of_==, ne_of_==,
}
use mariadb_connector_odbc.Dsn.ConnString.{
  Segment, skip, malformed, pair, next_segment, store_pair, parse_pairs, parse_conn_string,
}
use mariadb_connector_odbc.Dsn.Keys.{Dsn, key_at, options_index}
use mariadb_connector_odbc.Dsn.Options.Kept.{
  store_value-IsCoherent, update_options_fields-IsCoherent,
}
use mariadb_connector_odbc.Dsn.Options.{IsCoherent}
use mariadb_connector_odbc.Dsn.Store.{store_item, store_value, switch_dependents}
use mariadb_connector_odbc.Dsn.ConnString.Within.{Within, Within-mono, next_segment-Within}

store_options : (d : Dsn) (value : Bytes) → (store_value d options_index value true).1 ≡ true
unfolding store_value store_item switch_dependents key_at
store_options d value = refl

store_pair-IsCoherent :
    (d : Dsn) (i : ℕ) (value : Bytes) → IsCoherent d → IsCoherent (store_pair d i value).0
unfolding store_pair
store_pair-IsCoherent d i value c = elim (Bool-cases (i == options_index)) [
  | inl e ↦
      let same : i ≡ options_index = eq_of_== e in
      rw (same, store_options d value) ((update_options_fields-IsCoherent _).0)
  | inr e ↦
      let kept = store_value-IsCoherent d i value true (ne_of_== e) c in
      elim (Bool-cases (store_value d i value true).1) [
        | inl z ↦ rw (z, e) kept
        | inr z ↦ rw z kept
      ]
]

Segment-cases :
    (s : Segment)
    → ((o : Option Bytes) × (s ≡ skip o))
      ⊎ ((s ≡ malformed) ⊎ ((i : ℕ) × (value : Bytes) × (o : Option Bytes) × (s ≡ pair i value o)))
Segment-cases (skip o) = inl (o, refl)
Segment-cases malformed = inr (inl refl)
Segment-cases (pair i value o) = inr (inr (i, value, o, refl))

abbrev Ends : Option (Dsn × Bool) → Type 0
Ends r = (d : Dsn) × (b : Bool) × (r ≡ some (d, b)) × IsCoherent d

parse_pairs-Ends :
    (f : ℕ) (d : Dsn) (delimiter : ℕ) (o : Option Bytes)
    → Within f o
    → IsCoherent d
    → Ends (parse_pairs f d delimiter o)
unfolding parse_pairs
parse_pairs-Ends f d delimiter none w c = (d, true, refl, c)
parse_pairs-Ends f d delimiter (some []) w c = (d, true, refl, c)
parse_pairs-Ends zero d delimiter (some (x ∷ xs)) w c = absurd (omega arith)
parse_pairs-Ends (suc f) d delimiter (some (x ∷ xs)) w c =
    let bound = next_segment-Within delimiter x xs in
    elim (Segment-cases (next_segment delimiter (x ∷ xs))) [
      | inl (o, e) ↦
          rw (e, parse_pairs)
            (parse_pairs-Ends f d delimiter o (Within-mono o (omega arith) (rw e at bound)) c)
      | inr (inl e) ↦ rw (e, parse_pairs) (d, false, refl, c)
      | inr (inr (i, value, o, e)) ↦
          let kept = store_pair-IsCoherent d i value c in
          elim (Bool-cases (store_pair d i value).1) [
            | inl z ↦
                rw (e, z, parse_pairs)
                  (parse_pairs-Ends f (store_pair d i value).0 delimiter o
                    (Within-mono o (omega arith) (rw e at bound)) kept)
            | inr z ↦ rw (e, z, parse_pairs) ((store_pair d i value).0, false, refl, kept)
          ]
    ]

-- MADB_ParseConnString always comes to an end, whatever the string and the delimiter are, and from
-- coherent settings it leaves coherent settings, also where it returns FALSE half-way: the fields of
-- the options agree with the bits of `Options`, and NamedPipe and TCPIP are not both set.
pub parse_conn_string-IsCoherent :
    (d : Dsn) (s : Option Bytes) (delimiter : ℕ)
    → IsCoherent d
    → (e : Dsn) × (b : Bool) × (parse_conn_string d s delimiter ≡ some (e, b)) × IsCoherent e
unfolding parse_conn_string
parse_conn_string-IsCoherent d none delimiter c = (d, false, refl, c)
parse_conn_string-IsCoherent d (some s) delimiter c =
    parse_pairs-Ends (length s) d delimiter (some s) (omega arith) c
