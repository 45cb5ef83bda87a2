-- ===== src/Dsn/Print/Buffer.antt =====
-- The buffer of MADB_DsnToString.
use mariadb_connector_odbc.Base.{
  ℕ, zero, suc, ◌+◌, ◌-◌, ◌≤◌, ◌≡◌, refl, subst, false, inl, inr, Option, none, some, List, [], ◌∷◌,
  arith, ltb, Bytes, length, take, length-append, Bool-cases, Option-cases,
}
use mariadb_connector_odbc.Dsn.Keys.{Dsn, DsnKey, dsn_keys}
use mariadb_connector_odbc.Dsn.Print.{
  Printed, append_piece, print_value, print_keys, dsn_to_string, key_value, separated, assignment,
}

-- The buffer holds as many bytes as the length says.
abbrev pub Whole : Printed → Type 0
Whole (buffer, total) = (text : Bytes) × (buffer ≡ some text) × (length text ≡ total)

take-all : (n : ℕ) (s : Bytes) → length s ≤ n → take n s ≡ s
take-all zero [] h = refl
take-all (suc n) [] h = refl
take-all zero (c ∷ cs) h = absurd (omega arith)
take-all (suc n) (c ∷ cs) h = rw (take-all n cs (omega arith))

append_piece-total : (p : Printed) (s : Bytes) → (append_piece p s).1 ≡ p.1 + length s
unfolding append_piece
append_piece-total (buffer, total) s = elim (Bool-cases (ltb 1024 total)) [
  | inl e ↦ rw (e, append_piece)
  | inr e ↦ elim (Option-cases buffer) [
    | inl b ↦ rw (e, b, append_piece)
    | inr (x, b) ↦ rw (e, b, append_piece)
  ]
]

ltb_small : (n : ℕ) → n ≤ 1023 → ltb 1024 n ≡ false
ltb_small n h = ground arith

append_piece-Whole :
    (p : Printed) (s : Bytes) → Whole p → (append_piece p s).1 ≤ 1023 → Whole (append_piece p s)
unfolding append_piece
append_piece-Whole (buffer, total) s (text, b, n) lt =
    let small : total + length s ≤ 1023 =
      subst (λ k. k ≤ 1023) (append_piece-total (buffer, total) s) lt in
    rw (ltb_small total (omega arith), append_piece, b)
      (
        _,
        refl,
        rw (length-append text (take (1023 - total) s), take-all (1023 - total) s (omega arith), n),
      )

print_value-grows : (p : Printed) (k : DsnKey) (v : Option Bytes) → p.1 ≤ (print_value p k v).1
print_value-grows p k none = omega arith
print_value-grows p k (some v) =
    rw (append_piece-total p (separated p.1 (assignment k v))) (omega arith)

print_value-Whole :
    (p : Printed) (k : DsnKey) (v : Option Bytes)
    → Whole p
    → (print_value p k v).1 ≤ 1023
    → Whole (print_value p k v)
print_value-Whole p k none w lt = w
print_value-Whole p k (some v) w lt = append_piece-Whole p _ w lt

print_keys-grows :
    (i : ℕ) (ks : List DsnKey) (d : Dsn) (p : Printed) → p.1 ≤ (print_keys i ks d p).1
unfolding print_keys
print_keys-grows i [] d p = omega arith
print_keys-grows i (k ∷ ks) d p = omega (
  arith,
  print_value-grows p k (key_value d i k),
  print_keys-grows (i + 1) ks d (print_value p k (key_value d i k)),
)

print_keys-Whole :
    (i : ℕ) (ks : List DsnKey) (d : Dsn) (p : Printed)
    → Whole p
    → (print_keys i ks d p).1 ≤ 1023
    → Whole (print_keys i ks d p)
unfolding print_keys
print_keys-Whole i [] d p w lt = w
print_keys-Whole i (k ∷ ks) d p w lt =
    let next = print_value p k (key_value d i k) in
    print_keys-Whole (i + 1) ks d next
      (print_value-Whole p k (key_value d i k) w
        (omega (arith, print_keys-grows (i + 1) ks d next)))
      lt

-- When MADB_DsnToString returns a length of at most 1023, it wrote nothing past its buffer of 1024
-- bytes, and the buffer holds a string of exactly that length.
pub dsn_to_string-Whole : (d : Dsn) → (dsn_to_string d).1 ≤ 1023 → Whole (dsn_to_string d)
unfolding dsn_to_string
dsn_to_string-Whole d lt = print_keys-Whole 0 dsn_keys d (some [], 0) ([], refl, refl) lt
