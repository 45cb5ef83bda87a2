-- ===== src/Dsn/ConnString/Braces.antt =====
-- Values in braces: the loop at lines 600-623 of driver/ma_dsn.c and MADB_DsnToString's braces.
use mariadb_connector_odbc.Base.{
  ℕ, zero, suc, ◌≤◌, ◌<◌, ◌≡◌, refl, ◌∙◌, false, inl, inr, some, [], ◌∷◌, ◌++◌, arith, ◌==◌,
  if◌then◌else◌, Bytes, length, All, Bool-cases, eq_of_==, append_assoc, length-append,
}
use mariadb_connector_odbc.Dsn.ConnString.{split_at, read_braced, read_value}
use mariadb_connector_odbc.Text.{head_or_nul, ltrim, trim}

-- A value as it stands between braces: a closing brace is doubled.
unfoldable pub escape : Bytes → Bytes
escape [] = []
escape (c ∷ cs) = let rest = escape cs in if c == b'}' then b'}' ∷ b'}' ∷ rest else c ∷ rest

abbrev pub NoNul : Bytes → Type 0
NoNul v = All (λ c. (c == 0) ≡ false) v

split_at-escape :
    (v rest : Bytes)
    → NoNul v
    → (p : Bytes × Bytes) × (split_at b'}' (escape v ++ b'}' ∷ rest) ≡ some p)
unfolding escape split_at
split_at-escape [] rest h = (_, refl)
split_at-escape (c ∷ cs) rest h = elim (Bool-cases (c == b'}')) [
  | inl e ↦ rw e (_, refl)
  | inr e ↦ let (p, k) = split_at-escape cs rest h.1 in rw (e, e, h.0, k) (_, refl)
]

read_braced_push :
    (f c : ℕ) (acc s before after : Bytes)
    → (c == b'}') ≡ false
    → (c == 0) ≡ false
    → split_at b'}' s ≡ some (before, after)
    → read_braced (suc f) acc (c ∷ s) ≡ read_braced (suc f) (acc ++ c ∷ []) s
unfolding split_at read_braced
read_braced_push f c acc s before after a b h = elim (Bool-cases (head_or_nul after == b'}')) [
  | inl e ↦ rw (a, b, h, e, read_braced, append_assoc acc (c ∷ []) (before ++ b'}' ∷ []))
  | inr e ↦ rw (a, b, h, e, read_braced, append_assoc acc (c ∷ []) before)
]

read_braced-escape :
    (v rest acc : Bytes) (f : ℕ)
    → NoNul v
    → (head_or_nul rest == b'}') ≡ false
    → length v < f
    → read_braced f acc (escape v ++ b'}' ∷ rest) ≡ (acc ++ v, some rest)
unfolding escape read_braced split_at
read_braced-escape v rest acc zero h r lt = absurd (omega arith)
read_braced-escape [] rest acc (suc f) h r lt = rw (r, read_braced)
read_braced-escape (c ∷ cs) rest acc (suc f) h r lt = elim (Bool-cases (c == b'}')) [
  | inl e ↦
      rw (e, read_braced)
        (rw (
          read_braced-escape cs rest (acc ++ b'}' ∷ []) f h.1 r (omega arith),
          append_assoc acc (b'}' ∷ []) cs,
          eq_of_== e,
        ))
  | inr e ↦
      let (p, k) = split_at-escape cs rest h.1 in
      rw e (
        read_braced_push f c acc (escape cs ++ b'}' ∷ rest) p.0 p.1 e h.0 k
        ∙ (rw (
          read_braced-escape cs rest (acc ++ c ∷ []) (suc f) h.1 r (omega arith),
          append_assoc acc (c ∷ []) cs,
        )))
]

length-escape : (v : Bytes) → length v ≤ length (escape v)
unfolding escape
length-escape [] = omega arith
length-escape (c ∷ cs) = ground (arith, length-escape cs)

-- A value with no zero byte that stands in braces, each of its closing braces doubled, is read as
-- itself less the blanks around it, whatever the delimiter and whatever follows that byte that comes
-- after the closing brace, as long as this byte is no other closing brace; the rest is left to read.
pub read_value-escape :
    (delimiter : ℕ) (v : Bytes) (d : ℕ) (rest : Bytes)
    → NoNul v
    → (d == b'}') ≡ false
    → read_value delimiter (b'{' ∷ (escape v ++ b'}' ∷ d ∷ rest)) ≡ (trim v, some rest)
unfolding read_value ltrim
read_value-escape delimiter v d rest h k = rw (
    read_braced-escape v (d ∷ rest) [] (length (b'{' ∷ (escape v ++ b'}' ∷ d ∷ rest))) h k
      (rw (length-append (escape v) (b'}' ∷ d ∷ rest)) (omega (arith, length-escape v))))
