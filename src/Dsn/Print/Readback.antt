-- ===== src/Dsn/Print/Readback.antt =====
-- A value that MADB_DsnToString prints, read by MADB_ParseConnString.
use mariadb_connector_odbc.Base.{
  ℕ, ◌≡◌, refl, false, inl, inr, some, [], ◌∷◌, ◌++◌, arith, ◌==◌, Bytes, Bool-cases, append_assoc,
}
use mariadb_connector_odbc.Dsn.ConnString.Braces.{escape, NoNul, read_value-escape}
use mariadb_connector_odbc.Dsn.ConnString.{split_at, split_delimiter, read_value}
use mariadb_connector_odbc.Dsn.Print.{has_byte, is_special, shown}
use mariadb_connector_odbc.Text.{head_or_nul, is_space, ltrim, trim}

escape-plain : (v : Bytes) → has_byte b'}' v ≡ false → escape v ≡ v
unfolding has_byte escape
escape-plain [] h = refl
escape-plain (c ∷ cs) h = ground (arith, escape-plain cs)

split_at-plain :
    (d : ℕ) (v rest : Bytes)
    → NoNul v
    → has_byte d v ≡ false
    → split_at d (v ++ d ∷ rest) ≡ some (v, rest)
unfolding has_byte split_at
split_at-plain d [] rest h p = ground arith
split_at-plain d (c ∷ cs) rest h p = elim (Bool-cases (c == d)) [
  | inl e ↦ absurd (ground (arith, e))
  | inr e ↦ rw (e, h.0, split_at-plain d cs rest h.1 (ground (arith, p)))
]

ltrim-plain :
    (v rest : Bytes)
    → is_space (head_or_nul v) ≡ false
    → ltrim (v ++ b';' ∷ rest) ≡ v ++ b';' ∷ rest
unfolding ltrim
ltrim-plain [] rest h = refl
ltrim-plain (c ∷ cs) rest h = rw h

head-append :
    (v rest : Bytes)
    → (head_or_nul v == b'{') ≡ false
    → (head_or_nul (v ++ b';' ∷ rest) == b'{') ≡ false
head-append [] rest h = refl
head-append (c ∷ cs) rest h = h

no_semicolon : (v : Bytes) → is_special v ≡ false → has_byte b';' v ≡ false
no_semicolon v h = ground (arith, h)

-- A value that MADB_DsnToString prints before a semicolon is read back as it was, with the rest left
-- to read, if it has no zero byte and no closing brace, does not start with an opening brace, and
-- has no blanks around it.
pub read_value-shown :
    (v rest : Bytes)
    → NoNul v
    → has_byte b'}' v ≡ false
    → (head_or_nul v == b'{') ≡ false
    → is_space (head_or_nul v) ≡ false
    → trim v ≡ v
    → read_value b';' (shown v ++ b';' ∷ rest) ≡ (v, some rest)
unfolding shown read_value split_delimiter
read_value-shown v rest h b o s t = elim (Bool-cases (is_special v)) [
  | inl e ↦
      let x = read_value-escape b';' v b';' rest h refl in
      rw (e, append_assoc v (b'}' ∷ []) (b';' ∷ rest)) (rw (escape-plain v b, t) at x)
  | inr e ↦ rw (
    e,
    ltrim-plain v rest s,
    head-append v rest o,
    split_at-plain b';' v rest h (no_semicolon v e),
    t,
  )
]
