-- ===== src/Query/Quotes.antt =====
-- SkipQuotedString: it stops at the quote that closes the string.
use mariadb_connector_odbc.Base.{
  ℕ, ◌≡◌, ◌≢◌, inl, inr, [], ◌∷◌, ◌++◌, arith, ◌==◌, eq_of_==, ne_of_==, Bool-cases, Bytes, ◌∙◌, ap,
  ◌↔◌,
}
use mariadb_connector_odbc.Query.{skip_quoted_string}

-- The contents of a string literal, as a relation: `Escaped quote body` holds of a body in which
-- every quote and every backslash belongs to an escape of two bytes.
pub data Escaped (quote : ℕ) : Bytes → Type 0 where
  nil : Escaped quote []
  plain : {c : ℕ} {cs : Bytes} → c ≢ quote → c ≢ b'\\' → Escaped quote cs → Escaped quote (c ∷ cs)
  escape : {c d : ℕ} {cs : Bytes} → c ≡ b'\\' → Escaped quote cs → Escaped quote (c ∷ d ∷ cs)

skip_plain :
    (quote c : ℕ) (cs : Bytes)
    → c ≢ quote
    → c ≢ b'\\'
    → skip_quoted_string quote (c ∷ cs) ≡ skip_quoted_string quote cs
unfolding skip_quoted_string
skip_plain quote c [] h k = ground arith
skip_plain quote c (d ∷ ds) h k = ground arith

skip_escape :
    (quote c d : ℕ) (cs : Bytes)
    → quote ≢ b'\\'
    → c ≡ b'\\'
    → skip_quoted_string quote (c ∷ d ∷ cs) ≡ skip_quoted_string quote cs
unfolding skip_quoted_string
skip_escape quote c d cs q e = ground arith

skip_stop : (quote : ℕ) (rest : Bytes) → skip_quoted_string quote (quote ∷ rest) ≡ quote ∷ rest
unfolding skip_quoted_string
skip_stop quote [] = ground arith
skip_stop quote (d ∷ ds) = ground arith

skip_body :
    (quote : ℕ) {body : Bytes} (rest : Bytes)
    → quote ≢ b'\\'
    → Escaped quote body
    → skip_quoted_string quote (body ++ quote ∷ rest) ≡ quote ∷ rest
skip_body quote rest q nil = skip_stop quote rest
skip_body quote rest q (plain {c} {cs} h k t) = skip_plain quote c _ h k ∙ skip_body quote rest q t
skip_body quote rest q (escape {c} {d} {cs} e t) =
    skip_escape quote c d _ q e ∙ skip_body quote rest q t

-- `s` is an escaped body, the closing quote and `rest`.
pub record Closes (quote : ℕ) (s rest : Bytes) : Type 0 where
  pub body : Bytes
  pub escaped : Escaped quote body
  pub splits : s ≡ body ++ quote ∷ rest

Closes-cons :
    {quote c : ℕ} {cs rest : Bytes}
    → c ≢ quote
    → c ≢ b'\\'
    → Closes quote cs rest
    → Closes quote (c ∷ cs) rest
Closes-cons {c = c} h k x = record {
  body = c ∷ x.body;
  escaped = plain h k x.escaped;
  splits = ap (◌∷◌ c) x.splits;
}

Closes-escape :
    {quote c : ℕ} {cs rest : Bytes} (d : ℕ)
    → c ≡ b'\\'
    → Closes quote cs rest
    → Closes quote (c ∷ d ∷ cs) rest
Closes-escape {c = c} d e x = record {
  body = c ∷ d ∷ x.body;
  escaped = escape e x.escaped;
  splits = ap (λ s. c ∷ d ∷ s) x.splits;
}

Closes-here : {quote c : ℕ} {cs rest : Bytes} → c ∷ cs ≡ quote ∷ rest → Closes quote (c ∷ cs) rest
Closes-here e = record { body = []; escaped = nil; splits = e }

stop_Closes :
    (quote : ℕ) (s rest : Bytes) → skip_quoted_string quote s ≡ quote ∷ rest → Closes quote s rest
unfolding skip_quoted_string
stop_Closes quote [] rest h = cc
stop_Closes quote (c ∷ []) rest h = elim (Bool-cases (c == quote)) [
  | inl e ↦ Closes-here (rw e at h)
  | inr e ↦ cc (rw e at h)
]
stop_Closes quote (c ∷ d ∷ ds) rest h = elim (Bool-cases (c == quote)) [
  | inl e ↦ Closes-here (rw (e, skip_quoted_string) at h)
  | inr e ↦ elim (Bool-cases (c == b'\\')) [
    | inl z ↦
        Closes-escape d (eq_of_== z)
          (stop_Closes quote ds rest (rw (e, z, skip_quoted_string) at h))
    | inr z ↦
        Closes-cons (ne_of_== e) (ne_of_== z)
          (stop_Closes quote (d ∷ ds) rest (rw (e, z, skip_quoted_string) at h))
  ]
]

-- For a quote that is not a backslash: SkipQuotedString stops with the pointer at a closing quote
-- and `rest` behind it exactly when the text is an escaped body followed by that quote and `rest`.
pub skip_quoted_string_lem :
    (quote : ℕ) (s rest : Bytes)
    → quote ≢ b'\\'
    → (skip_quoted_string quote s ≡ quote ∷ rest) ↔ Closes quote s rest
skip_quoted_string_lem quote s rest q =
    (stop_Closes quote s rest, λ x. rw x.splits (skip_body quote rest q x.escaped))
