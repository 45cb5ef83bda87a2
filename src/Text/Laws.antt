-- ===== src/Text/Laws.antt =====
-- Laws of the C strings: what trimming and searching leave.
use mariadb_connector_odbc.Base.{
  ℕ, ◌≤◌, ◌≡◌, refl, inl, inr, some, [], ◌∷◌, arith, Bool-cases, Bytes, length, subst, ◌==◌, ◌&&◌,
}
use mariadb_connector_odbc.Text.{head_or_nul, is_space, ltrim, strchr, strstr2}

-- `r` is what is left of `s` at some pointer into it.
pub data IsSuffix (r : Bytes) : Bytes → Type 0 where
  here : IsSuffix r r
  later : {c : ℕ} {s : Bytes} → IsSuffix r s → IsSuffix r (c ∷ s)

pub IsSuffix-trans : {q r s : Bytes} → IsSuffix q r → IsSuffix r s → IsSuffix q s
IsSuffix-trans p here = p
IsSuffix-trans p (later h) = later (IsSuffix-trans p h)

pub IsSuffix-nil : (s : Bytes) → IsSuffix [] s
IsSuffix-nil [] = here
IsSuffix-nil (c ∷ cs) = later (IsSuffix-nil cs)

pub length-IsSuffix : {r s : Bytes} → IsSuffix r s → length r ≤ length s
length-IsSuffix here = omega arith
length-IsSuffix (later h) = omega (arith, length-IsSuffix h)

pub ltrim-IsSuffix : (s : Bytes) → IsSuffix (ltrim s) s
unfolding ltrim
ltrim-IsSuffix [] = here
ltrim-IsSuffix (c ∷ cs) = elim (Bool-cases (is_space c)) [
  | inl e ↦ rw e (later (ltrim-IsSuffix cs))
  | inr e ↦ rw e here
]

pub ltrim_idem : (s : Bytes) → ltrim (ltrim s) ≡ ltrim s
unfolding ltrim
ltrim_idem [] = refl
ltrim_idem (c ∷ cs) = elim (Bool-cases (is_space c)) [
  | inl e ↦ rw e (ltrim_idem cs)
  | inr e ↦ rw (e, e)
]

pub some_inj {ℓ} : {A : Type ℓ} {a b : A} → some a ≡ some b → a ≡ b
some_inj h = cc

IsSuffix-of_some : {r s : Bytes} → some s ≡ some r → IsSuffix r s
IsSuffix-of_some {r} {s} h = subst (λ q. IsSuffix q s) (some_inj h) here

pub strchr-IsSuffix : (c : ℕ) (s : Bytes) {r : Bytes} → strchr c s ≡ some r → IsSuffix r s
unfolding strchr
strchr-IsSuffix c [] h = cc
strchr-IsSuffix c (x ∷ xs) h = elim (Bool-cases (x == c)) [
  | inl e ↦ IsSuffix-of_some (rw e at h)
  | inr e ↦ elim (Bool-cases (x == 0)) [
    | inl z ↦ cc (rw (e, z) at h)
    | inr z ↦ later (strchr-IsSuffix c xs (rw (e, z) at h))
  ]
]

pub strstr2-IsSuffix : (a b : ℕ) (s : Bytes) {r : Bytes} → strstr2 a b s ≡ some r → IsSuffix r s
unfolding strstr2
strstr2-IsSuffix a b [] h = cc
strstr2-IsSuffix a b (x ∷ xs) h = elim (Bool-cases (x == a && head_or_nul xs == b)) [
  | inl e ↦ IsSuffix-of_some (rw e at h)
  | inr e ↦ elim (Bool-cases (x == 0)) [
    | inl z ↦ cc (rw (e, z) at h)
    | inr z ↦ later (strstr2-IsSuffix a b xs (rw (e, z) at h))
  ]
]
