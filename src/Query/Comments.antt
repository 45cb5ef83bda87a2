-- ===== src/Query/Comments.antt =====
-- SkipSpacesAndComments: it stops at the first byte of the text that means something.
use mariadb_connector_odbc.Base.{
  ℕ, zero, suc, ◌≤◌, ◌≡◌, refl, inl, inr, ◌&&◌, ◌||◌, Option, none, some, [], ◌∷◌, arith, ◌==◌,
  Bool-cases, Bytes, length, subst, sym,
}
use mariadb_connector_odbc.Query.{
  past_closing, strip_leading_comments, skip_rounds, skip_spaces_and_comments,
}
use mariadb_connector_odbc.Text.Laws.{
  IsSuffix, here, later, IsSuffix-trans, IsSuffix-nil, length-IsSuffix, ltrim-IsSuffix,
  strchr-IsSuffix, strstr2-IsSuffix, some_inj,
}
use mariadb_connector_odbc.Text.{head_or_nul, tail, ltrim}

pub tail-IsSuffix : (s : Bytes) → IsSuffix (tail s) s
tail-IsSuffix [] = here
tail-IsSuffix (c ∷ cs) = later here

past_closing-IsSuffix :
    (n : ℕ) (o : Option Bytes) (s : Bytes)
    → ((r : Bytes) → o ≡ some r → IsSuffix r s)
    → IsSuffix (past_closing n o) s
past_closing-IsSuffix n none s h = IsSuffix-nil s
past_closing-IsSuffix zero (some r) s h = h r refl
past_closing-IsSuffix (suc n) (some r) s h =
    past_closing-IsSuffix n (some (tail r)) s
      (λ q e. subst (λ p. IsSuffix p s) (some_inj e) (IsSuffix-trans (tail-IsSuffix r) (h r refl)))

strip-IsSuffix : (s : Bytes) → IsSuffix (strip_leading_comments s) s
unfolding strip_leading_comments
strip-IsSuffix [] = here
strip-IsSuffix (c ∷ cs) = elim (Bool-cases (c == b'-' && head_or_nul cs == b'-')) [
  | inl e ↦ rw e (
      later (
        past_closing-IsSuffix 1 _ cs
          (λ r h. IsSuffix-trans (strchr-IsSuffix b'\n' (tail cs) h) (tail-IsSuffix cs))))
  | inr e ↦ elim (Bool-cases (c == b'#')) [
    | inl z ↦ rw (e, z) (later (past_closing-IsSuffix 1 _ cs (λ r h. strchr-IsSuffix b'\n' cs h)))
    | inr z ↦ elim (Bool-cases (c == b'/' && head_or_nul cs == b'*')) [
      | inl y ↦
          rw (e, z, y)
            (later (
              past_closing-IsSuffix 2 _ cs (λ r h.
                IsSuffix-trans (strstr2-IsSuffix b'*' b'/' (tail cs) h) (tail-IsSuffix cs))))
      | inr y ↦ rw (e, z, y) here
    ]
  ]
]

round-IsSuffix : (s : Bytes) → IsSuffix (ltrim (strip_leading_comments s)) s
round-IsSuffix s = IsSuffix-trans (ltrim-IsSuffix (strip_leading_comments s)) (strip-IsSuffix s)

skip_rounds-IsSuffix : (f : ℕ) (s : Bytes) → IsSuffix (skip_rounds f s) s
unfolding skip_rounds
skip_rounds-IsSuffix zero s = here
skip_rounds-IsSuffix (suc f) s =
    let next = ltrim (strip_leading_comments s) in
    elim (Bool-cases (length next == 0 || length next == length s)) [
      | inl e ↦ rw e (round-IsSuffix s)
      | inr e ↦ rw e (IsSuffix-trans (skip_rounds-IsSuffix f next) (round-IsSuffix s))
    ]

pub skip-IsSuffix : (s : Bytes) → IsSuffix (skip_spaces_and_comments s) s
unfolding skip_spaces_and_comments
skip-IsSuffix s = skip_rounds-IsSuffix (length s) s

-- The text starts with neither a blank nor a comment.
pub record IsMeaningful (s : Bytes) : Type 0 where
  pub no_blank : ltrim s ≡ s
  pub no_comment : strip_leading_comments s ≡ s

IsSuffix-eq : {r s : Bytes} → IsSuffix r s → length r ≡ length s → r ≡ s
IsSuffix-eq here e = refl
IsSuffix-eq (later h) e = absurd (omega (arith, length-IsSuffix h))

IsMeaningful-nil : IsMeaningful []
unfolding ltrim strip_leading_comments
IsMeaningful-nil = record { no_blank = refl; no_comment = refl }

-- A round that moves nothing has met a meaningful start.
round-IsMeaningful :
    (s : Bytes) → length (ltrim (strip_leading_comments s)) ≡ length s → IsMeaningful s
round-IsMeaningful s e =
    let stripped : strip_leading_comments s ≡ s = IsSuffix-eq (strip-IsSuffix s) (
      omega (
        arith,
        length-IsSuffix (strip-IsSuffix s),
        length-IsSuffix (ltrim-IsSuffix (strip_leading_comments s)),
      )) in
    record { no_blank = IsSuffix-eq (ltrim-IsSuffix s) (rw stripped at e); no_comment = stripped }

IsMeaningful-of_empty : (s : Bytes) → length s ≡ 0 → IsMeaningful s
IsMeaningful-of_empty [] e = IsMeaningful-nil
IsMeaningful-of_empty (c ∷ cs) e = absurd (omega arith)

skip_rounds-IsMeaningful : (f : ℕ) (s : Bytes) → length s ≤ f → IsMeaningful (skip_rounds f s)
unfolding skip_rounds
skip_rounds-IsMeaningful zero s h = IsMeaningful-of_empty s (omega arith)
skip_rounds-IsMeaningful (suc f) s h =
    let next = ltrim (strip_leading_comments s) in
    let shorter = length-IsSuffix (round-IsSuffix s) in
    elim (Bool-cases (length next == 0)) [
      | inl e ↦ rw e (IsMeaningful-of_empty next (ground arith))
      | inr e ↦ elim (Bool-cases (length next == length s)) [
        | inl z ↦
            let same : length next ≡ length s = ground arith in
            rw (e, z)
              (subst IsMeaningful (sym (IsSuffix-eq (round-IsSuffix s) same))
                (round-IsMeaningful s same))
        | inr z ↦ rw (e, z) (skip_rounds-IsMeaningful f next (ground arith))
      ]
    ]

-- SkipSpacesAndComments only moves forward within the text, and what it returns starts with
-- neither a blank nor a comment (the text is then possibly empty): the bound on the rounds is
-- never what stops the loop.
pub skip_spaces_and_comments_lem :
    (s : Bytes)
    → IsSuffix (skip_spaces_and_comments s) s × IsMeaningful (skip_spaces_and_comments s)
unfolding skip_spaces_and_comments
skip_spaces_and_comments_lem s =
    (skip-IsSuffix s, skip_rounds-IsMeaningful (length s) s (omega arith))
