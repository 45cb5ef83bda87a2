-- ===== src/Query/Parse/Offsets.antt =====
-- ParseQuery ends, and its token offsets are places of the text, in order, where a token starts.
use mariadb_connector_odbc.Base.{
  ℕ, zero, suc, ◌+◌, ◌-◌, ◌*◌, ◌≤◌, ◌<◌, ◌≡◌, refl, ap, ◌∙◌, subst, ◌⊎◌, inl, inr, Bool, true,
  false, some, List, [], ◌∷◌, ◌++◌, arith, if◌then◌else◌, Bool-cases, Bytes, length, drop, All,
  All-append, All-map,
}
use mariadb_connector_odbc.Query.Comments.{
  tail-IsSuffix, IsMeaningful, skip_spaces_and_comments_lem,
}
use mariadb_connector_odbc.Query.Parse.{
  Scan, open_token, is_poor_man_done, first_byte, breaks_token, advance, Round, more, done,
  round_open, round_in, round, parse_rounds, max_rounds, start, parse_query,
}
use mariadb_connector_odbc.Query.{Query, skip_spaces_and_comments}
use mariadb_connector_odbc.Text.Laws.{IsSuffix, here, later, IsSuffix-trans, length-IsSuffix}
use mariadb_connector_odbc.Text.{head_or_nul, tail}
use mariadb_connector_odbc.Query.Parse.Steps.{first_byte-query, first_byte-rest, open_token-query}

abbrev pub Ascending : List ℕ → Type 0
Ascending [] = Unit
Ascending (x ∷ xs) = All (λ y. x < y) xs × Ascending xs

Ascending-concat :
    (xs : List ℕ) (o : ℕ) → Ascending xs → All (λ x. x < o) xs → Ascending (xs ++ o ∷ [])
Ascending-concat [] o a h = (tt, tt)
Ascending-concat (x ∷ xs) o a h =
    (All-append _ (o ∷ []) (h.0, tt) xs a.0, Ascending-concat xs o a.1 h.1)

-- The place behind what has been read; one past the end, once all has.
abbrev fence : Bytes → Bytes → ℕ
fence text [] = length text + 1
fence text (c ∷ cs) = length text - length (c ∷ cs)

abbrev pub IsTokenStart : Bytes → ℕ → Type 0
IsTokenStart text o = (o ≤ length text) × IsMeaningful (drop o text)

-- The tokens are places of the text, in strictly rising order, each at the end of the text or at a
-- byte that starts neither a blank nor a comment.
pub record IsTokenized (text : Bytes) (q : Query) : Type 0 where
  pub same_text : q.refined_text ≡ text
  pub ascending : Ascending q.tokens
  pub starts : All (IsTokenStart text) q.tokens

-- Between two rounds: the tokens so far are places of the text, in order, before the pointer.
record Inv (text : Bytes) (s : Scan) : Type 0 where
  same_text : s.query.refined_text ≡ text
  suffix : IsSuffix s.rest text
  ascending : Ascending s.query.tokens
  passed : All (λ o. o < fence text s.rest) s.query.tokens
  starts : All (IsTokenStart text) s.query.tokens

drop-IsSuffix : {r s : Bytes} → IsSuffix r s → drop (length s - length r) s ≡ r
drop-IsSuffix {r} here = let e : length r - length r ≡ 0 = omega arith in rw e
drop-IsSuffix {r} (later {c} {s} h) =
    let e : suc (length s) - length r ≡ suc (length s - length r) =
      omega (arith, length-IsSuffix h) in
    rw e (drop-IsSuffix h)

length-tail : (s : Bytes) → length (tail s) ≡ length s - 1
length-tail [] = omega arith
length-tail (c ∷ cs) = omega arith

fence-tail :
    (text p r : Bytes)
    → length p ≤ length text
    → length r ≤ length (tail p)
    → length text - length p < fence text r
fence-tail text p [] h k = omega arith
fence-tail text p (c ∷ cs) h k = omega (arith, length-tail p)

fence-le : (text s : Bytes) → 0 < length s → fence text s ≡ length text - length s
fence-le text [] h = absurd (omega arith)
fence-le text (c ∷ cs) h = refl

module _ (text : Bytes) (s : Scan) (unread : 0 < length s.rest) (inv : Inv text s) where
  place : ℕ
  place = length text - length (skip_spaces_and_comments s.rest)

  skip_suffix : IsSuffix (skip_spaces_and_comments s.rest) s.rest
  skip_suffix = (skip_spaces_and_comments_lem s.rest).0

  in_text : IsSuffix (skip_spaces_and_comments s.rest) text
  in_text = IsSuffix-trans skip_suffix inv.suffix

  before_place : All (λ o. o < place) s.query.tokens
  unfolding place
  before_place =
      All-map _ _
        (λ o h. omega (
          arith,
          fence-le text s.rest unread,
          length-IsSuffix skip_suffix,
          length-IsSuffix in_text,
        ))
        s.query.tokens inv.passed

  place-IsTokenStart : IsTokenStart text place
  unfolding place
  place-IsTokenStart =
      (omega arith, rw (drop-IsSuffix in_text) ((skip_spaces_and_comments_lem s.rest).1))

  abbrev opened : Scan
  opened = advance (first_byte (open_token s))

  opened-tokens : opened.query.tokens ≡ s.query.tokens ++ place ∷ []
  unfolding place
  opened-tokens =
      ap (λ (q : Query). q.tokens) (first_byte-query (open_token s))
      ∙ (open_token-query s).1
      ∙ rw inv.same_text

  opened-rest : IsSuffix opened.rest (tail (skip_spaces_and_comments s.rest))
  opened-rest =
      subst (λ p. IsSuffix (advance (first_byte (open_token s))).rest (tail p))
        (open_token-query s).2 (first_byte-rest (open_token s))

  place-fence : place < fence text opened.rest
  unfolding place
  place-fence = fence-tail text _ _ (length-IsSuffix in_text) (length-IsSuffix opened-rest)

  opened-Inv : Inv text opened
  opened-Inv = record {
    same_text =
        ap (λ (q : Query). q.refined_text) (first_byte-query (open_token s))
        ∙ (open_token-query s).0
        ∙ inv.same_text;
    suffix = IsSuffix-trans opened-rest (IsSuffix-trans (tail-IsSuffix _) in_text);
    ascending = rw opened-tokens (Ascending-concat _ place inv.ascending before_place);
    passed = rw opened-tokens (
        All-append _ _ (place-fence, tt) _
          (All-map _ _ (λ o h. omega (arith, place-fence)) _ before_place));
    starts = rw opened-tokens (All-append _ _ (place-IsTokenStart, tt) _ inv.starts);
  }

  -- The pointer moves over one byte.
  advance-Inv : Inv text (advance s)
  advance-Inv = record {
    same_text = inv.same_text;
    suffix = IsSuffix-trans (tail-IsSuffix _) inv.suffix;
    ascending = inv.ascending;
    passed =
        All-map _ _
          (λ o h. omega (
            arith,
            fence-le text s.rest unread,
            fence-tail text s.rest (tail s.rest) (length-IsSuffix inv.suffix) (omega arith),
          ))
          s.query.tokens inv.passed;
    starts = inv.starts;
  }

-- What is left to do: two rounds for each byte, and one if a token is being read.
abbrev measure : Scan → ℕ
measure s = 2 * length s.rest + (if s.reading_token then 1 else 0)

abbrev Advances : Bytes → Scan → Round → Type 0
Advances text s (more t) = Inv text t × (measure t < measure s)
Advances text s (done q) = IsTokenized text q

open_token-IsTokenized :
    (text : Bytes) (s : Scan)
    → 0 < length s.rest
    → Inv text s
    → IsTokenized text (open_token s).query
open_token-IsTokenized text s unread inv =
    let same = first_byte-query (open_token s) in
    let i = opened-Inv text s unread inv in
    subst (IsTokenized text) same
      (record { same_text = i.same_text; ascending = i.ascending; starts = i.starts })

round_open-Advances :
    (text : Bytes) (s : Scan)
    → 0 < length s.rest
    → s.reading_token ≡ false
    → Inv text s
    → Advances text s (round_open (open_token s))
unfolding round_open
round_open-Advances text s unread idle inv = elim (Bool-cases (is_poor_man_done (open_token s))) [
  | inl e ↦ rw e (open_token-IsTokenized text s unread inv)
  | inr e ↦ rw e (opened-Inv text s unread inv, smaller)
]
  where
    smaller : measure (advance (first_byte (open_token s))) < measure s
    smaller = ground (
      arith,
      length-IsSuffix (opened-rest text s unread inv),
      length-tail (skip_spaces_and_comments s.rest),
      length-IsSuffix (skip_suffix text s unread inv),
    )

List-cases : (s : Bytes) → (s ≡ []) ⊎ ((c : ℕ) × (cs : Bytes) × (s ≡ c ∷ cs))
List-cases [] = inl refl
List-cases (c ∷ cs) = inr (c, cs, refl)

Round-cases : (r : Round) → ((t : Scan) × (r ≡ more t)) ⊎ ((q : Query) × (r ≡ done q))
Round-cases (more t) = inl (t, refl)
Round-cases (done q) = inr (q, refl)

round-Advances :
    (text : Bytes) (s : Scan) (b : Bool)
    → s.reading_token ≡ b
    → 0 < length s.rest
    → Inv text s
    → Advances text s (round_in b s)
unfolding round_in
round-Advances text s false idle unread inv = round_open-Advances text s unread idle inv
round-Advances text s true reading unread inv =
    elim (Bool-cases (breaks_token (head_or_nul s.rest))) [
      | inl e ↦ rw e (Inv_idle inv, ground arith)
      | inr e ↦ rw e (advance-Inv text s unread inv, ground (arith, length-tail s.rest))
    ]
  where
    Inv_idle : Inv text s → Inv text (record s { reading_token = false })
    Inv_idle i = record {
      same_text = i.same_text;
      suffix = i.suffix;
      ascending = i.ascending;
      passed = i.passed;
      starts = i.starts;
    }

-- With a bound above the measure the loop ends, and its tokens are in order.
parse_rounds-IsTokenized :
    (f : ℕ) (text : Bytes) (s : Scan)
    → measure s < f
    → Inv text s
    → (q : Query) × (parse_rounds f s ≡ some q) × IsTokenized text q
unfolding parse_rounds
parse_rounds-IsTokenized zero text s h inv = absurd (omega arith)
parse_rounds-IsTokenized (suc f) text s h inv = elim (List-cases s.rest) [
  | inl e ↦ (s.query, rw (e, parse_rounds), finished)
  | inr (c, cs, e) ↦
      let unread : 0 < length s.rest = rw e (omega arith) in
      elim (Round-cases (round s)) [
        | inl (t, e') ↦
            let step = rw e' at (round-Advances text s s.reading_token refl unread inv) in
            let (q, p, i) = parse_rounds-IsTokenized f text t (omega (arith, step.1)) step.0 in
            (q, rw (e, e', parse_rounds) p, i)
        | inr (q, e') ↦ (
          q,
          rw (e, e', parse_rounds),
          rw e' at (round-Advances text s s.reading_token refl unread inv),
        )
      ]
]
  where
    finished : IsTokenized text s.query
    finished = record { same_text = inv.same_text; ascending = inv.ascending; starts = inv.starts }

-- ParseQuery always comes to an end, whatever the text is: started with no tokens, it leaves the
-- text as it was, and the tokens are places of that text in strictly rising order, each at the end
-- of the text or at a byte that starts neither a blank nor a comment.
pub parse_query-IsTokenized :
    (q : Query)
    → q.tokens ≡ []
    → (q' : Query) × (parse_query q ≡ some q') × IsTokenized q.refined_text q'
unfolding parse_query
parse_query-IsTokenized q fresh =
    parse_rounds-IsTokenized (max_rounds q.refined_text) q.refined_text (start q) (omega arith)
      (record {
        same_text = refl;
        suffix = here;
        ascending = rw fresh tt;
        passed = rw fresh tt;
        starts = rw fresh tt;
      })
