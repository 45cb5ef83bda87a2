-- ===== src/Dsn/ConnString/Within.antt =====
-- Each round of MADB_ParseConnString leaves less to read.
use mariadb_connector_odbc.Base.{
  ℕ, zero, suc, ◌≤◌, ◌<◌, ◌≡◌, refl, ◌⊎◌, inl, inr, Bool, true, false, not, ◌&&◌, arith, Option,
  none, some, [], ◌∷◌, ◌==◌, if◌then◌else◌, Bool-cases, Bytes, length,
}
use mariadb_connector_odbc.Dsn.ConnString.{
  cons_before, split_at, past_nul, split_delimiter, read_braced, Reading, past, closed_brace,
  plain_value, read_value, after_of, Segment, skip, malformed, pair, segment_of, segment_at,
  next_segment,
}
use mariadb_connector_odbc.Dsn.Keys.{find_key}
use mariadb_connector_odbc.Text.Laws.{length-IsSuffix, ltrim-IsSuffix}
use mariadb_connector_odbc.Text.{head_or_nul, tail, ltrim, trim}

-- The text left to read, if any, is no longer than `n`.
abbrev pub Within : ℕ → Option Bytes → Type 0
Within n none = Unit
Within n (some r) = length r ≤ n

pub Within-mono : {m n : ℕ} (o : Option Bytes) → m ≤ n → Within m o → Within n o
Within-mono none h w = tt
Within-mono (some r) h w = omega arith

length-tail : (s : Bytes) → length (tail s) ≤ length s
length-tail [] = omega arith
length-tail (c ∷ cs) = omega arith

abbrev AfterWithin : ℕ → Option (Bytes × Bytes) → Type 0
AfterWithin n none = Unit
AfterWithin n (some (before, after)) = length after < n

AfterWithin-cons :
    (x n : ℕ) (o : Option (Bytes × Bytes)) → AfterWithin n o → AfterWithin (suc n) (cons_before x o)
AfterWithin-cons x n none h = tt
AfterWithin-cons x n (some (before, after)) h = omega arith

if-AfterWithin :
    (b : Bool) (n : ℕ) (o p : Option (Bytes × Bytes))
    → AfterWithin n o
    → AfterWithin n p
    → AfterWithin n (if b then o else p)
if-AfterWithin true n o p h k = h
if-AfterWithin false n o p h k = k

split_at-AfterWithin : (c : ℕ) (s : Bytes) → AfterWithin (length s) (split_at c s)
unfolding split_at
split_at-AfterWithin c [] = tt
split_at-AfterWithin c (x ∷ xs) = if-AfterWithin (x == c) _ (some ([], xs)) _ (omega arith) (
    if-AfterWithin (x == 0) _ none _ tt
      (AfterWithin-cons x (length xs) (split_at c xs) (split_at-AfterWithin c xs)))

length-past_nul : (s : Bytes) → length (past_nul s) ≤ length s
unfolding past_nul
length-past_nul [] = omega arith
length-past_nul (x ∷ xs) = elim (Bool-cases (x == 0)) [
  | inl e ↦ rw e (omega arith)
  | inr e ↦ rw e (omega (arith, length-past_nul xs))
]

abbrev DelimiterWithin : ℕ → Option (Bytes × Bytes) → Type 0
DelimiterWithin n none = Unit
DelimiterWithin n (some (before, after)) = length after ≤ n

weaken : (n : ℕ) (o : Option (Bytes × Bytes)) → AfterWithin n o → DelimiterWithin n o
weaken n none h = tt
weaken n (some (before, after)) h = omega arith

split_delimiter-Within : (d : ℕ) (s : Bytes) → DelimiterWithin (length s) (split_delimiter d s)
unfolding split_delimiter
split_delimiter-Within d s = elim (Bool-cases (d == 0)) [
  | inl e ↦ rw e (length-past_nul s)
  | inr e ↦ rw e (weaken (length s) (split_at d s) (split_at-AfterWithin d s))
]

after_of-Within : (n : ℕ) (o : Option (Bytes × Bytes)) → DelimiterWithin n o → Within n (after_of o)
after_of-Within n none h = tt
after_of-Within n (some (before, after)) h = h

plain_value-Within :
    (n : ℕ) (s : Bytes) (o : Option (Bytes × Bytes))
    → DelimiterWithin n o
    → Within n (plain_value s o).1
plain_value-Within n s none h = tt
plain_value-Within n s (some (before, after)) h = h

Pair-cases :
    (o : Option (Bytes × Bytes)) → (o ≡ none) ⊎ ((b : Bytes) × (a : Bytes) × (o ≡ some (b, a)))
Pair-cases none = inl refl
Pair-cases (some (b, a)) = inr (b, a, refl)

read_braced-Within : (f : ℕ) (acc s : Bytes) → Within (length s) (read_braced f acc s).1
unfolding read_braced
read_braced-Within zero acc s = tt
read_braced-Within (suc f) acc s = elim (Pair-cases (split_at b'}' s)) [
  | inl e ↦ rw (e, read_braced) tt
  | inr (before, after, e) ↦
      let shorter : length after < length s = rw e at (split_at-AfterWithin b'}' s) in
      elim (Bool-cases (head_or_nul after == b'}')) [
        | inl z ↦
            rw (e, z, read_braced)
              (Within-mono _ (omega (arith, length-tail after))
                (read_braced-Within f _ (tail after)))
        | inr z ↦ rw (e, z, read_braced) (omega arith)
      ]
]

past-Within : (n : ℕ) (o : Option Bytes) → Within n o → Within n (past o)
past-Within n none h = tt
past-Within n (some p) h = omega (arith, length-tail p)

if-Within :
    (b : Bool) (n : ℕ) (r q : Reading)
    → Within n r.1
    → Within n q.1
    → Within n (if b then r else q).1
if-Within true n r q h k = h
if-Within false n r q h k = k

read_value-Within : (d : ℕ) (text : Bytes) → Within (length text) (read_value d text).1
unfolding read_value
read_value-Within d text =
    let s = ltrim text in
    let shorter = length-IsSuffix (ltrim-IsSuffix text) in
    if-Within (head_or_nul s == b'{') (length text)
      (closed_brace (read_braced (length s) [] (tail s))) (plain_value s (split_delimiter d s))
      (past-Within _ _
        (Within-mono _ (omega (arith, length-tail s)) (read_braced-Within (length s) [] (tail s))))
      (Within-mono _ shorter (plain_value-Within _ s _ (split_delimiter-Within d s)))

abbrev SegmentWithin : ℕ → Segment → Type 0
SegmentWithin n (skip next) = Within n next
SegmentWithin n malformed = Unit
SegmentWithin n (pair i value next) = Within n next

segment_of-Within :
    (n d : ℕ) (o : Option ℕ) (text : Bytes)
    → length text ≤ n
    → SegmentWithin n (segment_of d o text)
segment_of-Within n d none text h =
    Within-mono _ h (after_of-Within _ (split_delimiter d text) (split_delimiter-Within d text))
segment_of-Within n d (some i) text h = Within-mono _ h (read_value-Within d text)

segment_at-Within :
    (n d : ℕ) (o : Option (Bytes × Bytes))
    → AfterWithin (suc n) o
    → SegmentWithin n (segment_at d o)
segment_at-Within n d none h = tt
segment_at-Within n d (some (key, text)) h =
    segment_of-Within n d (find_key (trim key)) text (omega arith)

-- A round moves `Key` forward.
pub next_segment-Within :
    (d c : ℕ) (cs : Bytes) → SegmentWithin (length cs) (next_segment d (c ∷ cs))
unfolding next_segment
next_segment-Within d c cs = elim (Bool-cases (not (d == 0) && c == d)) [
  | inl e ↦ rw e (omega arith)
  | inr e ↦ rw e (
      segment_at-Within (length cs) d (split_at b'=' (c ∷ cs)) (split_at-AfterWithin b'=' (c ∷ cs)))
]
