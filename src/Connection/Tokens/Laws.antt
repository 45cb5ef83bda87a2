-- ===== src/Connection/Tokens/Laws.antt =====
-- Tokens of a joined text, and attributes that are written as pairs.
use mariadb_connector_odbc.Base.{
  ℕ, zero, suc, ◌+◌, ◌-◌, ◌<◌, ◌≡◌, refl, ap, ◌∙◌, sym, true, false, none, some, List, [], ◌∷◌,
  ◌++◌, map, ltb, Bytes, codes, length, take, All, length-append, append_assoc, append-nil, join,
  arith, take_all,
}
use mariadb_connector_odbc.Text.{ltrim, is_space, head_or_nul}
use mariadb_connector_odbc.Connection.Tokens.{
  Token, one_of, strpbrk, last_token, tokens_from, tokenize, token_text, attribute_of,
  attributes_of, set_attributes, with_attribute,
}

-- No byte of the text is in the set.
abbrev pub Avoids : Bytes → Bytes → Type 0
Avoids set s = All (λ c. one_of set c ≡ false) s

strpbrk-none : (set s : Bytes) → Avoids set s → strpbrk s set ≡ none
unfolding strpbrk
strpbrk-none set [] h = refl
strpbrk-none set (c ∷ cs) h = rw h.0 (strpbrk-none set cs h.1)

strpbrk-append :
    (set s : Bytes) (c : ℕ) (rest : Bytes)
    → Avoids set s
    → one_of set c ≡ true
    → strpbrk (s ++ c ∷ rest) set ≡ some (c ∷ rest)
unfolding strpbrk
strpbrk-append set [] c rest h e = rw e refl
strpbrk-append set (d ∷ s) c rest h e = rw h.0 (strpbrk-append set s c rest h.1 e)

take-append : (s rest : Bytes) → take (length s) (s ++ rest) ≡ s
take-append [] rest = refl
take-append (c ∷ s) rest = ap (λ l. c ∷ l) (take-append s rest)

-- The tokens of a joined text.
abbrev tokens_of : Bytes → Bytes → List Bytes → List Token
tokens_of sep x [] = record { arr = x; size = length x } ∷ []
tokens_of sep x (y ∷ ys) =
    record { arr = join sep (x ∷ y ∷ ys); size = length x } ∷ tokens_of sep y ys

-- The last text is not empty.
abbrev pub EndsSolid : Bytes → List Bytes → Type 0
EndsSolid x [] = 0 < length x
EndsSolid x (y ∷ ys) = EndsSolid y ys

last_token-solid :
    (x : Bytes) → 0 < length x → last_token x ≡ record { arr = x; size = length x } ∷ []
last_token-solid [] h = absurd (omega (arith, h))
last_token-solid (c ∷ cs) h = refl

module _ (set : Bytes) (s : ℕ) (e : one_of set s ≡ true) where
  tokens_from-join :
      (fuel : ℕ) (x : Bytes) (xs : List Bytes)
      → length (join (s ∷ []) (x ∷ xs)) < fuel
      → All (Avoids set) (x ∷ xs)
      → EndsSolid x xs
      → tokens_from fuel set (join (s ∷ []) (x ∷ xs)) ≡ tokens_of (s ∷ []) x xs
  unfolding tokens_from
  tokens_from-join zero x xs b a solid = absurd (omega (arith, b))
  tokens_from-join (suc fuel) x [] b a solid =
      rw (append-nil x) (rw (strpbrk-none set x a.0, tokens_from) (last_token-solid x solid))
  tokens_from-join (suc fuel) x (y ∷ ys) b a solid =
      let next = join (s ∷ []) (y ∷ ys) in
      let size : length (x ++ s ∷ next) - length (s ∷ next) ≡ length x =
        omega (arith, length-append x (s ∷ next)) in
      let bound : length next < fuel = omega (arith, b, length-append x (s ∷ next)) in
      rw (strpbrk-append set x s next a.0 e, tokens_from)
        (rw size (
          ap (λ l. record { arr = x ++ s ∷ next; size = length x } ∷ l)
            (tokens_from-join fuel y ys bound a.1 solid)))

  token_texts : (x : Bytes) (xs : List Bytes) → map token_text (tokens_of (s ∷ []) x xs) ≡ x ∷ xs
  token_texts x [] = ap (λ l. l ∷ []) (take_all (length x) x (omega arith))
  token_texts x (y ∷ ys) =
      ap (λ l. l ∷ map token_text (tokens_of (s ∷ []) y ys))
        (take-append x (s ∷ join (s ∷ []) (y ∷ ys)))
      ∙ ap (λ l. x ∷ l) (token_texts y ys)

  -- Texts without a separator that are joined by one of the separators are the tokens of the joined text, in their
  -- order, unless the last one is empty.
  pub tokenize-join :
      (x : Bytes) (xs : List Bytes)
      → All (Avoids set) (x ∷ xs)
      → EndsSolid x xs
      → map token_text (tokenize (join (s ∷ []) (x ∷ xs)) set) ≡ x ∷ xs
  unfolding tokenize
  tokenize-join x xs a solid =
      ap (map token_text)
        (tokens_from-join (suc (length (join (s ∷ []) (x ∷ xs)))) x xs (omega arith) a solid)
      ∙ token_texts x xs

-- A name and its value as they are written.
abbrev pub written : Bytes × Bytes → Bytes
written a = a.0 ++ (codes "=" ++ a.1)

ltrim-solid :
    (k rest : Bytes) → is_space (head_or_nul k) ≡ false → ltrim (k ++ 61 ∷ rest) ≡ k ++ 61 ∷ rest
unfolding ltrim
ltrim-solid [] rest h = refl
ltrim-solid (c ∷ k) rest h = rw h refl

module _ (rtrim trim : Bytes → Bytes) where
  -- No separator and no blank stands where it would be read as something else.
  abbrev pub IsPlain : Bytes × Bytes → Type 0
  IsPlain a =
      Avoids (codes ",") a.0
      × Avoids (codes "=:") a.0
      × Avoids (codes ",") a.1
      × (is_space (head_or_nul a.0) ≡ false)
      × (rtrim a.0 ≡ a.0)
      × (trim a.1 ≡ a.1)

  attribute_of-written :
      (k v rest : Bytes)
      → IsPlain (k, v)
      → attribute_of rtrim trim
          (record { arr = k ++ 61 ∷ (v ++ rest); size = length (k ++ 61 ∷ v) })
        ≡ some (k, v)
  unfolding attribute_of
  attribute_of-written k v rest a =
      let n = length (v ++ rest) in
      let offset : length (k ++ 61 ∷ (v ++ rest)) - length (61 ∷ (v ++ rest)) ≡ length k =
        omega (arith, length-append k (61 ∷ (v ++ rest))) in
      let size : length (k ++ 61 ∷ v) ≡ length k + 1 + length v =
        omega (arith, length-append k (61 ∷ v)) in
      let inside : ltb (length k + 1 + length v) (length k) ≡ false = ground arith in
      let left : length k + 1 + length v - length k - 1 ≡ length v = omega arith in
      rw (ltrim-solid k (v ++ rest) a.3, attribute_of)
        (rw (strpbrk-append (codes "=:") k 61 (v ++ rest) a.1 refl) (
          rw (offset, size)
            (rw (inside, left)
              (rw (ltrim-solid k (v ++ rest) a.3) (
                rw offset (
                  rw (take-append k (61 ∷ (v ++ rest)), take-append v rest)
                    (rw (a.4, a.5) refl)))))))

  attributes_of-tokens :
      (a : Bytes × Bytes) (more : List (Bytes × Bytes))
      → All IsPlain (a ∷ more)
      → attributes_of rtrim trim (tokens_of (codes ",") (written a) (map written more))
        ≡ (false, a ∷ more)
  unfolding attributes_of
  attributes_of-tokens (k, v) [] h =
      ap (λ o. with_attribute o (false, []))
        (ap
            (λ w.
              attribute_of rtrim trim (record { arr = k ++ 61 ∷ w; size = length (k ++ 61 ∷ v) }))
            (sym (append-nil v))
          ∙ attribute_of-written k v [] h.0)
  attributes_of-tokens (k, v) (b ∷ more) h =
      let rest = codes "," ++ join (codes ",") (map written (b ∷ more)) in
      ap
        (λ o.
          with_attribute o
            (attributes_of rtrim trim (tokens_of (codes ",") (written b) (map written more))))
        (ap (λ w. attribute_of rtrim trim (record { arr = w; size = length (k ++ 61 ∷ v) }))
            (append_assoc k (61 ∷ v) rest)
          ∙ attribute_of-written k v rest h.0)
      ∙ ap (with_attribute (some (k, v))) (attributes_of-tokens b more h.1)

  Avoids-append : (set s t : Bytes) → Avoids set s → Avoids set t → Avoids set (s ++ t)
  Avoids-append set [] t a b = b
  Avoids-append set (c ∷ s) t a b = (a.0, Avoids-append set s t a.1 b)

  written-Avoids :
      (more : List (Bytes × Bytes)) → All IsPlain more → All (Avoids (codes ",")) (map written more)
  written-Avoids [] h = tt
  written-Avoids ((k, v) ∷ more) h =
      (Avoids-append (codes ",") k (61 ∷ v) h.0.0 (refl, h.0.2), written-Avoids more h.1)

  written-solid :
      (a : Bytes × Bytes) (more : List (Bytes × Bytes)) → EndsSolid (written a) (map written more)
  written-solid (k, v) [] = omega (arith, length-append k (61 ∷ v))
  written-solid a (b ∷ more) = written-solid b more

  -- Connection attributes that are written as pairs with = and joined by commas are handed to the server
  -- library as they were, in their order, and no failure is noted. The name has no comma, = or : and does not
  -- begin with a blank, the value has no comma, and the trimming functions of the library leave both as they are.
  pub set_attributes-written :
      (a : Bytes × Bytes) (more : List (Bytes × Bytes))
      → All IsPlain (a ∷ more)
      → set_attributes rtrim trim (join (codes ",") (map written (a ∷ more))) ≡ (false, a ∷ more)
  unfolding set_attributes tokenize
  set_attributes-written a more h =
      ap (attributes_of rtrim trim) (
        tokens_from-join (codes ",") 44 refl
          (suc (length (join (codes ",") (map written (a ∷ more))))) (written a) (map written more)
          (omega arith) (written-Avoids (a ∷ more) h) (written-solid a more))
      ∙ attributes_of-tokens a more h
