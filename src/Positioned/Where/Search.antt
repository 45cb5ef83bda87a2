-- ===== src/Positioned/Where/Search.antt =====
-- The loop that looks for the columns of a key: the text it builds, and the index it leaves.
use mariadb_connector_odbc.Base.{
  ℕ, zero, suc, ◌+◌, ◌-◌, ◌≡◌, refl, ap, ◌∙◌, sym, Bool, true, false, Option, none, some, List, [],
  ◌∷◌, ◌++◌, map, if◌then◌else◌, Bytes, length, length-append, Bool-cases, inl, inr, arith,
  append_assoc, get_elem?,
}
use mariadb_connector_odbc.Descriptor.{set_elem}
use mariadb_connector_odbc.Positioned.{MysqlField}
use mariadb_connector_odbc.Positioned.Where.{
  KeyFlag, Cell, Built, built, read_failed, cannot_build, undefined_index, has_flag, count_flag,
  unwritten, condition, over_key, over_index, and_then, and_then_with,
}

-- The columns of a key, from column `i` on.
abbrev pub key_columns : KeyFlag → List MysqlField → ℕ → List ℕ
key_columns k [] i = []
key_columns k (f ∷ fs) i =
    if has_flag k f then i ∷ key_columns k fs (i + 1) else key_columns k fs (i + 1)

pub length-unwritten : (n : ℕ) → length (unwritten n) ≡ n
length-unwritten zero = refl
length-unwritten (suc n) = ap suc (length-unwritten n)

set_elem-append :
    (front : List (Option ℕ)) (a b : Option ℕ) (rest : List (Option ℕ))
    → set_elem (front ++ a ∷ rest) (length front) b ≡ front ++ b ∷ rest
set_elem-append [] a b rest = refl
set_elem-append (x ∷ front) a b rest = ap (λ l. x ∷ l) (set_elem-append front a b rest)

note :
    (front : List (Option ℕ)) (n i : ℕ)
    → set_elem (front ++ unwritten (suc n)) (length (front ++ unwritten (suc n)) - suc n) (some i)
      ≡ (front ++ some i ∷ []) ++ unwritten n
note front n i =
    let place : length (front ++ unwritten (suc n)) - suc n ≡ length front =
      omega (arith, length-append front (unwritten (suc n)), length-unwritten (suc n)) in
    rw place (
      set_elem-append front none (some i) (unwritten n)
      ∙ sym (append_assoc front (some i ∷ []) (unwritten n)))

pub get_elem?-append :
    (front : List MysqlField) (f : MysqlField) (fs : List MysqlField) (i : ℕ)
    → length front ≡ i
    → get_elem? (front ++ f ∷ fs) i ≡ some f
get_elem?-append [] f fs i e = rw (← e) refl
get_elem?-append (x ∷ front) f fs i e = rw (← e) (get_elem?-append front f fs (length front) refl)

and_then_with-built :
    (b : Built) (index : List (Option ℕ)) (next : Bytes → Built × List (Option ℕ))
    (other : Bytes → Built)
    → ((part : Bytes) → (next part).0 ≡ other part)
    → (and_then_with b index next).0 ≡ and_then b other
and_then_with-built (built part) index next other h = h part
and_then_with-built read_failed index next other h = refl
and_then_with-built cannot_build index next other h = refl
and_then_with-built undefined_index index next other h = refl

and_then_cong :
    (b : Built) (f g : Bytes → Built)
    → ((part : Bytes) → f part ≡ g part)
    → and_then b f ≡ and_then b g
and_then_cong (built part) f g h = h part
and_then_cong read_failed f g h = refl
and_then_cong cannot_build f g h = refl
and_then_cong undefined_index f g h = refl

-- A loop that was not left.
and_then_with-index :
    (b : Built) (index result : List (Option ℕ)) (next : Bytes → Built × List (Option ℕ))
    (other : Bytes → Built) (t : Bytes)
    → ((part : Bytes) → other part ≡ built t → (next part).1 ≡ result)
    → and_then b other ≡ built t
    → (and_then_with b index next).1 ≡ result
and_then_with-index (built part) index result next other t h e = h part e
and_then_with-index read_failed index result next other t h e = cc
and_then_with-index cannot_build index result next other t h e = cc
and_then_with-index undefined_index index result next other t h e = cc

module _ (escape : Bytes → Bytes) (markers : Bool) (cell : ℕ → Cell) where
  -- What the loop builds, without the index.
  unfoldable pub conditions : KeyFlag → List MysqlField → ℕ → Bytes → Built
  conditions k [] i text = built text
  conditions k (f ∷ fs) i text = elim (has_flag k f) [
    | false ↦ conditions k fs (i + 1) text
    | true ↦
        and_then (condition escape markers cell true f i)
          (λ part. conditions k fs (i + 1) (text ++ part))
  ]

  pub over_key-eq-conditions :
      (k : KeyFlag) (fs : List MysqlField) (i left : ℕ) (index : List (Option ℕ)) (text : Bytes)
      → (over_key escape markers cell k fs i left index text).0 ≡ conditions k fs i text
  unfolding over_key conditions
  over_key-eq-conditions k [] i left index text = refl
  over_key-eq-conditions k (f ∷ fs) i left index text = elim (Bool-cases (has_flag k f)) [
    | inl e ↦
        rw (e, over_key)
          (rw (e, conditions)
            (and_then_with-built (condition escape markers cell true f i)
              (set_elem index (length index - left) (some i))
              (λ part.
                over_key escape markers cell k fs (i + 1) (left - 1)
                  (set_elem index (length index - left) (some i)) (text ++ part))
              (λ part. conditions k fs (i + 1) (text ++ part))
              (λ part.
                over_key-eq-conditions k fs (i + 1) (left - 1)
                  (set_elem index (length index - left) (some i)) (text ++ part))))
    | inr e ↦
        rw (e, over_key) (rw (e, conditions) (over_key-eq-conditions k fs (i + 1) left index text))
  ]

  conditions-flagged :
      (k : KeyFlag) (f : MysqlField) (fs : List MysqlField) (i : ℕ) (text : Bytes)
      → has_flag k f ≡ true
      → conditions k (f ∷ fs) i text
        ≡ and_then
            (condition escape markers cell true f i)
            (λ part. conditions k fs (i + 1) (text ++ part))
  unfolding conditions
  conditions-flagged k f fs i text e = rw (e, conditions) refl

  conditions-other :
      (k : KeyFlag) (f : MysqlField) (fs : List MysqlField) (i : ℕ) (text : Bytes)
      → has_flag k f ≡ false
      → conditions k (f ∷ fs) i text ≡ conditions k fs (i + 1) text
  unfolding conditions
  conditions-other k f fs i text e = rw (e, conditions) refl

  over_key-flagged :
      (k : KeyFlag) (f : MysqlField) (fs : List MysqlField) (i left n : ℕ) (front : List (Option ℕ))
      (text : Bytes)
      → has_flag k f ≡ true
      → left ≡ suc n
      → over_key escape markers cell k (f ∷ fs) i left (front ++ unwritten left) text
        ≡ and_then_with
            (condition escape markers cell true f i)
            ((front ++ some i ∷ []) ++ unwritten n)
            (λ part.
              over_key escape markers cell k fs
                (i + 1)
                n
                ((front ++ some i ∷ []) ++ unwritten n)
                (text ++ part))
  unfolding over_key
  over_key-flagged k f fs i left n front text y e =
      let less : suc n - 1 ≡ n = omega arith in
      rw e (rw (y, over_key) (rw (note front n i, less) refl))

  pub over_key-index :
      (k : KeyFlag) (fs : List MysqlField) (i left : ℕ) (front : List (Option ℕ)) (text t : Bytes)
      → left ≡ count_flag k fs
      → conditions k fs i text ≡ built t
      → (over_key escape markers cell k fs i left (front ++ unwritten left) text).1
        ≡ front ++ map some (key_columns k fs i)
  unfolding over_key conditions
  over_key-index k [] i zero front text t e h = refl
  over_key-index k [] i (suc left) front text t e h = absurd (omega (arith, e))
  over_key-index k (f ∷ fs) i left front text t e h = elim (Bool-cases (has_flag k f)) [
    | inl y ↦
        let n = count_flag k fs in
        let m : left ≡ suc n = e ∙ rw y (omega arith) in
        rw (over_key-flagged k f fs i left n front text y m) (
          rw y (
            and_then_with-index (condition escape markers cell true f i)
              ((front ++ some i ∷ []) ++ unwritten n)
              (front ++ some i ∷ map some (key_columns k fs (i + 1)))
              (λ part.
                over_key escape markers cell k fs (i + 1) n ((front ++ some i ∷ []) ++ unwritten n)
                  (text ++ part))
              (λ part. conditions k fs (i + 1) (text ++ part)) t
              (λ part q.
                over_key-index k fs (i + 1) n (front ++ some i ∷ []) (text ++ part) t refl q
                ∙ append_assoc front (some i ∷ []) (map some (key_columns k fs (i + 1))))
              (sym (conditions-flagged k f fs i text y) ∙ h)))
    | inr n ↦
        rw (n, over_key)
          (over_key-index k fs (i + 1) left front text t (e ∙ rw n (omega arith))
            (sym (conditions-other k f fs i text n) ∙ h))
  ]

  pub over_index-eq-conditions :
      (k : KeyFlag) (front fs : List MysqlField) (i : ℕ) (text : Bytes)
      → length front ≡ i
      → over_index escape markers cell (front ++ fs) (map some (key_columns k fs i)) text
        ≡ conditions k fs i text
  unfolding over_index conditions
  over_index-eq-conditions k front [] i text e = refl
  over_index-eq-conditions k front (f ∷ fs) i text e =
      let next : length (front ++ f ∷ []) ≡ i + 1 = omega (arith, length-append front (f ∷ [])) in
      let rest = λ (more : Bytes).
        ap (λ l. over_index escape markers cell l (map some (key_columns k fs (i + 1))) more)
          (sym (append_assoc front (f ∷ []) fs))
        ∙ over_index-eq-conditions k (front ++ f ∷ []) fs (i + 1) more next in
      elim (Bool-cases (has_flag k f)) [
        | inl y ↦ rw y (
            rw (get_elem?-append front f fs i e, over_index)
              (and_then_cong (condition escape markers cell true f i)
                  (λ part.
                    over_index escape markers cell (front ++ f ∷ fs)
                      (map some (key_columns k fs (i + 1))) (text ++ part))
                  (λ part. conditions k fs (i + 1) (text ++ part)) (λ part. rest (text ++ part))
                ∙ sym (conditions-flagged k f fs i text y)))
        | inr n ↦ rw n (rest text ∙ sym (conditions-other k f fs i text n))
      ]
