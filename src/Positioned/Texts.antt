-- ===== src/Positioned/Texts.antt =====
-- The text of an insertion through a cursor, and the parameters that are bound for it.
pub mod Update
use mariadb_connector_odbc.Base.{
  ℕ, ◌+◌, ◌<◌, ◌≡◌, refl, ap, ◌∙◌, sym, Bool, true, false, not, ◌||◌, Option, none, some, List, [],
  ◌∷◌, ◌++◌, map, ◌==◌, if◌then◌else◌, Bytes, codes, length, All, Bool-cases, inl, inr, arith,
  append_assoc, length-append, append-nil, get_elem?, each, join,
}
use mariadb_connector_odbc.Bind.{Header, Memory, ignored_at, get_bind_offset}
use mariadb_connector_odbc.Positioned.{
  Column, quoted, set_item, left_out, passed_by, inserted, insert_from, insert_set, set_from,
  update_set, bind_for_add, bind_for_update, dae_row,
}

-- The elements that pass a test, and their places when the first one stands at `k`.
abbrev pub selected : (Column → Bool) → List Column → List Column
selected p [] = []
selected p (c ∷ cs) = if p c then c ∷ selected p cs else selected p cs

abbrev pub places : (Column → Bool) → ℕ → List Column → List ℕ
places p k [] = []
places p k (c ∷ cs) = if p c then k ∷ places p (k + 1) cs else places p (k + 1) cs

-- Elements with consecutive numbers.
abbrev pub numbered {ℓ} : {A : Type ℓ} → ℕ → List A → List (ℕ × A)
numbered n [] = []
numbered n (x ∷ xs) = (n, x) ∷ numbered (n + 1) xs

get_elem?-append :
    (front : List Column) (c : Column) (cs : List Column)
    → get_elem? (front ++ c ∷ cs) (length front) ≡ some c
get_elem?-append [] c cs = refl
get_elem?-append (x ∷ front) c cs = get_elem?-append front c cs

module _ (p : Column → Bool) where
  pub get_elem?-places :
      (front cs : List Column) (k : ℕ)
      → length front ≡ k
      → map (get_elem? (front ++ cs)) (places p k cs) ≡ map some (selected p cs)
  get_elem?-places front [] k e = refl
  get_elem?-places front (c ∷ cs) k e =
      let next : length (front ++ c ∷ []) ≡ k + 1 = omega (arith, length-append front (c ∷ [])) in
      let rest : map (get_elem? (front ++ c ∷ cs)) (places p (k + 1) cs)
          ≡ map some (selected p cs) =
        ap (λ l. map (get_elem? l) (places p (k + 1) cs)) (sym (append_assoc front (c ∷ []) cs))
        ∙ get_elem?-places (front ++ c ∷ []) cs (k + 1) next in
      elim (Bool-cases (p c)) [
        | inl h ↦ rw h (rw (← e, get_elem?-append front c cs) (ap (λ l. some c ∷ l) (rw e rest)))
        | inr h ↦ rw h rest
      ]

module _ (mem : Memory) (h : Header) where
  abbrev names : List Column → List Bytes
  names cs = map (λ c. quoted c.field.org_name) cs

  abbrev marks : List Column → List Bytes
  marks cs = map (λ c. codes "?") cs

  insert_from-eq-each :
      (cs : List Column) (text col_vals : Bytes)
      → insert_from mem h cs true text col_vals ≡ (
        text ++ each (codes ",") (names (selected (inserted mem h) cs)),
        col_vals ++ each (codes ",") (marks (selected (inserted mem h) cs)),
      )
  unfolding insert_from
  insert_from-eq-each [] text col_vals = simp append-nil
  insert_from-eq-each (c ∷ cs) text col_vals = elim (Bool-cases (inserted mem h c)) [
    | inl e ↦
        rw (e, insert_from)
          (insert_from-eq-each cs (text ++ (codes "," ++ quoted c.field.org_name))
              (col_vals ++ (codes "," ++ codes "?"))
            ∙ simp append_assoc)
    | inr e ↦ rw (e, insert_from) (insert_from-eq-each cs text col_vals)
  ]

  insert_from-eq-join :
      (cs : List Column) (text col_vals : Bytes)
      → insert_from mem h cs false text col_vals ≡ (
        text ++ join (codes ",") (names (selected (inserted mem h) cs)),
        col_vals ++ join (codes ",") (marks (selected (inserted mem h) cs)),
      )
  unfolding insert_from
  insert_from-eq-join [] text col_vals = simp append-nil
  insert_from-eq-join (c ∷ cs) text col_vals = elim (Bool-cases (inserted mem h c)) [
    | inl e ↦
        rw (e, insert_from)
          (insert_from-eq-each cs (text ++ quoted c.field.org_name) (col_vals ++ codes "?")
            ∙ simp append_assoc)
    | inr e ↦ rw (e, insert_from) (insert_from-eq-join cs text col_vals)
  ]

  bind_for_add-eq-places :
      (cs : List Column) (column param : ℕ)
      → bind_for_add mem h cs column param
        ≡ numbered (param + 1) (places (inserted mem h) column cs)
  unfolding bind_for_add
  bind_for_add-eq-places [] column param = refl
  bind_for_add-eq-places (c ∷ cs) column param = elim (Bool-cases (inserted mem h c)) [
    | inl e ↦
        rw (e, bind_for_add)
          (ap (λ l. (param + 1, column) ∷ l) (bind_for_add-eq-places cs (column + 1) (param + 1)))
    | inr e ↦ rw (e, bind_for_add) (bind_for_add-eq-places cs (column + 1) param)
  ]

  -- The list of names and the list of marks of an insertion have one entry for each column that is in use and not
  -- ignored in all rows, and the parameters that are bound have the numbers from 1 on, in the order of those
  -- columns.
  pub insert_set-bind_for_add :
      (cs : List Column)
      → let sel = selected (inserted mem h) cs in
        (insert_set mem h cs
          ≡ codes " ("
            ++ (join (codes ",") (map (λ c. quoted c.field.org_name) sel)
                ++ (codes ") VALUES ("
                    ++ (join (codes ",") (map (λ c. codes "?") sel) ++ codes ")"))))
        × ((ps : List ℕ) × (bind_for_add mem h cs 0 0 ≡ numbered 1 ps)
            × (map (get_elem? cs) ps ≡ map some sel))
  unfolding insert_set
  insert_set-bind_for_add cs = (
    rw (insert_from-eq-join cs (codes " (") (codes "VALUES (")) (simp append_assoc),
    (
      places (inserted mem h) 0 cs,
      bind_for_add-eq-places cs 0 0,
      get_elem?-places (inserted mem h) [] cs 0 refl,
    ),
  )
