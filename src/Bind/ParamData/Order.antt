-- ===== src/Bind/ParamData/Order.antt =====
-- The order in which MADB_StmtParamData asks for parameters.
use mariadb_connector_odbc.Base.{
  ℕ, zero, suc, ◌+◌, ◌-◌, ◌≤◌, ◌<◌, ◌≡◌, refl, subst, ◌∙◌, false, inl, inr, Option, none, some,
  List, [], ◌∷◌, arith, if◌then◌else◌, Bool-cases,
}
use mariadb_connector_odbc.Base.Int.{ℤ, pos}
use mariadb_connector_odbc.Bind.{first_param, Memory, Desc, is_dae, find_in_row}
use mariadb_connector_odbc.Bind.ParamData.{
  ParamDesc, ParamStmt, param_source, row_index, next_param, param_data, asked,
}

-- The parameters among `n` from `i` on whose data comes at execution, in ascending order.
abbrev pub dae_params : Memory → Desc → ℕ → ℕ → ℕ → List ℤ
dae_params mem d row zero i = []
dae_params mem d row (suc n) i =
    let rest = dae_params mem d row n (i + 1) in if is_dae mem d row i then pos i ∷ rest else rest

module _ (mem : Memory) (d : Desc) (row : ℕ) where
  -- What the search finds is the head of the list, and the list goes on behind it.
  abbrev Heads : ℕ → ℕ → Option ℕ → Type 0
  Heads n i none = dae_params mem d row n i ≡ []
  Heads n i (some j) =
      (i ≤ j)
      × (j < i + n)
      × (dae_params mem d row n i ≡ pos j ∷ dae_params mem d row (i + n - (j + 1)) (j + 1))

  Heads-later :
      (n i : ℕ) (r : Option ℕ) → is_dae mem d row i ≡ false → Heads n (i + 1) r → Heads (suc n) i r
  Heads-later n i none e h = rw e h
  Heads-later n i (some j) e (a, b, c) =
      let same : i + suc n - (j + 1) ≡ i + 1 + n - (j + 1) = omega arith in
      (omega (arith, a), omega (arith, b), rw (e, same) c)

  find_in_row-Heads : (n i : ℕ) → Heads n i (find_in_row n i mem d row)
  unfolding find_in_row
  find_in_row-Heads zero i = refl
  find_in_row-Heads (suc n) i = elim (Bool-cases (is_dae mem d row i)) [
    | inl e ↦
        let same : i + suc n - (i + 1) ≡ n = omega arith in
        rw e (omega arith, omega arith, rw (e, same) refl)
    | inr e ↦ rw e (Heads-later n i _ e (find_in_row-Heads n (i + 1)))
  ]

-- What is left to ask for.
abbrev pub left : Memory → ParamStmt → ParamDesc → ℕ → List ℤ
left mem s d count =
    dae_params mem d.desc (row_index s.dae_row_number) (count - first_param s.put_param)
      (first_param s.put_param)

param_source-put_param :
    (s : ParamStmt) (p : ℤ) → param_source (record s { put_param = p }) ≡ param_source s
unfolding param_source
param_source-put_param s p = refl

next_param-Heads :
    (mem : Memory) (s : ParamStmt) (d : ParamDesc) (count : ℕ)
    → Heads mem d.desc
        (row_index s.dae_row_number)
        (count - first_param s.put_param)
        (first_param s.put_param)
        (next_param mem s d count)
unfolding next_param
next_param-Heads mem s d count =
    find_in_row-Heads mem d.desc (row_index s.dae_row_number) (count - first_param s.put_param)
      (first_param s.put_param)

asked_from :
    (fuel : ℕ) (mem : Memory) (s : ParamStmt) (d : ParamDesc) (count : ℕ) (r : Option ℕ)
    → param_source s ≡ some (d, count)
    → next_param mem s d count ≡ r
    → Heads mem d.desc
        (row_index s.dae_row_number)
        (count - first_param s.put_param)
        (first_param s.put_param)
        r
    → ((j : ℕ)
        → r ≡ some j
        → asked fuel mem (record s { put_param = pos j })
          ≡ some (left mem (record s { put_param = pos j }) d count))
    → asked (suc fuel) mem s ≡ some (left mem s d count)
unfolding asked param_data
asked_from fuel mem s d count none e f h later = rw (e, f, h) refl
asked_from fuel mem s d count (some j) e f (a, b, c) later =
    let same : first_param s.put_param + (count - first_param s.put_param) - (j + 1)
        ≡ count - (j + 1) =
      omega (arith, a, b) in
    rw (e, f, c, same, later j refl) refl

-- Called again and again, MADB_StmtParamData asks for exactly those parameters behind the one given last
-- whose data comes at execution, once each and in ascending order, and then goes on to the execution:
-- one call more than there are parameters left is enough. The statement has a descriptor and parameters,
-- and memory stays as it is.
pub asked-left :
    (fuel : ℕ) (mem : Memory) (s : ParamStmt) (d : ParamDesc) (count : ℕ)
    → param_source s ≡ some (d, count)
    → count - first_param s.put_param < fuel
    → asked fuel mem s ≡ some (left mem s d count)
asked-left zero mem s d count e h = absurd (omega (arith, h))
asked-left (suc fuel) mem s d count e h =
    let heads = next_param-Heads mem s d count in
    asked_from fuel mem s d count (next_param mem s d count) e refl heads (λ j q.
      asked-left fuel mem (record s { put_param = pos j }) d count
        (param_source-put_param s (pos j) ∙ e)
        (let (a, b, _) =
            subst
              (λ r.
                Heads mem d.desc (row_index s.dae_row_number) (count - first_param s.put_param)
                  (first_param s.put_param) r)
              q heads in
          omega (arith, a, b, h)))
