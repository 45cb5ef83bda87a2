-- ===== src/Bind/Dae.antt =====
-- MADB_FindNextDaeParam finds the first parameter, and misses none.
use mariadb_connector_odbc.Base.{
  ℕ, zero, suc, ◌+◌, ◌-◌, ◌≤◌, ◌<◌, ◌≡◌, subst, true, false, inl, inr, Option, none, some, arith,
  ltb, ◌==◌, Bool-cases, Option-cases, eq_of_==,
}
use mariadb_connector_odbc.Base.Int.{ℤ, pos, negsuc}
use mariadb_connector_odbc.Bind.{
  first_param, first_row, last_row, Memory, Desc, is_dae, find_in_row, find_in_rows,
  find_next_dae_param,
}

module _ (mem : Memory) (d : Desc) where
  -- No parameter of the row from `lo` up to `hi` has its data at execution.
  abbrev pub NoneIn : ℕ → ℕ → ℕ → Type 0
  NoneIn row lo hi = (i : ℕ) → lo ≤ i → i < hi → is_dae mem d row i ≡ false

  -- What a search of the parameters of one row from `lo` up to `hi` gives.
  abbrev pub InRow : ℕ → ℕ → ℕ → Option ℕ → Type 0
  InRow row lo hi none = NoneIn row lo hi
  InRow row lo hi (some i) = (lo ≤ i) × (i < hi) × (is_dae mem d row i ≡ true) × NoneIn row lo i

  NoneIn-cons :
      (row lo hi : ℕ) → is_dae mem d row lo ≡ false → NoneIn row (lo + 1) hi → NoneIn row lo hi
  NoneIn-cons row lo hi e h i le lt = elim (Bool-cases (i == lo)) [
    | inl same ↦ rw (eq_of_== same) e
    | inr other ↦ h i (ground arith) lt
  ]

  InRow-cons :
      (row lo hi : ℕ) (r : Option ℕ)
      → is_dae mem d row lo ≡ false
      → InRow row (lo + 1) hi r
      → InRow row lo hi r
  InRow-cons row lo hi none e h = NoneIn-cons row lo hi e h
  InRow-cons row lo hi (some i) e (a, b, c, k) = (omega arith, b, c, NoneIn-cons row lo i e k)

  find_in_row-InRow : (n i row hi : ℕ) → i + n ≡ hi → InRow row i hi (find_in_row n i mem d row)
  unfolding find_in_row
  find_in_row-InRow zero i row hi e = λ j le lt. absurd (omega arith)
  find_in_row-InRow (suc n) i row hi e = elim (Bool-cases (is_dae mem d row i)) [
    | inl e1 ↦ rw e1 (omega arith, omega arith, e1, λ j le lt. absurd (omega arith))
    | inr e0 ↦ rw e0 (InRow-cons row i hi _ e0 (find_in_row-InRow n (i + 1) row hi (omega arith)))
  ]

  -- The rows from `lo` up to `hi` have no such parameter from `from` on.
  abbrev pub NoRow : ℕ → ℕ → ℕ → Type 0
  NoRow from lo hi = (row : ℕ) → lo ≤ row → row < hi → NoneIn row from d.header.count

  -- What a search of these rows gives: the first parameter of the first row that has one.
  abbrev pub InRows : ℕ → ℕ → ℕ → Option ℕ → Type 0
  InRows from lo hi none = NoRow from lo hi
  InRows from lo hi (some i) =
      (row : ℕ) × (lo ≤ row)
      × (row < hi)
      × InRow row from d.header.count (some i)
      × NoRow from lo row

  NoRow-cons :
      (from lo hi : ℕ) → NoneIn lo from d.header.count → NoRow from (lo + 1) hi → NoRow from lo hi
  NoRow-cons from lo hi e h row le lt = elim (Bool-cases (row == lo)) [
    | inl same ↦ rw (eq_of_== same) e
    | inr other ↦ h row (ground arith) lt
  ]

  InRows-cons :
      (from lo hi : ℕ) (r : Option ℕ)
      → NoneIn lo from d.header.count
      → InRows from (lo + 1) hi r
      → InRows from lo hi r
  InRows-cons from lo hi none e h = NoRow-cons from lo hi e h
  InRows-cons from lo hi (some i) e (row, a, b, c, k) =
      (row, omega arith, b, c, NoRow-cons from lo row e k)

  beyond : (from : ℕ) → ltb d.header.count from ≡ true → 0 ≡ d.header.count - from
  beyond from e = ground (arith, e)

  nothing :
      (row from : ℕ)
      → ltb d.header.count from ≡ true
      → InRow row from d.header.count (find_in_row 0 from mem d row)
  unfolding find_in_row
  nothing row from e i le lt = absurd (ground (arith, e))

  row_found :
      (row from : ℕ)
      → InRow row from d.header.count (find_in_row (d.header.count - from) from mem d row)
  row_found row from = elim (Bool-cases (ltb d.header.count from)) [
    | inl e ↦
        subst (λ n. InRow row from d.header.count (find_in_row n from mem d row)) (beyond from e)
          (nothing row from e)
    | inr e ↦ find_in_row-InRow (d.header.count - from) from row d.header.count (ground arith)
  ]

  find_in_rows-InRows :
      (n row from hi : ℕ) → row + n ≡ hi → InRows from row hi (find_in_rows n row from mem d)
  unfolding find_in_rows
  find_in_rows-InRows zero row from hi e = λ j le lt. absurd (omega arith)
  find_in_rows-InRows (suc n) row from hi e =
      let here = row_found row from in
      let next = find_in_rows-InRows n (row + 1) from hi (omega arith) in
      elim (Option-cases (find_in_row (d.header.count - from) from mem d row)) [
        | inl k ↦
            rw k (InRows-cons from row hi _ (subst (InRow row from d.header.count) k here) next)
        | inr (i, k) ↦ rw k (
          row,
          omega arith,
          omega arith,
          subst (InRow row from d.header.count) k here,
          λ j le lt. absurd (omega arith),
        )
      ]

-- MADB_FindNextDaeParam returns the first parameter behind the initial one whose data comes at
-- execution, in the first of the rows that it is asked for that has one; it returns MADB_NOPARAM only
-- if none of these rows has such a parameter behind the initial one. The rows are all for the number
-- -1, and one row otherwise.
pub find_next_dae_param-InRows :
    (mem : Memory) (d : Desc) (initial row_number : ℤ)
    → InRows mem d
        (first_param initial)
        (first_row row_number)
        (last_row d.header row_number)
        (find_next_dae_param mem d initial row_number)
unfolding find_next_dae_param
find_next_dae_param-InRows mem d initial (pos n) =
    find_in_rows-InRows mem d _ (first_row (pos n)) (first_param initial) _ (omega arith)
find_next_dae_param-InRows mem d initial (negsuc zero) =
    find_in_rows-InRows mem d _ 0 (first_param initial) _ (omega arith)
find_next_dae_param-InRows mem d initial (negsuc (suc n)) =
    find_in_rows-InRows mem d _ 0 (first_param initial) _ (omega arith)
