-- ===== src/Cursor/Rowset/Loop.antt =====
-- The loop over the rows of a rowset.
use mariadb_connector_odbc.Base.{
  ℕ, zero, suc, ◌+◌, ◌≤◌, ◌<◌, ◌≡◌, refl, sym, ◌∙◌, ◌^◌, true, false, ltb, none, arith, ◌==◌,
  if◌then◌else◌, inl, inr, ◌⊎◌,
}
use mariadb_connector_odbc.Cursor.{
  ResultSet, Fetching, RowStatus, goes_on, map_to_row_status, calc_all_rows_rc, row_result,
  write_at, unsigned_int, fetch_at, fetch_rows,
}
use mariadb_connector_odbc.Cursor.Rowset.{Lawful}
use mariadb_connector_odbc.Sql.{SqlReturn}

-- The test of the loop, and its counter while that does not wrap.
pub is_going : (j total : ℕ) → j < total → ltb j total ≡ true
is_going j total h = ground arith

pub is_ended : (j total : ℕ) → j ≡ total → ltb j total ≡ false
is_ended j total h = ground arith

pub counts_on : (j total : ℕ) → j < total → total < 2 ^ 32 → unsigned_int (j + 1) ≡ j + 1
counts_on j total h w = omega arith

-- The row's place in the rowset is written, and only that.
pub record Advanced {R : Type 0} (ops : ResultSet R) (results : ℕ → SqlReturn) (n j : ℕ)
    (s out : Fetching R) : Type 0 where
  pub row : ops.get_row out.rs ≡ ops.get_row s.rs + n
  pub count : ops.rows_count out.rs ≡ ops.rows_count s.rs
  pub position : out.position ≡ s.position
  pub next : out.next ≡ s.next
  pub last : out.last_row_fetched ≡ s.last_row_fetched + n
  pub processed : out.processed ≡ s.processed + n
  pub rowset : out.rowset_size ≡ s.rowset_size
  pub here :
      (i : ℕ) → i < n → out.status (j + i) ≡ map_to_row_status (results (ops.get_row s.rs + 1 + i))
  pub before : (i : ℕ) → i < j → out.status i ≡ s.status i
  pub behind : (i : ℕ) → j + n ≤ i → out.status i ≡ s.status i

module _ {R : Type 0} (ops : ResultSet R) (fetched fixed : ℕ → SqlReturn)
    (law : Lawful ops fetched fixed) where
  abbrev pub result_at : ℕ → SqlReturn
  result_at k = row_result (fetched k) (fixed k)

  -- The state after a round that reads the next row.
  abbrev pub advance : ℕ → Fetching R → Fetching R
  advance j s = record s {
    rs = (ops.next s.rs).1;
    position = if s.position == 0 then 1 else s.position;
    processed = s.processed + 1;
    last_row_fetched = s.last_row_fetched + 1;
    result = calc_all_rows_rc s.result (result_at (ops.get_row s.rs + 1)) j;
    status = write_at s.status j (map_to_row_status (result_at (ops.get_row s.rs + 1)));
  }

  pub fetch_at-advance :
      (j : ℕ) (s : Fetching R)
      → ops.get_row s.rs < ops.rows_count s.rs
      → fetch_at ops j s ≡ goes_on (advance j s)
  unfolding fetch_at calc_all_rows_rc
  fetch_at-advance j s h =
      rw (law.next_more s.rs h, law.read_outcome (ops.next s.rs).1 j, law.next_row s.rs h) refl

  pub written_here : (j : ℕ) (s : Fetching R) (a : RowStatus) → write_at s.status j a j ≡ a
  written_here j s a = ground arith

  pub written_elsewhere :
      (i j : ℕ) (s : Fetching R) (a : RowStatus)
      → (i < j) ⊎ (j < i)
      → write_at s.status j a i ≡ s.status i
  written_elsewhere i j s a h = ground arith

  pub same_position :
      (j : ℕ) (s : Fetching R) → 0 < s.position → (advance j s).position ≡ s.position
  same_position j s p = ground arith

  here_after :
      (n j : ℕ) (s : Fetching R)
      → ops.get_row s.rs < ops.rows_count s.rs
      → (out : Fetching R) → Advanced ops result_at n (j + 1) (advance j s) out
      → (i : ℕ) → i < suc n
      → out.status (j + i) ≡ map_to_row_status (result_at (ops.get_row s.rs + 1 + i))
  here_after n j s more out v zero q =
      let place : j + 0 ≡ j = omega arith in
      let row : ops.get_row s.rs + 1 + 0 ≡ ops.get_row s.rs + 1 = omega arith in
      rw (place, row)
        (v.before j (omega arith)
          ∙ written_here j s (map_to_row_status (result_at (ops.get_row s.rs + 1))))
  here_after n j s more out v (suc i) q =
      let place : j + suc i ≡ j + 1 + i = omega arith in
      let row : ops.get_row s.rs + 1 + suc i ≡ ops.get_row s.rs + 1 + 1 + i = omega arith in
      rw (place, row, sym (law.next_row s.rs more)) (v.here i (omega (arith, q)))

  -- One round, and `n` rounds after it.
  one_more :
      (n j : ℕ) (s : Fetching R)
      → ops.get_row s.rs < ops.rows_count s.rs
      → 0 < s.position
      → (out : Fetching R) → Advanced ops result_at n (j + 1) (advance j s) out
      → Advanced ops result_at (suc n) j s out
  one_more n j s more p out v =
      let moved = law.next_row s.rs more in
      record {
        row = omega (arith, v.row, moved);
        count = v.count ∙ law.count_next s.rs;
        position = v.position ∙ same_position j s p;
        next = v.next;
        last = omega (arith, v.last);
        processed = omega (arith, v.processed);
        rowset = v.rowset;
        here = here_after n j s more out v;
        before = λ i q.
            v.before i (omega (arith, q))
            ∙ written_elsewhere i j s (map_to_row_status (result_at (ops.get_row s.rs + 1)))
                (inl q);
        behind = λ i q.
            v.behind i (omega (arith, q))
            ∙ written_elsewhere i j s (map_to_row_status (result_at (ops.get_row s.rs + 1)))
                (inr (omega (arith, q)));
      }

  pub fetch_rows-Advanced :
      (n total j : ℕ) (s : Fetching R)
      → ops.get_row s.rs + n ≤ ops.rows_count s.rs
      → 0 < s.position
      → j + n ≡ total
      → total < 2 ^ 32
      → Advanced ops result_at n j s (fetch_rows ops n total none j s).1
  unfolding fetch_rows
  fetch_rows-Advanced zero total j s h p e w = rw (is_ended j total (omega (arith, e))) (record {
    row = omega arith;
    count = refl;
    position = refl;
    next = refl;
    last = omega arith;
    processed = omega arith;
    rowset = refl;
    here = λ i q. absurd (omega (arith, q));
    before = λ i q. refl;
    behind = λ i q. refl;
  })
  fetch_rows-Advanced (suc n) total j s h p e w =
      let more : ops.get_row s.rs < ops.rows_count s.rs = omega (arith, h) in
      rw
        (
          is_going j total (omega (arith, e)),
          counts_on j total (omega (arith, e)) w,
          fetch_at-advance j s more,
        )
        (one_more n j s more p (fetch_rows ops n total none (j + 1) (advance j s)).1 (
          fetch_rows-Advanced n total (j + 1) (advance j s)
            (omega (arith, h, law.next_row s.rs more, law.count_next s.rs)) (ground arith)
            (omega (arith, e)) w))
