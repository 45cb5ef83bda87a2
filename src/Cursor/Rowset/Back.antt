-- ===== src/Cursor/Rowset/Back.antt =====
-- The loop over the rows of a rowset whose first row is read last.
use mariadb_connector_odbc.Base.{
  ℕ, zero, suc, ◌+◌, ◌≤◌, ◌<◌, ◌≡◌, refl, ap, ◌∙◌, ◌^◌, true, false, ◌⊎◌, inl, inr, some, arith,
  ◌==◌,
}
use mariadb_connector_odbc.Cursor.{
  ResultSet, Fetching, reply, map_to_row_status, calc_all_rows_rc, fetch_rows,
}
use mariadb_connector_odbc.Cursor.Rowset.{Lawful}
use mariadb_connector_odbc.Cursor.Rowset.Loop.{
  result_at, advance, fetch_at-advance, is_going, is_ended, counts_on, written_here,
  written_elsewhere, same_position,
}
use mariadb_connector_odbc.Sql.{SqlReturn}

-- The places behind `j` are written, and then the first.
pub record Gathered {R : Type 0} (ops : ResultSet R) (results : ℕ → SqlReturn) (first total j : ℕ)
    (s out : Fetching R) : Type 0 where
  pub row : ops.get_row out.rs ≡ first + 1
  pub count : ops.rows_count out.rs ≡ ops.rows_count s.rs
  pub position : out.position ≡ s.position
  pub next : out.next ≡ some (first + total)
  pub last : out.last_row_fetched + j ≡ s.last_row_fetched + total
  pub processed : out.processed + j ≡ s.processed + total
  pub rowset : out.rowset_size ≡ s.rowset_size
  pub outcome : out.result ≡ results (first + 1)
  pub at_first : out.status 0 ≡ map_to_row_status (results (first + 1))
  pub here :
      (i : ℕ) → j < i → i < total → out.status i ≡ map_to_row_status (results (first + 1 + i))
  pub before : (i : ℕ) → 0 < i → i ≤ j → out.status i ≡ s.status i
  pub behind : (i : ℕ) → total ≤ i → out.status i ≡ s.status i

module _ {R : Type 0} (ops : ResultSet R) (fetched fixed : ℕ → SqlReturn)
    (law : Lawful ops fetched fixed) (first total : ℕ) where
  abbrev results : ℕ → SqlReturn
  results = result_at ops fetched fixed law

  abbrev returned_to : Fetching R → Fetching R
  returned_to s = record s { next = some (ops.get_row s.rs); rs = ops.absolute first s.rs }

  last_round :
      (j : ℕ) (s : Fetching R)
      → 0 < total
      → j + 1 ≡ total
      → ops.get_row s.rs ≡ first + total
      → first + total ≤ ops.rows_count s.rs
      → 0 < s.position
      → Gathered ops results first total j s (advance ops fetched fixed law 0 (returned_to s))
  unfolding calc_all_rows_rc
  last_round j s t e r h p =
      let at = returned_to s in
      let back = law.row_absolute first s.rs (omega (arith, h)) in
      let more : ops.get_row at.rs < ops.rows_count at.rs =
        omega (arith, back, law.count_absolute first s.rs) in
      let moved = law.next_row at.rs more in
      let value = ap (λ k. results (k + 1)) back in
      let elsewhere = written_elsewhere ops fetched fixed law in
      let status = map_to_row_status (results (ops.get_row at.rs + 1)) in
      record {
        row = omega (arith, moved, back);
        count = law.count_next at.rs ∙ law.count_absolute first s.rs;
        position = same_position ops fetched fixed law 0 s p;
        next = ap some r;
        last = omega (arith, e);
        processed = omega (arith, e);
        rowset = refl;
        outcome = value;
        at_first = ap map_to_row_status value;
        here = λ i q b. absurd (omega (arith, e, q, b));
        before = λ i q b. elsewhere i 0 s status (inr q);
        behind = λ i q. elsewhere i 0 s status (inr (omega (arith, q, t)));
      }

  order : (j i : ℕ) → j < i → (i ≡ j + 1) ⊎ (j + 1 < i)
  order j i q = omega (arith, q)

  here_from :
      (j : ℕ) (s out : Fetching R)
      → ops.get_row s.rs ≡ first + 1 + j
      → Gathered ops results first total (j + 1) (advance ops fetched fixed law (j + 1) s) out
      → (i : ℕ) → i < total
      → (i ≡ j + 1) ⊎ (j + 1 < i)
      → out.status i ≡ map_to_row_status (results (first + 1 + i))
  here_from j s out r v i b (inr q) = v.here i q b
  here_from j s out r v i b (inl q) =
      let place : ops.get_row s.rs + 1 ≡ first + 1 + (j + 1) = omega (arith, r) in
      rw q (
        v.before (j + 1) (omega arith) (omega arith)
        ∙ written_here ops fetched fixed law (j + 1) s
            (map_to_row_status (results (ops.get_row s.rs + 1)))
        ∙ ap (λ k. map_to_row_status (results k)) place)

  earlier_round :
      (j : ℕ) (s out : Fetching R)
      → j + 1 < total
      → ops.get_row s.rs ≡ first + 1 + j
      → first + total ≤ ops.rows_count s.rs
      → 0 < s.position
      → Gathered ops results first total (j + 1) (advance ops fetched fixed law (j + 1) s) out
      → Gathered ops results first total j s out
  earlier_round j s out t r h p v =
      let more : ops.get_row s.rs < ops.rows_count s.rs = omega (arith, r, h, t) in
      let elsewhere = written_elsewhere ops fetched fixed law in
      let status = map_to_row_status (results (ops.get_row s.rs + 1)) in
      record {
        row = v.row;
        count = v.count ∙ law.count_next s.rs;
        position = v.position ∙ same_position ops fetched fixed law (j + 1) s p;
        next = v.next;
        last = omega (arith, v.last);
        processed = omega (arith, v.processed);
        rowset = v.rowset;
        outcome = v.outcome;
        at_first = v.at_first;
        here = λ i q b. here_from j s out r v i b (order j i q);
        before = λ i q b.
            v.before i q (omega (arith, b)) ∙ elsewhere i (j + 1) s status (inl (omega (arith, b)));
        behind = λ i q. v.behind i q ∙ elsewhere i (j + 1) s status (inr (omega (arith, q, t)));
      }

  is_last : (i : ℕ) → i ≡ total → (i == total) ≡ true
  is_last i e = ground arith

  is_earlier : (i : ℕ) → i < total → (i == total) ≡ false
  is_earlier i e = ground arith

  pub fetch_rows-Gathered :
      (k j : ℕ) (s : Fetching R)
      → j + suc k ≡ total
      → ops.get_row s.rs ≡ first + 1 + j
      → first + total ≤ ops.rows_count s.rs
      → 0 < s.position
      → total < 2 ^ 32
      → Gathered ops results first total j s (fetch_rows ops (suc k) total (some first) j s).1
  unfolding fetch_rows
  fetch_rows-Gathered zero j s e r h p w =
      let back = law.row_absolute first s.rs (omega (arith, h)) in
      let more : ops.get_row (returned_to s).rs < ops.rows_count (returned_to s).rs =
        omega (arith, back, h, e, law.count_absolute first s.rs) in
      rw
        (
          is_going j total (omega (arith, e)),
          counts_on j total (omega (arith, e)) w,
          is_last (j + 1) e,
          fetch_at-advance ops fetched fixed law 0 (returned_to s) more,
          is_ended (j + 1) total (omega (arith, e)),
        )
        (last_round j s (omega (arith, e)) e (omega (arith, r, e)) h p)
  fetch_rows-Gathered (suc k) j s e r h p w =
      let t : j + 1 < total = omega (arith, e) in
      let more : ops.get_row s.rs < ops.rows_count s.rs = omega (arith, r, h, t) in
      let at = advance ops fetched fixed law (j + 1) s in
      let moved : ops.get_row at.rs ≡ first + 1 + (j + 1) =
        omega (arith, law.next_row s.rs more, r) in
      let room : first + total ≤ ops.rows_count at.rs = omega (arith, law.count_next s.rs, h) in
      rw
        (
          is_going j total (omega (arith, e)),
          counts_on j total (omega (arith, e)) w,
          is_earlier (j + 1) t,
          fetch_at-advance ops fetched fixed law (j + 1) s more,
        )
        (earlier_round j s (fetch_rows ops (suc k) total (some first) (j + 1) at).1 t r h p
          (fetch_rows-Gathered k (j + 1) at (omega (arith, e)) moved room (ground arith) w))

  pub fetch_rows-first_result :
      (k j : ℕ) (s : Fetching R)
      → j + suc k ≡ total
      → ops.get_row s.rs ≡ first + 1 + j
      → first + total ≤ ops.rows_count s.rs
      → total < 2 ^ 32
      → (fetch_rows ops (suc k) total (some first) j s).0 ≡ reply (results (first + 1))
  unfolding fetch_rows calc_all_rows_rc
  fetch_rows-first_result zero j s e r h w =
      let back = law.row_absolute first s.rs (omega (arith, h)) in
      let more : ops.get_row (returned_to s).rs < ops.rows_count (returned_to s).rs =
        omega (arith, back, h, e, law.count_absolute first s.rs) in
      rw
        (
          is_going j total (omega (arith, e)),
          counts_on j total (omega (arith, e)) w,
          is_last (j + 1) e,
          fetch_at-advance ops fetched fixed law 0 (returned_to s) more,
          is_ended (j + 1) total (omega (arith, e)),
        )
        (ap (λ k. reply (results (k + 1))) back)
  fetch_rows-first_result (suc k) j s e r h w =
      let t : j + 1 < total = omega (arith, e) in
      let more : ops.get_row s.rs < ops.rows_count s.rs = omega (arith, r, h, t) in
      let at = advance ops fetched fixed law (j + 1) s in
      let moved : ops.get_row at.rs ≡ first + 1 + (j + 1) =
        omega (arith, law.next_row s.rs more, r) in
      rw
        (
          is_going j total (omega (arith, e)),
          counts_on j total (omega (arith, e)) w,
          is_earlier (j + 1) t,
          fetch_at-advance ops fetched fixed law (j + 1) s more,
        )
        (fetch_rows-first_result k (j + 1) at (omega (arith, e)) moved
          (omega (arith, law.count_next s.rs, h)) w)
