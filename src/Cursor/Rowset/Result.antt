-- ===== src/Cursor/Rowset/Result.antt =====
-- What the loop over the rows of a rowset returns.
use mariadb_connector_odbc.Base.{
  ℕ, zero, suc, ◌+◌, ◌≤◌, ◌<◌, ◌≡◌, refl, ap, ◌∙◌, ◌^◌, Bool, true, false, inl, inr, none, arith,
  ◌==◌, if◌then◌else◌, Bool-cases,
}
use mariadb_connector_odbc.Cursor.{ResultSet, Fetching, reply, calc_all_rows_rc, fetch_rows}
use mariadb_connector_odbc.Cursor.Rowset.{Lawful, all_like, common_result}
use mariadb_connector_odbc.Cursor.Rowset.Loop.{
  result_at, advance, fetch_at-advance, is_going, is_ended, counts_on,
}
use mariadb_connector_odbc.Sql.{SqlReturn, sql_success_with_info, eq_return}

if_same {ℓ} : {A : Type ℓ} (b : Bool) (a : A) → (if b then a else a) ≡ a
if_same true a = refl
if_same false a = refl

module _ {R : Type 0} (ops : ResultSet R) (fetched fixed : ℕ → SqlReturn)
    (law : Lawful ops fetched fixed) where
  abbrev results : ℕ → SqlReturn
  results = result_at ops fetched fixed law

  abbrev whole_result : SqlReturn → ℕ → ℕ → SqlReturn
  whole_result c from n = if all_like c results from n then c else sql_success_with_info

  -- One row more, whose result the rows before it may or may not share.
  one_more :
      (c : SqlReturn) (from n j : ℕ)
      → 0 < j
      → whole_result (calc_all_rows_rc c (results from) j) (from + 1) n
        ≡ whole_result c from (suc n)
  unfolding calc_all_rows_rc
  one_more c from n j p = elim (Bool-cases (j == 0)) [
    | inl h ↦ absurd (ground arith)
    | inr h ↦ elim (Bool-cases (eq_return (results from) c)) [
      | inl q ↦ rw (h, q) refl
      | inr q ↦
          rw (h, q)
            (if_same (all_like sql_success_with_info results (from + 1) n) sql_success_with_info)
    ]
  ]

  later_result :
      (n total j : ℕ) (s : Fetching R)
      → 0 < j
      → ops.get_row s.rs + n ≤ ops.rows_count s.rs
      → j + n ≡ total
      → total < 2 ^ 32
      → (fetch_rows ops n total none j s).0 ≡ reply (whole_result s.result (ops.get_row s.rs + 1) n)
  unfolding fetch_rows
  later_result zero total j s p h e w = rw (is_ended j total (omega (arith, e))) refl
  later_result (suc n) total j s p h e w =
      let more : ops.get_row s.rs < ops.rows_count s.rs = omega (arith, h) in
      let room : ops.get_row (ops.next s.rs).1 + n ≤ ops.rows_count (ops.next s.rs).1 =
        omega (arith, h, law.next_row s.rs more, law.count_next s.rs) in
      rw
        (
          is_going j total (omega (arith, e)),
          counts_on j total (omega (arith, e)) w,
          fetch_at-advance ops fetched fixed law j s more,
        )
        (later_result n total (j + 1) (advance ops fetched fixed law j s) (omega arith) room
            (omega (arith, e)) w
          ∙ ap
              (λ k. reply (
                whole_result (calc_all_rows_rc s.result (results (ops.get_row s.rs + 1)) j) (k + 1)
                  n))
              (law.next_row s.rs more)
          ∙ ap reply (one_more s.result (ops.get_row s.rs + 1) n j p))

  pub fetch_rows-common_result :
      (n total : ℕ) (s : Fetching R)
      → ops.get_row s.rs + suc n ≤ ops.rows_count s.rs
      → suc n ≡ total
      → total < 2 ^ 32
      → (fetch_rows ops (suc n) total none 0 s).0
        ≡ reply (common_result results (ops.get_row s.rs + 1) n)
  unfolding fetch_rows
  fetch_rows-common_result n total s h e w =
      let more : ops.get_row s.rs < ops.rows_count s.rs = omega (arith, h) in
      let room : ops.get_row (ops.next s.rs).1 + n ≤ ops.rows_count (ops.next s.rs).1 =
        omega (arith, h, law.next_row s.rs more, law.count_next s.rs) in
      rw
        (
          is_going 0 total (omega (arith, e)),
          counts_on 0 total (omega (arith, e)) w,
          fetch_at-advance ops fetched fixed law 0 s more,
        )
        (later_result n total 1 (advance ops fetched fixed law 0 s) (omega arith) room
            (omega (arith, e)) w
          ∙ ap (λ k. reply (whole_result (results (ops.get_row s.rs + 1)) (k + 1) n))
              (law.next_row s.rs more))
