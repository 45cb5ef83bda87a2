-- ===== src/Cursor/Next.antt =====
-- Fetching the whole result set by SQL_FETCH_NEXT.
pub mod Times
use Prim.Native.Nat.{min}
use mariadb_connector_odbc.Base.{
  ℕ, zero, suc, ◌+◌, ◌-◌, ◌*◌, ◌^◌, ◌≤◌, ◌<◌, ◌≡◌, refl, sym, ap, subst, ◌∙◌, Bool, true, false,
  not, ◌&&◌, ◌⊎◌, inl, inr, none, some, arith, ltb, ◌==◌, if◌then◌else◌, Bool-cases,
}
use mariadb_connector_odbc.Base.Int.{ℤ, pos}
use mariadb_connector_odbc.Cursor.{
  ResultSet, Fetching, Options, Reply, reply, should_stream, fetch, fetch_rowset,
}
use mariadb_connector_odbc.Cursor.Rowset.{Lawful, common_result}
use mariadb_connector_odbc.Cursor.Rowset.Loop.{result_at}
use mariadb_connector_odbc.Cursor.Rowset.Whole.{IsRowset, IsFetched}
use mariadb_connector_odbc.Cursor.Scroll.{
  fetch_next, target, seek, scroll_to, after_fetch, fetch_scroll,
}
use mariadb_connector_odbc.Sql.{SqlReturn, sql_success, sql_no_data}

-- The rows up to the end of the rowset that was fetched last.
abbrev pub rows_done : {R : Type 0} → Fetching R → ℕ
rows_done s = if s.position == 0 then 0 else s.position - 1 + s.last_row_fetched

-- MADB_StmtFetchScroll moves the result set before it fetches the next rowset.
abbrev pub moves_first : {R : Type 0} → Bool → Fetching R → Bool
moves_first forward_only s = ltb 1 s.last_row_fetched && not forward_only

-- The result set stands behind the rows that are done, or Cursor.Next leads there.
pub record IsReady {R : Type 0} (ops : ResultSet R) (forward_only : Bool) (s : Fetching R)
    : Type 0 where
  pub stands : moves_first forward_only s ≡ false → ops.get_row s.rs ≡ rows_done s
  pub sought : moves_first forward_only s ≡ true → (s.next ≡ none) ⊎ (s.next ≡ some (rows_done s))
  pub within : rows_done s ≤ ops.rows_count s.rs

-- SQL_NO_DATA from a fetch that read rows is reported as a success.
abbrev pub no_data_as_success : SqlReturn → SqlReturn
no_data_as_success sql_no_data = sql_success
no_data_as_success rc = rc

-- The application has a result set to fetch from, not streamed, and room for at least
-- one row and for fewer than 2 ^ 32, which the loop over the rows counts.
pub record CanFetch (o : Options) : Type 0 where
  pub result_set : o.has_result ≡ true
  pub cached : should_stream o ≡ false
  pub columns : 0 < o.column_count
  pub room : 0 < o.array_size
  pub few : o.array_size < 2 ^ 32

module _ {R : Type 0} (ops : ResultSet R) (fetched fixed : ℕ → SqlReturn)
    (law : Lawful ops fetched fixed) (o : Options) (can : CanFetch o) where
  abbrev results : ℕ → SqlReturn
  results = result_at ops fetched fixed law

  -- The rowset that the next call reads, and the state after it.
  pub record IsNext (s : Fetching R) (x : Reply × Fetching R) : Type 0 where
    pub rowset :
        IsRowset results
          (rows_done s + 1)
          (min o.array_size (ops.rows_count s.rs - rows_done s))
          x.1
    pub ready : IsReady ops o.forward_only x.1
    pub same_count : ops.rows_count x.1.rs ≡ ops.rows_count s.rs
    pub done : rows_done x.1 ≡ rows_done s + min o.array_size (ops.rows_count s.rs - rows_done s)
    pub returned :
        x.0
        ≡ reply (
            no_data_as_success (
              if o.forward_only
              then common_result results
                  (rows_done s + 1)
                  (min o.array_size (ops.rows_count s.rs - rows_done s) - 1)
              else results (rows_done s + 1)))

  -- Where the result set is when the rowset is read.
  abbrev placed : Fetching R → Fetching R
  placed s =
      let at = record s { position = suc (rows_done s) } in
      if moves_first o.forward_only s then record at { rs = seek ops at } else at

  target_next :
      (offset : ℤ) (s : Fetching R)
      → target fetch_next offset s.position s.last_row_fetched o.array_size (ops.rows_count s.rs)
        ≡ some (suc (rows_done s))
  unfolding target
  target_next offset s = elim (Bool-cases (s.position == 0)) [
    | inl q ↦ rw q refl
    | inr q ↦ rw q (ap some (ground (arith, q)))
  ]

  and_false : (b : Bool) → (b && false) ≡ false
  and_false true = refl
  and_false false = refl

  fetch_scroll-scroll_to :
      (offset : ℤ) (s : Fetching R)
      → fetch_scroll ops o fetch_next offset s ≡ scroll_to ops o true (some (suc (rows_done s))) s
  unfolding fetch_scroll
  fetch_scroll-scroll_to offset s =
      rw (can.result_set, target_next offset s, and_false o.forward_only) refl

  scroll_to-at_end :
      (s : Fetching R)
      → ops.rows_count s.rs ≤ rows_done s
      → ((scroll_to ops o true (some (suc (rows_done s))) s).0 ≡ reply sql_no_data)
        × (ops.rows_count (scroll_to ops o true (some (suc (rows_done s))) s).1.rs
            ≤ rows_done (scroll_to ops o true (some (suc (rows_done s))) s).1)
  unfolding scroll_to
  scroll_to-at_end s h =
      let outside : ltb (ops.rows_count s.rs) (suc (rows_done s)) ≡ true = ground (arith, h) in
      rw (can.cached, outside) (refl, ground (arith, h))

  pub fetch-fetch_rowset : (y : Fetching R) → fetch ops o y ≡ fetch_rowset ops o y
  unfolding fetch
  fetch-fetch_rowset y =
      let columns : (o.column_count == 0) ≡ false = ground (arith, can.columns) in
      let room : (o.array_size == 0) ≡ false = ground (arith, can.room) in rw (columns, room) refl

  after_fetch_returned :
      (rc : SqlReturn) (y : Fetching R)
      → 0 < y.last_row_fetched
      → after_fetch ops (reply rc, y) ≡ (reply (no_data_as_success rc), y)
  after_fetch_returned sql_no_data y h =
      let some_rows : ltb 0 y.last_row_fetched ≡ true = ground (arith, h) in rw some_rows refl
  after_fetch_returned _ y h = refl

  pub after_fetch-reply :
      (rc : SqlReturn) (x : Reply × Fetching R)
      → x.0 ≡ reply rc
      → 0 < x.1.last_row_fetched
      → after_fetch ops x ≡ (reply (no_data_as_success rc), x.1)
  after_fetch-reply rc x e h = ap (λ k. after_fetch ops (k, x.1)) e ∙ after_fetch_returned rc x.1 h

  pub fetched_done :
      (start count : ℕ) (y : Fetching R)
      → 0 < start
      → IsRowset results start count y
      → rows_done y ≡ start - 1 + count
  fetched_done start count y h v = ground (arith, v.position, v.last)

  pub fetched-IsReady :
      (start count : ℕ) (s : Fetching R) (x : Reply × Fetching R)
      → 0 < start
      → start + count ≤ ops.rows_count s.rs + 1
      → IsFetched ops results o.forward_only start count s x
      → IsReady ops o.forward_only x.1
  fetched-IsReady start count s x h b v =
      let done = fetched_done start count x.1 h v.rowset in
      let counted = ap (λ k. ltb 1 k && not o.forward_only) v.rowset.last in
      record {
        stands = λ q. omega (arith, h, done, v.place.stands (sym counted ∙ q));
        sought = λ q. inr (v.place.sought (sym counted ∙ q) ∙ ap some (sym done));
        within = omega (arith, h, b, done, v.place.rows);
      }

  pub fetched-IsNext :
      (start count : ℕ) (s y : Fetching R) (x : Reply × Fetching R)
      → start ≡ rows_done s + 1
      → count ≡ min o.array_size (ops.rows_count s.rs - rows_done s)
      → rows_done s < ops.rows_count s.rs
      → ops.rows_count y.rs ≡ ops.rows_count s.rs
      → IsFetched ops results o.forward_only start count y x
      → IsNext s (
        reply (
            no_data_as_success
              (if o.forward_only then common_result results start (count - 1) else results start)),
        x.1,
      )
  fetched-IsNext start count s y x e c h same v = record {
    rowset =
        subst (λ k. IsRowset results k (min o.array_size (ops.rows_count s.rs - rows_done s)) x.1) e
          (subst (λ k. IsRowset results start k x.1) c v.rowset);
    ready = fetched-IsReady start count y x (omega (arith, e)) (omega (arith, e, c, h, same)) v;
    same_count = v.place.rows ∙ same;
    done = omega (arith, fetched_done start count x.1 (omega (arith, e)) v.rowset, e, c);
    returned =
        ap (λ k. reply (no_data_as_success k))
          (ap (λ k. if o.forward_only then common_result results k (count - 1) else results k) e
            ∙ ap
                (λ k.
                  if o.forward_only
                  then common_result results (rows_done s + 1) (k - 1)
                  else results (rows_done s + 1))
                c);
  }

  -- When no row is left, SQL_FETCH_NEXT returns SQL_NO_DATA, and again after that.
  pub fetch_scroll-at_end :
      (offset : ℤ) (s : Fetching R)
      → ops.rows_count s.rs ≤ rows_done s
      → ((fetch_scroll ops o fetch_next offset s).0 ≡ reply sql_no_data)
        × (ops.rows_count (fetch_scroll ops o fetch_next offset s).1.rs
            ≤ rows_done (fetch_scroll ops o fetch_next offset s).1)
  fetch_scroll-at_end offset s h = rw (fetch_scroll-scroll_to offset s) (scroll_to-at_end s h)
