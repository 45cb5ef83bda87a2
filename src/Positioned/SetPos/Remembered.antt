-- ===== src/Positioned/SetPos/Remembered.antt =====
-- SQL_DELETE of several rows against a search for the key in each of them.
use mariadb_connector_odbc.Base.{
  ℕ, zero, suc, ◌+◌, ◌≡◌, refl, ap, ◌∙◌, sym, subst, false, Option, none, some, Bytes, Option-cases,
  inl, inr, arith,
}
use mariadb_connector_odbc.Positioned.Where.{
  Index, Built, built, read_failed, cannot_build, undefined_index, index_unknown, KeyCounts,
  get_where,
}
use mariadb_connector_odbc.Positioned.Where.Cached.{get_where-remembered}
use mariadb_connector_odbc.Positioned.SetPos.{
  SetPosEnv, Progress, delete_built, delete_row, delete_rows, where_of, PosStmt,
}
use mariadb_connector_odbc.Positioned.SetPos.Call.{
  rounds, delete_range, set_pos_delete, looped, start_of,
}

module _ (env : SetPosEnv) where
  -- The reference: no index is remembered.
  abbrev pub searched : ℕ → Built × Index
  searched row = where_of env row index_unknown

  unfoldable pub fresh_rows : ℕ → ℕ → Progress → Option Progress
  unfolding delete_built get_where
  fresh_rows zero row p = some p
  fresh_rows (suc left) row p = elim (delete_built env row (searched row).0 p) [
    | none ↦ none
    | some q ↦ fresh_rows left (row + 1) q
  ]

  delete_built-kept :
      (row : ℕ) (b : Built) (p q : Progress) → delete_built env row b p ≡ some q → q.kept ≡ p.kept
  unfolding delete_built
  delete_built-kept row (built t) p q h = ground arith
  delete_built-kept row read_failed p q h = ground arith
  delete_built-kept row cannot_build p q h = ground arith
  delete_built-kept row undefined_index p q h = cc

  module _ (keys : KeyCounts) (first : ℕ) (t : Bytes) (known : env.counts ≡ some keys)
      (found : (searched first).0 ≡ built t) where
    where_of-kept :
        (row : ℕ) → where_of env row (searched first).1 ≡ ((searched row).0, (searched first).1)
    where_of-kept row =
        subst
          (λ k.
            get_where env.escape false (env.cells row)
              (get_where env.escape false (env.cells first) index_unknown env.fields k).1 env.fields
              k
            ≡ (
              (get_where env.escape false (env.cells row) index_unknown env.fields k).0,
              (get_where env.escape false (env.cells first) index_unknown env.fields k).1,
            ))
          (sym known)
          (get_where-remembered env.escape false false (env.cells first) (env.cells row) env.fields
            keys (some keys) t
            (subst
              (λ k.
                (get_where env.escape false (env.cells first) index_unknown env.fields k).0
                ≡ built t)
              known found))

    kept_eta :
        (p : Progress) → p.kept ≡ (searched first).1 → record p { kept = (searched first).1 } ≡ p
    kept_eta p h = ap (λ ix. record p { kept = ix }) (sym h)

    delete_row-searched :
        (row : ℕ) (p : Progress)
        → p.kept ≡ (searched first).1
        → delete_row env row p ≡ delete_built env row (searched row).0 p
    unfolding delete_row
    delete_row-searched row p h =
        ap
          (λ ix.
            delete_built env row (where_of env row ix).0
              (record p { kept = (where_of env row ix).1 }))
          h
        ∙ ap (λ w. delete_built env row w.0 (record p { kept = w.1 })) (where_of-kept row)
        ∙ ap (delete_built env row (searched row).0) (kept_eta p h)

    delete_rows-fresh :
        (left row : ℕ) (p : Progress)
        → p.kept ≡ (searched first).1
        → delete_rows env left row p ≡ fresh_rows left row p
    unfolding delete_rows fresh_rows
    delete_rows-fresh zero row p h = refl
    delete_rows-fresh (suc left) row p h =
        elim (Option-cases (delete_built env row (searched row).0 p)) [
          | inl e ↦ rw (delete_row-searched row p h, delete_rows) (rw (e, fresh_rows) refl)
          | inr (q, e) ↦
              rw (delete_row-searched row p h, delete_rows)
                (rw (e, fresh_rows)
                  (delete_rows-fresh left (row + 1) q
                    (delete_built-kept row (searched row).0 p q e ∙ h)))
        ]

    first_row :
        (p : Progress)
        → p.kept ≡ index_unknown
        → delete_row env first p
          ≡ delete_built env first (searched first).0 (record p { kept = (searched first).1 })
    unfolding delete_row
    first_row p h =
        ap
          (λ ix.
            delete_built env first (where_of env first ix).0
              (record p { kept = (where_of env first ix).1 }))
          h

    pub delete_rows-eq-fresh :
        (left : ℕ) (p : Progress)
        → p.kept ≡ index_unknown
        → delete_rows env (suc left) first p
          ≡ fresh_rows (suc left) first (record p { kept = (searched first).1 })
    unfolding delete_rows fresh_rows
    delete_rows-eq-fresh left p h =
        let begun : Progress = record p { kept = (searched first).1 } in
        let same : delete_row env first p ≡ delete_built env first (searched first).0 begun =
          first_row p h in
        elim (Option-cases (delete_built env first (searched first).0 begun)) [
          | inl e ↦ rw (same, delete_rows) (rw (e, fresh_rows) refl)
          | inr (q, e) ↦
              rw (same, delete_rows)
                (rw (e, fresh_rows)
                  (delete_rows-fresh left (first + 1) q
                    (delete_built-kept first (searched first).0 begun q e)))
        ]

-- SQL_DELETE of several rows, where the index is not known before and the condition of the first row can be built, does
-- what it would do if it looked for the key of the table again in every row: the same statements in the same order,
-- the same number of rows, the same value returned and the same rows passed over. It keeps the index of the first row.
pub set_pos_delete-fresh :
    (env : SetPosEnv) (s : PosStmt) (n left : ℕ) (keys : KeyCounts) (t : Bytes)
    → env.counts ≡ some keys
    → s.index ≡ index_unknown
    → rounds (delete_range s n).0 (delete_range s n).1 ≡ suc left
    → (searched env (delete_range s n).0).0 ≡ built t
    → set_pos_delete env s n
      ≡ looped s (delete_range s n) (
          fresh_rows env
            (suc left)
            (delete_range s n).0
            (record (start_of s) { kept = (searched env (delete_range s n).0).1 }))
unfolding set_pos_delete
set_pos_delete-fresh env s n left keys t known unknown count found =
    ap (λ r. looped s (delete_range s n) (delete_rows env r (delete_range s n).0 (start_of s)))
      count
    ∙ ap (looped s (delete_range s n))
        (delete_rows-eq-fresh env keys (delete_range s n).0 t known found left (start_of s) unknown)
