-- ===== src/Convert/Acquire.antt =====
-- The buffer that a conversion writes to.
use mariadb_connector_odbc.Base.{◌≡◌, ◌≢◌, refl, ◌⊎◌, inl, inr, true, Bool-cases, Option-cases}
use mariadb_connector_odbc.Convert.Times.{MysqlTime}
use mariadb_connector_odbc.Convert.ToSql.{
  Env, Target, Place, null, in_record, at_bind, contents, acquire, get_buffer_for_sql_value, write,
}

Place-cases : (p : Place) → (p ≡ null) ⊎ ((p ≡ in_record) ⊎ ((m : MysqlTime) × (p ≡ at_bind m)))
Place-cases null = inl refl
Place-cases in_record = inr (inl refl)
Place-cases (at_bind m) = inr (inr (m, refl))

-- With memory, a conversion has a buffer to write to.
pub acquire_lem :
    (env : Env) (t : Target)
    → env.has_memory ≡ true
    → (u : Target) × (acquire env t ≡ (u, true)) × (u.place ≢ null)
unfolding acquire get_buffer_for_sql_value
acquire_lem env t h = elim (Place-cases t.place) [
  | inl e ↦ elim (Bool-cases env.rebind) [
    | inl r ↦ rw (e, r, h) (_, refl, λ k. cc)
    | inr r ↦ elim (Option-cases t.internal) [
      | inl i ↦ rw (e, r, i, h) (_, refl, λ k. cc)
      | inr (m, i) ↦ rw (e, r, i) (_, refl, λ k. cc)
    ]
  ]
  | inr (inl e) ↦ rw (e, acquire) (t, refl, rw e (λ k. cc))
  | inr (inr (m, e)) ↦ rw (e, acquire) (t, refl, rw e (λ k. cc))
]

pub contents-write : (t : Target) (m : MysqlTime) → t.place ≢ null → contents (write t m) ≡ m
unfolding write
contents-write t m h = elim (Place-cases t.place) [
  | inl e ↦ absurd (h e)
  | inr (inl e) ↦ rw (e, write, e)
  | inr (inr (old, e)) ↦ rw (e, write)
]
