-- ===== src/Attribute/Wired.antt =====
-- The application descriptors of a statement stay of their types, and an explicit one knows it.
use mariadb_connector_odbc.Base.{
  ℕ, ◌≡◌, refl, sym, ap, subst, ◌∙◌, true, false, not, ◌&&◌, some, ◌==◌, Bool-cases, inl, inr,
  eq_of_==, arith,
}
use mariadb_connector_odbc.Attribute.{
  DescObject, Store, StmtAttr, in_desc, in_options, app_param_desc, app_row_desc, Allows, update,
  remove_stmt_ref, is_kind, attach, set_app_desc, set_attr, place_of,
}
use mariadb_connector_odbc.Descriptor.Field.{set_header}
use mariadb_connector_odbc.Descriptor.{DescType, desc_apd, desc_ard}
use mariadb_connector_odbc.Attribute.Attach.{
  listed, remove_stmt_ref-kind, update-kind, update-elsewhere, attach-kind, attach-kind_kept,
  attach-listed, attach-elsewhere,
}

-- The descriptor in use and the statement's own one have the type, and one in use that is not the
-- statement's own has the statement in its list.
pub record IsPart (descs : ℕ → DescObject) (t : DescType) (stmt cur own : ℕ) : Type 0 where
  pub cur_kind : (descs cur).kind ≡ some t
  pub own_kind : (descs own).kind ≡ some t
  pub is_listed : (cur == own) ≡ false → listed stmt (descs cur).stmts ≡ true

pub record IsWired (w : Store) : Type 0 where
  pub params : IsPart w.descs desc_apd w.stmt.self w.stmt.apd w.stmt.iapd
  pub rows : IsPart w.descs desc_ard w.stmt.self w.stmt.ard w.stmt.iard

-- What is of another type is at another address.
apart :
    (t t2 : DescType) (f : ℕ → DescObject) (a x : ℕ)
    → is_kind t (some t2) ≡ false
    → is_kind t (f a).kind ≡ true
    → (f x).kind ≡ some t2
    → (a == x) ≡ false
apart t t2 f a x other k h = elim (Bool-cases (a == x)) [
  | inl q ↦ absurd (
      ground (arith, other, sym k ∙ ap (λ y. is_kind t (f y).kind) (eq_of_== q) ∙ ap (is_kind t) h))
  | inr q ↦ q
]

module _ (t : DescType) (stmt old own desc : ℕ) (f : ℕ → DescObject)
    (p : IsPart f t stmt old own) where
  own_kind_kept : (attach t stmt old own desc f own).kind ≡ some t
  own_kind_kept = elim (Bool-cases (desc == own)) [
    | inl h ↦
        subst (λ x. (attach t stmt old own desc f x).kind ≡ some t) (eq_of_== h)
          (attach-kind t stmt old own desc f)
    | inr h ↦ attach-kind_kept t stmt old own desc f own h ∙ p.own_kind
  ]

  -- The descriptor that is set.
  set_app_desc-IsPart :
      IsPart
        (set_app_desc t stmt old own desc f).2
        t
        stmt
        (set_app_desc t stmt old own desc f).1
        own
  unfolding set_app_desc
  set_app_desc-IsPart = elim (Bool-cases (desc == 0)) [
    | inl h ↦
        let kind =
          update-kind f old own (remove_stmt_ref stmt) (remove_stmt_ref-kind stmt) ∙ p.own_kind in
        rw h
          (record { cur_kind = kind; own_kind = kind; is_listed = λ e. absurd (ground (arith, e)) })
    | inr h ↦ elim (Bool-cases (not (f desc).is_explicit && not (desc == own))) [
      | inl e ↦ rw (h, e) p
      | inr e ↦ elim (Bool-cases (is_kind t (f desc).kind)) [
        | inl k ↦
            rw (h, e, k)
              (record {
                cur_kind = attach-kind t stmt old own desc f;
                own_kind = own_kind_kept;
                is_listed = attach-listed t stmt old own desc f;
              })
        | inr k ↦ rw (h, e, k) p
      ]
    ]
  ]

  -- The one of the other type.
  set_app_desc-other :
      (t2 : DescType) (cur2 own2 : ℕ)
      → is_kind t (some t2) ≡ false
      → is_kind t (some t) ≡ true
      → IsPart f t2 stmt cur2 own2
      → IsPart (set_app_desc t stmt old own desc f).2 t2 stmt cur2 own2
  unfolding set_app_desc
  set_app_desc-other t2 cur2 own2 other same q =
      let from_old = apart t t2 f old cur2 other (ap (is_kind t) p.cur_kind ∙ same) q.cur_kind in
      elim (Bool-cases (desc == 0)) [
        | inl h ↦ rw h (record {
          cur_kind =
              update-kind f old cur2 (remove_stmt_ref stmt) (remove_stmt_ref-kind stmt)
              ∙ q.cur_kind;
          own_kind =
              update-kind f old own2 (remove_stmt_ref stmt) (remove_stmt_ref-kind stmt)
              ∙ q.own_kind;
          is_listed = λ e.
              ap (λ d. listed stmt d.stmts)
                (update-elsewhere f old cur2 (remove_stmt_ref stmt) from_old)
              ∙ q.is_listed e;
        })
        | inr h ↦ elim (Bool-cases (not (f desc).is_explicit && not (desc == own))) [
          | inl e ↦ rw (h, e) q
          | inr e ↦ elim (Bool-cases (is_kind t (f desc).kind)) [
            | inl k ↦
                rw (h, e, k)
                  (record {
                    cur_kind =
                        attach-kind_kept t stmt old own desc f cur2
                          (apart t t2 f desc cur2 other k q.cur_kind)
                        ∙ q.cur_kind;
                    own_kind =
                        attach-kind_kept t stmt old own desc f own2
                          (apart t t2 f desc own2 other k q.own_kind)
                        ∙ q.own_kind;
                    is_listed = λ z.
                        ap (λ d. listed stmt d.stmts)
                          (attach-elsewhere t stmt old own desc f cur2 from_old
                            (apart t t2 f desc cur2 other k q.cur_kind))
                        ∙ q.is_listed z;
                  })
            | inr k ↦ rw (h, e, k) q
          ]
        ]
      ]

-- A change of a header keeps all that is asked for.
header-IsPart :
    (f : ℕ → DescObject) (t : DescType) (stmt cur own a : ℕ) (g : DescObject → DescObject)
    → ((d : DescObject) → (g d).kind ≡ d.kind)
    → ((d : DescObject) → (g d).stmts ≡ d.stmts)
    → IsPart f t stmt cur own
    → IsPart (update f a g) t stmt cur own
header-IsPart f t stmt cur own a g kinds lists p = record {
  cur_kind = update-kind f a cur g kinds ∙ p.cur_kind;
  own_kind = update-kind f a own g kinds ∙ p.own_kind;
  is_listed = λ e.
      ap (listed stmt)
        (elim (Bool-cases (a == cur)) [ inl h ↦ rw h (lists (f cur)) | inr h ↦ rw h refl ])
      ∙ p.is_listed e;
}

-- Whatever attribute is set to whatever value, the statement's descriptors of parameters and of rows stay
-- of their types, as do its own two, and an explicit one that it uses has it in its list of statements,
-- if that was so before; where an attribute cannot be set, too.
pub set_attr-IsWired :
    (c : Allows) (a : StmtAttr) (v : ℕ) (w : Store) → IsWired w → IsWired (set_attr c a v w).1
unfolding set_attr
set_attr-IsWired c (in_desc a) v w h = record {
  params =
      header-IsPart w.descs desc_apd w.stmt.self w.stmt.apd w.stmt.iapd (place_of a w.stmt).0
        (λ d. record d { header = set_header (place_of a w.stmt).1 v d.header }) (λ d. refl)
        (λ d. refl) h.params;
  rows =
      header-IsPart w.descs desc_ard w.stmt.self w.stmt.ard w.stmt.iard (place_of a w.stmt).0
        (λ d. record d { header = set_header (place_of a w.stmt).1 v d.header }) (λ d. refl)
        (λ d. refl) h.rows;
}
set_attr-IsWired c (in_options a) v w h = record { params = h.params; rows = h.rows }
set_attr-IsWired c app_param_desc v w h = record {
  params = set_app_desc-IsPart desc_apd w.stmt.self w.stmt.apd w.stmt.iapd v w.descs h.params;
  rows =
      set_app_desc-other desc_apd w.stmt.self w.stmt.apd w.stmt.iapd v w.descs h.params desc_ard
        w.stmt.ard w.stmt.iard refl refl h.rows;
}
set_attr-IsWired c app_row_desc v w h = record {
  params =
      set_app_desc-other desc_ard w.stmt.self w.stmt.ard w.stmt.iard v w.descs h.rows desc_apd
        w.stmt.apd w.stmt.iapd refl refl h.params;
  rows = set_app_desc-IsPart desc_ard w.stmt.self w.stmt.ard w.stmt.iard v w.descs h.rows;
}
set_attr-IsWired c _ v w h = h
