-- ===== src/Attribute/Readback.antt =====
-- What MADB_StmtGetAttr reads of an attribute that was set.
use mariadb_connector_odbc.Base.{
  ℕ, ◌≡◌, refl, sym, ap, ◌∙◌, Bool, true, false, Option, none, some, ◌==◌, if◌then◌else◌, arith,
  Bool-cases, inl, inr,
}
use mariadb_connector_odbc.Base.Int.{ℤ, pos}
use mariadb_connector_odbc.Attribute.{
  DescAttr, param_bind_offset_ptr, OptionAttr, in_desc, in_options, StmtObject, StmtOptions, Store,
  Allows, place_of, update, DescObject, desc_value, set_attr, get_attr, set_option, option_value,
  is_true, number, simulate_cursor, max_length, max_rows, metadata_id, query_timeout,
  exec_direct_on_server, prepare_on_client, cursor_scrollable, cursor_type, use_bookmarks,
}
use mariadb_connector_odbc.Descriptor.Field.{in_header, set_header, header_value}
use mariadb_connector_odbc.Descriptor.Readback.{stored, header_value-set_header}

place_of-member : (a : DescAttr) (s s2 : StmtObject) → (place_of a s).1 ≡ (place_of a s2).1
unfolding place_of
place_of-member param_bind_offset_ptr s s2 = refl
place_of-member _ s s2 = refl

-- MADB_StmtGetAttr reads the member that MADB_StmtSetAttr sets.
desc_value-place_of :
    (a : DescAttr) (f : ℕ → DescObject) (s : StmtObject)
    → pos (desc_value a f s) ≡ header_value (place_of a s).1 (f (place_of a s).0).header
unfolding desc_value place_of header_value
desc_value-place_of param_bind_offset_ptr f s = refl
desc_value-place_of _ f s = refl

abbrev set_place : DescAttr → ℕ → Store → ℕ → DescObject
set_place a v w =
    update w.descs (place_of a w.stmt).0
      (λ d. record d { header = set_header (place_of a w.stmt).1 v d.header })

same_place :
    (a : DescAttr) (v : ℕ) (w : Store) (s : StmtObject)
    → ((place_of a w.stmt).0 == (place_of a s).0) ≡ true
    → header_value (place_of a s).1 (set_place a v w (place_of a s).0).header
      ≡ stored (in_header (place_of a s).1) v
same_place a v w s e = rw e (
    rw (place_of-member a w.stmt s)
      (header_value-set_header (place_of a s).1 v (w.descs (place_of a s).0).header))

other_place :
    (a : DescAttr) (v : ℕ) (w : Store) (s : StmtObject)
    → ((place_of a w.stmt).0 == (place_of a s).0) ≡ false
    → header_value (place_of a s).1 (set_place a v w (place_of a s).0).header
      ≡ header_value (place_of a s).1 (w.descs (place_of a s).0).header
other_place a v w s e = rw e refl

-- An attribute that stands in a descriptor's header, set for one statement by MADB_StmtSetAttr, is read
-- back by MADB_StmtGetAttr as its member holds it for every statement that has the descriptor that was set,
-- and as before for every other.
pub get_attr-set_attr_shared :
    (c : Allows) (a : DescAttr) (v : ℕ) (w : Store) (s : StmtObject)
    → (((place_of a w.stmt).0 == (place_of a s).0) ≡ true
        → (get_attr (in_desc a) (record (set_attr c (in_desc a) v w).1 { stmt = s })).1
          ≡ some (stored (in_header (place_of a s).1) v))
      × (((place_of a w.stmt).0 == (place_of a s).0) ≡ false
          → (get_attr (in_desc a) (record (set_attr c (in_desc a) v w).1 { stmt = s })).1
            ≡ (get_attr (in_desc a) (record w { stmt = s })).1)
unfolding get_attr set_attr
get_attr-set_attr_shared c a v w s = (
  λ e. ap some (desc_value-place_of a (set_place a v w) s ∙ same_place a v w s e),
  λ e. ap some (
      desc_value-place_of a (set_place a v w) s
      ∙ other_place a v w s e
      ∙ sym (desc_value-place_of a w.descs s)),
)

-- The options that are read back, as they are read.
abbrev pub kept_option : Allows → OptionAttr → ℕ → Option ℕ
kept_option c simulate_cursor v = some v
kept_option c max_length v = some v
kept_option c max_rows v = some v
kept_option c metadata_id v = some v
kept_option c query_timeout v = if c.set_statement then some v else none
kept_option c exec_direct_on_server v = some (number (is_true v))
kept_option c prepare_on_client v = some (number (is_true v))
kept_option c _ v = none

abbrev as_read : Option ℕ → Option ℤ
as_read none = none
as_read (some n) = some (pos n)

kept_if : (b : Bool) → b ≡ true → (v : ℕ) → (if b then some v else none) ≡ some v
kept_if b e v = rw e refl

dropped_if : (b : Bool) → b ≡ false → (v : ℕ) → (if b then some v else none) ≡ none
dropped_if b e v = rw e refl

timeout_kept :
    (c : Allows) (v n : ℕ) (o : StmtOptions)
    → (if c.set_statement then some v else none) ≡ some n
    → some (pos (set_option c query_timeout v o).1.timeout) ≡ some (pos n)
unfolding set_option
timeout_kept c v n o h = elim (Bool-cases c.set_statement) [
  | inl e ↦ rw e (ap as_read (sym (kept_if c.set_statement e v) ∙ h))
  | inr e ↦ absurd (ground (arith, sym h ∙ dropped_if c.set_statement e v))
]

-- The options of the statement are read back as they were set: a number whole and a switch as 1 or 0, the
-- timeout where the server knows SET STATEMENT. The attributes of the cursor and SQL_ATTR_USE_BOOKMARKS
-- are none of them.
pub get_attr-set_attr_option :
    (c : Allows) (a : OptionAttr) (v n : ℕ) (w : Store)
    → kept_option c a v ≡ some n
    → (get_attr (in_options a) (set_attr c (in_options a) v w).1).1 ≡ some (pos n)
unfolding get_attr set_attr set_option option_value
get_attr-set_attr_option c simulate_cursor v n w h = ap as_read h
get_attr-set_attr_option c max_length v n w h = ap as_read h
get_attr-set_attr_option c max_rows v n w h = ap as_read h
get_attr-set_attr_option c metadata_id v n w h = ap as_read h
get_attr-set_attr_option c query_timeout v n w h = timeout_kept c v n w.stmt.options h
get_attr-set_attr_option c exec_direct_on_server v n w h = ap as_read h
get_attr-set_attr_option c prepare_on_client v n w h = ap as_read h
get_attr-set_attr_option c cursor_scrollable v n w h = absurd (ground (arith, h))
get_attr-set_attr_option c cursor_type v n w h = absurd (ground (arith, h))
get_attr-set_attr_option c use_bookmarks v n w h = absurd (ground (arith, h))
