-- ===== src/Dsn/Store.antt =====
-- MADB_SetOptionValue, MADB_DsnSwitchDependents, MADB_DsnStoreValue, MADB_DsnUpdateOptionsFields.
use mariadb_connector_odbc.Base.{
  ℕ, zero, suc, ◌+◌, Bool, true, false, not, ◌&&◌, Option, none, some, List, [], ◌∷◌, ◌==◌,
  if◌then◌else◌, Bytes, codes,
}
use mariadb_connector_odbc.Dsn.Keys.{
  ItemType, string_item, int_item, bool_item, combo_item, option_item, cboxgroup_item, rbgroup_item,
  boolex_item, key_at, key_count, DsnKeyDep, dsn_keys_switch, Dsn, set_text, set_flag, set_num,
  options, options_index, has_bit, with_bit, without_bit, bool_byte,
}
use mariadb_connector_odbc.Dsn.Number.{atoi_char, strtoul, strtoul_uint}
use mariadb_connector_odbc.Text.{has_prefix_ci}

-- MADB_SetOptionValue
unfoldable pub set_option_value : Dsn → ℕ → ℕ → Dsn
set_option_value d i value =
    let f = (key_at i).flag_value in
    set_num (set_flag d i value) options_index
      (if value == 0 then without_bit (options d) f else with_bit (options d) f)

abbrev pub is_set_text : Option Bytes → ℕ
is_set_text none = 0
is_set_text (some []) = 0
is_set_text (some (c ∷ cs)) = bool_byte (not (c == 0))

-- `KeySet`, by the type of the changed keyword.
unfoldable pub key_set : ItemType → Dsn → ℕ → ℕ
key_set string_item d i = is_set_text (d.text i)
key_set combo_item d i = is_set_text (d.text i)
key_set int_item d i = bool_byte (not (d.num i == 0))
key_set _ d i = d.flag i

-- The store into a dependent, by its type; `none` is the `return FALSE`.
unfoldable pub switch_dependent : ItemType → Dsn → ℕ → ℕ → Option Dsn
switch_dependent bool_item d i value = some (set_flag d i value)
switch_dependent option_item d i value = some (set_option_value d i value)
switch_dependent _ d i value = none

unfoldable pub switch_one : Dsn → ℕ → DsnKeyDep → Option Dsn
unfolding key_set switch_dependent
switch_one d changed dep =
    if dep.key == changed
    then (if (key_at dep.dependent).is_alias
        then none
        else switch_dependent (key_at dep.dependent).item_type d dep.dependent
            (bool_byte (dep.same == key_set (key_at changed).item_type d changed)))
    else some d

abbrev pub or_keep : Dsn → Option Dsn → Dsn × Bool
or_keep d none = (d, false)
or_keep d (some e) = (e, true)

-- The loop of MADB_DsnSwitchDependents over the switches that are left.
unfoldable pub switch_all : Dsn → ℕ → List DsnKeyDep → Dsn × Bool
switch_all d changed [] = (d, true)
switch_all d changed (dep ∷ deps) = elim (switch_one d changed dep) [
  | none ↦ (d, false)
  | some e ↦ switch_all e changed deps
]

unfoldable pub switch_dependents : Dsn → ℕ → Dsn × Bool
unfolding switch_all switch_one dsn_keys_switch key_at
switch_dependents d changed = switch_all d changed dsn_keys_switch

-- `strcasestr(Value, name) != NULL`
unfoldable pub contains_ci : Bytes → Bytes → Bool
contains_ci name [] = false
contains_ci name (c ∷ cs) =
    let rest = contains_ci name cs in if has_prefix_ci (c ∷ cs) name then true else rest

-- The bits MADB_TLSV11, MADB_TLSV12 and MADB_TLSV13 of the versions that a text names.
unfoldable pub tls_versions : Bytes → ℕ
unfolding contains_ci has_prefix_ci
tls_versions s =
    (if contains_ci (codes "TLSv1.1") s then 1 else 0)
    + (if contains_ci (codes "TLSv1.2") s then 2 else 0)
    + (if contains_ci (codes "TLSv1.3") s then 4 else 0)

abbrev pub is_some {ℓ} : {A : Type ℓ} → Option A → Bool
is_some none = false
is_some (some a) = true

abbrev pub store_int : Dsn → ℕ → Bytes → Bool → Dsn
store_int d i value over =
    if not (d.num i == 0) && not over then d else set_num d i (strtoul_uint value)

-- The `switch` of MADB_DsnStoreValue. A value that is there is kept unless `over` is set. No
-- keyword is a radio group; its case falls through to that of the numbers.
unfoldable pub store_item : ItemType → Dsn → ℕ → Bytes → Bool → Dsn
store_item string_item d i value over =
    if is_some (d.text i) && not over then d else set_text d i (some value)
store_item combo_item d i value over =
    if is_some (d.text i) && not over then d else set_text d i (some value)
store_item bool_item d i value over =
    if not (d.flag i == 0) && not over then d else set_flag d i (atoi_char value)
store_item boolex_item d i value over =
    if not (d.flag i == 0) && not over then d else set_flag d i (atoi_char value)
store_item cboxgroup_item d i value over =
    if not (d.flag i == 0) && not over
    then d
    else set_flag d i (if atoi_char value == 0 then tls_versions value else atoi_char value)
store_item rbgroup_item d i value over =
    store_int (set_flag d i (bool_byte (not (atoi_char value == 0)))) i value over
store_item int_item d i value over = store_int d i value over
store_item option_item d i value over =
    if not (d.flag i == 0) && not over
    then d
    else set_option_value d i (bool_byte (not (strtoul value == 0)))

-- MADB_DsnStoreValue, on the index of a main keyword; an alias is refused.
unfoldable pub store_value : Dsn → ℕ → Bytes → Bool → Dsn × Bool
store_value d i value over =
    if (key_at i).is_alias
    then (d, false)
    else switch_dependents (store_item (key_at i).item_type d i value over) i

-- One round of MADB_DsnUpdateOptionsFields: an option's field is read off its bit.
abbrev pub update_option : Dsn → ℕ → Dsn
update_option d i =
    (switch_dependents (set_flag d i (bool_byte (has_bit (options d) (key_at i).flag_value))) i).0

abbrev pub is_option : ItemType → Bool
is_option option_item = true
is_option _ = false

unfoldable pub update_one : Dsn → ℕ → Dsn
unfolding switch_dependents
update_one d i =
    if not (key_at i).is_alias && is_option (key_at i).item_type then update_option d i else d

-- The loop over the keywords from `i` on, with `n` of them left.
unfoldable pub update_from : ℕ → ℕ → Dsn → Dsn
update_from zero i d = d
update_from (suc n) i d = update_from n (i + 1) (update_one d i)

unfoldable pub update_options_fields : Dsn → Dsn
unfolding update_from update_one
update_options_fields d = update_from key_count 0 d
