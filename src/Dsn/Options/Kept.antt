-- ===== src/Dsn/Options/Kept.antt =====
-- Every store keeps the options' fields in step with their bits, and NamedPipe apart from TCPIP.
use mariadb_connector_odbc.Base.{
  ℕ, ◌≡◌, ◌≢◌, refl, sym, ap, ◌∙◌, ◌⊎◌, inl, inr, Bool, true, false, not, ◌&&◌, arith, ◌==◌,
  ==_refl, if◌then◌else◌, Bool-cases, some, Bytes, eq_of_==, ne_of_==,
}
use mariadb_connector_odbc.Dsn.Keys.{
  ItemType, string_item, int_item, bool_item, combo_item, option_item, cboxgroup_item, rbgroup_item,
  boolex_item, key_at, Dsn, set_text, set_flag, set_num, update, options, options_index, bool_byte,
}
use mariadb_connector_odbc.Dsn.Options.{
  OptionKey, named_pipe, auto_reconnect, index, Mirrors, IsCoherent, option_key_of,
  flag_value-index, OptionKey-discrete, has_bit-store, has_bit-store_ne, index_inj, option_stored,
}
use mariadb_connector_odbc.Dsn.Number.{atoi_char, strtoul}
use mariadb_connector_odbc.Dsn.Store.{
  is_some, set_option_value, switch_dependents, store_int, store_item, store_value,
  update_options_fields,
}

abbrev pub AllMirror : Dsn → Type 0
AllMirror d = (k : OptionKey) → Mirrors d k

update_self {ℓ} : {A : Type ℓ} (f : ℕ → A) (i : ℕ) (v : A) → update f i v i ≡ v
update_self f i v = rw ==_refl

update_ne {ℓ} : {A : Type ℓ} (f : ℕ → A) (i j : ℕ) (v : A) → i ≢ j → update f i v j ≡ f j
update_ne f i j v h = elim (Bool-cases (i == j)) [ inl e ↦ absurd (h (eq_of_== e)) | inr e ↦ rw e ]

index_type : (k : OptionKey) → (key_at (index k)).item_type ≡ option_item
unfolding key_at
index_type named_pipe = refl
index_type auto_reconnect = refl
index_type OptionKey.no_prompt = refl
index_type OptionKey.use_mycnf = refl
index_type OptionKey.forward_only = refl
index_type OptionKey.stream_rs = refl
index_type OptionKey.no_bigint = refl

-- A store into a field of another type leaves the options' fields.
set_flag-AllMirror :
    (d : Dsn) (i v : ℕ)
    → (key_at i).item_type ≢ option_item
    → AllMirror d
    → AllMirror (set_flag d i v)
set_flag-AllMirror d i v h m k =
    let other : i ≢ index k = λ e. h (ap (λ j. (key_at j).item_type) e ∙ index_type k) in
    rw (update_ne d.flag i (index k) v other) (m k)

set_num-AllMirror :
    (d : Dsn) (i v : ℕ) → i ≢ options_index → AllMirror d → AllMirror (set_num d i v)
set_num-AllMirror d i v h m k = rw (update_ne d.num i options_index v h) (m k)

set_option-Mirrors :
    (d : Dsn) (k : OptionKey) (b : Bool) (j : OptionKey)
    → Mirrors d j
    → Mirrors (set_option_value d (index k) (bool_byte b)) j
set_option-Mirrors d k b j m =
    let (bits, fields) = option_stored d k b in
    rw (bits, fields, flag_value-index j)
      (elim (OptionKey-discrete j k) [
        | yes e ↦ rw e (
            update_self d.flag (index k) (bool_byte b)
            ∙ sym (ap bool_byte (has_bit-store b (options d) k)))
        | no e ↦
            update_ne d.flag (index k) (index j) (bool_byte b) (λ x. e (sym (index_inj k j x)))
            ∙ (rw (flag_value-index j) at m)
            ∙ sym (ap bool_byte (has_bit-store_ne k j e b (options d)))
      ])

set_option-AllMirror :
    (d : Dsn) (i : ℕ) (b : Bool)
    → (key_at i).item_type ≡ option_item
    → AllMirror d
    → AllMirror (set_option_value d i (bool_byte b))
set_option-AllMirror d i b h m j =
    let (k, e) = option_key_of i h in rw (← e) (set_option-Mirrors d k b j (m j))

if-AllMirror : (b : Bool) (d e : Dsn) → AllMirror d → AllMirror e → AllMirror (if b then d else e)
if-AllMirror true d e m n = m
if-AllMirror false d e m n = n

store_int-AllMirror :
    (d : Dsn) (i : ℕ) (value : Bytes) (over : Bool)
    → i ≢ options_index
    → AllMirror d
    → AllMirror (store_int d i value over)
store_int-AllMirror d i value over h m =
    if-AllMirror (not (d.num i == 0) && not over) d _ m (set_num-AllMirror d i _ h m)

store_item-AllMirror :
    (t : ItemType) (d : Dsn) (i : ℕ) (value : Bytes) (over : Bool)
    → (key_at i).item_type ≡ t
    → i ≢ options_index
    → AllMirror d
    → AllMirror (store_item t d i value over)
unfolding store_item
store_item-AllMirror string_item d i value over e h m =
    if-AllMirror (is_some (d.text i) && not over) d (set_text d i (some value)) m m
store_item-AllMirror combo_item d i value over e h m =
    if-AllMirror (is_some (d.text i) && not over) d (set_text d i (some value)) m m
store_item-AllMirror bool_item d i value over e h m =
    if-AllMirror (not (d.flag i == 0) && not over) d _ m (set_flag-AllMirror d i _ (λ x. cc) m)
store_item-AllMirror boolex_item d i value over e h m =
    if-AllMirror (not (d.flag i == 0) && not over) d _ m (set_flag-AllMirror d i _ (λ x. cc) m)
store_item-AllMirror cboxgroup_item d i value over e h m =
    if-AllMirror (not (d.flag i == 0) && not over) d _ m (set_flag-AllMirror d i _ (λ x. cc) m)
store_item-AllMirror rbgroup_item d i value over e h m =
    let v = bool_byte (not (atoi_char value == 0)) in
    store_int-AllMirror (set_flag d i v) i value over h (set_flag-AllMirror d i v (λ x. cc) m)
store_item-AllMirror int_item d i value over e h m = store_int-AllMirror d i value over h m
store_item-AllMirror option_item d i value over e h m =
    if-AllMirror (not (d.flag i == 0) && not over) d _ m
      (set_option-AllMirror d i (not (strtoul value == 0)) e m)

-- What MADB_DsnSwitchDependents does, from the table of switches.
switch_named_pipe :
    (d : Dsn) → switch_dependents d 5 ≡ (set_flag d 6 (bool_byte (0 == d.flag 5)), true)
unfolding switch_dependents
switch_named_pipe d = refl

switch_tcpip :
    (d : Dsn) → switch_dependents d 6 ≡ (set_option_value d 5 (bool_byte (0 == d.flag 6)), true)
unfolding switch_dependents
switch_tcpip d = refl

switch_other : (d : Dsn) (i : ℕ) → i ≢ 5 → i ≢ 6 → switch_dependents d i ≡ (d, true)
unfolding switch_dependents
switch_other d i h k = ground arith

one_of : (i : ℕ) → (i ≡ 5) ⊎ ((i ≡ 6) ⊎ ((i ≢ 5) × (i ≢ 6)))
one_of i = elim (Bool-cases (i == 5)) [
  | inl e ↦ inl (eq_of_== e)
  | inr e ↦ elim (Bool-cases (i == 6)) [
    | inl z ↦ inr (inl (eq_of_== z))
    | inr z ↦ inr (inr (ne_of_== e, ne_of_== z))
  ]
]

switch-AllMirror : (d : Dsn) (i : ℕ) → AllMirror d → AllMirror (switch_dependents d i).0
switch-AllMirror d i m = elim (one_of i) [
  | inl e ↦ rw (e, switch_named_pipe d) (set_flag-AllMirror d 6 _ (unfold key_at in λ x. cc) m)
  | inr (inl e) ↦ rw (e, switch_tcpip d) (set_option-AllMirror d 5 _ (unfold key_at in refl) m)
  | inr (inr (a, b)) ↦ rw (switch_other d i a b) m
]

abbrev Exclusive : Dsn → Type 0
Exclusive d = (d.flag 5 ≡ 0) ⊎ (d.flag 6 ≡ 0)

if-flag :
    (b : Bool) (d e : Dsn) (j : ℕ) → e.flag j ≡ d.flag j → (if b then d else e).flag j ≡ d.flag j
if-flag true d e j h = refl
if-flag false d e j h = h

-- A store writes no field of a byte but its own.
store_item-flag_ne :
    (t : ItemType) (d : Dsn) (i j : ℕ) (value : Bytes) (over : Bool)
    → i ≢ j
    → (store_item t d i value over).flag j ≡ d.flag j
unfolding store_item set_option_value
store_item-flag_ne string_item d i j value over h =
    if-flag (is_some (d.text i) && not over) d _ j refl
store_item-flag_ne combo_item d i j value over h =
    if-flag (is_some (d.text i) && not over) d _ j refl
store_item-flag_ne int_item d i j value over h = if-flag (not (d.num i == 0) && not over) d _ j refl
store_item-flag_ne rbgroup_item d i j value over h =
    let v = bool_byte (not (atoi_char value == 0)) in
    if-flag (not (d.num i == 0) && not over) (set_flag d i v) _ j refl ∙ update_ne d.flag i j v h
store_item-flag_ne _ d i j value over h =
    if-flag (not (d.flag i == 0) && not over) d _ j (update_ne d.flag i j _ h)

switch-Exclusive :
    (d : Dsn) (i : ℕ) → (((i ≢ 5) × (i ≢ 6)) → Exclusive d) → Exclusive (switch_dependents d i).0
unfolding set_option_value
switch-Exclusive d i m = elim (one_of i) [
  | inl e ↦ rw (e, switch_named_pipe d) (ground arith)
  | inr (inl e) ↦ rw (e, switch_tcpip d) (ground arith)
  | inr (inr (a, b)) ↦ rw (switch_other d i a b) (m (a, b))
]

-- MADB_DsnStoreValue keeps the options coherent, whatever is stored, unless it is `Options` itself.
pub store_value-IsCoherent :
    (d : Dsn) (i : ℕ) (value : Bytes) (over : Bool)
    → i ≢ options_index
    → IsCoherent d
    → IsCoherent (store_value d i value over).0
unfolding store_value
store_value-IsCoherent d i value over h c = elim (Bool-cases (key_at i).is_alias) [
  | inl e ↦ rw e c
  | inr e ↦ rw e (record {
    mirrors =
        switch-AllMirror _ i
          (store_item-AllMirror (key_at i).item_type d i value over refl h c.mirrors);
    exclusive = switch-Exclusive _ i (λ p. elim c.exclusive [
      | inl z ↦ inl (store_item-flag_ne (key_at i).item_type d i 5 value over p.0 ∙ z)
      | inr z ↦ inr (store_item-flag_ne (key_at i).item_type d i 6 value over p.1 ∙ z)
    ]);
  })
]

updated-Mirrors : (d : Dsn) → AllMirror (update_options_fields d)
unfolding update_options_fields switch_dependents key_at
updated-Mirrors d named_pipe = refl
updated-Mirrors d auto_reconnect = refl
updated-Mirrors d OptionKey.no_prompt = refl
updated-Mirrors d OptionKey.use_mycnf = refl
updated-Mirrors d OptionKey.forward_only = refl
updated-Mirrors d OptionKey.stream_rs = refl
updated-Mirrors d OptionKey.no_bigint = refl

updated-Exclusive : (d : Dsn) → Exclusive (update_options_fields d)
unfolding update_options_fields switch_dependents key_at
updated-Exclusive d = ground arith

-- MADB_DsnUpdateOptionsFields makes the options coherent, whatever the fields were before, and
-- leaves `Options`.
pub update_options_fields-IsCoherent :
    (d : Dsn)
    → IsCoherent (update_options_fields d) × (options (update_options_fields d) ≡ options d)
unfolding update_options_fields switch_dependents key_at
update_options_fields-IsCoherent d =
    (record { mirrors = updated-Mirrors d; exclusive = updated-Exclusive d }, refl)
