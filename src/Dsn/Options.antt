-- ===== src/Dsn/Options.antt =====
-- The bits of `Options` and the fields that mirror them, and the pair of switches NamedPipe, TCPIP.
pub mod Kept
use mariadb_connector_odbc.Base.{
  ℕ, zero, suc, ◌+◌, ◌-◌, ◌*◌, ◌/◌, ◌%◌, ◌≤◌, ◌<◌, ◌≡◌, ◌≢◌, refl, sym, ap, ◌∙◌, subst, ◌⊎◌, inl,
  inr, Bool, true, false, not, ◌&&◌, ◌||◌, arith, ◌==◌, ltb, if◌then◌else◌, Bool-cases, Bytes, List,
  [], ◌∷◌, get_or, length, eq_of_==, ne_of_==,
}
use mariadb_connector_odbc.Dsn.Keys.{
  ItemType, string_item, int_item, bool_item, combo_item, option_item, cboxgroup_item, rbgroup_item,
  boolex_item, DsnKey, key_at, key_count, dsn_keys, Dsn, init, set_flag, options, options_index,
  namedpipe_index, tcpip_index, has_bit, with_bit, without_bit, bool_byte,
}
use mariadb_connector_odbc.Dsn.Store.{
  set_option_value, switch_dependents, store_item, store_value, is_option, update_options_fields,
}

-- The keywords that have a bit in `Options`.
pub data OptionKey : Type 0 where
  named_pipe auto_reconnect no_prompt use_mycnf forward_only stream_rs no_bigint : OptionKey

abbrev pub index : OptionKey → ℕ
index named_pipe = 5
index auto_reconnect = 14
index no_prompt = 15
index use_mycnf = 31
index forward_only = 37
index stream_rs = 43
index no_bigint = 51

-- The field of the option is 1 or 0 as its bit in `Options` is set or not.
abbrev pub Mirrors : Dsn → OptionKey → Type 0
Mirrors d k = d.flag (index k) ≡ bool_byte (has_bit (options d) (key_at (index k)).flag_value)

-- The fields of all options agree with their bits, and NamedPipe and TCPIP are not both set.
pub record IsCoherent (d : Dsn) : Type 0 where
  pub mirrors : (k : OptionKey) → Mirrors d k
  pub exclusive : (d.flag namedpipe_index ≡ 0) ⊎ (d.flag tcpip_index ≡ 0)

option_at : ℕ → Bool
option_at i = i == 5 || i == 14 || i == 15 || i == 31 || i == 37 || i == 43 || i == 51

agrees : ℕ → Bool
agrees i = if is_option (key_at i).item_type then option_at i else true

-- A test of the places from 0 to `top`.
tests_up_to : (ℕ → Bool) → ℕ → Bool
tests_up_to test zero = test 0
tests_up_to test (suc top) =
    let rest = tests_up_to test top in if test (suc top) then rest else false

module _ (test : ℕ → Bool) (i : ℕ) where
  passed_at : (top : ℕ) → i ≤ top → tests_up_to test top ≡ true → test i ≡ true
  unfolding tests_up_to
  passed_at zero le h = let e : i ≡ 0 = omega arith in rw e h
  passed_at (suc top) le h = elim (Bool-cases (i == suc top)) [
    | inl e ↦ rw (eq_of_== e) (ground (arith, h))
    | inr e ↦ passed_at top (ground arith) (ground (arith, h))
  ]

get_or-ge {ℓ} : {A : Type ℓ} (xs : List A) (i : ℕ) (d : A) → length xs ≤ i → get_or xs i d ≡ d
get_or-ge [] i d h = refl
get_or-ge (x ∷ xs) zero d h = absurd (omega arith)
get_or-ge (x ∷ xs) (suc i) d h = get_or-ge xs i d (omega arith)

agrees_table : tests_up_to agrees 59 ≡ true
unfolding tests_up_to agrees option_at key_at
agrees_table = refl

option_key : (i : ℕ) → option_at i ≡ true → (k : OptionKey) × (index k ≡ i)
unfolding option_at
option_key i h = elim (Bool-cases (i == 5)) [
  | inl e ↦ (named_pipe, sym (eq_of_== e))
  | inr a ↦ elim (Bool-cases (i == 14)) [
    | inl e ↦ (auto_reconnect, sym (eq_of_== e))
    | inr b ↦ elim (Bool-cases (i == 15)) [
      | inl e ↦ (no_prompt, sym (eq_of_== e))
      | inr c ↦ elim (Bool-cases (i == 31)) [
        | inl e ↦ (use_mycnf, sym (eq_of_== e))
        | inr d ↦ elim (Bool-cases (i == 37)) [
          | inl e ↦ (forward_only, sym (eq_of_== e))
          | inr f ↦ elim (Bool-cases (i == 43)) [
            | inl e ↦ (stream_rs, sym (eq_of_== e))
            | inr g ↦ (no_bigint, ground arith)
          ]
        ]
      ]
    ]
  ]
]

not_option : (i : ℕ) → 60 ≤ i → (key_at i).item_type ≢ option_item
unfolding key_at dsn_keys
not_option i ge h = cc (rw (get_or-ge dsn_keys i _ ge, key_at) at h)

option_agrees : (i : ℕ) → (key_at i).item_type ≡ option_item → agrees i ≡ true → option_at i ≡ true
unfolding agrees
option_agrees i h a = rw h at a

-- Only these keywords are of the type of an option.
pub option_key_of : (i : ℕ) → (key_at i).item_type ≡ option_item → (k : OptionKey) × (index k ≡ i)
unfolding agrees
option_key_of i h = elim (Bool-cases (ltb i 60)) [
  | inl lt ↦ option_key i (option_agrees i h (passed_at agrees i 59 (ground arith) agrees_table))
  | inr ge ↦ absurd (not_option i (ground arith) h)
]

-- The bit of each option, as the table has it.
abbrev pub flag_of : OptionKey → ℕ
flag_of named_pipe = 8192
flag_of auto_reconnect = 4194304
flag_of no_prompt = 16
flag_of use_mycnf = 65536
flag_of forward_only = 2097152
flag_of stream_rs = 1048576
flag_of no_bigint = 16384

pub flag_value-index : (k : OptionKey) → (key_at (index k)).flag_value ≡ flag_of k
unfolding key_at
flag_value-index named_pipe = refl
flag_value-index auto_reconnect = refl
flag_value-index no_prompt = refl
flag_value-index use_mycnf = refl
flag_value-index forward_only = refl
flag_value-index stream_rs = refl
flag_value-index no_bigint = refl

pub OptionKey-discrete : Discrete OptionKey
OptionKey-discrete = hlevel

abbrev pub store_bit : Bool → ℕ → ℕ → ℕ
store_bit b o f = if b then with_bit o f else without_bit o f

pub has_bit-store :
    (b : Bool) (o : ℕ) (k : OptionKey) → has_bit (store_bit b o (flag_of k)) (flag_of k) ≡ b
has_bit-store true o named_pipe = ground arith
has_bit-store _ o _ = ground arith

abbrev pub BitKept : OptionKey → OptionKey → Type 0
BitKept k j =
    (b : Bool) (o : ℕ) → has_bit (store_bit b o (flag_of k)) (flag_of j) ≡ has_bit o (flag_of j)

kept_named_pipe : (j : OptionKey) → j ≢ named_pipe → BitKept named_pipe j
kept_named_pipe named_pipe ne b o = absurd (ne refl)
kept_named_pipe _ ne b o = ground arith

kept_auto_reconnect : (j : OptionKey) → j ≢ auto_reconnect → BitKept auto_reconnect j
kept_auto_reconnect auto_reconnect ne b o = absurd (ne refl)
kept_auto_reconnect _ ne b o = ground arith

kept_no_prompt : (j : OptionKey) → j ≢ no_prompt → BitKept no_prompt j
kept_no_prompt no_prompt ne b o = absurd (ne refl)
kept_no_prompt _ ne b o = ground arith

kept_use_mycnf : (j : OptionKey) → j ≢ use_mycnf → BitKept use_mycnf j
kept_use_mycnf use_mycnf ne b o = absurd (ne refl)
kept_use_mycnf _ ne b o = ground arith

kept_forward_only : (j : OptionKey) → j ≢ forward_only → BitKept forward_only j
kept_forward_only forward_only ne b o = absurd (ne refl)
kept_forward_only _ ne b o = ground arith

kept_stream_rs : (j : OptionKey) → j ≢ stream_rs → BitKept stream_rs j
kept_stream_rs stream_rs ne b o = absurd (ne refl)
kept_stream_rs _ ne b o = ground arith

kept_no_bigint : (j : OptionKey) → j ≢ no_bigint → BitKept no_bigint j
kept_no_bigint no_bigint ne b o = absurd (ne refl)
kept_no_bigint _ ne b o = ground arith

-- Storing the bit of one option leaves the bits of all others.
pub has_bit-store_ne : (k j : OptionKey) → j ≢ k → BitKept k j
has_bit-store_ne named_pipe j = kept_named_pipe j
has_bit-store_ne auto_reconnect j = kept_auto_reconnect j
has_bit-store_ne no_prompt j = kept_no_prompt j
has_bit-store_ne use_mycnf j = kept_use_mycnf j
has_bit-store_ne forward_only j = kept_forward_only j
has_bit-store_ne stream_rs j = kept_stream_rs j
has_bit-store_ne no_bigint j = kept_no_bigint j

pub index_inj : (k j : OptionKey) → index k ≡ index j → k ≡ j
index_inj named_pipe j h = ground arith
index_inj _ j h = ground arith

store_bit-value :
    (b : Bool) (o f : ℕ)
    → (if bool_byte b == 0 then without_bit o f else with_bit o f) ≡ store_bit b o f
store_bit-value true o f = refl
store_bit-value false o f = refl

pub option_stored :
    (d : Dsn) (k : OptionKey) (b : Bool)
    → (options (set_option_value d (index k) (bool_byte b)) ≡ store_bit b (options d) (flag_of k))
      × ((set_option_value d (index k) (bool_byte b)).flag
          ≡ (set_flag d (index k) (bool_byte b)).flag)
unfolding set_option_value
option_stored d k b = (rw (flag_value-index k) (store_bit-value b (options d) (flag_of k)), refl)
