-- ===== src/Error/Diag/Bounds.antt =====
-- The message buffer of MADB_Error is never overrun, and its prefix is kept.
use mariadb_connector_odbc.Base.{
  ℕ, ◌+◌, ◌-◌, ◌≤◌, ◌<◌, ◌≡◌, inl, inr, Option, none, some, [], ◌∷◌, ◌++◌, arith, ◌==◌, Bytes,
  codes, length, take, length-append, length-take, take_all, Bool-cases,
}
use mariadb_connector_odbc.Error.Code.{Code, value, err_hy000}
use mariadb_connector_odbc.Error.Diag.{
  MadbError, max_message, strcpy_s, with_message, adjusted_state, eq_bytes, clear_error,
  put_error_prefix, set_error, effective_code, message_or, set_native_error, from_exception,
  copy_error,
}
use mariadb_connector_odbc.Error.Table.{error_at}
use mariadb_connector_odbc.Sql.{sql_error}

-- The string ends within the 513 bytes of SqlErrorMsg, and the prefix is a part of it.
pub record IsBounded (e : MadbError) : Type 0 where
  pub prefix_within : e.prefix_len ≤ length e.text
  pub text_within : length e.text ≤ max_message

length-strcpy_s : (n : ℕ) (s : Bytes) → 0 < n → length (strcpy_s n s) < n
unfolding strcpy_s
length-strcpy_s n s h = ground arith

with_message-bounds :
    (e : MadbError) (m : Bytes)
    → IsBounded e
    → (e.prefix_len ≤ length (with_message e m)) × (length (with_message e m) ≤ max_message)
with_message-bounds e m v =
    rw
      (
        length-append (take e.prefix_len e.text) (strcpy_s (max_message + 1 - e.prefix_len) m),
        length-take e.prefix_len e.text,
      )
      (
        omega (
          arith,
          v.prefix_within,
          v.text_within,
          length-strcpy_s (max_message + 1 - e.prefix_len) m,
        ),
        omega (
          arith,
          v.prefix_within,
          v.text_within,
          length-strcpy_s (max_message + 1 - e.prefix_len) m,
        ),
      )

set_error-IsBounded :
    (e : MadbError) (c : Code) (msg : Option Bytes) (native : ℕ)
    → IsBounded e
    → IsBounded (set_error e c msg native)
unfolding set_error
set_error-IsBounded e c msg native v =
    let (a, b) =
      with_message-bounds e (message_or msg (error_at (value (effective_code c native))).message)
        v in
    record { prefix_within = a; text_within = b }

set_native_error-IsBounded :
    (e : MadbError) (s : Bytes) (msg : Option Bytes) (native : ℕ)
    → IsBounded e
    → IsBounded (set_native_error e s msg native)
unfolding set_native_error
set_native_error-IsBounded e s none native v = record {
  prefix_within = v.prefix_within;
  text_within = v.text_within;
}
set_native_error-IsBounded e s (some m) native v =
    let (a, b) = with_message-bounds e m v in record { prefix_within = a; text_within = b }

from_exception-IsBounded :
    (e : MadbError) (s what : Bytes) (native : ℕ)
    → IsBounded e
    → IsBounded (from_exception e s what native)
unfolding from_exception
from_exception-IsBounded e s what native v =
    let (a, b) = with_message-bounds e what v in
    elim (Bool-cases (eq_bytes (strcpy_s 6 (adjusted_state native s)) (codes "00000"))) [
      | inl h ↦ rw h (
          set_error-IsBounded
            (record e {
              text = with_message e what;
              state = strcpy_s 6 (adjusted_state native s);
              native_error = native;
              return_value = sql_error;
            })
            err_hy000 (some (codes "Internal Error Occurred")) 0
            (record { prefix_within = a; text_within = b }))
      | inr h ↦ rw h (record { prefix_within = a; text_within = b })
    ]

pub strcpy_s_fits : (n : ℕ) (s : Bytes) → length s < n → strcpy_s n s ≡ s
unfolding strcpy_s
strcpy_s_fits n s h = ground arith

all_prefix-IsBounded :
    (e : MadbError) (s : Bytes)
    → length s ≤ max_message
    → IsBounded (record e { prefix_len = length s; text = strcpy_s (max_message + 1) s })
all_prefix-IsBounded e s h =
    rw (strcpy_s_fits (max_message + 1) s (omega (arith, h)))
      (record { prefix_within = omega arith; text_within = h })

length-whole :
    (prefix info : Bytes)
    → length prefix ≤ 478
    → length (prefix ++ 91 ∷ (take 32 info ++ 93 ∷ [])) ≤ 512
length-whole prefix info h =
    rw
      (
        length-append prefix (91 ∷ (take 32 info ++ 93 ∷ [])),
        length-append (take 32 info) (93 ∷ []),
        length-take 32 info,
      )
      (omega (arith, h))

put_error_prefix-IsBounded :
    (prefix : Bytes) (server : Option Bytes) (e : MadbError)
    → length prefix ≤ 478
    → IsBounded e
    → IsBounded (put_error_prefix prefix server e)
unfolding put_error_prefix
put_error_prefix-IsBounded prefix none e h v = elim (Bool-cases (e.prefix_len == 0)) [
  | inl q ↦ rw q (all_prefix-IsBounded e prefix (omega (arith, h)))
  | inr q ↦ rw q v
]
put_error_prefix-IsBounded prefix (some info) e h v = elim (Bool-cases (e.prefix_len == 0)) [
  | inl q ↦
      let fits = length-whole prefix info h in
      rw (q, take_all max_message (prefix ++ 91 ∷ (take 32 info ++ 93 ∷ [])) fits)
        (record { prefix_within = omega arith; text_within = fits })
  | inr q ↦ rw q v
]

-- What can happen to a MADB_Error; `none` in `prefixed` is a handle with no connection.
pub data Op : Type 0 where
  cleared : Op
  prefixed : Bytes → Option Bytes → Op
  reported : Code → Option Bytes → ℕ → Op
  reported_native : Bytes → Option Bytes → ℕ → Op
  caught : Bytes → Bytes → ℕ → Op
  copied : MadbError → Op

unfoldable pub apply : Op → MadbError → MadbError
apply cleared e = clear_error e
apply (prefixed p s) e = put_error_prefix p s e
apply (reported c m n) e = set_error e c m n
apply (reported_native s m n) e = set_native_error e s m n
apply (caught s w n) e = from_exception e s w n
apply (copied from) e = copy_error e from

-- The driver's prefix is short, and what is copied is a structure that the driver filled.
abbrev pub Allowed : Op → Type 0
Allowed (prefixed p s) = length p ≤ 478
Allowed (copied from) = IsBounded from
Allowed _ = Unit

-- After each operation on a MADB_Error the message still ends within the 513 bytes of SqlErrorMsg and
-- the prefix still lies within the message, if that was so before, if a prefix that is put is at most
-- 478 bytes long, and if a structure that is copied is such a one itself.
pub apply-IsBounded : (op : Op) (e : MadbError) → Allowed op → IsBounded e → IsBounded (apply op e)
unfolding apply clear_error copy_error
apply-IsBounded cleared e h v = record {
  prefix_within = rw (length-take e.prefix_len e.text) (omega (arith, v.prefix_within));
  text_within = rw (length-take e.prefix_len e.text) (omega (arith, v.text_within));
}
apply-IsBounded (prefixed p s) e h v = put_error_prefix-IsBounded p s e h v
apply-IsBounded (reported c m n) e h v = set_error-IsBounded e c m n v
apply-IsBounded (reported_native s m n) e h v = set_native_error-IsBounded e s m n v
apply-IsBounded (caught s w n) e h v = from_exception-IsBounded e s w n v
apply-IsBounded (copied from) e h v =
    rw (strcpy_s_fits (max_message + 1) from.text (omega (arith, h.text_within)))
      (record { prefix_within = h.prefix_within; text_within = h.text_within })
