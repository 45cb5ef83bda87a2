-- ===== src/Error/Record/Laws.antt =====
-- What MADB_GetDiagRec reads of an error that the driver reported.
use mariadb_connector_odbc.Base.{
  ℕ, zero, suc, ◌+◌, ◌-◌, ◌≤◌, ◌≡◌, refl, ◌∙◌, ap, inl, inr, true, false, none, some, [], ◌∷◌, ◌++◌,
  arith, ltb, leb, if◌then◌else◌, Bytes, length, take, length-append, length-take, take_all,
  Bool-cases,
}
use mariadb_connector_odbc.Error.Code.{Code, value, err_01004, err_00000}
use mariadb_connector_odbc.Error.Diag.{
  MadbError, set_error, with_message, effective_code, max_message,
}
use mariadb_connector_odbc.Error.Diag.Bounds.{IsBounded, strcpy_s_fits}
use mariadb_connector_odbc.Error.Name.{state_name}
use mariadb_connector_odbc.Error.Record.{get_diag_rec, set_string, state_version, fresh_error}
use mariadb_connector_odbc.Error.Table.{error_list, error_at}
use mariadb_connector_odbc.Sql.{SqlReturn, sql_success, sql_success_with_info}

abbrev pub or_else : Bytes → Bytes → Bytes
or_else [] s = s
or_else (c ∷ cs) s = c ∷ cs

-- An ODBC 2 application is given the second column of the table's row for the reported code, and the
-- SQLSTATE itself where that column is empty.
pub state_version-state_name :
    (c : Code)
    → state_version error_list (state_name c) ≡ or_else (error_at (value c)).state_v2 (state_name c)
unfolding state_version error_list error_at value state_name
state_version-state_name err_00000 = refl
state_version-state_name _ = refl

take_if :
    (room : ℕ) (s : Bytes)
    → (if ltb (length s) room then take (length s) s else take room s) ≡ take room s
take_if room s = ground (arith, take_all room s, take_all (length s) s)

set_string-take :
    (room : ℕ) (s : Bytes) (e : MadbError)
    → (set_string (some (suc room)) s (length s) e).written ≡ some (take room s)
unfolding set_string
set_string-take zero [] e = refl
set_string-take (suc room) [] e = refl
set_string-take room (x ∷ s) e = ground (arith, take_if room (x ∷ s))

set_string-error :
    (room : ℕ) (s : Bytes) (e : MadbError)
    → (set_string (some (suc room)) s (length s) e).error
      ≡ (if leb (suc room) (length s) then set_error e err_01004 none 0 else e)
unfolding set_string
set_string-error room [] e = ground arith
set_string-error room (x ∷ s) e = ground arith

-- The value that MADB_GetDiagRec returns for a message buffer of a non-zero length, and the message.
abbrev return_for_message : ℕ → ℕ → SqlReturn
return_for_message size len = if leb size len then sql_success_with_info else sql_success

copied_state :
    (c : Code)
    → ((set_string (some 6) (error_at (value c)).state 5 fresh_error).written ≡ some (state_name c))
      × ((set_string (some 6) (error_at (value c)).state 5 fresh_error).error ≡ fresh_error)
unfolding set_string error_at value state_name
copied_state err_00000 = (refl, refl)
copied_state _ = (refl, refl)

truncated : (set_error fresh_error err_01004 none 0).return_value ≡ sql_success_with_info
unfolding set_error error_at value
truncated = refl

returned_cut :
    (room : ℕ) (s : Bytes)
    → (set_string (some (suc room)) s (length s) fresh_error).error.return_value
      ≡ return_for_message (suc room) (length s)
unfolding fresh_error
returned_cut room s =
    rw (set_string-error room s fresh_error)
      (elim (Bool-cases (leb (suc room) (length s))) [ inl h ↦ rw h truncated | inr h ↦ rw h refl ])

with_message_fits :
    (e : MadbError) (msg : Bytes)
    → e.prefix_len + length msg ≤ max_message
    → with_message e msg ≡ take e.prefix_len e.text ++ msg
with_message_fits e msg h =
    rw (strcpy_s_fits (max_message + 1 - e.prefix_len) msg (omega (arith, h))) refl

length_whole :
    (e : MadbError) (msg : Bytes)
    → IsBounded e
    → length (take e.prefix_len e.text ++ msg) ≡ e.prefix_len + length msg
length_whole e msg v =
    rw (length-append (take e.prefix_len e.text) msg, length-take e.prefix_len e.text)
      (omega (arith, v.prefix_within))

-- A diagnostic record read from a driver's error, in an ANSI application of ODBC 3 with all pointers
-- given and a message buffer of at least one byte: the state that the reported code is named after,
-- the native number, the prefix followed by the reported message, cut to what the buffer holds before
-- its terminating zero, and the message's whole length; SQL_SUCCESS_WITH_INFO where the message is
-- cut and SQL_SUCCESS where it is not. The error structure is bounded, and the prefix and the message
-- together are at most 512 bytes.
pub get_diag_rec-set_error :
    (e : MadbError) (c : Code) (msg : Bytes) (native room : ℕ)
    → IsBounded e
    → e.prefix_len + length msg ≤ max_message
    → get_diag_rec (set_error e c (some msg) native) (record {
      rec_number = 1;
      wants_state = true;
      wants_native = true;
      message_text = some (suc room);
      wants_length = true;
      is_odbc2 = false;
    })
      ≡ record {
        sql_state = some (state_name (effective_code c native));
        native = some native;
        message = some (take room (take e.prefix_len e.text ++ msg));
        text_length = some (e.prefix_len + length msg);
        returned = return_for_message (suc room) (e.prefix_len + length msg);
      }
unfolding get_diag_rec set_error
get_diag_rec-set_error e c msg native room v h =
    let fits = with_message_fits e msg h in
    let shown = copied_state (effective_code c native) in
    let cut = set_string-take room (with_message e msg) in
    λ i. record {
      sql_state = shown.0 i;
      native = some native;
      message =
          (cut
                (set_string (some 6) (error_at (value (effective_code c native))).state 5
                  fresh_error).error
              ∙ ap (λ t. some (take room t)) fits)
            i;
      text_length = some ((ap length fits ∙ length_whole e msg v) i);
      returned =
          (ap
                (λ z.
                  (set_string (some (suc room)) (with_message e msg) (length (with_message e msg))
                    z).error.return_value)
                shown.1
              ∙ returned_cut room (with_message e msg)
              ∙ ap (return_for_message (suc room)) (ap length fits ∙ length_whole e msg v))
            i;
    }
