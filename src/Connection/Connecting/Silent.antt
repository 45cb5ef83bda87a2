-- ===== src/Connection/Connecting/Silent.antt =====
-- The calls of mysql_optionsv that have to do with encryption, and those that have not.
use mariadb_connector_odbc.Base.{
  ℕ, ◌≡◌, refl, ap, ◌∙◌, sym, Bool, true, false, not, ◌||◌, Option, none, some, List, [], ◌∷◌, ◌++◌,
  if◌then◌else◌, Bytes, ltb, ◌==◌, Bool-cases, inl, inr,
}
use mariadb_connector_odbc.Text.{ltrim}
use mariadb_connector_odbc.Connection.Connecting.{
  ConnDsn, ConnOption, TextOption, ssl_enforce, connect_timeout, read_timeout_option,
  write_timeout_option, ssl_verify_server_cert, unless_blank, plugin_options, timeout_options,
  protocol_options, last_options, certificate_options, option_if,
}

-- The last call for an option is the one that counts.
abbrev pub later : Option Bool → Option Bool → Option Bool
later none earlier = earlier
later (some b) earlier = some b

abbrev pub verify_of : ConnOption → Option Bool
verify_of (ssl_verify_server_cert b) = some b
verify_of _ = none

abbrev pub verifies : List ConnOption → Option Bool
verifies [] = none
verifies (o ∷ os) = later (verifies os) (verify_of o)

abbrev pub is_enforce : ConnOption → Bool
is_enforce ssl_enforce = true
is_enforce _ = false

abbrev pub enforces : List ConnOption → Bool
enforces [] = false
enforces (o ∷ os) = is_enforce o || enforces os

pub later_assoc : (a b c : Option Bool) → later a (later b c) ≡ later (later a b) c
later_assoc none b c = refl
later_assoc (some x) b c = refl

pub later-none : (v : Option Bool) → later v none ≡ v
later-none none = refl
later-none (some b) = refl

pub verifies-append :
    (xs ys : List ConnOption) → verifies (xs ++ ys) ≡ later (verifies ys) (verifies xs)
verifies-append [] ys = sym (later-none (verifies ys))
verifies-append (x ∷ xs) ys =
    ap (λ v. later v (verify_of x)) (verifies-append xs ys)
    ∙ sym (later_assoc (verifies ys) (verifies xs) (verify_of x))

pub or_assoc : (a b c : Bool) → (a || (b || c)) ≡ ((a || b) || c)
or_assoc true b c = refl
or_assoc false b c = refl

pub enforces-append : (xs ys : List ConnOption) → enforces (xs ++ ys) ≡ (enforces xs || enforces ys)
enforces-append [] ys = refl
enforces-append (x ∷ xs) ys =
    ap (λ e. is_enforce x || e) (enforces-append xs ys)
    ∙ or_assoc (is_enforce x) (enforces xs) (enforces ys)

-- Options that have nothing to do with encryption.
abbrev pub Silent : List ConnOption → Type 0
Silent os = (verifies os ≡ none) × (enforces os ≡ false)

pub Silent-append : (xs ys : List ConnOption) → Silent xs → Silent ys → Silent (xs ++ ys)
Silent-append xs ys a b = (
  verifies-append xs ys ∙ ap (λ v. later v (verifies xs)) b.0 ∙ a.0,
  enforces-append xs ys ∙ ap (λ e. e || enforces ys) a.1 ∙ b.1,
)

pub unless_blank-Silent : (t : TextOption) (s : Bytes) → Silent (unless_blank t s)
unless_blank-Silent t [] = (refl, refl)
unless_blank-Silent t (c ∷ cs) = (refl, refl)

-- Text options in a row.
abbrev pub texts : List (TextOption × Bytes) → List ConnOption → List ConnOption
texts [] rest = rest
texts ((t, s) ∷ ts) rest = unless_blank t s ++ texts ts rest

pub option_if-Silent :
    (b : Bool) (o : ConnOption) → verify_of o ≡ none → is_enforce o ≡ false → Silent (option_if b o)
option_if-Silent true o v e = (v, ap (λ x. x || false) e)
option_if-Silent false o v e = (refl, refl)

pub plugin-Silent : (l : Option Bytes) (d : ConnDsn) → Silent (plugin_options l d)
plugin-Silent none d = unless_blank-Silent TextOption.plugin_dir d.plugins_dir
plugin-Silent (some l) d = (refl, refl)

pub connect-Silent :
    (b : Bool) (login n : ℕ)
    → Silent (if b then connect_timeout n ∷ [] else option_if (ltb 0 login) (connect_timeout login))
connect-Silent true login n = (refl, refl)
connect-Silent false login n = option_if-Silent (ltb 0 login) (connect_timeout login) refl refl

pub timeout-Silent : (login : ℕ) (d : ConnDsn) → Silent (timeout_options login d)
timeout-Silent login d =
    Silent-append
      (if not (d.connection_timeout == 0)
        then connect_timeout d.connection_timeout ∷ []
        else option_if (ltb 0 login) (connect_timeout login))
      (option_if (not (d.read_timeout == 0)) (read_timeout_option d.read_timeout)
        ++ option_if (not (d.write_timeout == 0)) (write_timeout_option d.write_timeout))
      (connect-Silent (not (d.connection_timeout == 0)) login d.connection_timeout)
      (Silent-append (option_if (not (d.read_timeout == 0)) (read_timeout_option d.read_timeout))
        (option_if (not (d.write_timeout == 0)) (write_timeout_option d.write_timeout))
        (option_if-Silent (not (d.read_timeout == 0)) (read_timeout_option d.read_timeout) refl
          refl)
        (option_if-Silent (not (d.write_timeout == 0)) (write_timeout_option d.write_timeout) refl
          refl))

pub protocol-Silent : (d : ConnDsn) → Silent (protocol_options d)
protocol-Silent d = elim (Bool-cases d.is_named_pipe) [
  | inl e ↦ simp e (refl, refl)
  | inr e ↦ simp e (refl, refl)
]

pub texts-Silent :
    (ts : List (TextOption × Bytes)) (rest : List ConnOption) → Silent rest → Silent (texts ts rest)
texts-Silent [] rest r = r
texts-Silent ((t, s) ∷ ts) rest r =
    Silent-append (unless_blank t s) (texts ts rest) (unless_blank-Silent t s)
      (texts-Silent ts rest r)

pub certificate-Silent : (d : ConnDsn) → Silent (certificate_options d)
certificate-Silent d =
    texts-Silent
      ((TextOption.ssl_key_option, ltrim d.ssl_key)
        ∷ (TextOption.ssl_cert_option, ltrim d.ssl_cert)
        ∷ (TextOption.ssl_ca_option, ltrim d.ssl_ca)
        ∷ (TextOption.ssl_capath_option, ltrim d.ssl_ca_path)
        ∷ [])
      (unless_blank TextOption.ssl_cipher_option (ltrim d.ssl_cipher))
      (unless_blank-Silent TextOption.ssl_cipher_option (ltrim d.ssl_cipher))

pub last-Silent : (d : ConnDsn) → Silent (last_options d)
last-Silent d =
    texts-Silent
      ((TextOption.ssl_crl_option, d.ssl_crl)
        ∷ (TextOption.ssl_crlpath_option, d.ssl_crl_path)
        ∷ (TextOption.server_public_key, d.server_key)
        ∷ (TextOption.tls_peer_fp_option, d.tls_peer_fp)
        ∷ (TextOption.tls_peer_fp_list_option, d.tls_peer_fp_list)
        ∷ [])
      (unless_blank TextOption.tls_passphrase d.tls_key_pwd)
      (unless_blank-Silent TextOption.tls_passphrase d.tls_key_pwd)
