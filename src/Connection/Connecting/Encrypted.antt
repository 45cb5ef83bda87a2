-- ===== src/Connection/Connecting/Encrypted.antt =====
-- Encryption and the verification of the server's certificate.
use mariadb_connector_odbc.Base.{
  ℕ, ◌≡◌, refl, ap, ◌∙◌, Bool, true, false, ◌||◌, Option, none, some, List, [], ◌∷◌, ◌++◌,
  if◌then◌else◌, Bytes, inl, inr, Bool-cases,
}
use mariadb_connector_odbc.Connection.Connecting.{
  ConnDsn, ConnOption, SslVerify, verify_off, verify_on, verify_default, verify_other,
  read_default_group, ssl_enforce, ssl_verify_server_cert, is_default, plugin_options,
  timeout_options, protocol_options, ssl_options, tls_options, verify_options, force_options,
  last_options, certificate_options, core_options, asks_tls, option_if, any_version,
}
use mariadb_connector_odbc.Connection.Connecting.Silent.{
  later, later-none, verifies, enforces, verifies-append, enforces-append, Silent, option_if-Silent,
  plugin-Silent, timeout-Silent, protocol-Silent, certificate-Silent, last-Silent,
}

-- What the two parts that can set the verification by default do.
abbrev by_default : SslVerify → Bool → Option Bool
by_default verify_default b = some b
by_default _ b = none

ssl_part :
    (v : SslVerify) (a : Bool) (rest : List ConnOption)
    → Silent rest
    → let os =
        if a
        then ssl_enforce ∷ (option_if (is_default v) (ssl_verify_server_cert true) ++ rest)
        else option_if (is_default v) (ssl_verify_server_cert false) in
      (verifies os ≡ by_default v a) × (enforces os ≡ a)
ssl_part verify_default true rest s = (ap (λ v. later (later v (some true)) none) s.0, refl)
ssl_part verify_default false rest s = (refl, refl)
ssl_part verify_on true rest s = (ap (λ v. later v none) s.0, refl)
ssl_part verify_on false rest s = (refl, refl)
ssl_part verify_off true rest s = (ap (λ v. later v none) s.0, refl)
ssl_part verify_off false rest s = (refl, refl)
ssl_part verify_other true rest s = (ap (λ v. later v none) s.0, refl)
ssl_part verify_other false rest s = (refl, refl)

force_part :
    (v : SslVerify) (f : Bool)
    → let os =
        if f then ssl_enforce ∷ option_if (is_default v) (ssl_verify_server_cert true) else [] in
      (verifies os ≡ (if f then by_default v true else none)) × (enforces os ≡ f)
force_part verify_default true = (refl, refl)
force_part verify_default false = (refl, refl)
force_part verify_on true = (refl, refl)
force_part verify_on false = (refl, refl)
force_part verify_off true = (refl, refl)
force_part verify_off false = (refl, refl)
force_part verify_other true = (refl, refl)
force_part verify_other false = (refl, refl)

-- Whether the certificate is to be verified, when encryption is asked for or not; `none` leaves it to
-- the server library.
abbrev pub wanted : SslVerify → Bool → Option Bool
wanted verify_on asked = some true
wanted verify_off asked = some false
wanted verify_default asked = some asked
wanted verify_other asked = none

decided :
    (v : SslVerify) (a f : Bool)
    → later
        (later (if f then by_default v true else none) (verifies (verify_options v)))
        (by_default v a)
      ≡ wanted v (a || f)
decided verify_on a true = refl
decided verify_on a false = refl
decided verify_off a true = refl
decided verify_off a false = refl
decided verify_other a true = refl
decided verify_other a false = refl
decided verify_default true true = refl
decided verify_default true false = refl
decided verify_default false true = refl
decided verify_default false false = refl

not_enforced : (v : SslVerify) → enforces (verify_options v) ≡ false
not_enforced verify_on = refl
not_enforced verify_off = refl
not_enforced verify_default = refl
not_enforced verify_other = refl

-- Silent options before others change nothing.
verifies-skip : (xs ys : List ConnOption) → Silent xs → verifies (xs ++ ys) ≡ verifies ys
verifies-skip xs ys s =
    verifies-append xs ys ∙ ap (later (verifies ys)) s.0 ∙ later-none (verifies ys)

enforces-skip : (xs ys : List ConnOption) → Silent xs → enforces (xs ++ ys) ≡ enforces ys
enforces-skip xs ys s = enforces-append xs ys ∙ ap (λ e. e || enforces ys) s.1

or_false : (b : Bool) → (b || false) ≡ b
or_false true = refl
or_false false = refl

module _ (location : Option Bytes) (login : ℕ) (d : ConnDsn) where
  abbrev tail_options : List ConnOption
  tail_options = verify_options d.ssl_verify ++ (force_options d ++ last_options d)

  abbrev from_ssl : List ConnOption
  from_ssl = ssl_options d ++ (tls_options d ++ tail_options)

  tls-Silent : Silent (tls_options d)
  tls-Silent = elim (Bool-cases (any_version d.tls_versions)) [
    | inl e ↦ rw e (option_if-Silent d.tls_set _ refl refl)
    | inr e ↦ rw e (option_if-Silent d.tls_set _ refl refl)
  ]

  ssl_lem :
      (verifies (ssl_options d) ≡ by_default d.ssl_verify (asks_tls d))
      × (enforces (ssl_options d) ≡ asks_tls d)
  unfolding ssl_options
  ssl_lem = ssl_part d.ssl_verify (asks_tls d) (certificate_options d) (certificate-Silent d)

  forced-verifies :
      verifies (force_options d ++ last_options d)
      ≡ (if d.force_tls then by_default d.ssl_verify true else none)
  forced-verifies =
      verifies-append (force_options d) (last_options d)
      ∙ ap (λ v. later v (verifies (force_options d))) (last-Silent d).0
      ∙ (force_part d.ssl_verify d.force_tls).0

  forced-enforces : enforces (force_options d ++ last_options d) ≡ d.force_tls
  forced-enforces =
      enforces-append (force_options d) (last_options d)
      ∙ ap (λ e. enforces (force_options d) || e) (last-Silent d).1
      ∙ or_false (enforces (force_options d))
      ∙ (force_part d.ssl_verify d.force_tls).1

  from_ssl-verifies : verifies from_ssl ≡ wanted d.ssl_verify (asks_tls d || d.force_tls)
  from_ssl-verifies =
      verifies-append (ssl_options d) (tls_options d ++ tail_options)
      ∙ ap (λ v. later v (verifies (ssl_options d)))
          (verifies-skip (tls_options d) tail_options tls-Silent
            ∙ verifies-append (verify_options d.ssl_verify) (force_options d ++ last_options d)
            ∙ ap (λ v. later v (verifies (verify_options d.ssl_verify))) forced-verifies)
      ∙ ap
          (later (
            later (if d.force_tls then by_default d.ssl_verify true else none)
              (verifies (verify_options d.ssl_verify))))
          ssl_lem.0
      ∙ decided d.ssl_verify (asks_tls d) d.force_tls

  from_ssl-enforces : enforces from_ssl ≡ (asks_tls d || d.force_tls)
  from_ssl-enforces =
      enforces-append (ssl_options d) (tls_options d ++ tail_options)
      ∙ ap (λ e. enforces (ssl_options d) || e)
          (enforces-skip (tls_options d) tail_options tls-Silent
            ∙ enforces-append (verify_options d.ssl_verify) (force_options d ++ last_options d)
            ∙ ap (λ e. e || enforces (force_options d ++ last_options d))
                (not_enforced d.ssl_verify)
            ∙ forced-enforces)
      ∙ ap (λ e. e || d.force_tls) ssl_lem.1

  -- Encryption is enforced exactly when a certificate, a key or a cipher is given or FORCETLS is set. The last
  -- word on the verification of the server's certificate is what SSLVERIFY says, if that is 0 or 1; where it
  -- says nothing, the certificate is verified exactly when encryption is enforced; and with any other
  -- number the verification is not set at all.
  pub core_options-verifies :
      (verifies (core_options location login d) ≡ wanted d.ssl_verify (asks_tls d || d.force_tls))
      × (enforces (core_options location login d) ≡ (asks_tls d || d.force_tls))
  unfolding core_options
  core_options-verifies = (
    verifies-skip (plugin_options location d) _ (plugin-Silent location d)
        ∙ verifies-skip (option_if d.read_my_cnf read_default_group) _
            (option_if-Silent d.read_my_cnf read_default_group refl refl)
        ∙ verifies-skip (timeout_options login d) _ (timeout-Silent login d)
        ∙ verifies-skip (protocol_options d) from_ssl (protocol-Silent d)
        ∙ from_ssl-verifies,
    enforces-skip (plugin_options location d) _ (plugin-Silent location d)
        ∙ enforces-skip (option_if d.read_my_cnf read_default_group) _
            (option_if-Silent d.read_my_cnf read_default_group refl refl)
        ∙ enforces-skip (timeout_options login d) _ (timeout-Silent login d)
        ∙ enforces-skip (protocol_options d) from_ssl (protocol-Silent d)
        ∙ from_ssl-enforces,
  )
