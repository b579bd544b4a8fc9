-- ===== src/Api/Validate/Revoked.antt =====
-- A revoked certificate is reported as revoked.
use vaul_tls.Base.{ℕ, ◌/◌, ◌≡◌, refl, ◌∙◌, false, some, ◌==◌, find, subst, ==_refl}
use vaul_tls.Base.Tables.{find-update_by}
use vaul_tls.Base.Result.{Result, ok}
use vaul_tls.Text.{Text, is_empty}
use vaul_tls.Db.Rows.{Db, CertificateRow, Ca}
use vaul_tls.Db.Accounts.{opt_text_eq}
use vaul_tls.Db.Certs.{revoke_user_cert, increase_ca_crl_number}
use vaul_tls.Db.Versions.{get_cert_status_by_serial_hex, current_status}
use vaul_tls.Api.Errors.{ApiError}
use vaul_tls.Api.Revocation.{revoke_cert_and_update_crl}
use vaul_tls.Api.Revocation.Lists.{Revoked, revoke-Revoked, revoked_row}
use vaul_tls.Api.Validate.{CertStatus, compute_cert_status, normalize_serial, validate_certificate}

-- The status of a serial number that a current certificate has.
current-status :
    (serial : Text) (db : Db) (c : CertificateRow)
    → find (λ (r : CertificateRow). opt_text_eq r.serial_hex serial) db.certs ≡ some c
    → get_cert_status_by_serial_hex serial db ≡ some (current_status c)
unfolding get_cert_status_by_serial_hex
current-status serial db c found = rw (get_cert_status_by_serial_hex, found) refl

module _ (publish : Ca → Db → Result ApiError ℕ) (now later id : ℕ) (raw : Text) (db : Db)
    (cert c : CertificateRow) where
  found_after :
      (ca_id n : ℕ)
      → find (λ (r : CertificateRow). opt_text_eq r.serial_hex (normalize_serial raw)) db.certs
        ≡ some c
      → c.id ≡ id
      → find
          (λ (r : CertificateRow). opt_text_eq r.serial_hex (normalize_serial raw))
          (increase_ca_crl_number ca_id n (revoke_user_cert now id db)).certs
        ≡ some (revoked_row now c)
  unfolding increase_ca_crl_number revoke_user_cert
  found_after ca_id n found same =
      find-update_by (λ r. r.id == id)
        (λ (r : CertificateRow). opt_text_eq r.serial_hex (normalize_serial raw)) (revoked_row now)
        db.certs (λ _. refl)
      ∙ rw (found, same, ==_refl id) refl

  -- Once a certificate has been revoked, whoever asks for its serial number, at any time and with any
  -- case, spaces and colons, is told that it is revoked, since when, and its dates and CA.
  pub revoke_cert_and_update_crl-validate_certificate :
      (revoke_cert_and_update_crl publish now id db).0 ≡ ok cert
      → find (λ (r : CertificateRow). opt_text_eq r.serial_hex (normalize_serial raw)) db.certs
        ≡ some c
      → c.id ≡ id
      → is_empty (normalize_serial raw) ≡ false
      → validate_certificate later raw (revoke_cert_and_update_crl publish now id db).1
        ≡ ok (record {
          serial = normalize_serial raw;
          status = CertStatus.revoked;
          not_before = some c.created_on;
          not_after = some c.valid_until;
          revoked_at = some (now / 1000);
          ca_id = c.ca_id;
          superseded = false;
        })
  unfolding validate_certificate compute_cert_status
  revoke_cert_and_update_crl-validate_certificate went found same given =
      let (ca_id, n, there, after) = revoked in
      rw
        (
          given,
          after,
          current-status (normalize_serial raw)
              (increase_ca_crl_number ca_id n (revoke_user_cert now id db)) (revoked_row now c)
              (found_after ca_id n found same),
        )
        refl
    where
      revoked : Revoked now id db (ok cert) (revoke_cert_and_update_crl publish now id db).1
      revoked =
          subst (λ r. Revoked now id db r (revoke_cert_and_update_crl publish now id db).1) went
            (revoke-Revoked publish now id db)
