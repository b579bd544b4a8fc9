-- ===== src/Acme/Revoke/Rows.antt =====
-- The rows of `user_certificates` that a revocation over ACME finds (backend/src/db.rs).
use vaul_tls.Base.{
  ℕ, ◌≡◌, refl, Bool, true, inl, inr, not, ◌&&◌, Option, none, some, ◌==◌, ap, Any, any_iff, find,
  is_some, ◌/◌, ==_refl, and-true, Option-cases, arith,
}
use vaul_tls.Base.Tables.{Any-update, find-Any, find-passes}
use vaul_tls.Text.{Text}
use vaul_tls.Text.Laws.{text_eq_iff}
use vaul_tls.Db.Rows.{Db, CertificateRow}
use vaul_tls.Db.Accounts.{opt_text_eq, opt_id_eq}
use vaul_tls.Db.Certs.{check_cert_acme_account, get_cert_id_by_serial_hex, revoke_user_cert}

pub check_cert_acme_account-Any :
    (cert_id account_id : ℕ) (db : Db)
    → check_cert_acme_account cert_id account_id db ≡ true
    → Any (λ row. (row.id ≡ cert_id) × (row.acme_account_id ≡ some account_id)) db.certs
unfolding check_cert_acme_account
check_cert_acme_account-Any cert_id account_id db owned =
    (any_iff
        (λ (row : CertificateRow). row.id == cert_id && opt_id_eq row.acme_account_id account_id)
        (λ row. (is_owned row, λ same. rw (same.0, same.1) (ground arith))) db.certs).0
      owned
  where
    is_owned :
        (row : CertificateRow)
        → (row.id == cert_id && opt_id_eq row.acme_account_id account_id) ≡ true
        → (row.id ≡ cert_id) × (row.acme_account_id ≡ some account_id)
    is_owned row h = elim (Option-cases row.acme_account_id) [
      | inl missing ↦ absurd (ground (arith, rw missing at h))
      | inr (owner, is_owner) ↦
          let same : (row.id ≡ cert_id) × (owner ≡ account_id) = ground (arith, rw is_owner at h) in
          (same.0, rw is_owner (ap some same.1))
    ]

-- The row of a certificate once it is revoked.
pub revoke_user_cert-Any :
    (now : ℕ) (db : Db) (row : CertificateRow)
    → Any (λ c. c ≡ row) db.certs
    → Any
        (λ c. c ≡ record row { revoked_at = some (now / 1000) })
        (revoke_user_cert now row.id db).certs
unfolding revoke_user_cert
revoke_user_cert-Any now db row listed =
    Any-update (λ (c : CertificateRow). c.id == row.id)
      (λ c. record c { revoked_at = some (now / 1000) }) db.certs row (==_refl row.id) listed

-- A certificate of the table with the serial that is not revoked.
pub record Unrevoked (serial_hex : Text) (db : Db) (cert_id : ℕ) : Type 0 where
  pub row : CertificateRow
  pub listed : Any (λ c. c ≡ row) db.certs
  pub id_of_row : row.id ≡ cert_id
  pub serial : row.serial_hex ≡ some serial_hex
  pub not_revoked : row.revoked_at ≡ none

pub get_cert_id_by_serial_hex-Unrevoked :
    (serial_hex : Text) (db : Db) (cert_id : ℕ)
    → get_cert_id_by_serial_hex serial_hex db ≡ some cert_id
    → Unrevoked serial_hex db cert_id
unfolding get_cert_id_by_serial_hex
get_cert_id_by_serial_hex-Unrevoked serial_hex db cert_id h =
    elim (Option-cases (find shown db.certs)) [
      | inl missing ↦ absurd (cc (rw (get_cert_id_by_serial_hex, missing) at h))
      | inr (row, hit) ↦
          let both : (opt_text_eq row.serial_hex serial_hex ≡ true)
              × (not (is_some row.revoked_at) ≡ true) =
            and-true _ _ (find-passes shown db.certs row hit) in
          record {
            row = row;
            listed = find-Any shown db.certs row hit;
            id_of_row = cc (rw (get_cert_id_by_serial_hex, hit) at h);
            serial = opt_text_eq-some row.serial_hex serial_hex both.0;
            not_revoked = not-is_some row.revoked_at both.1;
          }
    ]
  where
    shown : CertificateRow → Bool
    shown c = opt_text_eq c.serial_hex serial_hex && not (is_some c.revoked_at)

    opt_text_eq-some : (o : Option Text) (t : Text) → opt_text_eq o t ≡ true → o ≡ some t
    opt_text_eq-some none t e = cc
    opt_text_eq-some (some given) t e = ap some ((text_eq_iff given t).0 e)

    not-is_some : (o : Option ℕ) → not (is_some o) ≡ true → o ≡ none
    not-is_some none e = refl
    not-is_some (some a) e = cc
