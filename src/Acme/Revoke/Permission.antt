-- ===== src/Acme/Revoke/Permission.antt =====
-- `revoke_cert` of backend/src/acme/routes.rs: who may revoke.
use vaul_tls.Base.{ℕ, ◌/◌, ◌≡◌, Option, some, Any, subst}
use vaul_tls.Base.Result.{ok, err}
use vaul_tls.Text.{Text}
use vaul_tls.Db.Rows.{Db}
use vaul_tls.Db.Certs.{revoke_user_cert}
use vaul_tls.Acme.Types.{AcmeError, Fallible}
use vaul_tls.Acme.External.{External, Config}
use vaul_tls.Acme.Authenticate.Rules.{spent}
use vaul_tls.Acme.Revoke.{revoke_cert}
use vaul_tls.Acme.Revoke.Rows.{revoke_user_cert-Any}
use vaul_tls.Acme.Revoke.Rules.{Revoking, revoke_cases}

pub data RevokeOutcome (x : External) (config : Config) (now : ℕ) (body : Text) (db : Db)
    : Fallible (Unit {0}) → Db → Type 0 where
  refused : (e : AcmeError) → RevokeOutcome x config now body db (err e) db
  refused_late :
      (nonce : Option Text) (e : AcmeError)
      → RevokeOutcome x config now body db (err e) (spent now nonce db)
  revoked :
      (nonce : Option Text) (cert_id : ℕ) (revoking : Revoking x config now body db nonce cert_id)
      → Any
          (λ c. c ≡ record revoking.found.row { revoked_at = some (now / 1000) })
          (revoke_user_cert now cert_id (spent now nonce db)).certs
      → RevokeOutcome x config now body db
          (ok tt)
          (revoke_user_cert now cert_id (spent now nonce db))

-- A revocation request returns an error, having changed the database at most by the deletion of a
-- nonce, or it revokes one certificate. Then its nonce was in the table and fresh, its header has the
-- URL of the endpoint, the field `certificate` of its payload decodes and parses as a certificate,
-- and the row that is revoked, with the time in seconds, has that certificate's serial and was not
-- revoked. Either
-- a valid account that the certificate was issued to has signed the request, or the request is signed
-- with the key whose public part stands in the certificate that the payload shows.
pub revoke_cert-outcome :
    (x : External) (config : Config) (now : ℕ) (body : Text) (db : Db)
    → RevokeOutcome x config now body db
        (revoke_cert x config now body db).0
        (revoke_cert x config now body db).1
revoke_cert-outcome x config now body db =
    revoke_cases x config now body db (RevokeOutcome x config now body db) refused refused_late
      (λ nonce cert_id revoking. revoked nonce cert_id revoking (
        subst
          (λ id.
            Any (λ c. c ≡ record revoking.found.row { revoked_at = some (now / 1000) })
              (revoke_user_cert now id (spent now nonce db)).certs)
          revoking.found.id_of_row
          (revoke_user_cert-Any now (spent now nonce db) revoking.found.row revoking.found.listed)))
