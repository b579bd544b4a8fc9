-- ===== src/Db/Versions/Tests.antt =====
-- One certificate, replaced once.
use vaul_tls.Base.{ℕ, ◌/◌, ◌≡◌, refl, true, none, some, [], ◌∷◌, Any}
use vaul_tls.Base.Result.{ok}
use vaul_tls.Text.{Text, text}
use vaul_tls.Db.Rows.{Db, CertificateRow, CertificateType, CertificateRenewMethod}
use vaul_tls.Db.Certs.{get_user_cert_by_id, revoke_user_cert}
use vaul_tls.Db.Versions.{
  ReplaceGuard, ReplaceCertificateInput, may_replace, replace_certificate, get_certificate_version,
  delete_certificate_version, get_revoked_history_serials_for_ca,
}
use vaul_tls.Db.Versions.History.{
  IsVersioned, replace_certificate-get_certificate_version, replace_certificate-IsVersioned,
}
use vaul_tls.Db.Versions.Revoked.{replaced-get_revoked_history_serials_for_ca}

abbrev imported : CertificateRow
imported = record {
  id = 4;
  name = record { cn = text "db.local"; ou = none };
  created_on = 0;
  valid_until = 1000;
  bytes = text "old";
  password = [];
  certificate_type = CertificateType.tls_server;
  renew_method = CertificateRenewMethod.notify;
  ca_id = some 2;
  user_id = 1;
  revoked_at = none;
  acme_provider_id = none;
  acme_account_id = none;
  serial_hex = some (text "0a");
  version = 1;
  fingerprint = none;
  is_imported = true;
}

abbrev input : ReplaceCertificateInput
input = record {
  bytes = text "new";
  password = text "pw";
  created_on = 10;
  valid_until = 2000;
  serial_hex = some (text "0b");
  fingerprint = text "ff";
  ca_id = 3;
  renew_method = none;
}

abbrev stored : Db
stored = record {
  nonces = [];
  accounts = [];
  orders = [];
  certs = imported ∷ [];
  versions = [];
  cas = [];
}

stored-IsVersioned : IsVersioned stored
stored-IsVersioned = record { ascending = (tt, tt); older = tt }

there : get_user_cert_by_id 4 stored ≡ some imported
unfolding get_user_cert_by_id
there = refl

allowed : may_replace ReplaceGuard.imported_manual imported ≡ true
unfolding may_replace
allowed = refl

replace_certificate-get_certificate_version_example :
    let after = replace_certificate 10 4 (some 1) input ReplaceGuard.imported_manual stored in
    (after.0 ≡ ok 2)
    × (get_certificate_version 4 2 after.1
        ≡ some (record { bytes = text "new"; password = text "pw" }))
    × (get_certificate_version 4 1 after.1 ≡ some (record { bytes = text "old"; password = [] }))
replace_certificate-get_certificate_version_example =
    replace_certificate-get_certificate_version 10 4 (some 1) input ReplaceGuard.imported_manual
      imported stored stored-IsVersioned there allowed

replace_certificate-IsVersioned_example :
    IsVersioned (replace_certificate 10 4 (some 1) input ReplaceGuard.imported_manual stored).1
    × IsVersioned (delete_certificate_version 4 1 stored).1
replace_certificate-IsVersioned_example =
    replace_certificate-IsVersioned 10 4 (some 1) input ReplaceGuard.imported_manual 1 stored
      stored-IsVersioned

replaced-get_revoked_history_serials_for_ca_example :
    Any
      (λ (e : Text × ℕ). e ≡ (text "0a", 5000 / 1000))
      (get_revoked_history_serials_for_ca 2 (
        revoke_user_cert 5000 4
          (replace_certificate 10 4 (some 1) input ReplaceGuard.imported_manual stored).1))
replaced-get_revoked_history_serials_for_ca_example =
    replaced-get_revoked_history_serials_for_ca 10 5000 (some 1) input ReplaceGuard.imported_manual
      imported 2 (text "0a") stored stored-IsVersioned there allowed refl refl refl
