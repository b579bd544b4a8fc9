-- ===== src/Api/Tests/Access.antt =====
-- Bob fetches what his certificate holds, and Ada revokes it.
use vaul_tls.Base.{ℕ, ◌≡◌, refl, Option, none, some, List, [], ◌∷◌, false, length}
use vaul_tls.Base.Action.{◌>>=◌}
use vaul_tls.Base.Result.{Result, ok}
use vaul_tls.Text.{Text, text, text_eq}
use vaul_tls.Db.Rows.{Bytes, Db, CertificateRow, Ca}
use vaul_tls.Db.Certs.{get_ca_by_id, get_user_cert_by_id, revoke_user_cert}
use vaul_tls.Db.Versions.{get_certificate_version, get_revoked_history_serials_for_ca}
use vaul_tls.Api.Errors.{ApiError}
use vaul_tls.Api.Certificates.{
  can_access_cert_secret, fetch_certificate_password, download_certificate,
}
use vaul_tls.Api.Certificates.Access.{
  PasswordServed, MaterialServed, fetch_certificate_password-outcome, download_certificate-outcome,
}
use vaul_tls.Api.Revocation.{create_crl_params, revoke_cert_and_update_crl, publish_list}
use vaul_tls.Api.Revocation.Published.{Published, revoke_cert_and_update_crl-publish_list}
use vaul_tls.Api.Validate.{CertStatus, normalize_serial, validate_certificate}
use vaul_tls.Api.Validate.Revoked.{revoke_cert_and_update_crl-validate_certificate}
use vaul_tls.Api.Tests.{as_bob, installed, test_db, web, root_ca}

password_served : (fetch_certificate_password 5 (some 1) as_bob installed).0 ≡ ok (text "pw1")
unfolding fetch_certificate_password ◌>>=◌ get_user_cert_by_id can_access_cert_secret
    get_certificate_version
password_served = refl

fetch_certificate_password-outcome_example :
    let (r, after) = fetch_certificate_password 5 (some 1) as_bob installed in
    PasswordServed as_bob 5 (some 1) installed r after
fetch_certificate_password-outcome_example =
    fetch_certificate_password-outcome as_bob 5 (some 1) installed

abbrev test_zip : Bytes → Text → Result ApiError Bytes
test_zip bytes password = ok bytes

download_certificate-outcome_example :
    let (r, after) = download_certificate test_zip 5 none none as_bob installed in
    MaterialServed test_zip as_bob 5 none none installed r after
download_certificate-outcome_example =
    download_certificate-outcome test_zip as_bob 5 none none installed

abbrev test_serial : CertificateRow → Option Bytes
test_serial c = some (11 ∷ [])

abbrev test_publish : Ca → Db → Result ApiError ℕ
test_publish ca db = ok 1

abbrev revoked_db : Db
revoked_db = (revoke_cert_and_update_crl test_publish 7000 5 test_db).1

revoked : (revoke_cert_and_update_crl test_publish 7000 5 test_db).0 ≡ ok web
unfolding revoke_cert_and_update_crl ◌>>=◌ get_user_cert_by_id get_ca_by_id
revoked = refl

abbrev save_crl : Ca → List (Bytes × ℕ) → Result ApiError ℕ
save_crl ca params = ok (length params)

abbrev save_krl : Ca → List Bytes → Result ApiError ℕ
save_krl ca serials = ok (length serials)

listed :
    create_crl_params test_serial root_ca (revoke_user_cert 7000 5 test_db)
    ≡ ok ((11 ∷ [], 7) ∷ (10 ∷ [], 7) ∷ [])
unfolding create_crl_params get_user_cert_by_id get_ca_by_id revoke_user_cert
    get_revoked_history_serials_for_ca
listed = refl

went_through :
    (revoke_cert_and_update_crl (publish_list test_serial save_crl save_krl) 7000 5 test_db).0
    ≡ ok web
unfolding revoke_cert_and_update_crl ◌>>=◌ publish_list create_crl_params get_user_cert_by_id
    get_ca_by_id revoke_user_cert get_revoked_history_serials_for_ca
went_through = refl

revoke_cert_and_update_crl-publish_list_example :
    Published test_serial save_crl save_krl 7000 5 test_db web
      (revoke_cert_and_update_crl (publish_list test_serial save_crl save_krl) 7000 5 test_db).1
revoke_cert_and_update_crl-publish_list_example =
    revoke_cert_and_update_crl-publish_list test_serial save_crl save_krl 7000 5 test_db web
      went_through

normalized : normalize_serial (text "0B:") ≡ text "0b"
unfolding normalize_serial text_eq
normalized = refl

revoke_cert_and_update_crl-validate_certificate_example :
    validate_certificate 9000 (text "0B:") revoked_db
    ≡ ok (record {
      serial = normalize_serial (text "0B:");
      status = CertStatus.revoked;
      not_before = some 100;
      not_after = some 2000;
      revoked_at = some 7;
      ca_id = some 1;
      superseded = false;
    })
unfolding normalize_serial text_eq
revoke_cert_and_update_crl-validate_certificate_example =
    revoke_cert_and_update_crl-validate_certificate test_publish 7000 9000 5 (text "0B:") test_db
      web web revoked refl refl refl
