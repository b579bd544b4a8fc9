-- ===== src/Notifier/Tests.antt =====
-- A round over an imported certificate, one of the internal CA and one of an ACME provider.
use vaul_tls.Base.{◌≡◌, refl, false, none, some, List, [], ◌∷◌, ◌++◌}
use mathlib.Core.Option
use vaul_tls.Base.Result.{ok, err}
use vaul_tls.Text.{text}
use vaul_tls.Db.Rows.{CertificateRow, CertificateRenewMethod, VersionRow}
use vaul_tls.Db.Certs.{get_user_cert_by_id}
use vaul_tls.Api.Tests.{installed, test_db, web}
use vaul_tls.Base.Action.{◌>>=◌}
use vaul_tls.Db.Certs.{get_latest_tls_ca}
use vaul_tls.Db.Users.{get_user}
use vaul_tls.Db.Versions.{replace_certificate, may_replace}
use vaul_tls.Db.AcmeClient.{get_active_renewal_order_for_cert, get_acme_client_order_by_cert_id}
use vaul_tls.Api.State.{record_audit}
use vaul_tls.Api.Revocation.{hex_encode}
use vaul_tls.Notifier.{
  World, Issuers, handle_expiry, handle_imported_expiry, renew_internal, replace_unattended,
  audit_renewal_failure,
}
use vaul_tls.Notifier.Watch.{
  watch_expiry, check_all, check_cert, handle_acme_renewal, update_cert_renew_method, order_renewal,
}
use vaul_tls.Notifier.Keeps.{Kept}
use vaul_tls.Notifier.Keeps.Rounds.{watch_expiry-Kept}

abbrev test_issuers : Issuers
test_issuers = record {
  build_client = λ cert ca email. err (text "no client");
  build_server = λ cert ca.
      ok (record { bytes = text "next"; password = []; created_on = 600; valid_until = 700000000 });
  get_fingerprint = λ bytes password. ok (text "fx");
  get_serial = λ bytes password. some (12 ∷ []);
  create_order = λ provider domain wildcard. err (text "offline");
  issue_order = λ provider url domain records. err (text "offline");
  pack_issued_certificate = λ cert key password. err (text "offline");
}

abbrev shop : CertificateRow
shop = record web {
  id = 6;
  renew_method = CertificateRenewMethod.renew;
  is_imported = false;
  version = 1;
}

abbrev relay : CertificateRow
relay = record web {
  id = 7;
  renew_method = CertificateRenewMethod.renew;
  acme_provider_id = some 1;
  ca_id = none;
}

abbrev small_world : World
small_world = record {
  app = record installed { db = record test_db { certs = web ∷ shop ∷ relay ∷ [] } };
  providers = [];
  client_orders = [];
  mails = [];
}

shop_there : get_user_cert_by_id 6 small_world.app.db ≡ some shop
unfolding get_user_cert_by_id
shop_there = refl

watch_expiry-Kept_example :
    let after = (watch_expiry test_issuers 500 small_world).app.db in
    Kept 6 shop after
    × ((more : List VersionRow) × (after.versions ≡ small_world.app.db.versions ++ more))
watch_expiry-Kept_example = watch_expiry-Kept test_issuers 500 small_world 6 shop shop_there

-- The internal CA's certificate is renewed.
shop_renewed :
    Option.map
      (λ (c : CertificateRow). c.bytes)
      (get_user_cert_by_id 6 (watch_expiry test_issuers 500 small_world).app.db)
    ≡ some (text "next")
unfolding watch_expiry get_user_cert_by_id check_all check_cert handle_acme_renewal ◌>>=◌
    get_active_renewal_order_for_cert handle_expiry get_user handle_imported_expiry renew_internal
    get_latest_tls_ca update_cert_renew_method replace_unattended replace_certificate may_replace
    order_renewal get_acme_client_order_by_cert_id hex_encode record_audit audit_renewal_failure
shop_renewed = refl
