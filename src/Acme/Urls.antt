-- ===== src/Acme/Urls.antt =====
-- The URLs that the server hands out, and how it reads the ids back from them (`make_directory`,
-- `parse_authz_id` and `order_row_to_response` of backend/src/acme/routes.rs, and the `kid` of
-- backend/src/acme/jws.rs).
pub mod Laws
use mathlib.Core.Option
use vaul_tls.Base.{ℕ, zero, suc, Option, none, some, List, [], ◌∷◌, ◌++◌, length}
use vaul_tls.Base.Result.{Result, ok, err, ok_or, ◌>>=◌}
use vaul_tls.Text.{Text, text, strip_prefix, split_once}
use vaul_tls.Text.Decimal.{ℤ, show, parse_i64, parse_usize}
use vaul_tls.Db.Rows.{AcmeOrderRow}
use vaul_tls.Acme.Types.{Fallible, malformed, AcmeOrder, Directory}

abbrev pub account_prefix : Text → Text
account_prefix base = base ++ text "/api/acme/account/"

unfoldable pub account_url : Text → ℕ → Text
account_url base id = account_prefix base ++ show id

unfoldable pub orders_url : Text → ℕ → Text
orders_url base id = base ++ (text "/api/acme/orders/" ++ show id)

unfoldable pub order_url : Text → ℕ → Text
order_url base id = base ++ (text "/api/acme/order/" ++ show id)

-- The part of an authorization's URL that `parse_authz_id` reads.
unfoldable pub authz_id : ℕ → ℕ → Text
authz_id order_id domain_idx = show order_id ++ (b'-' ∷ show domain_idx)

unfoldable pub authz_url : Text → ℕ → ℕ → Text
authz_url base order_id domain_idx =
    base ++ (text "/api/acme/authz/" ++ authz_id order_id domain_idx)

unfoldable pub chall_url : Text → ℕ → Text → ℕ → Text
chall_url base order_id challenge_type domain_idx =
    base
    ++ (text "/api/acme/chall/"
        ++ (show order_id ++ (text "/" ++ (challenge_type ++ (text "/" ++ show domain_idx)))))

unfoldable pub finalize_url : Text → ℕ → Text
unfolding order_url
finalize_url base id = order_url base id ++ text "/finalize"

unfoldable pub cert_url : Text → ℕ → Text
cert_url base id = base ++ (text "/api/acme/cert/" ++ show id)

unfoldable pub make_directory : Text → Directory
make_directory base = record {
  new_nonce = base ++ text "/api/acme/new-nonce";
  new_account = base ++ text "/api/acme/new-account";
  new_order = base ++ text "/api/acme/new-order";
  revoke_cert = base ++ text "/api/acme/revoke-cert";
}

unfoldable pub parse_authz_id : Text → Fallible (ℤ × ℕ)
unfolding split_once parse_i64 parse_usize
parse_authz_id id = do
  parts ← ok_or (split_once b'-' id) (malformed "Invalid authorization ID format")
  order_id ← ok_or (parse_i64 parts.0) (malformed "Invalid authorization ID")
  domain_idx ← ok_or (parse_usize parts.1) (malformed "Invalid authorization ID")
  ok (order_id, domain_idx)

-- The account id in a `kid`.
unfoldable pub parse_kid : Text → Text → Fallible ℤ
unfolding strip_prefix parse_i64
parse_kid base kid = do
  digits ←
      ok_or (strip_prefix (account_prefix base) kid)
        (malformed "Invalid kid: unexpected URL prefix")
  ok_or (parse_i64 digits) (malformed "Invalid kid: non-numeric account id")

-- The URLs of `count` authorizations from the index on.
unfoldable pub authz_urls : Text → ℕ → ℕ → ℕ → List Text
authz_urls base order_id idx zero = []
authz_urls base order_id idx (suc count) =
    authz_url base order_id idx ∷ authz_urls base order_id (suc idx) count

unfoldable pub order_row_to_response : AcmeOrderRow → Text → AcmeOrder
order_row_to_response row base = record {
  status = row.status;
  expires = row.expires;
  identifiers = row.identifiers;
  authorizations = authz_urls base row.id 0 (length row.identifiers);
  finalize = finalize_url base row.id;
  certificate = Option.map (cert_url base) row.certificate_id;
}
