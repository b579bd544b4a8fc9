-- ===== src/Acme/Tests/Histories.antt =====
-- Histories: an account is created, its key is bound, and it orders a certificate.
use vaul_tls.Base.{
  ℕ, ◌≡◌, refl, ◌≤◌, ◌*◌, true, false, Option, none, some, is_some, any, [], ◌∷◌, arith,
}
use vaul_tls.Base.Result.{ok, err}
use vaul_tls.Base.Action.{◌>>=◌}
use vaul_tls.Text.{
  text, text_eq, strip_prefix, strip_suffix, split, split_from, trim, trim_start, is_space,
  to_lowercase,
}
use vaul_tls.Text.Decimal.{value, parse_i64}
use vaul_tls.Session.{guard_authenticated}
use vaul_tls.Db.Rows.{Db}
use vaul_tls.Db.Accounts.{
  get_acme_account, get_acme_account_i64, get_acme_account_by_eab_kid,
  get_acme_account_by_jwk_thumbprint, insert_acme_account, set_acme_account_jwk,
}
use vaul_tls.Db.Orders.{
  get_acme_order, count_recent_orders_for_account, insert_acme_order, cleanup_expired_orders,
}
use vaul_tls.Db.Nonces.{validate_and_delete_nonce, insert_acme_nonce, cleanup_old_nonces}
use vaul_tls.Acme.Types.{Fallible}
use vaul_tls.Acme.Jws.{
  parse_jws, verify_signature, verify_es256, ecdsa_raw_to_der, verify_eab, jwk_thumbprint,
  canonical_jwk,
}
use vaul_tls.Acme.Urls.{parse_kid}
use vaul_tls.Acme.Domain.{
  is_valid_dns_name, is_valid_bare, is_valid_label, without_wildcard, check_domains, matches_domain,
  matches_normalized, matches_nonempty,
}
use vaul_tls.Acme.Authenticate.{authenticate_jws, authenticate_kid, consume_nonce, check_url}
use vaul_tls.Acme.Authenticate.Nonces.{issued-spent_once}
use vaul_tls.Acme.NewAccount.{new_account, register, bind_key, eab_kid_of, contacts_of, texts_of}
use vaul_tls.Acme.NewOrder.{
  new_order, ms_per_day, order_expiry_days, identifiers_of, check_identifiers, check_identifier,
  within_rate_limit, with_tokens,
}
use vaul_tls.Acme.NewOrder.Limits.{new_order-within_limit}
use vaul_tls.Acme.Server.{
  serve, handle, authenticated, route, read_body, on_response, new_account_request, signed_request,
  new_order_route, complete,
}
use vaul_tls.Acme.Soundness.{IsSound}
use vaul_tls.Acme.Admin.{create_acme_account, guarded}
use vaul_tls.Acme.System.{Reachable, initial, next, create_step, request_step}
use vaul_tls.Acme.System.Invariant.{get_acme_order-IsSound, thumbprint_unique}
use vaul_tls.Acme.System.Replay.{replay-refused, here, is_err}
use vaul_tls.Acme.Tests.{
  toy, toy_config, toy_env, toy_account, toy_db, toy_get, toy_header, toy_admin,
}

ok_of : {A : Type 0} (r : Fallible A) → is_err r ≡ false → (a : A) × (r ≡ ok a)
ok_of (ok a) e = (a, refl)
ok_of (err x) e = cc

unfoldable some_of : {A : Type 0} (o : Option A) → is_some o ≡ true → (a : A) × (o ≡ some a)
some_of none e = cc
some_of (some a) e = (a, refl)

abbrev with_account : Db
with_account = toy_db (toy_account ∷ []) []

order_goes :
    is_err (new_order toy toy_config (toy_env 5 (text "n3")) 1 (text "payload") with_account).0
    ≡ false
unfolding new_order get_acme_account identifiers_of toy_get text_eq check_identifiers
    check_identifier is_valid_dns_name is_valid_bare is_valid_label without_wildcard strip_prefix
    strip_suffix split split_from trim trim_start is_space check_domains matches_domain
    matches_normalized matches_nonempty to_lowercase within_rate_limit
    count_recent_orders_for_account ◌>>=◌
order_goes = refl

new_order-within_limit_example :
    count_recent_orders_for_account 5 1
      (order_expiry_days * ms_per_day)
      (new_order toy toy_config (toy_env 5 (text "n3")) 1 (text "payload") with_account).1
    ≤ 2
new_order-within_limit_example =
    new_order-within_limit toy toy_config (toy_env 5 (text "n3")) 1 (text "payload") with_account
      (ok_of _ order_goes).0 refl (ok_of _ order_goes).1

auth_goes :
    is_err
      (authenticate_jws toy toy_config 5 (text "order") (text "/api/acme/new-order") with_account).0
    ≡ false
unfolding authenticate_jws parse_jws toy_header consume_nonce validate_and_delete_nonce check_url
    text_eq authenticate_kid parse_kid strip_prefix parse_i64 value get_acme_account_i64
    get_acme_account verify_signature verify_es256 ecdsa_raw_to_der toy_get ◌>>=◌
auth_goes = refl

replay-refused_example :
    is_err
      (authenticate_jws toy toy_config 6
        (text "order")
        (text "/api/acme/new-order")
        (authenticate_jws toy toy_config 5
          (text "order")
          (text "/api/acme/new-order")
          with_account).1).0
    ≡ true
replay-refused_example =
    replay-refused toy toy_config 5 6 (text "order") (text "/api/acme/new-order")
      (text "/api/acme/new-order") with_account (ok_of _ auth_goes).0 (ok_of _ auth_goes).1 here
      (omega arith)

no_n3 : any (λ row. text_eq row.nonce (text "n3")) with_account.nonces ≡ false
unfolding text_eq
no_n3 = refl

issued-spent_once_example :
    let issued = cleanup_old_nonces 7 (insert_acme_nonce 7 (text "n3") with_account) in
    ((validate_and_delete_nonce 9 (text "n3") issued).0 ≡ true)
    × ((validate_and_delete_nonce 9
          (text "n3")
          (validate_and_delete_nonce 9 (text "n3") issued).1).0
        ≡ false)
issued-spent_once_example =
    issued-spent_once 7 9 (text "n3") with_account no_n3 (omega arith) (omega arith)

-- From an empty database to an order.
abbrev created : Db
created =
    (create_acme_account true 1 (text "kid") (text "hmac") (some toy_admin)
      (record {
        name = text "ci";
        allowed_domains = text "*.example.com" ∷ [];
        ca_id = 1;
        auto_validate = false;
      })
      (toy_db [] [])).1

abbrev registered : Db
registered =
    (serve toy toy_config (toy_env 2 (text "n3")) (new_account_request (complete (text "register")))
      created).1

abbrev ordered : Db
ordered =
    (serve toy toy_config (toy_env 3 (text "n4"))
      (signed_request (text "/api/acme/new-order") new_order_route (complete (text "order")))
      registered).1

history : Reachable toy toy_config ordered
history =
    next
      (next
        (next (initial {db = toy_db [] []} (record { no_accounts = refl; no_orders = refl })) (
          create_step 1 (text "kid") (text "hmac") (some toy_admin) (record {
            name = text "ci";
            allowed_domains = text "*.example.com" ∷ [];
            ca_id = 1;
            auto_validate = false;
          })))
        (request_step (toy_env 2 (text "n3")) (new_account_request (complete (text "register")))))
      (request_step (toy_env 3 (text "n4"))
        (signed_request (text "/api/acme/new-order") new_order_route (complete (text "order"))))

order_there : is_some (get_acme_order 1 ordered) ≡ true
unfolding serve handle authenticated route read_body on_response cleanup_expired_orders
    cleanup_old_nonces insert_acme_nonce new_account register bind_key eab_kid_of contacts_of
    texts_of verify_eab jwk_thumbprint canonical_jwk get_acme_account_by_eab_kid
    get_acme_account_by_jwk_thumbprint insert_acme_account set_acme_account_jwk create_acme_account
    guarded guard_authenticated authenticate_jws parse_jws toy_header consume_nonce
    validate_and_delete_nonce check_url text_eq authenticate_kid parse_kid strip_prefix parse_i64
    value get_acme_account_i64 verify_signature verify_es256 ecdsa_raw_to_der toy_get new_order
    get_acme_account identifiers_of check_identifiers check_identifier is_valid_dns_name
    is_valid_bare is_valid_label without_wildcard strip_suffix split split_from trim trim_start
    is_space check_domains matches_domain matches_normalized matches_nonempty to_lowercase
    within_rate_limit count_recent_orders_for_account insert_acme_order get_acme_order with_tokens
    ◌>>=◌
order_there = refl

get_acme_order-IsSound_example : IsSound (some_of (get_acme_order 1 ordered) order_there).0
get_acme_order-IsSound_example =
    get_acme_order-IsSound toy toy_config 1 (some_of (get_acme_order 1 ordered) order_there).0
      history (some_of (get_acme_order 1 ordered) order_there).1

account_there : is_some (get_acme_account 1 ordered) ≡ true
unfolding serve handle authenticated route read_body on_response cleanup_expired_orders
    cleanup_old_nonces insert_acme_nonce new_account register bind_key eab_kid_of contacts_of
    texts_of verify_eab jwk_thumbprint canonical_jwk get_acme_account_by_eab_kid
    get_acme_account_by_jwk_thumbprint insert_acme_account set_acme_account_jwk create_acme_account
    guarded guard_authenticated authenticate_jws parse_jws toy_header consume_nonce
    validate_and_delete_nonce check_url text_eq authenticate_kid parse_kid strip_prefix parse_i64
    value get_acme_account_i64 verify_signature verify_es256 ecdsa_raw_to_der toy_get new_order
    get_acme_account identifiers_of check_identifiers check_identifier is_valid_dns_name
    is_valid_bare is_valid_label without_wildcard strip_suffix split split_from trim trim_start
    is_space check_domains matches_domain matches_normalized matches_nonempty to_lowercase
    within_rate_limit count_recent_orders_for_account insert_acme_order get_acme_order with_tokens
    ◌>>=◌
account_there = refl

key_there :
    (some_of (get_acme_account 1 ordered) account_there).0.jwk_thumbprint ≡ some (text "object")
unfolding serve handle authenticated route read_body on_response cleanup_expired_orders
    cleanup_old_nonces insert_acme_nonce new_account register bind_key eab_kid_of contacts_of
    texts_of verify_eab jwk_thumbprint canonical_jwk get_acme_account_by_eab_kid
    get_acme_account_by_jwk_thumbprint insert_acme_account set_acme_account_jwk create_acme_account
    guarded guard_authenticated authenticate_jws parse_jws toy_header consume_nonce
    validate_and_delete_nonce check_url text_eq authenticate_kid parse_kid strip_prefix parse_i64
    value get_acme_account_i64 verify_signature verify_es256 ecdsa_raw_to_der toy_get new_order
    get_acme_account identifiers_of check_identifiers check_identifier is_valid_dns_name
    is_valid_bare is_valid_label without_wildcard strip_suffix split split_from trim trim_start
    is_space check_domains matches_domain matches_normalized matches_nonempty to_lowercase
    within_rate_limit count_recent_orders_for_account insert_acme_order get_acme_order with_tokens
    ◌>>=◌ some_of
key_there = refl

thumbprint_unique_example : ◌≡◌ {A = ℕ} 1 1
thumbprint_unique_example =
    thumbprint_unique toy toy_config 1 1 (text "object")
      (some_of (get_acme_account 1 ordered) account_there).0
      (some_of (get_acme_account 1 ordered) account_there).0 history
      (some_of (get_acme_account 1 ordered) account_there).1
      (some_of (get_acme_account 1 ordered) account_there).1 key_there key_there
