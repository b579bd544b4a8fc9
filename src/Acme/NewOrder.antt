-- ===== src/Acme/NewOrder.antt =====
-- `new_order`, `get_order` and `get_account_orders` of backend/src/acme/routes.rs.
pub mod Rules
pub mod Limits
use mathlib.Core.Option
use vaul_tls.Base.{
  ℕ, zero, suc, ◌+◌, ◌*◌, Bool, true, false, not, Option, none, some, List, [], ◌∷◌, ◌++◌, map, leb,
  ◌==◌, length, all, if◌then◌else◌,
}
use vaul_tls.Base.Result.{Result, ok, err, ok_or}
use vaul_tls.Base.Result
use vaul_tls.Base.Action.{◌>>=◌, ◌>>◌, pure, raise, lift, gets, modify, require, ensure}
use vaul_tls.Text.{Text, text, text_eq, is_empty}
use vaul_tls.Text.Decimal.{ℤ, pos, negsuc}
use vaul_tls.Db.Rows.{
  Bytes, Db, AcmeAccount, AcmeIdentifier, IdentifierStatus, AcmeOrderRow, OrderStatus,
}
use vaul_tls.Db.Accounts.{get_acme_account}
use vaul_tls.Db.Orders.{
  next_order_id, insert_acme_order, count_recent_orders_for_account, get_acme_order_i64,
  get_orders_by_account,
}
use vaul_tls.Acme.Domain.{is_valid_dns_name, check_domains}
use vaul_tls.Acme.Types.{
  AcmeError, Fallible, AcmeOrder, malformed, unauthorized, not_found, server_internal,
  rejected_identifier,
}
use vaul_tls.Acme.External.{External, Config, Env}
use vaul_tls.Acme.Jws.{str_at}
use vaul_tls.Acme.Urls.{order_url, authz_urls, finalize_url, order_row_to_response}
use vaul_tls.Acme.Authenticate.{Handler}

abbrev pub ms_per_day : ℕ
ms_per_day = 1000 * 60 * 60 * 24

abbrev pub order_expiry_days : ℕ
order_expiry_days = 1

abbrev pub cert_validity_days : ℕ
cert_validity_days = 90

-- `AcmeCreatedResponse` of an order
pub record OrderReply : Type 0 where
  pub http_status : ℕ
  pub location : Text
  pub order : AcmeOrder

abbrev or_else : Option Text → Text → Text
or_else none t = t
or_else (some s) t = s

abbrev pub is_id : ℤ → ℕ → Bool
is_id (pos n) id = n == id
is_id (negsuc n) id = false

-- One pass of the loop over the identifiers.
unfoldable pub check_identifier : AcmeIdentifier → Fallible (Unit {0})
check_identifier ident =
    if not (text_eq ident.identifier_type (text "dns"))
    then err (malformed "Unsupported identifier type: {}; only 'dns' is supported")
    else if is_empty ident.value
    then err (malformed "Identifier value must not be empty")
    else if is_valid_dns_name ident.value
    then ok tt
    else err (rejected_identifier "Invalid DNS name: {}")

unfoldable pub check_identifiers : List AcmeIdentifier → Fallible (Unit {0})
check_identifiers [] = ok tt
check_identifiers (ident ∷ rest) = Result.◌>>◌ (check_identifier ident) (check_identifiers rest)

-- The order that a request names, if it is the account's.
unfoldable pub owned_order : ℤ → ℕ → AcmeError → Handler AcmeOrderRow
owned_order id account_id denied = do
  order ← require (get_acme_order_i64 id) not_found
  ensure (order.account_id == account_id) denied
  pure order

module _ (x : External) where
  open x use {Json}

  abbrev pub identifier_of : Json → AcmeIdentifier
  identifier_of v = record {
    identifier_type = or_else (str_at x v (text "type")) (text "dns");
    value = or_else (str_at x v (text "value")) [];
    token = [];
    status = IdentifierStatus.pending;
  }

  unfoldable pub identifiers_of : Json → Fallible (List AcmeIdentifier)
  identifiers_of payload = elim (x.get payload (text "identifiers")) [
    | none ↦ err (malformed "Missing identifiers")
    | some v ↦
        Result.◌>>=◌ (ok_or (x.as_array v) (malformed "Missing identifiers"))
          (λ vs. ok (map identifier_of vs))
  ]

  -- The identifiers with a fresh token each; the n-th draws the n-th random bytes.
  unfoldable pub with_tokens : (ℕ → Bytes) → ℕ → List AcmeIdentifier → List AcmeIdentifier
  with_tokens random n [] = []
  with_tokens random n (ident ∷ rest) =
      record ident { token = x.encode (random n) } ∷ with_tokens random (suc n) rest

module _ (x : External) (config : Config) where
  unfoldable pub within_rate_limit : ℕ → ℕ → Handler (Unit {0})
  within_rate_limit now account_id =
      if config.rate_limit_enabled
      then (do
        recent_count ←
            gets (count_recent_orders_for_account now account_id (order_expiry_days * ms_per_day))
        ensure (not (leb config.rate_limit recent_count))
            (malformed "Order rate limit exceeded: max {} orders per 24 hours per account"))
      else pure tt

  unfoldable pub new_order : Env → ℕ → Bytes → Handler OrderReply
  new_order env account_id payload_bytes = do
    account ← require (get_acme_account account_id) (server_internal "Account lookup failed")
    payload ← lift (ok_or (x.from_str payload_bytes) (malformed "Invalid payload: {e}"))
    identifiers ← lift (identifiers_of x payload)
    ensure (not (length identifiers == 0)) (malformed "At least one identifier required")
    lift (check_identifiers identifiers)
    ensure
        (check_domains account.allowed_domains (map (λ (i : AcmeIdentifier). i.value) identifiers))
        (rejected_identifier "One or more requested domains are not permitted for this account")
    within_rate_limit env.now account_id
    let expires = env.now + order_expiry_days * ms_per_day
    let not_after = env.now + cert_validity_days * ms_per_day
    let tokened = with_tokens x env.random_bytes 0 identifiers
    order_id ← gets next_order_id
    modify (insert_acme_order env.now account_id tokened not_after expires (some env.client_ip))
    pure (record {
      http_status = 201;
      location = order_url config.vaultls_url order_id;
      order = record {
        status = OrderStatus.pending;
        expires = expires;
        identifiers = tokened;
        authorizations = authz_urls config.vaultls_url order_id 0 (length tokened);
        finalize = finalize_url config.vaultls_url order_id;
        certificate = none;
      };
    })

  unfoldable pub get_order : ℕ → ℤ → Handler AcmeOrder
  get_order account_id id = do
    row ← owned_order id account_id (unauthorized "Order does not belong to this account")
    pure (order_row_to_response row config.vaultls_url)

  unfoldable pub get_account_orders : ℕ → ℤ → Handler (List Text)
  get_account_orders account_id id = do
    ensure (is_id id account_id) (unauthorized "Account mismatch")
    orders ← gets (get_orders_by_account account_id)
    pure (map (λ (o : AcmeOrderRow). order_url config.vaultls_url o.id) orders)
