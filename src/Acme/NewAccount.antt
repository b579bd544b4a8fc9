-- ===== src/Acme/NewAccount.antt =====
-- `new_account` of backend/src/acme/routes.rs.
pub mod Binding
use mathlib.Core.Option
pub mod Rules
pub mod Eab
use vaul_tls.Base.{
  ℕ, Bool, true, false, not, Option, none, some, List, [], ◌∷◌, ◌++◌, ◌==◌, select, is_some,
  if◌then◌else◌,
}
use vaul_tls.Base.Result.{Result, ok, err, ok_or}
use vaul_tls.Base.Action.{◌>>=◌, ◌>>◌, pure, raise, lift, gets, modify, require, ensure}
use vaul_tls.Text.{Text, text, is_empty, split}
use vaul_tls.Db.Rows.{Bytes, Db, AccountStatus, AcmeAccount}
use vaul_tls.Db.Accounts.{
  get_acme_account, get_acme_account_by_eab_kid, get_acme_account_by_jwk_thumbprint,
  set_acme_account_jwk,
}
use vaul_tls.Acme.Types.{
  AcmeError, Fallible, malformed, unauthorized, server_internal, account_does_not_exist,
}
use vaul_tls.Acme.External.{External, Config}
use vaul_tls.Acme.Jws.{str_at, parse_jws, verify_signature, verify_eab, jwk_thumbprint}
use vaul_tls.Acme.Urls.{account_url, orders_url}
use vaul_tls.Acme.Authenticate.{Handler, consume_nonce, check_url, is_valid}

-- `AcmeCreatedResponse` with its JSON body's members.
pub record AccountReply : Type 0 where
  pub http_status : ℕ
  pub location : Text
  pub status : AccountStatus
  pub contact : List Text
  pub orders : Text

abbrev pub account_reply : Text → ℕ → AcmeAccount → AccountReply
account_reply base http_status account = record {
  http_status = http_status;
  location = account_url base account.id;
  status = account.status;
  contact = select (λ s. not (is_empty s)) (split b',' account.contacts);
  orders = orders_url base account.id;
}

-- `valid` or `pending`
abbrev pub is_usable : AccountStatus → Bool
is_usable AccountStatus.pending = true
is_usable AccountStatus.valid = true
is_usable AccountStatus.deactivated = false

abbrev comma_separated : List Text → Text
comma_separated [] = []
comma_separated (s ∷ []) = s
comma_separated (s ∷ t ∷ rest) = s ++ (b',' ∷ comma_separated (t ∷ rest))

-- The account's credentials are bound already: the key must be the one that they are bound to.
unfoldable pub rebind : AcmeAccount → Option AcmeAccount → Handler AcmeAccount
rebind account none =
    raise (unauthorized "EAB credentials are already bound to a different account key")
rebind account (some existing) =
    if existing.id == account.id
    then pure account
    else raise (unauthorized "account key is already registered to another ACME account")

abbrev pub is_other : AcmeAccount → Option AcmeAccount → Bool
is_other account none = false
is_other account (some existing) = not (existing.id == account.id)

module _ (x : External) where
  open x use {Json}

  unfoldable pub texts_of : List Json → List Text
  texts_of [] = []
  texts_of (v ∷ vs) = elim (x.as_str v) [ none ↦ texts_of vs | some s ↦ s ∷ texts_of vs ]

  unfoldable pub contacts_of : Json → Text
  contacts_of payload = elim (x.get payload (text "contact")) [
    | none ↦ []
    | some v ↦ elim (x.as_array v) [ none ↦ [] | some vs ↦ comma_separated (texts_of vs) ]
  ]

  abbrev pub only_return_existing : Json → Bool
  only_return_existing payload = elim (x.get payload (text "onlyReturnExisting")) [
    | none ↦ false
    | some v ↦ elim (x.as_bool v) [ none ↦ false | some b ↦ b ]
  ]

  unfoldable pub eab_kid_of : Json → Fallible Text
  eab_kid_of eab_jws = elim (str_at x eab_jws (text "protected")) [
    | none ↦ err (malformed "Cannot extract EAB kid")
    | some p ↦ elim (x.decode p) [
      | none ↦ err (malformed "Cannot extract EAB kid")
      | some b ↦ elim (x.from_str b) [
        | none ↦ err (malformed "Cannot extract EAB kid")
        | some h ↦ ok_or (str_at x h (text "kid")) (malformed "Cannot extract EAB kid")
      ]
    ]
  ]

  -- The first registration: no other account may have the key.
  unfoldable pub bind_key : AcmeAccount → Json → Text → Json → Handler AcmeAccount
  bind_key account jwk thumbprint payload = do
    existing ← gets (get_acme_account_by_jwk_thumbprint thumbprint)
    ensure (not (is_other account existing))
        (malformed "This key is already registered to another account")
    modify (set_acme_account_jwk account.id (x.to_string jwk) (contacts_of payload) thumbprint)
    require (get_acme_account account.id) (server_internal "Failed to retrieve account")

module _ (x : External) (base : Text) where
  open x use {Json}

  unfoldable pub existing_account : Json → Handler AccountReply
  existing_account jwk = do
    thumbprint ← lift (jwk_thumbprint x jwk)
    account ← require (get_acme_account_by_jwk_thumbprint thumbprint) account_does_not_exist
    ensure (is_valid account.status) account_does_not_exist
    pure (account_reply base 200 account)

  unfoldable pub register : Json → Json → Handler AccountReply
  register jwk payload = do
    eab_jws ← lift (
        ok_or (x.get payload (text "externalAccountBinding"))
          (malformed "externalAccountBinding is required"))
    eab_kid ← lift (eab_kid_of x eab_jws)
    account ← require (get_acme_account_by_eab_kid eab_kid) (malformed "EAB key ID not found")
    ensure (is_usable account.status) (unauthorized "Account cannot be used")
    lift (verify_eab x jwk eab_kid account.eab_hmac_key eab_jws)
    thumbprint ← lift (jwk_thumbprint x jwk)
    existing ← gets (get_acme_account_by_jwk_thumbprint thumbprint)
    final_account ←
        if is_some account.acme_jwk
        then rebind account existing
        else bind_key x account jwk thumbprint payload
    pure (account_reply base (if is_some account.acme_jwk then 200 else 201) final_account)

  unfoldable pub new_account : ℕ → Text → Handler AccountReply
  new_account now body = do
    parsed ← lift (parse_jws x body)
    let header = parsed.0
    consume_nonce now header.nonce
    check_url header.url (base ++ text "/api/acme/new-account")
    ensure (not (is_some header.kid)) (malformed "new-account request must use jwk, not kid")
    jwk ← lift (ok_or header.jwk (malformed "Missing jwk in protected header for new-account"))
    req ← lift (ok_or (x.parse_request body) (malformed "Invalid JWS: {e}"))
    lift (verify_signature x header.alg jwk req.protected req.payload parsed.2)
    payload ← lift (ok_or (x.from_str parsed.1) (malformed "Invalid payload: {e}"))
    if only_return_existing x payload then existing_account jwk else register jwk payload
