-- ===== src/Acme/Admin.antt =====
-- The administration of the ACME server: backend/src/acme/admin.rs. The audit log is not modelled.
-- An id is one that the table may have: a negative one finds nothing and changes nothing.
pub mod Keeps
pub mod Sound
use vaul_tls.Base.{
  ℕ, Bool, true, false, not, ◌||◌, ◌&&◌, Option, none, some, List, [], ◌∷◌, ◌++◌, is_some,
  if◌then◌else◌,
}
use vaul_tls.Base.Result.{Result, ok, err, ok_or}
use vaul_tls.Base.Action.{Action, ◌>>=◌, ◌>>◌, pure, raise, lift, gets, modify, require, ensure}
use mathlib.Core.Option
use vaul_tls.Text.{Text, text}
use vaul_tls.Api.Revocation.{revoke_cert_and_update_crl}
use vaul_tls.Api.Errors.{
  ApiError, unauthorized_error, forbidden_error, not_found_error, bad_request, other,
}
use vaul_tls.Session.{
  Claims, is_service, has_scope, is_admin, Guarded, success, unauthorized, forbidden,
  guard_authenticated, guard_privileged, guard_local_admin,
}
use vaul_tls.Db.Rows.{Bytes, Db, AcmeAccount, AccountStatus, AcmeOrderRow, CertificateRow, Ca}
use vaul_tls.Db.Accounts.{
  get_acme_account, insert_acme_account, update_acme_account, delete_acme_account,
}
use vaul_tls.Db.Orders.{get_acme_order, delete_acme_order}
use vaul_tls.Db.Certs.{
  get_user_cert_by_id, get_ca_by_id, revoke_user_cert, has_private_key, increase_ca_crl_number,
}

abbrev pub Admin : Type 0 → Type 0
Admin = Action Db ApiError

abbrev pub join_comma : List Text → Text
join_comma [] = []
join_comma (s ∷ []) = s
join_comma (s ∷ t ∷ rest) = s ++ (b',' ∷ join_comma (t ∷ rest))

-- A request guard, then `AcmeEnabled`.
unfoldable pub guarded : Guarded → Bool → Admin Claims
guarded unauthorized acme_enabled = raise unauthorized_error
guarded forbidden acme_enabled = raise forbidden_error
guarded (success claims) acme_enabled = do ensure acme_enabled not_found_error; pure claims

pub record CreateAcmeAccountRequest : Type 0 where
  pub name : Text
  pub allowed_domains : List Text
  pub ca_id : ℕ
  pub auto_validate : Bool

pub record UpdateAcmeAccountRequest : Type 0 where
  pub name : Option Text
  pub allowed_domains : Option (List Text)
  pub ca_id : Option ℕ
  pub auto_validate : Option Bool

-- A service token needs the scope, a user the role.
abbrev pub may_create : Claims → Bool
may_create claims =
    if is_service claims then has_scope (text "acme:create") claims else is_admin claims.role

abbrev is_deactivated : AccountStatus → Bool
is_deactivated AccountStatus.deactivated = true
is_deactivated AccountStatus.pending = false
is_deactivated AccountStatus.valid = false

module _ (acme_enabled : Bool) where
  -- The clock, the new EAB key id and its key are drawn by the request.
  unfoldable pub create_acme_account :
      ℕ → Text → Bytes → Option Claims → CreateAcmeAccountRequest → Admin (Unit {0})
  create_acme_account now eab_kid eab_hmac_key auth req = do
    claims ← guarded (guard_authenticated auth) acme_enabled
    ensure (may_create claims) forbidden_error
    modify (
        insert_acme_account now req.name (join_comma req.allowed_domains) eab_kid eab_hmac_key
          req.ca_id claims.id req.auto_validate)

  unfoldable pub admin_update_acme_account :
      ℕ → Option Claims → UpdateAcmeAccountRequest → Admin AcmeAccount
  admin_update_acme_account id auth req = do
    claims ← guarded (guard_privileged auth) acme_enabled
    modify (
        update_acme_account id req.name (Option.map join_comma req.allowed_domains)
          (Option.map some req.ca_id) none req.auto_validate)
    require (get_acme_account id) (other (text "account"))

  -- `DELETE /acme/accounts/<id>` deactivates.
  unfoldable pub deactivate_acme_account : ℕ → Option Claims → Admin (Unit {0})
  deactivate_acme_account id auth = do
    claims ← guarded (guard_privileged auth) acme_enabled
    modify (update_acme_account id none none none (some AccountStatus.deactivated) none)

  unfoldable pub purge_acme_account : ℕ → Option Claims → Admin (Unit {0})
  purge_acme_account id auth = do
    claims ← guarded (guard_local_admin auth) acme_enabled
    account ← require (get_acme_account id) not_found_error
    ensure (is_deactivated account.status)
        (bad_request (text "only deactivated ACME accounts can be purged; deactivate it first"))
    modify (delete_acme_account id)

  unfoldable pub admin_delete_acme_order : ℕ → Option Claims → Admin (Unit {0})
  admin_delete_acme_order id auth = do
    claims ← guarded (guard_local_admin auth) acme_enabled
    order ← require (get_acme_order id) not_found_error
    modify (delete_acme_order id)

  unfoldable pub revoke_acme_order :
      (publish : Ca → Db → Result ApiError ℕ) → ℕ → ℕ → Option Claims → Admin (Unit {0})
  revoke_acme_order publish now id auth = do
    claims ← guarded (guard_local_admin auth) acme_enabled
    order ← require (get_acme_order id) not_found_error
    cert_id ← lift (
        ok_or order.certificate_id (bad_request (text "order has no issued certificate to revoke")))
    cert ← revoke_cert_and_update_crl publish now cert_id
    pure tt
