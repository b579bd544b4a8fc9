-- ===== src/Acme/NewOrder/Rules.antt =====
-- The order that a request names and owns, as a step of the handlers.
use vaul_tls.Base.{
  ℕ, ◌+◌, ◌*◌, ◌<◌, ◌≡◌, refl, inl, inr, true, some, List, map, ◌==◌, ==_iff, Option-cases,
  Bool-cases, length, arith,
}
use vaul_tls.Base.Result.{ok, err}
use vaul_tls.Base.Action.{Action, ◌>>=◌, require}
use vaul_tls.Base.Outcome.{
  Outcome, Then, Outcome-require, Outcome-lift, Outcome-ensure, Outcome-ensure_last, Outcome-gets,
  Outcome-modify, Outcome-pure, Outcome-if, Outcome-Then,
}
use vaul_tls.Text.Decimal.{ℤ}
use vaul_tls.Db.Rows.{Bytes, Db, AcmeAccount, AcmeIdentifier, AcmeOrderRow}
use vaul_tls.Db.Accounts.{get_acme_account}
use vaul_tls.Db.Orders.{
  get_acme_order_i64, next_order_id, insert_acme_order, count_recent_orders_for_account,
}
use vaul_tls.Acme.Domain.{check_domains}
use vaul_tls.Acme.Types.{AcmeError, Fallible}
use vaul_tls.Acme.External.{External, Config, Env}
use vaul_tls.Acme.Urls.{order_url}
use vaul_tls.Acme.NewOrder.{
  OrderReply, owned_order, check_identifiers, with_tokens, within_rate_limit, new_order, ms_per_day,
  order_expiry_days, cert_validity_days,
}

module _ {κ} {B : Type 0} (Q : Fallible B → Db → Type κ) where
  pub Outcome-owned_order :
      (id : ℤ) (account_id : ℕ) (denied : AcmeError) (k : AcmeOrderRow → Action Db AcmeError B)
      (db : Db)
      → ((order : AcmeOrderRow)
          → get_acme_order_i64 id db ≡ some order
          → order.account_id ≡ account_id
          → Outcome Q (k order) db)
      → ((e : AcmeError) → Q (err e) db)
      → Outcome Q (owned_order id account_id denied >>= k) db
  unfolding owned_order ◌>>=◌
  Outcome-owned_order id account_id denied k db good bad =
      elim (Option-cases (get_acme_order_i64 id db)) [
        | inl e ↦ rw (e, require) (bad _)
        | inr (order, e) ↦ elim (Bool-cases (order.account_id == account_id)) [
          | inl own ↦ rw (e, own, require) (good order e ((==_iff _ _).0 own))
          | inr other ↦ rw (e, other, require) (bad _)
        ]
      ]

-- What the checks of `new_order` found before the order was stored.
pub record Accepted (x : External) (config : Config) (now account_id : ℕ) (db : Db)
    (account : AcmeAccount) (identifiers : List AcmeIdentifier) : Type 0 where
  pub account_found : get_acme_account account_id db ≡ some account
  pub nonempty : 0 < length identifiers
  pub checked : check_identifiers identifiers ≡ ok tt
  pub permitted :
      check_domains account.allowed_domains (map (λ (i : AcmeIdentifier). i.value) identifiers)
      ≡ true
  pub within_limit :
      config.rate_limit_enabled ≡ true
      → count_recent_orders_for_account now account_id (order_expiry_days * ms_per_day) db
        < config.rate_limit

module _ {κ} (x : External) (config : Config) (now account_id : ℕ) (db : Db)
    (Q : Fallible (Unit {0}) → Db → Type κ) where
  Outcome-within_rate_limit :
      ((config.rate_limit_enabled ≡ true
          → count_recent_orders_for_account now account_id (order_expiry_days * ms_per_day) db
            < config.rate_limit)
        → Q (ok tt) db)
      → ((e : AcmeError) → Q (err e) db)
      → Outcome Q (within_rate_limit x config now account_id) db
  unfolding within_rate_limit
  Outcome-within_rate_limit good bad =
      Outcome-if Q config.rate_limit_enabled _ _ db
        (λ on.
          Outcome-gets Q _ _ db
            (Outcome-ensure_last Q _ _ db (λ below. good (λ _. ground arith)) (λ _. bad _)))
        (λ off. Outcome-pure Q tt db (good (λ on. cc)))

abbrev pub accepted_order : External → Env → ℕ → List AcmeIdentifier → Db → Db
accepted_order x env account_id identifiers db =
    insert_acme_order env.now account_id (with_tokens x env.random_bytes 0 identifiers)
      (env.now + cert_validity_days * ms_per_day) (env.now + order_expiry_days * ms_per_day)
      (some env.client_ip) db

module _ {κ} (x : External) (config : Config) (env : Env) (account_id : ℕ) (payload : Bytes)
    (db : Db) (Q : Fallible OrderReply → Db → Type κ) where
  pub new_order_cases :
      ((e : AcmeError) → Q (err e) db)
      → ((account : AcmeAccount) (identifiers : List AcmeIdentifier) (reply : OrderReply)
          → Accepted x config env.now account_id db account identifiers
          → reply.location ≡ order_url config.vaultls_url (next_order_id db)
          → Q (ok reply) (accepted_order x env account_id identifiers db))
      → Outcome Q (new_order x config env account_id payload) db
  unfolding new_order
  new_order_cases refused accepted =
      Outcome-require Q _ _ _ db
        (λ account account_found.
          Outcome-lift Q _ _ db
            (λ json _.
              Outcome-lift Q _ _ db
                (λ identifiers _.
                  Outcome-ensure Q _ _ _ db
                    (λ nonempty.
                      Outcome-lift Q _ _ db
                        (λ _ checked.
                          Outcome-ensure Q _ _ _ db
                            (λ permitted. Outcome-Then Q _ _ db (
                              Outcome-within_rate_limit x config env.now account_id db (Then Q _)
                                (λ within_limit. Outcome-gets Q _ _ db (
                                  Outcome-modify Q _ _ db (
                                    Outcome-pure Q _ _ (
                                      accepted account identifiers _
                                        (record {
                                          account_found = account_found;
                                          nonempty = ground arith;
                                          checked = checked;
                                          permitted = permitted;
                                          within_limit = within_limit;
                                        })
                                        refl))))
                                refused))
                            (λ _. refused _))
                        (λ e _. refused e))
                    (λ _. refused _))
                (λ e _. refused e))
            (λ e _. refused e))
        (λ _. refused _)
