-- ===== src/Acme/Isolation.antt =====
-- No account touches another's orders: the signed routes of backend/src/acme/routes.rs.
use vaul_tls.Base.{
  ℕ, ◌≡◌, ◌≢◌, refl, sym, ap, ◌∙◌, subst, false, Option, none, some, List, ◌==◌, arith,
}
use vaul_tls.Base.Tables.{find-update, find-append, has_id}
use vaul_tls.Text.{Text}
use vaul_tls.Text.Decimal.{ℤ}
use vaul_tls.Db.Rows.{
  Bytes, Db, AcmeIdentifier, IdentifierStatus, AcmeOrderRow, OrderStatus, CertificateRow,
}
use vaul_tls.Db.Orders.{
  get_acme_order, get_acme_order_i64, update_acme_order_status, update_acme_order_identifier_status,
  insert_acme_order, with_status, with_identifier_status,
}
use vaul_tls.Db.Certs.{insert_user_cert, set_cert_acme_account, set_cert_serial}
use vaul_tls.Acme.External.{External, Config, Env}
use vaul_tls.Acme.NewOrder.Rules.{new_order_cases}
use vaul_tls.Acme.Challenge.{record_valid, record_invalid, get_challenge}
use vaul_tls.Acme.Challenge.Rules.{get_challenge_cases}
use vaul_tls.Acme.Finalize.{store_issued, finalize_order}
use vaul_tls.Acme.Finalize.Rules.{finalize_cases, issue_cases}
use vaul_tls.Acme.Server.{
  SignedRoute, new_order_route, order_route, orders_route, finalize_route, authz_route,
  challenge_route, cert_route, route,
}
use vaul_tls.Db.Orders.Lookups.{found_by_id}
use vaul_tls.Acme.Transitions.Serves.{
  as_reply-state, get_order-same, get_account_orders-same, get_authz-same, download_cert-same,
}

abbrev order_id : AcmeOrderRow → ℕ
order_id o = o.id

-- An update of another order.
module _ (k j : ℕ) (other : k ≢ j) (db : Db) where
  not_equal : (k == j) ≡ false
  not_equal = ground arith

  get-update_status :
      (status : OrderStatus) (certificate_id : Option ℕ) (error : Option Text)
      → get_acme_order j (update_acme_order_status k status certificate_id error db)
        ≡ get_acme_order j db
  unfolding get_acme_order update_acme_order_status
  get-update_status status certificate_id error =
      find-update order_id k j (with_status status certificate_id error) db.orders (λ _. refl)
      ∙ rw not_equal refl

  get-update_identifier :
      (n : ℕ) (status : IdentifierStatus)
      → get_acme_order j (update_acme_order_identifier_status k n status db) ≡ get_acme_order j db
  unfolding get_acme_order update_acme_order_identifier_status
  get-update_identifier n status =
      find-update order_id k j (with_identifier_status n status) db.orders (λ _. refl)
      ∙ rw not_equal refl

module _ (k j : ℕ) (other : k ≢ j) (db : Db) where
  get-record_valid : (n : ℕ) → get_acme_order j (record_valid k n db) ≡ get_acme_order j db
  unfolding record_valid
  get-record_valid n = ground (
    arith,
    get-update_status k j other (update_acme_order_identifier_status k n IdentifierStatus.valid db)
        OrderStatus.ready none none,
    get-update_identifier k j other db n IdentifierStatus.valid,
  )

  get-record_invalid :
      (n : ℕ) (message : Text)
      → get_acme_order j (record_invalid k n message db) ≡ get_acme_order j db
  unfolding record_invalid
  get-record_invalid n message =
      get-update_status k j other _ OrderStatus.invalid none (some message)
      ∙ get-update_identifier k j other db n IdentifierStatus.invalid

-- An order that an account owns is not the one of another account.
different :
    (account_id : ℕ) (id : ℤ) (j : ℕ) (order o : AcmeOrderRow) (db : Db)
    → get_acme_order_i64 id db ≡ some order
    → order.account_id ≡ account_id
    → get_acme_order j db ≡ some o
    → o.account_id ≢ account_id
    → order.id ≢ j
different account_id id j order o db found owned found_o foreign same =
    let again : get_acme_order j db ≡ some order =
      subst (λ k. get_acme_order k db ≡ some order) same (found_by_id id db order found) in
    foreign (ap account_of (sym found_o ∙ again) ∙ owned)
  where
    account_of : Option AcmeOrderRow → ℕ
    account_of none = 0
    account_of (some p) = p.account_id

module _ (x : External) (config : Config) (env : Env) (account_id j : ℕ) (o : AcmeOrderRow)
    (db : Db) (found_o : get_acme_order j db ≡ some o) (foreign : o.account_id ≢ account_id) where
  get-insert :
      (now : ℕ) (is : List AcmeIdentifier) (not_after expires : ℕ) (ip : Option Text)
      → get_acme_order j (insert_acme_order now account_id is not_after expires ip db) ≡ some o
  unfolding get_acme_order insert_acme_order
  get-insert now is not_after expires ip = find-append (has_id order_id j) db.orders _ o found_o

  get-store_issued :
      (k cert_account cert_id : ℕ) (cert : CertificateRow) (serial : Text)
      → k ≢ j
      → get_acme_order j (store_issued k cert_account cert_id cert serial db) ≡ some o
  unfolding store_issued get_acme_order insert_user_cert set_cert_acme_account set_cert_serial
  get-store_issued k cert_account cert_id cert serial other =
      get-update_status k j other
        (set_cert_serial cert_id serial
          (set_cert_acme_account cert_id cert_account (insert_user_cert cert db)))
        OrderStatus.valid (some cert_id) none
      ∙ found_o

  challenge-isolated :
      (id : ℤ) (challenge_type : Text) (n : ℕ)
      → get_acme_order j (get_challenge x config env account_id id challenge_type n db).1 ≡ some o
  challenge-isolated id challenge_type n =
      get_challenge_cases x config env account_id db (λ _ db'. get_acme_order j db' ≡ some o) id
        challenge_type n (λ _. found_o) (λ _ _ _ _ _ _. found_o)
        (λ order identifier account key_auth attempted _.
          get-record_valid order.id j
            (different account_id id j order o db attempted.found attempted.owned found_o foreign)
            db n
          ∙ found_o)
        (λ order identifier account key_auth attempted _.
          get-record_invalid order.id j
            (different account_id id j order o db attempted.found attempted.owned found_o foreign)
            db n _
          ∙ found_o)

  finalize-isolated :
      (id : ℤ) (payload : Bytes)
      → get_acme_order j (finalize_order x config env.now account_id id payload db).1 ≡ some o
  finalize-isolated id payload =
      finalize_cases x config env.now account_id id payload db
        (λ _ db'. get_acme_order j db' ≡ some o) (λ _. found_o)
        (λ order account ca csr cleared _.
          let other =
            different account_id id j order o db cleared.found cleared.owned found_o foreign in
          issue_cases x config env.now order account ca csr db
            (λ _ db'. get_acme_order j db' ≡ some o)
            (λ _. get-update_status order.id j other db OrderStatus.invalid none _ ∙ found_o)
            (λ chain serial _ _ _. get-store_issued order.id account.id _ _ (x.hex serial) other)
            (λ chain serial _ _. get-store_issued order.id account.id _ _ (x.hex serial) other))

  -- A signed route that an account calls leaves every order of the other accounts as it is.
  pub route-isolated :
      (r : SignedRoute) (payload : Bytes)
      → get_acme_order j (route x config env r account_id payload db).1 ≡ some o
  unfolding route
  route-isolated new_order_route payload =
      as_reply-state (λ db'. get_acme_order j db' ≡ some o) _ _ db
        (new_order_cases x config env account_id payload db (λ _ db'. get_acme_order j db' ≡ some o)
          (λ _. found_o) (λ account identifiers _ _ _. get-insert env.now _ _ _ _))
  route-isolated (order_route id) payload =
      as_reply-state (λ db'. get_acme_order j db' ≡ some o) _ _ db
        (get_order-same x config env db (λ db'. get_acme_order j db' ≡ some o) account_id id
          found_o)
  route-isolated (orders_route id) payload =
      as_reply-state (λ db'. get_acme_order j db' ≡ some o) _ _ db
        (get_account_orders-same x config env db (λ db'. get_acme_order j db' ≡ some o) account_id
          id found_o)
  route-isolated (finalize_route id) payload =
      as_reply-state (λ db'. get_acme_order j db' ≡ some o) _ _ db (finalize-isolated id payload)
  route-isolated (authz_route id) payload =
      as_reply-state (λ db'. get_acme_order j db' ≡ some o) _ _ db
        (get_authz-same x config env db (λ db'. get_acme_order j db' ≡ some o) account_id id
          found_o)
  route-isolated (challenge_route id challenge_type n) payload =
      as_reply-state (λ db'. get_acme_order j db' ≡ some o) _ _ db
        (challenge-isolated id challenge_type n)
  route-isolated (cert_route id) payload =
      as_reply-state (λ db'. get_acme_order j db' ≡ some o) _ _ db
        (download_cert-same x config env db (λ db'. get_acme_order j db' ≡ some o) account_id id
          found_o)
