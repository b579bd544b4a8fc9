-- ===== src/Acme/NewOrder/Limits.antt =====
-- `new_order` of backend/src/acme/routes.rs: what an order that is stored has passed.
use vaul_tls.Base.{
  ℕ, ◌+◌, ◌*◌, ◌≤◌, ◌≡◌, refl, Bool, true, Option, List, [], ◌∷◌, ◌++◌, length, length-append,
  select, Bool-cases, inl, inr, some, arith,
}
use vaul_tls.Base.Result.{ok, err}
use vaul_tls.Text.{Text}
use vaul_tls.Db.Rows.{Bytes, Db, AcmeAccount, AcmeIdentifier}
use vaul_tls.Db.Orders.{
  next_order_id, insert_acme_order, count_recent_orders_for_account, is_recent,
}
use vaul_tls.Acme.Types.{AcmeError, Fallible}
use vaul_tls.Acme.External.{External, Config, Env}
use vaul_tls.Acme.Urls.{order_url}
use vaul_tls.Acme.NewOrder.{
  OrderReply, new_order, with_tokens, ms_per_day, order_expiry_days, cert_validity_days,
}
use vaul_tls.Acme.NewOrder.Rules.{Accepted, accepted_order, new_order_cases}

pub data OrderOutcome (x : External) (config : Config) (env : Env) (account_id : ℕ) (db : Db)
    : Fallible OrderReply → Db → Type 0 where
  refused : (e : AcmeError) → OrderOutcome x config env account_id db (err e) db
  stored :
      (account : AcmeAccount) (identifiers : List AcmeIdentifier) (reply : OrderReply)
      → Accepted x config env.now account_id db account identifiers
      → reply.location ≡ order_url config.vaultls_url (next_order_id db)
      → OrderOutcome x config env account_id db
          (ok reply)
          (accepted_order x env account_id identifiers db)

-- A request for an order refuses and writes nothing, or stores one pending order, whose URL is the
-- reply's location. Then the identifiers are not empty, each is of type dns and a valid DNS name,
-- each is covered by the account's allowed domains, and where the rate limit is on the account had
-- fewer orders in the last day than the limit.
pub new_order-outcome :
    (x : External) (config : Config) (env : Env) (account_id : ℕ) (payload : Bytes) (db : Db)
    → OrderOutcome x config env account_id db
        (new_order x config env account_id payload db).0
        (new_order x config env account_id payload db).1
new_order-outcome x config env account_id payload db =
    new_order_cases x config env account_id payload db (OrderOutcome x config env account_id db)
      refused stored

select-append {ℓ} :
    {A : Type ℓ} (p : A → Bool) (xs ys : List A) → select p (xs ++ ys) ≡ select p xs ++ select p ys
select-append p [] ys = refl
select-append p (x ∷ xs) ys = elim (Bool-cases (p x)) [
  | inl e ↦ rw (e, select-append p xs ys) refl
  | inr e ↦ rw (e, select-append p xs ys) refl
]

-- One more row is one more match at most.
length-select-append {ℓ} :
    {A : Type ℓ} (p : A → Bool) (xs : List A) (x : A)
    → length (select p (xs ++ x ∷ [])) ≤ length (select p xs) + 1
length-select-append p xs x = elim (Bool-cases (p x)) [
  | inl e ↦ rw (select-append p xs (x ∷ []), e, length-append (select p xs) (x ∷ [])) (omega arith)
  | inr e ↦ rw (select-append p xs (x ∷ []), e, length-append (select p xs) []) (omega arith)
]

-- One more order is at most one more that counts.
module _ (now account_id : ℕ) (is : List AcmeIdentifier) (not_after expires : ℕ) (ip : Option Text)
    (window_ms : ℕ) (db : Db) where
  count-insert :
      count_recent_orders_for_account now account_id window_ms
        (insert_acme_order now account_id is not_after expires ip db)
      ≤ count_recent_orders_for_account now account_id window_ms db + 1
  unfolding count_recent_orders_for_account insert_acme_order
  count-insert = length-select-append (is_recent now window_ms account_id) db.orders _

-- Where the rate limit is on and an order is accepted, the account has at most as many orders from
-- the last day as the limit allows, the new one counted.
pub new_order-within_limit :
    (x : External) (config : Config) (env : Env) (account_id : ℕ) (payload : Bytes) (db : Db)
    (reply : OrderReply)
    → config.rate_limit_enabled ≡ true
    → (new_order x config env account_id payload db).0 ≡ ok reply
    → count_recent_orders_for_account env.now account_id
        (order_expiry_days * ms_per_day)
        (new_order x config env account_id payload db).1
      ≤ config.rate_limit
new_order-within_limit x config env account_id payload db reply on =
    new_order_cases x config env account_id payload db
      (λ r db'.
        r ≡ ok reply
        → count_recent_orders_for_account env.now account_id (order_expiry_days * ms_per_day) db'
          ≤ config.rate_limit)
      (λ e h. cc)
      (λ account identifiers reply' accepted _ _.
        let more =
          count-insert env.now account_id (with_tokens x env.random_bytes 0 identifiers)
            (env.now + cert_validity_days * ms_per_day) (env.now + order_expiry_days * ms_per_day)
            (some env.client_ip) (order_expiry_days * ms_per_day) db in
        omega (arith, more, accepted.within_limit on))
