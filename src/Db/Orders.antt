-- ===== src/Db/Orders.antt =====
-- The ACME orders: `insert_acme_order`, `get_acme_order`, `count_recent_orders_for_account`,
-- `update_acme_order_status`, `update_acme_order_identifier_status`, `get_orders_by_account`,
-- `delete_acme_order` and `cleanup_expired_orders` of backend/src/db.rs.
pub mod Lookups
use vaul_tls.Base.{
  ℕ, ◌+◌, Bool, not, ◌&&◌, Option, none, List, [], ◌∷◌, ◌++◌, ltb, leb, ◌==◌, find, update, select,
  length, modify_at,
}
use vaul_tls.Base.Tables.{next_id}
use vaul_tls.Text.{Text}
use vaul_tls.Text.Decimal.{ℤ, pos, negsuc}
use vaul_tls.Db.Rows.{Db, AcmeIdentifier, IdentifierStatus, AcmeOrderRow, OrderStatus}

abbrev pub new_order_row : ℕ → ℕ → List AcmeIdentifier → ℕ → ℕ → Option Text → ℕ → AcmeOrderRow
new_order_row now account_id identifiers not_after expires client_ip id = record {
  id = id;
  account_id = account_id;
  status = OrderStatus.pending;
  identifiers = identifiers;
  not_after = not_after;
  expires = expires;
  certificate_id = none;
  created_on = now;
  client_ip = client_ip;
  error = none;
}

abbrev pub next_order_id : Db → ℕ
next_order_id db = next_id (λ (o : AcmeOrderRow). o.id) db.orders

-- The id of the new row is `next_order_id` of the database before the insertion.
unfoldable pub insert_acme_order : ℕ → ℕ → List AcmeIdentifier → ℕ → ℕ → Option Text → Db → Db
insert_acme_order now account_id identifiers not_after expires client_ip db = record db {
  orders =
      db.orders
      ++ new_order_row now account_id identifiers not_after expires client_ip (next_order_id db)
        ∷ [];
}

-- `account_id = ? AND created_on > now - window`
abbrev pub is_recent : ℕ → ℕ → ℕ → AcmeOrderRow → Bool
is_recent now window_ms account_id o =
    o.account_id == account_id && ltb now (o.created_on + window_ms)

unfoldable pub count_recent_orders_for_account : ℕ → ℕ → ℕ → Db → ℕ
count_recent_orders_for_account now account_id window_ms db =
    length (select (is_recent now window_ms account_id) db.orders)

unfoldable pub get_acme_order : ℕ → Db → Option AcmeOrderRow
get_acme_order id db = find (λ o. o.id == id) db.orders

-- The lookup by an `i64` that a request gave: no row has a negative id.
unfoldable pub get_acme_order_i64 : ℤ → Db → Option AcmeOrderRow
unfolding get_acme_order
get_acme_order_i64 (pos id) db = get_acme_order id db
get_acme_order_i64 (negsuc n) db = none

abbrev pub with_status : OrderStatus → Option ℕ → Option Text → AcmeOrderRow → AcmeOrderRow
with_status status certificate_id error o = record o {
  status = status;
  certificate_id = certificate_id;
  error = error;
}

unfoldable pub update_acme_order_status : ℕ → OrderStatus → Option ℕ → Option Text → Db → Db
update_acme_order_status id status certificate_id error db = record db {
  orders = update (λ o. o.id == id) (with_status status certificate_id error) db.orders;
}

abbrev pub with_identifier_status : ℕ → IdentifierStatus → AcmeOrderRow → AcmeOrderRow
with_identifier_status domain_idx status o = record o {
  identifiers = modify_at domain_idx (λ i. record i { status = status }) o.identifiers;
}

-- `json_set(identifiers, '$[idx].status', status)`
unfoldable pub update_acme_order_identifier_status : ℕ → ℕ → IdentifierStatus → Db → Db
update_acme_order_identifier_status order_id domain_idx status db = record db {
  orders = update (λ o. o.id == order_id) (with_identifier_status domain_idx status) db.orders;
}

-- A new row has the largest id, so the order of insertion is that of the ids.
unfoldable pub get_orders_by_account : ℕ → Db → List AcmeOrderRow
get_orders_by_account account_id db = select (λ o. o.account_id == account_id) db.orders

unfoldable pub delete_acme_order : ℕ → Db → Db
delete_acme_order id db = record db { orders = select (λ o. not (o.id == id)) db.orders }

-- `expires < now` is deleted.
unfoldable pub cleanup_expired_orders : ℕ → Db → Db
cleanup_expired_orders now db = record db { orders = select (λ o. leb now o.expires) db.orders }
