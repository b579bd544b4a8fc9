-- ===== src/Db/Orders/Lookups.antt =====
-- The lookups of an order (`get_acme_order` of backend/src/db.rs) after the writes to it.
use vaul_tls.Base.{ℕ, ◌≡◌, refl, sym, subst, ◌∙◌, Option, some, ==_refl}
use vaul_tls.Base.Tables.{find-has_id, find-update}
use vaul_tls.Text.{Text}
use vaul_tls.Text.Decimal.{ℤ, pos, negsuc}
use vaul_tls.Db.Rows.{Db, IdentifierStatus, AcmeOrderRow, OrderStatus}
use vaul_tls.Db.Orders.{
  get_acme_order, get_acme_order_i64, with_status, with_identifier_status, update_acme_order_status,
  update_acme_order_identifier_status,
}

abbrev order_id : AcmeOrderRow → ℕ
order_id o = o.id

-- The lookup by the order's own id finds it again.
pub found_by_id :
    (id : ℤ) (db : Db) (o : AcmeOrderRow)
    → get_acme_order_i64 id db ≡ some o
    → get_acme_order o.id db ≡ some o
unfolding get_acme_order_i64 get_acme_order
found_by_id (pos n) db o e =
    subst (λ k. get_acme_order k db ≡ some o) (sym (find-has_id order_id n db.orders o e)) e
found_by_id (negsuc n) db o e = cc

module _ (k : ℕ) (db : Db) (o : AcmeOrderRow) (found : get_acme_order k db ≡ some o) where
  pub get-update_status :
      (status : OrderStatus) (certificate_id : Option ℕ) (error : Option Text)
      → get_acme_order k (update_acme_order_status k status certificate_id error db)
        ≡ some (with_status status certificate_id error o)
  unfolding get_acme_order update_acme_order_status
  get-update_status status certificate_id error =
      find-update order_id k k (with_status status certificate_id error) db.orders (λ _. refl)
      ∙ rw (==_refl k, found) refl

  pub get-update_identifier :
      (n : ℕ) (status : IdentifierStatus)
      → get_acme_order k (update_acme_order_identifier_status k n status db)
        ≡ some (with_identifier_status n status o)
  unfolding get_acme_order update_acme_order_identifier_status
  get-update_identifier n status =
      find-update order_id k k (with_identifier_status n status) db.orders (λ _. refl)
      ∙ rw (==_refl k, found) refl
