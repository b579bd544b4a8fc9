-- ===== src/Acme/Challenge/Recorded.antt =====
-- What the results of a try leave in the order (`get_challenge` of backend/src/acme/routes.rs).
use vaul_tls.Base.{
  ℕ, zero, suc, ◌≡◌, ◌≢◌, refl, true, false, inl, inr, none, some, List, [], ◌∷◌, all, All, Any,
  all_sound, modify_at, get_elem?, Bool-cases,
}
use vaul_tls.Text.{Text}
use vaul_tls.Db.Rows.{Db, AcmeIdentifier, IdentifierStatus, AcmeOrderRow, OrderStatus}
use vaul_tls.Db.Orders.{get_acme_order, with_identifier_status, update_acme_order_identifier_status}
use vaul_tls.Db.Orders.Lookups.{get-update_status, get-update_identifier}
use vaul_tls.Acme.Challenge.{is_validated, record_valid, record_invalid}

-- The identifier at an index has the status, and nothing else of the list is changed.
pub data StatusAt (status : IdentifierStatus)
    : ℕ → List AcmeIdentifier → List AcmeIdentifier → Type 0 where
  here :
      (i : AcmeIdentifier) (rest : List AcmeIdentifier)
      → StatusAt status zero (i ∷ rest) (record i { status = status } ∷ rest)
  there :
      (i : AcmeIdentifier) {n : ℕ} {before after : List AcmeIdentifier}
      → StatusAt status n before after
      → StatusAt status (suc n) (i ∷ before) (i ∷ after)

modify_at-StatusAt :
    (status : IdentifierStatus) (n : ℕ) (is : List AcmeIdentifier) (identifier : AcmeIdentifier)
    → get_elem? is n ≡ some identifier
    → StatusAt status n is (modify_at n (λ i. record i { status = status }) is)
modify_at-StatusAt status n [] identifier e = cc
modify_at-StatusAt status zero (i ∷ rest) identifier e = here i rest
modify_at-StatusAt status (suc n) (i ∷ rest) identifier e =
    there i (modify_at-StatusAt status n rest identifier e)

-- The order is ready if all of its identifiers are valid, and keeps its status otherwise.
pub data Progress (before after : AcmeOrderRow) : Type 0 where
  all_valid :
      All (λ i. i.status ≡ IdentifierStatus.valid) after.identifiers
      → after.status ≡ OrderStatus.ready
      → Progress before after
  some_left :
      Any (λ i. i.status ≢ IdentifierStatus.valid) after.identifiers
      → after.status ≡ before.status
      → Progress before after

is_validated-valid :
    (i : AcmeIdentifier) → is_validated i ≡ true → i.status ≡ IdentifierStatus.valid
is_validated-valid i h = go i.status h
  where
    go :
        (s : IdentifierStatus)
        → (elim s [ IdentifierStatus.valid ↦ true | _ ↦ false ]) ≡ true
        → s ≡ IdentifierStatus.valid
    go IdentifierStatus.pending e = cc
    go IdentifierStatus.valid e = refl
    go IdentifierStatus.invalid e = cc

not_validated : (i : AcmeIdentifier) → is_validated i ≡ false → i.status ≢ IdentifierStatus.valid
not_validated i h same = cc (rw same at h)

all-false :
    (is : List AcmeIdentifier)
    → all is_validated is ≡ false
    → Any (λ i. i.status ≢ IdentifierStatus.valid) is
all-false [] h = cc
all-false (i ∷ rest) h = elim (Bool-cases (is_validated i)) [
  | inl valid ↦ inr (all-false rest (rw valid at h))
  | inr left ↦ inl (not_validated i left)
]

pub record RecordedValid (order : AcmeOrderRow) (domain_idx : ℕ) (after : Db) : Type 0 where
  pub updated : AcmeOrderRow
  pub order_after : get_acme_order order.id after ≡ some updated
  pub same_account : updated.account_id ≡ order.account_id
  pub validated : StatusAt IdentifierStatus.valid domain_idx order.identifiers updated.identifiers
  pub progress : Progress order updated

pub record RecordedInvalid (order : AcmeOrderRow) (domain_idx : ℕ) (message : Text) (after : Db)
    : Type 0 where
  pub updated : AcmeOrderRow
  pub order_after : get_acme_order order.id after ≡ some updated
  pub same_account : updated.account_id ≡ order.account_id
  pub failed : StatusAt IdentifierStatus.invalid domain_idx order.identifiers updated.identifiers
  pub is_invalid : updated.status ≡ OrderStatus.invalid
  pub error : updated.error ≡ some message

module _ (order : AcmeOrderRow) (n : ℕ) (identifier : AcmeIdentifier) (db : Db)
    (found : get_acme_order order.id db ≡ some order)
    (at_index : get_elem? order.identifiers n ≡ some identifier) where
  pub record_valid-RecordedValid : RecordedValid order n (record_valid order.id n db)
  unfolding record_valid
  record_valid-RecordedValid =
      let db' = update_acme_order_identifier_status order.id n IdentifierStatus.valid db in
      let order' = with_identifier_status n IdentifierStatus.valid order in
      let read : get_acme_order order.id db' ≡ some order' =
        get-update_identifier order.id db order found n IdentifierStatus.valid in
      let changed =
        modify_at-StatusAt IdentifierStatus.valid n order.identifiers identifier at_index in
      elim (Bool-cases (all is_validated order'.identifiers)) [
        | inl every ↦ record {
          updated = record order' {
            status = OrderStatus.ready;
            certificate_id = none;
            error = none;
          };
          order_after =
              rw (read, every)
                (get-update_status order.id db' order' read OrderStatus.ready none none);
          same_account = refl;
          validated = changed;
          progress =
              all_valid (all_sound is_validated is_validated-valid order'.identifiers every) refl;
        }
        | inr left ↦ record {
          updated = order';
          order_after = rw (read, left) read;
          same_account = refl;
          validated = changed;
          progress = some_left (all-false order'.identifiers left) refl;
        }
      ]

  pub record_invalid-RecordedInvalid :
      (message : Text) → RecordedInvalid order n message (record_invalid order.id n message db)
  unfolding record_invalid
  record_invalid-RecordedInvalid message =
      let order' = with_identifier_status n IdentifierStatus.invalid order in
      record {
        updated = record order' {
          status = OrderStatus.invalid;
          certificate_id = none;
          error = some message;
        };
        order_after =
            get-update_status order.id
              (update_acme_order_identifier_status order.id n IdentifierStatus.invalid db) order'
              (get-update_identifier order.id db order found n IdentifierStatus.invalid)
              OrderStatus.invalid none (some message);
        same_account = refl;
        failed =
            modify_at-StatusAt IdentifierStatus.invalid n order.identifiers identifier at_index;
        is_invalid = refl;
        error = refl;
      }
