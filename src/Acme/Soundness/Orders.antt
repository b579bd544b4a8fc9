-- ===== src/Acme/Soundness/Orders.antt =====
-- The orders stay sound.
use vaul_tls.Base.{
  ℕ, zero, suc, ◌+◌, ◌*◌, ◌<◌, ◌≡◌, refl, ap, inl, inr, true, false, Option, none, some, List, [],
  ◌∷◌, all, All, length, modify_at, get_elem?, ==_refl, Bool-cases, arith,
}
use vaul_tls.Base.Result.{ok, >>=-eq-ok}
use vaul_tls.Base.Tables.{
  Ascending, Ascending-update, Ascending-append, All-append, All-update_found, All-lt-next_id,
  find-update,
}
use vaul_tls.Text.{Text, text}
use vaul_tls.Text.Laws.{text_eq_iff}
use vaul_tls.Db.Rows.{Bytes, Db, AcmeIdentifier, IdentifierStatus, AcmeOrderRow, OrderStatus}
use vaul_tls.Db.Orders.{
  insert_acme_order, get_acme_order, update_acme_order_status, update_acme_order_identifier_status,
  with_status, with_identifier_status,
}
use vaul_tls.Acme.External.{External}
use vaul_tls.Acme.NewOrder.{
  check_identifier, check_identifiers, with_tokens, ms_per_day, order_expiry_days,
  cert_validity_days,
}
use vaul_tls.Acme.Challenge.{is_validated, record_valid, record_invalid}
use vaul_tls.Acme.Soundness.{IsSound, IsNamed, is_cleared}

abbrev pub order_id : AcmeOrderRow → ℕ
order_id o = o.id

-- Orders in the order of their ids, each of them sound.
abbrev pub AreSound : Db → Type 0
AreSound db = Ascending order_id db.orders × All IsSound db.orders

-- What the checks of `new_order` leave.
check_identifier-IsNamed : (i : AcmeIdentifier) → check_identifier i ≡ ok tt → IsNamed i
unfolding check_identifier
check_identifier-IsNamed i e = ground (arith, text_eq_iff i.identifier_type (text "dns"))

pub check_identifiers-IsNamed :
    (is : List AcmeIdentifier) → check_identifiers is ≡ ok tt → All IsNamed is
unfolding check_identifiers
check_identifiers-IsNamed [] e = tt
check_identifiers-IsNamed (i ∷ rest) e =
    let (u, first, others) = >>=-eq-ok (check_identifier i) (λ _. check_identifiers rest) e in
    (check_identifier-IsNamed i first, check_identifiers-IsNamed rest others)

module _ (x : External) (random : ℕ → Bytes) where
  pub with_tokens-IsNamed :
      (n : ℕ) (is : List AcmeIdentifier) → All IsNamed is → All IsNamed (with_tokens x random n is)
  unfolding with_tokens
  with_tokens-IsNamed n [] h = tt
  with_tokens-IsNamed n (i ∷ rest) h = (h.0, with_tokens-IsNamed (suc n) rest h.1)

  pub length-with_tokens :
      (n : ℕ) (is : List AcmeIdentifier) → length (with_tokens x random n is) ≡ length is
  unfolding with_tokens
  length-with_tokens n [] = refl
  length-with_tokens n (i ∷ rest) = ap suc (length-with_tokens (suc n) rest)

module _ (now account_id : ℕ) (is : List AcmeIdentifier) (client_ip : Option Text) (db : Db) where
  pub insert_acme_order-AreSound :
      All IsNamed is
      → 0 < length is
      → AreSound db
      → AreSound (
          insert_acme_order now account_id is
            (now + cert_validity_days * ms_per_day)
            (now + order_expiry_days * ms_per_day)
            client_ip
            db)
  unfolding insert_acme_order
  insert_acme_order-AreSound named nonempty h = (
    Ascending-append order_id db.orders _ (All-lt-next_id order_id db.orders) h.0,
    All-append IsSound db.orders _ h.1 (
      record {
        named = named;
        nonempty = nonempty;
        validated = λ e. cc;
        expiry = refl;
        validity = refl;
      },
      tt,
    ),
  )

-- An update of the status of an order that is there.
module _ (o : AcmeOrderRow) (status : OrderStatus) (certificate_id : Option ℕ) (error : Option Text)
    (db : Db) where
  pub update_status-AreSound :
      get_acme_order o.id db ≡ some o
      → (IsSound o → IsSound (with_status status certificate_id error o))
      → AreSound db
      → AreSound (update_acme_order_status o.id status certificate_id error db)
  unfolding get_acme_order update_acme_order_status
  update_status-AreSound found keep h = (
    Ascending-update order_id _ _ db.orders (λ _. refl) h.0,
    All-update_found order_id IsSound o.id _ db.orders o h.0 found keep h.1,
  )

modify_at-IsNamed :
    (n : ℕ) (s : IdentifierStatus) (is : List AcmeIdentifier)
    → All IsNamed is
    → All IsNamed (modify_at n (λ i. record i { status = s }) is)
modify_at-IsNamed n s [] h = tt
modify_at-IsNamed zero s (i ∷ is) h = h
modify_at-IsNamed (suc n) s (i ∷ is) h = (h.0, modify_at-IsNamed n s is h.1)

length-modify_at {ℓ} :
    {A : Type ℓ} (n : ℕ) (f : A → A) (xs : List A) → length (modify_at n f xs) ≡ length xs
length-modify_at n f [] = refl
length-modify_at zero f (x ∷ xs) = refl
length-modify_at (suc n) f (x ∷ xs) = ap suc (length-modify_at n f xs)

-- An order with an identifier that waits for its validation has no certificate, nor may have one.
pub not_cleared :
    (o : AcmeOrderRow) (n : ℕ) (i : AcmeIdentifier)
    → get_elem? o.identifiers n ≡ some i
    → is_validated i ≡ false
    → IsSound o
    → is_cleared o.status ≡ false
not_cleared o n i at waits sound = elim (Bool-cases (is_cleared o.status)) [
  | inr e ↦ e
  | inl e ↦ absurd (all_validated-get n o.identifiers i at waits (sound.validated e))
]
  where
    all_validated-get :
        (n : ℕ) (is : List AcmeIdentifier) (i : AcmeIdentifier)
        → get_elem? is n ≡ some i
        → is_validated i ≡ false
        → all is_validated is ≡ true
        → ⊥
    all_validated-get n [] i at waits e = cc
    all_validated-get zero (j ∷ is) i at waits e = ground arith
    all_validated-get (suc n) (j ∷ is) i at waits e =
        all_validated-get n is i at waits (ground arith)

valid-is_cleared : (s : OrderStatus) → s ≡ OrderStatus.valid → is_cleared s ≡ true
valid-is_cleared s e = ap is_cleared e

-- The status of one of its identifiers leaves such an order sound.
with_identifier_status-IsSound :
    (n : ℕ) (s : IdentifierStatus) (o : AcmeOrderRow)
    → is_cleared o.status ≡ false
    → IsSound o
    → IsSound (with_identifier_status n s o)
with_identifier_status-IsSound n s o e sound = record {
  named = modify_at-IsNamed n s o.identifiers sound.named;
  nonempty = rw (length-modify_at n (λ i. record i { status = s }) o.identifiers) sound.nonempty;
  validated = λ cleared. cc;
  expiry = sound.expiry;
  validity = sound.validity;
}

module _ (n : ℕ) (o : AcmeOrderRow) (db : Db) where
  identifier_status-AreSound :
      (s : IdentifierStatus)
      → get_acme_order o.id db ≡ some o
      → is_cleared o.status ≡ false
      → AreSound db
      → AreSound (update_acme_order_identifier_status o.id n s db)
  unfolding get_acme_order update_acme_order_identifier_status
  identifier_status-AreSound s found e h = (
    Ascending-update order_id _ _ db.orders (λ _. refl) h.0,
    All-update_found order_id IsSound o.id _ db.orders o h.0 found
        (with_identifier_status-IsSound n s o e) h.1,
  )

  identifier_status-found :
      (s : IdentifierStatus)
      → get_acme_order o.id db ≡ some o
      → get_acme_order o.id (update_acme_order_identifier_status o.id n s db)
        ≡ some (with_identifier_status n s o)
  unfolding get_acme_order update_acme_order_identifier_status
  identifier_status-found s found =
      rw
        (
          find-update order_id o.id o.id (with_identifier_status n s) db.orders (λ _. refl),
          found,
          ==_refl o.id,
        )
        refl

  pub record_invalid-AreSound :
      (message : Text)
      → get_acme_order o.id db ≡ some o
      → is_cleared o.status ≡ false
      → AreSound db
      → AreSound (record_invalid o.id n message db)
  unfolding record_invalid
  record_invalid-AreSound message found e h =
      update_status-AreSound (with_identifier_status n IdentifierStatus.invalid o)
        OrderStatus.invalid none (some message) _
        (identifier_status-found IdentifierStatus.invalid found)
        (λ sound. record {
          named = sound.named;
          nonempty = sound.nonempty;
          validated = λ c. cc;
          expiry = sound.expiry;
          validity = sound.validity;
        })
        (identifier_status-AreSound IdentifierStatus.invalid found e h)

  pub record_valid-AreSound :
      get_acme_order o.id db ≡ some o
      → is_cleared o.status ≡ false
      → AreSound db
      → AreSound (record_valid o.id n db)
  unfolding record_valid
  record_valid-AreSound found e h =
      let kept = identifier_status-AreSound IdentifierStatus.valid found e h in
      rw (identifier_status-found IdentifierStatus.valid found)
        (elim (Bool-cases
          (all is_validated (with_identifier_status n IdentifierStatus.valid o).identifiers)) [
            | inr waits ↦ rw waits kept
            | inl ready ↦ rw ready (
                update_status-AreSound (with_identifier_status n IdentifierStatus.valid o)
                  OrderStatus.ready none none _
                  (identifier_status-found IdentifierStatus.valid found)
                  (λ sound. record {
                    named = sound.named;
                    nonempty = sound.nonempty;
                    validated = λ c. ready;
                    expiry = sound.expiry;
                    validity = sound.validity;
                  })
                  kept)
          ])
