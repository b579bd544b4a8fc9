-- ===== src/Acme/Authenticate/Nonces.antt =====
-- A nonce that is spent stays spent: the nonce table of backend/src/db.rs under all of the writes.
use vaul_tls.Base.{
  ℕ, ◌+◌, ◌≤◌, ◌<◌, ◌≡◌, refl, ap, Bool, true, false, not, ◌||◌, List, [], ◌∷◌, ◌++◌, All, All-map,
  any, select, ltb, leb, Bool-cases, inl, inr, arith,
}
use vaul_tls.Base.Tables.{All-append, All-selected}
use vaul_tls.Text.{Text, text_eq}
use vaul_tls.Text.Laws.{text_eq_iff}
use vaul_tls.Db.Rows.{Db, NonceRow}
use vaul_tls.Db.Nonces.{
  is_fresh, spends, validate_and_delete_nonce, insert_acme_nonce, cleanup_old_nonces, nonce_ttl,
}

-- Every row that has the nonce is too old to be spent.
abbrev pub IsStale : ℕ → Text → List NonceRow → Type 0
IsStale now nonce rows = All (λ row. text_eq row.nonce nonce ≡ true → is_fresh now row ≡ false) rows

pub spent-IsStale :
    (now : ℕ) (nonce : Text) (db : Db)
    → IsStale now nonce (validate_and_delete_nonce now nonce db).1.nonces
unfolding validate_and_delete_nonce
spent-IsStale now nonce db =
    All-map (select (λ row. not (spends now nonce row)) db.nonces) (λ row kept same. ground arith)
      (All-selected (λ row. not (spends now nonce row)) db.nonces)

pub IsStale-later :
    (now later : ℕ) (nonce : Text) (rows : List NonceRow)
    → now ≤ later
    → IsStale now nonce rows
    → IsStale later nonce rows
IsStale-later now later nonce rows le stale =
    All-map rows (λ row old same. stays row.created_on (old same)) stale
  where
    stays :
        (created : ℕ)
        → ltb now (created + nonce_ttl) ≡ false
        → ltb later (created + nonce_ttl) ≡ false
    stays created old = ground arith

pub insert-IsStale :
    (now made : ℕ) (nonce uuid : Text) (db : Db)
    → text_eq uuid nonce ≡ false
    → IsStale now nonce db.nonces
    → IsStale now nonce (insert_acme_nonce made uuid db).nonces
unfolding insert_acme_nonce
insert-IsStale now made nonce uuid db other stale =
    elim (Bool-cases (any (λ row. text_eq row.nonce uuid) db.nonces)) [
      | inl e ↦ rw e stale
      | inr e ↦ rw e (
          All-append (λ row. text_eq row.nonce nonce ≡ true → is_fresh now row ≡ false) db.nonces _
            stale ((λ same. cc), tt))
    ]

-- A stale nonce is refused.
none_spends :
    (now : ℕ) (nonce : Text) (rows : List NonceRow)
    → IsStale now nonce rows
    → any (spends now nonce) rows ≡ false
none_spends now nonce [] stale = refl
none_spends now nonce (row ∷ rows) stale =
    ground (arith, none_spends now nonce rows stale.1, stale.0)

pub stale-refused :
    (now : ℕ) (nonce : Text) (db : Db)
    → IsStale now nonce db.nonces
    → (validate_and_delete_nonce now nonce db).0 ≡ false
unfolding validate_and_delete_nonce
stale-refused now nonce db stale = none_spends now nonce db.nonces stale

any-append {ℓ} :
    {A : Type ℓ} (p : A → Bool) (xs ys : List A) → any p (xs ++ ys) ≡ (any p xs || any p ys)
any-append p [] ys = refl
any-append p (x ∷ xs) ys = ground (arith, any-append p xs ys)

any-select {ℓ} :
    {A : Type ℓ} (p q : A → Bool) (xs : List A)
    → ((x : A) → p x ≡ true → q x ≡ true)
    → any p (select q xs) ≡ any p xs
any-select p q [] h = refl
any-select p q (x ∷ xs) h = elim (Bool-cases (q x)) [
  | inl e ↦ rw e (ap (λ b. p x || b) (any-select p q xs h))
  | inr e ↦ rw e (ground (arith, any-select p q xs h, h x))
]

fresh_kept :
    (now later created : ℕ)
    → now ≤ later
    → ltb later (created + nonce_ttl) ≡ true
    → leb now (created + nonce_ttl) ≡ true
fresh_kept now later created le fresh = ground arith

-- A nonce that a response hands out, which was not in the table, is accepted for an hour: a request
-- that spends it before that succeeds, and the same request again fails.
pub issued-spent_once :
    (now later : ℕ) (uuid : Text) (db : Db)
    → any (λ row. text_eq row.nonce uuid) db.nonces ≡ false
    → now ≤ later
    → later < now + nonce_ttl
    → let issued = cleanup_old_nonces now (insert_acme_nonce now uuid db) in
      ((validate_and_delete_nonce later uuid issued).0 ≡ true)
      × ((validate_and_delete_nonce later uuid (validate_and_delete_nonce later uuid issued).1).0
          ≡ false)
unfolding validate_and_delete_nonce insert_acme_nonce cleanup_old_nonces
issued-spent_once now later uuid db new le before =
    let issued = cleanup_old_nonces now (insert_acme_nonce now uuid db) in
    let row : NonceRow = record { nonce = uuid; created_on = now } in
    let spendable : spends later uuid row ≡ true = ground (arith, text_eq_iff uuid uuid) in
    let kept : (r : NonceRow)
        → spends later uuid r ≡ true
        → leb now (r.created_on + nonce_ttl) ≡ true =
      λ r hit. fresh_kept now later r.created_on le (ground arith) in
    (
      rw
          (
            new,
            any-select (spends later uuid) (λ r. leb now (r.created_on + nonce_ttl))
                (db.nonces ++ row ∷ []) kept,
            any-append (spends later uuid) db.nonces (row ∷ []),
            spendable,
          )
          (ground arith),
      stale-refused later uuid (validate_and_delete_nonce later uuid issued).1
          (spent-IsStale later uuid issued),
    )
