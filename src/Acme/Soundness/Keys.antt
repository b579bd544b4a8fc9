-- ===== src/Acme/Soundness/Keys.antt =====
-- Every key stays with one account.
use vaul_tls.Base.{
  ℕ, ◌≡◌, ◌≢◌, refl, ap, sym, subst, ◌∙◌, true, false, Option, none, some, List, Bool-cases,
  Option-cases, inl, inr, find, All-map, ◌==◌, ==_iff, arith,
}
use vaul_tls.Base.Tables.{
  Ascending, Ascending-update, All-update_to, All-find, find-none, find-passes,
}
use vaul_tls.Text.{Text, text_eq}
use vaul_tls.Text.Laws.{text_eq_iff}
use vaul_tls.Db.Rows.{Db, AcmeAccount}
use vaul_tls.Db.Nonces.{validate_and_delete_nonce, insert_acme_nonce, cleanup_old_nonces}
use vaul_tls.Db.Accounts.{
  set_acme_account_jwk, get_acme_account_by_jwk_thumbprint, opt_text_eq, with_jwk,
}
use vaul_tls.Db.Orders.{
  insert_acme_order, update_acme_order_status, update_acme_order_identifier_status,
  cleanup_expired_orders,
}
use vaul_tls.Db.Certs.{insert_user_cert, set_cert_acme_account, set_cert_serial, revoke_user_cert}
use vaul_tls.Acme.External.{External, Config, Env}
use vaul_tls.Acme.Challenge.{record_valid, record_invalid}
use vaul_tls.Acme.Finalize.{store_issued}
use vaul_tls.Acme.NewAccount.{is_other}
use vaul_tls.Acme.Server.{on_response}
use vaul_tls.Acme.Transitions.{
  Write, spend, bind, add_order, validate, invalidate, issue, fail_issue, revoke, sweep,
}
use vaul_tls.Acme.Soundness.{KeyHolder}

abbrev pub account_id : AcmeAccount → ℕ
account_id a = a.id

-- Accounts in the order of their ids, and no key with two of them.
abbrev pub AreAccountsKeyed : List AcmeAccount → Type 0
AreAccountsKeyed accounts =
    Ascending account_id accounts
    × ((thumbprint : Text) → (id : ℕ) × KeyHolder thumbprint accounts id)

abbrev pub AreKeyed : Db → Type 0
AreKeyed db = AreAccountsKeyed db.accounts

opt_text_eq-some : (o : Option Text) (t : Text) → o ≡ some t → opt_text_eq o t ≡ true
opt_text_eq-some none t e = cc
opt_text_eq-some (some s) t e = (text_eq_iff s t).1 (ground (arith))

opt_text_eq-eq : (o : Option Text) (t : Text) → opt_text_eq o t ≡ true → o ≡ some t
opt_text_eq-eq none t e = cc
opt_text_eq-eq (some s) t e = ap some ((text_eq_iff s t).0 e)

other_key : (s t : Text) → text_eq s t ≡ false → some s ≢ some t
other_key s t e same = ground (arith, text_eq_iff s t)

-- The key is new to every account but this one.
module _ (jwk contacts thumbprint : Text) (account : AcmeAccount) (db : Db) where
  same_id :
      (existing : AcmeAccount)
      → is_other account (some existing) ≡ false
      → (existing.id == account.id) ≡ true
  same_id existing e = ground arith

  -- The rows that have the key before it is bound.
  holder_before :
      is_other account (get_acme_account_by_jwk_thumbprint thumbprint db) ≡ false
      → AreKeyed db
      → KeyHolder thumbprint db.accounts account.id
  unfolding get_acme_account_by_jwk_thumbprint
  holder_before unshared h =
      elim (Option-cases (find (λ a. opt_text_eq a.jwk_thumbprint thumbprint) db.accounts)) [
        | inl e ↦
            All-map db.accounts
              (λ a missed has.
                absurd (ground (arith, missed, opt_text_eq-some a.jwk_thumbprint thumbprint has)))
              (find-none (λ a. opt_text_eq a.jwk_thumbprint thumbprint) db.accounts e)
        | inr (existing, e) ↦
            let (k, holder) = h.1 thumbprint in
            let has =
              opt_text_eq-eq existing.jwk_thumbprint thumbprint (
                find-passes (λ a. opt_text_eq a.jwk_thumbprint thumbprint) db.accounts existing
                  e) in
            let by_holder : existing.id ≡ k = All-find _ _ db.accounts existing holder e has in
            let by_account : existing.id ≡ account.id =
              (==_iff existing.id account.id).0
                (same_id existing (ap (is_other account) (sym e) ∙ unshared)) in
            subst (KeyHolder thumbprint db.accounts) (sym by_holder ∙ by_account) holder
      ]

  bind-AreKeyed :
      is_other account (get_acme_account_by_jwk_thumbprint thumbprint db) ≡ false
      → AreKeyed db
      → AreKeyed (set_acme_account_jwk account.id jwk contacts thumbprint db)
  unfolding set_acme_account_jwk
  bind-AreKeyed unshared h = (Ascending-update account_id _ _ db.accounts (λ _. refl) h.0, holder)
    where
      holder :
          (t : Text)
          → (k : ℕ) × KeyHolder t
              (set_acme_account_jwk account.id jwk contacts thumbprint db).accounts
              k
      holder t = elim (Bool-cases (text_eq thumbprint t)) [
        | inl e ↦ (
          account.id,
          All-update_to (λ a. a.jwk_thumbprint ≡ some t → a.id ≡ account.id)
              (λ a. a.jwk_thumbprint ≡ some t → a.id ≡ account.id) (λ a. a.id == account.id)
              (with_jwk jwk contacts thumbprint) db.accounts
              (λ a _ hit _. (==_iff a.id account.id).0 hit) (λ a keep. keep)
              (subst (λ u. KeyHolder u db.accounts account.id) ((text_eq_iff thumbprint t).0 e)
                (holder_before unshared h)),
        )
        | inr e ↦
            let (k, old) = h.1 t in
            (
              k,
              All-update_to (λ a. a.jwk_thumbprint ≡ some t → a.id ≡ k)
                  (λ a. a.jwk_thumbprint ≡ some t → a.id ≡ k) (λ a. a.id == account.id)
                  (with_jwk jwk contacts thumbprint) db.accounts
                  (λ a _ _ has. absurd (other_key thumbprint t e has)) (λ a keep. keep) old,
            )
      ]

record_valid-accounts :
    (order_id n : ℕ) (db : Db) → (record_valid order_id n db).accounts ≡ db.accounts
unfolding record_valid update_acme_order_status update_acme_order_identifier_status
record_valid-accounts order_id n db = ground arith

module _ (x : External) (config : Config) (env : Env) where
  pub Write-AreKeyed : {db db' : Db} → Write x config env db db' → AreKeyed db → AreKeyed db'
  unfolding validate_and_delete_nonce revoke_user_cert on_response cleanup_expired_orders
      cleanup_old_nonces insert_acme_nonce store_issued insert_user_cert set_cert_acme_account
      set_cert_serial update_acme_order_status update_acme_order_identifier_status insert_acme_order
      record_invalid
  Write-AreKeyed (spend given) h = h
  Write-AreKeyed {db = db} (bind jwk payload thumbprint account binds) h =
      bind-AreKeyed _ _ thumbprint account db binds.unshared h
  Write-AreKeyed (add_order account account_id identifiers accepted) h = h
  Write-AreKeyed {db = db}
        (validate account_id id n challenge_type order identifier account key_auth attempted p) h =
      subst AreAccountsKeyed (sym (record_valid-accounts order.id n db)) h
  Write-AreKeyed
        (invalidate account_id id n challenge_type order identifier account key_auth attempted p)
        h =
      h
  Write-AreKeyed (issue account_id id order account ca csr chain serial cleared e) h = h
  Write-AreKeyed (fail_issue account_id id order account ca cleared) h = h
  Write-AreKeyed (revoke cert_id serial_hex found) h = h
  Write-AreKeyed sweep h = h
