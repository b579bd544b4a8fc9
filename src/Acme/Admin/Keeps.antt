-- ===== src/Acme/Admin/Keeps.antt =====
-- A property of the database that the writes of the administration keep is kept by its handlers.
use vaul_tls.Base.{ℕ, ◌≡◌, refl, Bool, true, false, Option, none, List}
use vaul_tls.Base.Result.{Result, err}
use vaul_tls.Base.Action.{◌>>=◌}
use vaul_tls.Base.Outcome.{
  Outcome, Outcome-bind, Outcome-lift, Outcome-pure, Outcome-require, Outcome-require_last,
  Outcome-ensure, Outcome-gets, Outcome-modify, Outcome-modify_last,
}
use vaul_tls.Text.{Text}
use vaul_tls.Session.{Claims, Guarded, success, unauthorized, forbidden}
use vaul_tls.Db.Rows.{Bytes, Db, AccountStatus, Ca, CertificateRow, VersionRow}
use vaul_tls.Db.Accounts.{insert_acme_account, update_acme_account, delete_acme_account}
use vaul_tls.Db.Orders.{delete_acme_order}
use vaul_tls.Db.Certs.{revoke_user_cert, increase_ca_crl_number}
use vaul_tls.Api.State.{AppState}
use vaul_tls.Api.State as State
use vaul_tls.Api.Revocation.{revoke_cert_and_update_crl}
use vaul_tls.Api.Errors.{ApiError}
use vaul_tls.Acme.Admin.{
  Admin, guarded, CreateAcmeAccountRequest, UpdateAcmeAccountRequest, create_acme_account,
  admin_update_acme_account, deactivate_acme_account, purge_acme_account, admin_delete_acme_order,
  revoke_acme_order,
}

pub record AdminKeeps (P : Db → Type 0) : Type 0 where
  pub insert :
      (db : Db)
      → P db
      → (now : ℕ) (name domains eab_kid : Text) (eab_hmac_key : Bytes) (ca_id user_id : ℕ)
        (auto_validate : Bool)
      → P (insert_acme_account now name domains eab_kid eab_hmac_key ca_id user_id auto_validate db)
  pub update :
      (db : Db)
      → P db
      → (id : ℕ) (name domains : Option Text) (ca_id : Option (Option ℕ))
        (status : Option AccountStatus) (auto_validate : Option Bool)
      → P (update_acme_account id name domains ca_id status auto_validate db)
  pub delete : (db : Db) → P db → (id : ℕ) → P (delete_acme_account id db)
  pub delete_order : (db : Db) → P db → (id : ℕ) → P (delete_acme_order id db)
  pub revoke : (db : Db) → P db → (now cert_id : ℕ) → P (revoke_user_cert now cert_id db)
  -- The management of certificates and CAs: other rows, and the deletions.
  pub certificates :
      (db : Db)
      → P db
      → (certs : List CertificateRow) (versions : List VersionRow) (cas : List Ca)
      → P (record db { certs = certs; versions = versions; cas = cas })
  pub delete_certs :
      (s : AppState) → P s.db → (gone : CertificateRow → Bool) → P (State.delete_certs gone s).db
  pub delete_user : (s : AppState) → P s.db → (id : ℕ) → P (State.delete_user id s).db
  pub delete_ca : (s : AppState) → P s.db → (id : ℕ) → P (State.delete_ca id s).db
  pub publish : (db : Db) → P db → (ca_id n : ℕ) → P (increase_ca_crl_number ca_id n db)

-- A guard writes nothing.
Outcome-guarded {κ} :
    {B : Type 0} (Q : Result ApiError B → Db → Type κ) (g : Guarded) (enabled : Bool)
    (k : Claims → Admin B) (db : Db)
    → ((claims : Claims) → g ≡ success claims → enabled ≡ true → Outcome Q (k claims) db)
    → ((e : ApiError) → Q (err e) db)
    → Outcome Q (guarded g enabled >>= k) db
unfolding guarded ◌>>=◌
Outcome-guarded Q unauthorized enabled k db good bad = bad _
Outcome-guarded Q forbidden enabled k db good bad = bad _
Outcome-guarded Q (success claims) true k db good bad = good claims refl refl
Outcome-guarded Q (success claims) false k db good bad = bad _

module _ (P : Db → Type 0) (keeps : AdminKeeps P) (enabled : Bool) (db : Db) (h : P db) where
  pub create-keeps :
      (now : ℕ) (kid : Text) (key : Bytes) (auth : Option Claims) (req : CreateAcmeAccountRequest)
      → P (create_acme_account enabled now kid key auth req db).1
  unfolding create_acme_account
  create-keeps now kid key auth req =
      Outcome-guarded (λ _. P) _ enabled _ db
        (λ claims _ _.
          Outcome-ensure (λ _. P) _ _ _ db
            (λ _.
              Outcome-modify_last (λ _. P) _ db
                (keeps.insert db h now req.name _ kid key req.ca_id claims.id req.auto_validate))
            (λ _. h))
        (λ _. h)

  pub update-keeps :
      (id : ℕ) (auth : Option Claims) (req : UpdateAcmeAccountRequest)
      → P (admin_update_acme_account enabled id auth req db).1
  unfolding admin_update_acme_account
  update-keeps id auth req =
      Outcome-guarded (λ _. P) _ enabled _ db
        (λ claims _ _.
          let kept = keeps.update db h id req.name _ _ none req.auto_validate in
          Outcome-modify (λ _. P) _ _ db
            (Outcome-require_last (λ _. P) _ _ _ (λ _ _. kept) (λ _. kept)))
        (λ _. h)

  pub deactivate-keeps :
      (id : ℕ) (auth : Option Claims) → P (deactivate_acme_account enabled id auth db).1
  unfolding deactivate_acme_account
  deactivate-keeps id auth =
      Outcome-guarded (λ _. P) _ enabled _ db
        (λ claims _ _.
          Outcome-modify_last (λ _. P) _ db (keeps.update db h id none none none _ none))
        (λ _. h)

  pub purge-keeps : (id : ℕ) (auth : Option Claims) → P (purge_acme_account enabled id auth db).1
  unfolding purge_acme_account
  purge-keeps id auth =
      Outcome-guarded (λ _. P) _ enabled _ db
        (λ claims _ _.
          Outcome-require (λ _. P) _ _ _ db
            (λ account _.
              Outcome-ensure (λ _. P) _ _ _ db
                (λ _. Outcome-modify_last (λ _. P) _ db (keeps.delete db h id)) (λ _. h))
            (λ _. h))
        (λ _. h)

  pub delete_order-keeps :
      (id : ℕ) (auth : Option Claims) → P (admin_delete_acme_order enabled id auth db).1
  unfolding admin_delete_acme_order
  delete_order-keeps id auth =
      Outcome-guarded (λ _. P) _ enabled _ db
        (λ claims _ _.
          Outcome-require (λ _. P) _ _ _ db
            (λ _ _. Outcome-modify_last (λ _. P) _ db (keeps.delete_order db h id)) (λ _. h))
        (λ _. h)

  revoke_cert-keeps :
      (publish : Ca → Db → Result ApiError ℕ) (now cert_id : ℕ)
      → P (revoke_cert_and_update_crl publish now cert_id db).1
  unfolding revoke_cert_and_update_crl
  revoke_cert-keeps publish now cert_id =
      let kept = keeps.revoke db h now cert_id in
      Outcome-require (λ _. P) _ _ _ db
        (λ cert _.
          Outcome-ensure (λ _. P) _ _ _ db
            (λ _.
              Outcome-lift (λ _. P) _ _ db
                (λ ca_id _.
                  Outcome-require (λ _. P) _ _ _ db
                    (λ ca _.
                      Outcome-ensure (λ _. P) _ _ _ db
                        (λ _.
                          Outcome-modify (λ _. P) _ _ db
                            (Outcome-gets (λ _. P) _ _ _
                              (Outcome-lift (λ _. P) _ _ _
                                (λ n _.
                                  Outcome-modify (λ _. P) _ _ _
                                    (Outcome-pure (λ _. P) _ _ (keeps.publish _ kept ca.id n)))
                                (λ _ _. kept))))
                        (λ _. h))
                    (λ _. h))
                (λ _ _. h))
            (λ _. h))
        (λ _. h)

  pub revoke_order-keeps :
      (publish : Ca → Db → Result ApiError ℕ) (now id : ℕ) (auth : Option Claims)
      → P (revoke_acme_order enabled publish now id auth db).1
  unfolding revoke_acme_order
  revoke_order-keeps publish now id auth =
      Outcome-guarded (λ _. P) _ enabled _ db
        (λ claims _ _.
          Outcome-require (λ _. P) _ _ _ db
            (λ order _.
              Outcome-lift (λ _. P) _ _ db
                (λ cert_id _.
                  let kept = revoke_cert-keeps publish now cert_id in
                  Outcome-bind (λ _. P) _ _ db (λ a _. Outcome-pure (λ _. P) tt _ kept)
                    (λ _ _. kept))
                (λ _ _. h))
            (λ _. h))
        (λ _. h)
