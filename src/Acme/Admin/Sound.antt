-- ===== src/Acme/Admin/Sound.antt =====
-- The administration keeps the database sound.
use vaul_tls.Base.{ℕ, ◌≡◌, refl, Bool, Option, some, List, ◌==◌}
use vaul_tls.Base.Tables.{
  Ascending-append, Ascending-select, Ascending-update, All-append, All-select, All-update,
  All-lt-next_id, All-mapped, Ascending-mapped,
}
use vaul_tls.Text.{Text}
use vaul_tls.Db.Rows.{
  Bytes, Db, AcmeAccount, AccountStatus, AcmeOrderRow, CertificateRow, VersionRow, Ca,
}
use vaul_tls.Db.Accounts.{insert_acme_account, update_acme_account, delete_acme_account, opt_id_eq}
use vaul_tls.Api.State.{
  AppState, forget_certificate, forget_ca, delete_certs, delete_user, delete_ca,
}
use vaul_tls.Db.Orders.{delete_acme_order}
use vaul_tls.Db.Certs.{revoke_user_cert, increase_ca_crl_number}
use vaul_tls.Acme.Soundness.{IsSound, IsSoundDb}
use vaul_tls.Acme.Admin.Keeps.{AdminKeeps}

abbrev account_id : AcmeAccount → ℕ
account_id a = a.id

abbrev order_id : AcmeOrderRow → ℕ
order_id o = o.id

-- The writes of the administration.
module _ (db : Db) (h : IsSoundDb db) where
  insert-IsSoundDb :
      (now : ℕ) (name domains eab_kid : Text) (eab_hmac_key : Bytes) (ca_id user_id : ℕ)
      (auto_validate : Bool)
      → IsSoundDb
          (insert_acme_account now name domains eab_kid eab_hmac_key ca_id user_id auto_validate db)
  unfolding insert_acme_account
  insert-IsSoundDb now name domains eab_kid eab_hmac_key ca_id user_id auto_validate = record {
    orders_ascending = h.orders_ascending;
    accounts_ascending =
        Ascending-append account_id db.accounts _ (All-lt-next_id account_id db.accounts)
          h.accounts_ascending;
    orders_sound = h.orders_sound;
    key_holder = λ t.
        let (k, holder) = h.key_holder t in
        (
          k,
          All-append (λ a. a.jwk_thumbprint ≡ some t → a.id ≡ k) db.accounts _ holder
              ((λ has. cc), tt),
        );
  }

  update-IsSoundDb :
      (id : ℕ) (name domains : Option Text) (ca_id : Option (Option ℕ))
      (status : Option AccountStatus) (auto_validate : Option Bool)
      → IsSoundDb (update_acme_account id name domains ca_id status auto_validate db)
  unfolding update_acme_account
  update-IsSoundDb id name domains ca_id status auto_validate = record {
    orders_ascending = h.orders_ascending;
    accounts_ascending =
        Ascending-update account_id _ _ db.accounts (λ _. refl) h.accounts_ascending;
    orders_sound = h.orders_sound;
    key_holder = λ t.
        let (k, holder) = h.key_holder t in
        (
          k,
          All-update (λ a. a.jwk_thumbprint ≡ some t → a.id ≡ k) _ _ db.accounts (λ a keep _. keep)
              holder,
        );
  }

  delete-IsSoundDb : (id : ℕ) → IsSoundDb (delete_acme_account id db)
  unfolding delete_acme_account
  delete-IsSoundDb id = record {
    orders_ascending = Ascending-select order_id _ db.orders h.orders_ascending;
    accounts_ascending = Ascending-select account_id _ db.accounts h.accounts_ascending;
    orders_sound = All-select IsSound _ db.orders h.orders_sound;
    key_holder = λ t.
        let (k, holder) = h.key_holder t in
        (k, All-select (λ a. a.jwk_thumbprint ≡ some t → a.id ≡ k) _ db.accounts holder);
  }

  delete_order-IsSoundDb : (id : ℕ) → IsSoundDb (delete_acme_order id db)
  unfolding delete_acme_order
  delete_order-IsSoundDb id = record {
    orders_ascending = Ascending-select order_id _ db.orders h.orders_ascending;
    accounts_ascending = h.accounts_ascending;
    orders_sound = All-select IsSound _ db.orders h.orders_sound;
    key_holder = h.key_holder;
  }

  revoke-IsSoundDb : (now cert_id : ℕ) → IsSoundDb (revoke_user_cert now cert_id db)
  unfolding revoke_user_cert
  revoke-IsSoundDb now cert_id = record {
    orders_ascending = h.orders_ascending;
    accounts_ascending = h.accounts_ascending;
    orders_sound = h.orders_sound;
    key_holder = h.key_holder;
  }

  crl-IsSoundDb : (ca_id n : ℕ) → IsSoundDb (increase_ca_crl_number ca_id n db)
  unfolding increase_ca_crl_number
  crl-IsSoundDb ca_id n = record {
    orders_ascending = h.orders_ascending;
    accounts_ascending = h.accounts_ascending;
    orders_sound = h.orders_sound;
    key_holder = h.key_holder;
  }

  certificates-IsSoundDb :
      (certs : List CertificateRow) (versions : List VersionRow) (cas : List Ca)
      → IsSoundDb (record db { certs = certs; versions = versions; cas = cas })
  certificates-IsSoundDb certs versions cas = record {
    orders_ascending = h.orders_ascending;
    accounts_ascending = h.accounts_ascending;
    orders_sound = h.orders_sound;
    key_holder = h.key_holder;
  }

forget-IsSound :
    (lost : ℕ → Bool) (o : AcmeOrderRow) → IsSound o → IsSound (forget_certificate lost o)
forget-IsSound lost o sound = record {
  named = sound.named;
  nonempty = sound.nonempty;
  validated = sound.validated;
  expiry = sound.expiry;
  validity = sound.validity;
}

-- The deletions of the management API.
module _ (s : AppState) (h : IsSoundDb s.db) where
  delete_certs-IsSoundDb : (gone : CertificateRow → Bool) → IsSoundDb (delete_certs gone s).db
  unfolding delete_certs
  delete_certs-IsSoundDb gone = record {
    orders_ascending =
        Ascending-mapped order_id (forget_certificate _) s.db.orders (λ _. refl) h.orders_ascending;
    accounts_ascending = h.accounts_ascending;
    orders_sound =
        All-mapped IsSound (forget_certificate _) s.db.orders (forget-IsSound _) h.orders_sound;
    key_holder = h.key_holder;
  }

  delete_user-IsSoundDb : (id : ℕ) → IsSoundDb (delete_user id s).db
  unfolding delete_user
  delete_user-IsSoundDb id =
      let t = delete_certs (λ c. c.user_id == id) s in
      let h' : IsSoundDb t.db = delete_certs-IsSoundDb (λ c. c.user_id == id) in
      record {
        orders_ascending = Ascending-select order_id _ t.db.orders h'.orders_ascending;
        accounts_ascending = Ascending-select account_id _ t.db.accounts h'.accounts_ascending;
        orders_sound = All-select IsSound _ t.db.orders h'.orders_sound;
        key_holder = λ key.
            let (k, holder) = h'.key_holder key in
            (k, All-select (λ a. a.jwk_thumbprint ≡ some key → a.id ≡ k) _ t.db.accounts holder);
      }

  delete_ca-IsSoundDb : (id : ℕ) → IsSoundDb (delete_ca id s).db
  unfolding delete_ca
  delete_ca-IsSoundDb id =
      let t = delete_certs (λ c. opt_id_eq c.ca_id id) s in
      let h' : IsSoundDb t.db = delete_certs-IsSoundDb (λ c. opt_id_eq c.ca_id id) in
      record {
        orders_ascending = h'.orders_ascending;
        accounts_ascending =
            Ascending-mapped account_id (forget_ca id) t.db.accounts (λ _. refl)
              h'.accounts_ascending;
        orders_sound = h'.orders_sound;
        key_holder = λ key.
            let (k, holder) = h'.key_holder key in
            (
              k,
              All-mapped (λ a. a.jwk_thumbprint ≡ some key → a.id ≡ k) (forget_ca id) t.db.accounts
                  (λ a keep. keep) holder,
            );
      }

pub IsSoundDb-AdminKeeps : AdminKeeps IsSoundDb
IsSoundDb-AdminKeeps = record {
  insert = insert-IsSoundDb;
  update = update-IsSoundDb;
  delete = delete-IsSoundDb;
  delete_order = delete_order-IsSoundDb;
  revoke = revoke-IsSoundDb;
  publish = crl-IsSoundDb;
  certificates = certificates-IsSoundDb;
  delete_certs = delete_certs-IsSoundDb;
  delete_user = delete_user-IsSoundDb;
  delete_ca = delete_ca-IsSoundDb;
}
