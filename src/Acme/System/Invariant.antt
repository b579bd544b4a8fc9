-- ===== src/Acme/System/Invariant.antt =====
-- The invariant of every history.
use vaul_tls.Base.{ℕ, ◌≡◌, sym, ◌∙◌, some}
use vaul_tls.Base.Tables.{All-find, find-has_id, has_id}
use vaul_tls.Text.{Text}
use vaul_tls.Db.Rows.{Db, AcmeAccount, AcmeOrderRow}
use vaul_tls.Db.Accounts.{get_acme_account}
use vaul_tls.Db.Orders.{get_acme_order}
use vaul_tls.Acme.External.{External, Config, Env}
use vaul_tls.Acme.Transitions.{Write}
use vaul_tls.Acme.Soundness.{IsSound, IsSoundDb}
use vaul_tls.Acme.Soundness.Steps.{Write-AreSound}
use vaul_tls.Acme.Soundness.Keys.{Write-AreKeyed}
use vaul_tls.Acme.Admin.Sound.{IsSoundDb-AdminKeeps}
use vaul_tls.Acme.System.Keeps.{Step-keeps, Any-Meets}
use vaul_tls.Acme.System.{Step, IsInitial, Reachable, initial, next}

module _ (x : External) (config : Config) where
  Write-IsSoundDb :
      (env : Env) {db db' : Db} → Write x config env db db' → IsSoundDb db → IsSoundDb db'
  Write-IsSoundDb env w h =
      let orders = Write-AreSound x config env w (h.orders_ascending, h.orders_sound) in
      let accounts = Write-AreKeyed x config env w (h.accounts_ascending, h.key_holder) in
      record {
        orders_ascending = orders.0;
        accounts_ascending = accounts.0;
        orders_sound = orders.1;
        key_holder = accounts.1;
      }

  Step-IsSoundDb : {db db' : Db} → Step x config db db' → IsSoundDb db → IsSoundDb db'
  Step-IsSoundDb step =
      Step-keeps x config IsSoundDb IsSoundDb-AdminKeeps (λ _. Unit)
        (λ env _ db db'. Write-IsSoundDb env) step (Any-Meets x config step)

  initial-IsSoundDb : (db : Db) → IsInitial db → IsSoundDb db
  initial-IsSoundDb db h = record {
    orders_ascending = rw h.no_orders tt;
    accounts_ascending = rw h.no_accounts tt;
    orders_sound = rw h.no_orders tt;
    key_holder = λ t. (0, rw h.no_accounts tt);
  }

  Reachable-IsSoundDb : {db : Db} → Reachable x config db → IsSoundDb db
  Reachable-IsSoundDb {db = db} (initial h) = initial-IsSoundDb db h
  Reachable-IsSoundDb (next before step) = Step-IsSoundDb step (Reachable-IsSoundDb before)

  -- In every reachable database, an order that a lookup finds is sound: it has at least one
  -- identifier, each one of type dns with a valid DNS name; if it is ready or valid, all of its
  -- identifiers are validated; and it expires one day, and its certificate ninety days, after it was
  -- created. Reachable are the databases after any history of requests to the ACME server, of calls
  -- of its administration, and of writes and deletions of certificates, users and CAs by the
  -- management API, from one with no account and no order.
  pub get_acme_order-IsSound :
      (id : ℕ) {db : Db} (order : AcmeOrderRow)
      → Reachable x config db
      → get_acme_order id db ≡ some order
      → IsSound order
  unfolding get_acme_order
  get_acme_order-IsSound id {db = db} order reached found =
      All-find IsSound (has_id (λ o. o.id) id) db.orders order
        (Reachable-IsSoundDb reached).orders_sound found

  -- In every reachable database, two accounts that the lookups by id find are the same id if they
  -- have the same key thumbprint.
  pub thumbprint_unique :
      (i j : ℕ) (thumbprint : Text) (a b : AcmeAccount) {db : Db}
      → Reachable x config db
      → get_acme_account i db ≡ some a
      → get_acme_account j db ≡ some b
      → a.jwk_thumbprint ≡ some thumbprint
      → b.jwk_thumbprint ≡ some thumbprint
      → i ≡ j
  unfolding get_acme_account
  thumbprint_unique i j thumbprint a b {db = db} reached found_a found_b key_a key_b =
      let (k, holder) = (Reachable-IsSoundDb reached).key_holder thumbprint in
      let id_a : a.id ≡ k = All-find _ _ db.accounts a holder found_a key_a in
      let id_b : b.id ≡ k = All-find _ _ db.accounts b holder found_b key_b in
      sym (find-has_id (λ a. a.id) i db.accounts a found_a)
      ∙ id_a
      ∙ sym id_b
      ∙ find-has_id (λ a. a.id) j db.accounts b found_b
