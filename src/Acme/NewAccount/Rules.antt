-- ===== src/Acme/NewAccount/Rules.antt =====
-- What a registration does, by cases.
use vaul_tls.Base.{
  ℕ, ◌≡◌, refl, true, false, Option, none, some, ◌==◌, ◌++◌, is_some, arith, ◌⊎◌, inl, inr,
}
use vaul_tls.Base.Result.{ok, err}
use vaul_tls.Base.Outcome.{
  Outcome, Then, Outcome-require, Outcome-lift, Outcome-ensure, Outcome-modify, Outcome-gets,
  Outcome-pure, Outcome-raise, Outcome-if, Outcome-Then, Outcome-require_last, Then-either,
}
use vaul_tls.Text.{Text, text}
use vaul_tls.Db.Rows.{Bytes, Db, AcmeAccount, AccountStatus}
use vaul_tls.Db.Nonces.{validate_and_delete_nonce}
use vaul_tls.Db.Accounts.{
  get_acme_account_by_eab_kid, get_acme_account_by_jwk_thumbprint, set_acme_account_jwk,
}
use vaul_tls.Base.Action.{pure, raise}
use vaul_tls.Acme.Types.{AcmeError, Fallible, JwsRequest, JwsProtectedHeader, unauthorized}
use vaul_tls.Acme.External.{External}
use vaul_tls.Acme.Jws.{jwk_thumbprint, parse_jws, verify_signature}
use vaul_tls.Acme.Authenticate.{or_empty}
use vaul_tls.Acme.Authenticate.Rules.{ok_or-eq-ok, spent, Outcome-consume_nonce, Outcome-check_url}
use vaul_tls.Acme.NewAccount.Eab.{Bound, verify_eab-Bound}
use vaul_tls.Acme.NewAccount.{
  AccountReply, is_usable, is_other, contacts_of, eab_kid_of, existing_account, rebind, bind_key,
  register, new_account, only_return_existing,
}

-- The request of a new key for an account: the external account binding holds, the account is
-- usable and has no key, and no other account has this one.
pub record Binds (x : External) (jwk payload : x.Json) (thumbprint : Text) (db : Db)
    (account : AcmeAccount) : Type 0 where
  pub eab_jws : x.Json
  pub eab_kid : Text
  pub binding : x.get payload (text "externalAccountBinding") ≡ some eab_jws
  pub kid_read : eab_kid_of x eab_jws ≡ ok eab_kid
  pub found : get_acme_account_by_eab_kid eab_kid db ≡ some account
  pub usable : (account.status ≡ AccountStatus.pending) ⊎ (account.status ≡ AccountStatus.valid)
  pub verified : Bound x jwk eab_kid account.eab_hmac_key eab_jws
  pub thumbprint_of_key : jwk_thumbprint x jwk ≡ ok thumbprint
  pub unbound : account.acme_jwk ≡ none
  pub unshared : is_other account (get_acme_account_by_jwk_thumbprint thumbprint db) ≡ false

-- The account with its new key, contacts and status.
abbrev pub bound_db : (x : External) → x.Json → x.Json → Text → AcmeAccount → Db → Db
bound_db x jwk payload thumbprint account db =
    set_acme_account_jwk account.id (x.to_string jwk) (contacts_of x payload) thumbprint db

is_usable-cases :
    (status : AccountStatus)
    → is_usable status ≡ true
    → (status ≡ AccountStatus.pending) ⊎ (status ≡ AccountStatus.valid)
is_usable-cases AccountStatus.pending e = inl refl
is_usable-cases AccountStatus.valid e = inr refl
is_usable-cases AccountStatus.deactivated e = cc

is_some-false : {A : Type 0} {o : Option A} → is_some o ≡ false → o ≡ none
is_some-false {o = none} e = refl
is_some-false {o = some a} e = cc

module _ {κ} (x : External) (jwk payload : x.Json) (thumbprint : Text) (account : AcmeAccount)
    (db : Db) (Q : Fallible AcmeAccount → Db → Type κ) where
  bind_key_cases :
      ((e : AcmeError) → Q (err e) db)
      → (is_other account (get_acme_account_by_jwk_thumbprint thumbprint db) ≡ false
          → (r : Fallible AcmeAccount) → Q r (bound_db x jwk payload thumbprint account db))
      → Outcome Q (bind_key x account jwk thumbprint payload) db
  unfolding bind_key
  bind_key_cases refused bound = Outcome-gets Q _ _ db (
      Outcome-ensure Q _ _ _ db
        (λ unshared.
          let done = bound (ground arith) in
          Outcome-modify Q _ _ db
            (Outcome-require_last Q _ _ _ (λ a _. done (ok a)) (λ _. done (err _))))
        (λ _. refused _))

rebind_cases {κ} :
    (account : AcmeAccount) (existing : Option AcmeAccount) (db : Db)
    (Q : Fallible AcmeAccount → Db → Type κ)
    → ((r : Fallible AcmeAccount) → Q r db)
    → Outcome Q (rebind account existing) db
unfolding rebind
rebind_cases account none db Q same = Outcome-raise Q _ db (same _)
rebind_cases account (some existing) db Q same =
    Outcome-if Q (existing.id == account.id) (pure account)
      (raise (unauthorized "account key is already registered to another ACME account")) db
      (λ _. Outcome-pure Q account db (same _)) (λ _. Outcome-raise Q _ db (same _))

module _ {κ} (x : External) (base : Text) (jwk payload : x.Json) (db : Db)
    (Q : Fallible AccountReply → Db → Type κ) where
  register_cases :
      ((r : Fallible AccountReply) → Q r db)
      → ((thumbprint : Text) (account : AcmeAccount) (r : Fallible AccountReply)
          → Binds x jwk payload thumbprint db account
          → Q r (bound_db x jwk payload thumbprint account db))
      → Outcome Q (register x base jwk payload) db
  unfolding register
  register_cases same bound =
      Outcome-lift Q _ _ db
        (λ eab_jws binding.
          Outcome-lift Q _ _ db
            (λ eab_kid kid_read.
              Outcome-require Q _ _ _ db
                (λ account found.
                  Outcome-ensure Q _ _ _ db
                    (λ usable.
                      Outcome-lift Q _ _ db
                        (λ _ verified.
                          Outcome-lift Q _ _ db
                            (λ thumbprint thumbprint_of_key. Outcome-gets Q _ _ db (
                              Outcome-Then Q _ _ db (
                                Outcome-if (Then Q _) (is_some account.acme_jwk) _ _ db
                                  (λ has_key. rebind_cases account _ db (Then Q _) (
                                    Then-either Q _ db (λ a. Outcome-pure Q _ db (same _))
                                      (λ e. same (err e))))
                                  (λ no_key.
                                    bind_key_cases x jwk payload thumbprint account db (Then Q _)
                                      (λ e. same (err e))
                                      (λ unshared.
                                        let binds : Binds x jwk payload thumbprint db account =
                                          record {
                                            eab_jws = eab_jws;
                                            eab_kid = eab_kid;
                                            binding = ok_or-eq-ok _ _ binding;
                                            kid_read = kid_read;
                                            found = found;
                                            usable = is_usable-cases account.status usable;
                                            verified =
                                                verify_eab-Bound x jwk eab_kid account.eab_hmac_key
                                                  eab_jws verified;
                                            thumbprint_of_key = thumbprint_of_key;
                                            unbound = is_some-false no_key;
                                            unshared = unshared;
                                          } in
                                        let done : (r : Fallible AccountReply)
                                            → Q r (bound_db x jwk payload thumbprint account db) =
                                          λ r. bound thumbprint account r binds in
                                        Then-either Q _ _ (λ a. Outcome-pure Q _ _ (done _))
                                          (λ e. done (err e)))))))
                            (λ e _. same (err e)))
                        (λ e _. same (err e)))
                    (λ _. same _))
                (λ _. same _))
            (λ e _. same (err e)))
        (λ e _. same (err e))

-- What a request for an account has passed: a spent nonce, the URL of the endpoint, and a signature
-- under the key that it carries.
pub record Registering (x : External) (base : Text) (now : ℕ) (body : Text) (db : Db)
    (nonce : Option Text) (jwk payload : x.Json) : Type 0 where
  pub header : JwsProtectedHeader x.Json
  pub payload_bytes : Bytes
  pub signature : Bytes
  pub req : JwsRequest
  pub parsed : parse_jws x body ≡ ok (header, payload_bytes, signature)
  pub nonce_given : header.nonce ≡ nonce
  pub fresh : (validate_and_delete_nonce now (or_empty nonce) db).0 ≡ true
  pub url : header.url ≡ some (base ++ text "/api/acme/new-account")
  pub no_kid : header.kid ≡ none
  pub jwk_given : header.jwk ≡ some jwk
  pub request : x.parse_request body ≡ some req
  pub verified : verify_signature x header.alg jwk req.protected req.payload signature ≡ ok tt
  pub payload_read : x.from_str payload_bytes ≡ some payload

module _ {κ} (x : External) (base : Text) (now : ℕ) (body : Text) (db : Db)
    (Q : Fallible AccountReply → Db → Type κ) where
  pub new_account_cases :
      ((e : AcmeError) → Q (err e) db)
      → ((nonce : Option Text) (r : Fallible AccountReply) → Q r (spent now nonce db))
      → ((nonce : Option Text) (jwk payload : x.Json) (thumbprint : Text) (account : AcmeAccount)
            (r : Fallible AccountReply)
          → Registering x base now body db nonce jwk payload
          → Binds x jwk payload thumbprint (spent now nonce db) account
          → Q r (bound_db x jwk payload thumbprint account (spent now nonce db)))
      → Outcome Q (new_account x base now body) db
  unfolding new_account existing_account
  new_account_cases refused same bound =
      Outcome-lift Q _ _ db
        (λ parsed p.
          let db' = spent now parsed.0.nonce db in
          let unchanged : (r : Fallible AccountReply) → Q r db' = same parsed.0.nonce in
          Outcome-consume_nonce Q now parsed.0.nonce _ db
            (λ fresh.
              Outcome-check_url Q (base ++ text "/api/acme/new-account") _ db' parsed.0.url
                (λ url.
                  Outcome-ensure Q _ _ _ db'
                    (λ no_kid.
                      Outcome-lift Q _ _ db'
                        (λ jwk jwk_given.
                          Outcome-lift Q _ _ db'
                            (λ req request.
                              Outcome-lift Q _ _ db'
                                (λ _ verified.
                                  Outcome-lift Q _ _ db'
                                    (λ payload payload_read.
                                      let facts : Registering x base now body db parsed.0.nonce jwk
                                          payload =
                                        record {
                                          header = parsed.0;
                                          payload_bytes = parsed.1;
                                          signature = parsed.2;
                                          req = req;
                                          parsed = p;
                                          nonce_given = refl;
                                          fresh = fresh;
                                          url = url;
                                          no_kid = ground arith;
                                          jwk_given = ok_or-eq-ok _ _ jwk_given;
                                          request = ok_or-eq-ok _ _ request;
                                          verified = verified;
                                          payload_read = ok_or-eq-ok _ _ payload_read;
                                        } in
                                      Outcome-if Q (only_return_existing x payload)
                                        (existing_account x base jwk) (register x base jwk payload)
                                        db'
                                        (λ _.
                                          Outcome-lift Q _ _ db'
                                            (λ thumbprint _.
                                              Outcome-require Q _ _ _ db'
                                                (λ account _.
                                                  Outcome-ensure Q _ _ _ db'
                                                    (λ _. Outcome-pure Q _ db' (unchanged _))
                                                    (λ _. unchanged _))
                                                (λ _. unchanged _))
                                            (λ e _. unchanged _))
                                        (λ _.
                                          register_cases x base jwk payload db' Q unchanged
                                            (λ thumbprint account r binds.
                                              bound parsed.0.nonce jwk payload thumbprint account r
                                                facts binds)))
                                    (λ e _. unchanged _))
                                (λ e _. unchanged _))
                            (λ e _. unchanged _))
                        (λ e _. unchanged _))
                    (λ _. unchanged _))
                (λ e. unchanged _))
            (λ e. unchanged _))
        (λ e _. refused e)
