-- ===== src/Acme/Authenticate/Rules.antt =====
-- What an authenticated request has passed, and the cases of the authentication.
use vaul_tls.Base.{
  ℕ, ◌≡◌, refl, true, not, ◌&&◌, Option, none, some, is_some, arith, inl, inr, Option-cases,
}
use vaul_tls.Base.Result.{ok, err, ok_or}
use vaul_tls.Base.Action.{Action, ◌>>=◌}
use vaul_tls.Base.Outcome.{
  Outcome, Then, Outcome-require, Outcome-lift, Outcome-ensure, Outcome-Then, Outcome-pure,
}
use vaul_tls.Text.{Text, text_eq}
use vaul_tls.Text.Laws.{text_eq_iff}
use vaul_tls.Text.Decimal.{ℤ}
use vaul_tls.Db.Rows.{Bytes, Db, AcmeAccount, AccountStatus}
use vaul_tls.Db.Nonces.{validate_and_delete_nonce}
use vaul_tls.Db.Accounts.{get_acme_account_i64}
use vaul_tls.Acme.Types.{AcmeError, Fallible, JwsRequest, JwsProtectedHeader}
use vaul_tls.Acme.External.{External, Config}
use vaul_tls.Acme.Jws.{str_at, parse_jws, verify_signature}
use vaul_tls.Acme.Urls.{parse_kid}
use vaul_tls.Acme.Authenticate.{
  or_empty, is_valid, consume_nonce, check_url, authenticate_kid, authenticate_jws,
}

-- The database once the nonce of a request is spent.
abbrev pub spent : ℕ → Option Text → Db → Db
spent now nonce db = (validate_and_delete_nonce now (or_empty nonce) db).1

module _ {κ} {B : Type 0} (Q : Fallible B → Db → Type κ) (now : ℕ) (nonce : Option Text)
    (k : Unit {0} → Action Db AcmeError B) (db : Db) where
  pub Outcome-consume_nonce :
      ((validate_and_delete_nonce now (or_empty nonce) db).0 ≡ true
        → Outcome Q (k tt) (spent now nonce db))
      → ((e : AcmeError) → Q (err e) (spent now nonce db))
      → Outcome Q (consume_nonce now nonce >>= k) db
  unfolding consume_nonce ◌>>=◌
  Outcome-consume_nonce good bad =
      Outcome-ensure Q (validate_and_delete_nonce now (or_empty nonce) db).0 _ (k tt)
        (spent now nonce db) good (λ _. bad _)

module _ {κ} {B : Type 0} (Q : Fallible B → Db → Type κ) (expected : Text)
    (k : Unit {0} → Action Db AcmeError B) (db : Db) where
  pub Outcome-check_url :
      (url : Option Text)
      → (url ≡ some expected → Outcome Q (k tt) db)
      → ((e : AcmeError) → Q (err e) db)
      → Outcome Q (check_url url expected >>= k) db
  unfolding check_url ◌>>=◌
  Outcome-check_url none good bad = bad _
  Outcome-check_url (some url) good bad =
      Outcome-ensure Q (text_eq url expected) _ (k tt) db
        (λ e. good (ground (arith, text_eq_iff url expected))) (λ _. bad _)

-- The request's signature under the key of an active account.
pub record SignedBy (x : External) (config : Config) (body alg kid : Text) (signature : Bytes)
    (db : Db) (account : AcmeAccount) : Type 0 where
  pub account_id : ℤ
  pub jwk_str : Text
  pub jwk : x.Json
  pub req : JwsRequest
  pub kid_read : parse_kid config.vaultls_url kid ≡ ok account_id
  pub found : get_acme_account_i64 account_id db ≡ some account
  pub active : account.status ≡ AccountStatus.valid
  pub bound : account.acme_jwk ≡ some jwk_str
  pub key : x.from_str jwk_str ≡ some jwk
  pub request : x.parse_request body ≡ some req
  pub verified : verify_signature x alg jwk req.protected req.payload signature ≡ ok tt

-- The member of an object, and its text.
abbrev pub StrField : (x : External) → x.Json → Text → Text → Type 0
StrField x object key value =
    (member : x.Json) × (x.get object key ≡ some member) × (x.as_str member ≡ some value)

pub str_at-StrField :
    (x : External) (object : x.Json) (key value : Text)
    → str_at x object key ≡ some value
    → StrField x object key value
str_at-StrField x object key value read = elim (Option-cases (x.get object key)) [
  | inl missing ↦ absurd (cc (rw (str_at, missing) at read))
  | inr (member, found) ↦ (member, found, rw (str_at, found) at read)
]

pub ok_or-eq-ok :
    {A : Type 0} (o : Option A) (e : AcmeError) {a : A} → ok_or o e ≡ ok a → o ≡ some a
ok_or-eq-ok none e h = cc
ok_or-eq-ok (some a) e h = cc

is_valid-eq : (s : AccountStatus) → is_valid s ≡ true → s ≡ AccountStatus.valid
is_valid-eq AccountStatus.valid h = refl
is_valid-eq AccountStatus.pending h = cc
is_valid-eq AccountStatus.deactivated h = cc

module _ {κ} (x : External) (config : Config) (body : Text) (db : Db) where
  pub authenticate_kid_cases :
      (Q : Fallible AcmeAccount → Db → Type κ) (alg kid : Text) (signature : Bytes)
      → ((e : AcmeError) → Q (err e) db)
      → ((account : AcmeAccount)
          → SignedBy x config body alg kid signature db account
          → Q (ok account) db)
      → Outcome Q (authenticate_kid x config body alg kid signature) db
  unfolding authenticate_kid
  authenticate_kid_cases Q alg kid signature refused signed =
      Outcome-lift Q _ _ db
        (λ account_id kid_read.
          Outcome-require Q _ _ _ db
            (λ account found.
              Outcome-ensure Q _ _ _ db
                (λ active.
                  Outcome-lift Q _ _ db
                    (λ jwk_str bound.
                      Outcome-lift Q _ _ db
                        (λ jwk key.
                          Outcome-lift Q _ _ db
                            (λ req request.
                              Outcome-lift Q _ _ db
                                (λ _ verified. Outcome-pure Q account db (
                                  signed account (record {
                                    account_id = account_id;
                                    jwk_str = jwk_str;
                                    jwk = jwk;
                                    req = req;
                                    kid_read = kid_read;
                                    found = found;
                                    active = is_valid-eq account.status active;
                                    bound = ok_or-eq-ok _ _ bound;
                                    key = ok_or-eq-ok _ _ key;
                                    request = ok_or-eq-ok _ _ request;
                                    verified = verified;
                                  })))
                                (λ e _. refused e))
                            (λ e _. refused e))
                        (λ e _. refused e))
                    (λ e _. refused e))
                (λ _. refused _))
            (λ _. refused _))
        (λ e _. refused e)

-- An authenticated request: its nonce was in the table and not stale, it is meant for the URL that
-- it was sent to, and an active account has signed it.
pub record Authenticated (x : External) (config : Config) (now : ℕ) (body expected : Text) (db : Db)
    (header : JwsProtectedHeader x.Json) (account : AcmeAccount) (payload : Bytes) : Type 0 where
  pub kid : Text
  pub signature : Bytes
  pub parsed : parse_jws x body ≡ ok (header, payload, signature)
  pub fresh : (validate_and_delete_nonce now (or_empty header.nonce) db).0 ≡ true
  pub url : header.url ≡ some expected
  pub kid_given : header.kid ≡ some kid
  pub no_jwk : header.jwk ≡ none
  pub signed : SignedBy x config body header.alg kid signature (spent now header.nonce db) account

no_jwk_of :
    {A : Type 0} (jwk : Option A) (kid : Option Text) {k : Text}
    → kid ≡ some k
    → not (is_some jwk && is_some kid) ≡ true
    → jwk ≡ none
no_jwk_of jwk kid e h = ground arith

module _ {κ} (x : External) (config : Config) (now : ℕ) (body expected : Text) (db : Db)
    (Q : Fallible (ℕ × Bytes) → Db → Type κ) where
  pub authenticate_cases :
      ((e : AcmeError) → Q (err e) db)
      → ((e : AcmeError) (nonce : Option Text) → Q (err e) (spent now nonce db))
      → ((header : JwsProtectedHeader x.Json) (account : AcmeAccount) (payload : Bytes)
          → Authenticated x config now body expected db header account payload
          → Q (ok (account.id, payload)) (spent now header.nonce db))
      → Outcome Q (authenticate_jws x config now body expected) db
  unfolding authenticate_jws
  authenticate_cases refused spoiled good =
      Outcome-lift Q _ _ db
        (λ parsed p.
          let db' = spent now parsed.0.nonce db in
          let fail : (e : AcmeError) → Q (err e) db' = λ e. spoiled e parsed.0.nonce in
          Outcome-ensure Q _ _ _ db
            (λ one_key.
              Outcome-consume_nonce Q now parsed.0.nonce _ db
                (λ fresh.
                  Outcome-check_url Q expected _ db' parsed.0.url
                    (λ url.
                      Outcome-lift Q _ _ db'
                        (λ kid kid_given. Outcome-Then Q _ _ db' (
                          authenticate_kid_cases x config body db' (Then Q _) parsed.0.alg kid
                            parsed.2 fail
                            (λ account signed.
                              Outcome-pure Q (account.id, parsed.1) db'
                                (good parsed.0 account parsed.1 (record {
                                  kid = kid;
                                  signature = parsed.2;
                                  parsed = p;
                                  fresh = fresh;
                                  url = url;
                                  kid_given = ok_or-eq-ok _ _ kid_given;
                                  no_jwk =
                                      no_jwk_of parsed.0.jwk parsed.0.kid
                                        (ok_or-eq-ok _ _ kid_given) one_key;
                                  signed = signed;
                                })))))
                        (λ e _. fail e))
                    fail)
                fail)
            (λ _. refused _))
        (λ e _. refused e)
