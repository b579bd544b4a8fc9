-- ===== src/Acme/Challenge/Rules.antt =====
-- What a challenge request does, by cases.
use vaul_tls.Base.{ℕ, ◌≡◌, refl, Bool, true, false, ◌⊎◌, ◌&&◌, ◌||◌, some, ◌++◌, get_elem?, arith}
use vaul_tls.Base.Result.{ok, err}
use vaul_tls.Base.Outcome.{
  Outcome, Then, Outcome-require, Outcome-lift, Outcome-ensure, Outcome-modify, Outcome-pure,
  Outcome-raise, Outcome-if, Outcome-Then,
}
use vaul_tls.Text.{Text, text, text_eq}
use vaul_tls.Text.Decimal.{ℤ}
use vaul_tls.Db.Rows.{Db, AcmeAccount, AcmeIdentifier, AcmeOrderRow}
use vaul_tls.Db.Accounts.{get_acme_account}
use vaul_tls.Db.Orders.{get_acme_order_i64}
use vaul_tls.Acme.Types.{AcmeError, Fallible, AcmeChallenge, unauthorized}
use vaul_tls.Acme.External.{External, Config, Env}
use vaul_tls.Acme.Jws.{jwk_thumbprint}
use vaul_tls.Acme.Authenticate.Rules.{ok_or-eq-ok}
use vaul_tls.Acme.NewOrder.Rules.{Outcome-owned_order}
use vaul_tls.Acme.Challenge.Tries.{known_type}
use vaul_tls.Acme.Challenge.{
  is_wildcard, is_validated, validation_passes, challenge_reply, record_valid, record_invalid,
  key_authorization, attempt, get_challenge,
}

-- An identifier of the account's own order that waits for its validation, and the key authorization
-- that the client must show.
pub record Attempted (x : External) (account_id : ℕ) (order_id : ℤ) (domain_idx : ℕ)
    (challenge_type : Text) (db : Db) (order : AcmeOrderRow) (identifier : AcmeIdentifier)
    (account : AcmeAccount) (key_auth : Text) : Type 0 where
  pub jwk_str : Text
  pub jwk : x.Json
  pub thumbprint : Text
  pub found : get_acme_order_i64 order_id db ≡ some order
  pub owned : order.account_id ≡ account_id
  pub known : (challenge_type ≡ text "http-01") ⊎ (challenge_type ≡ text "dns-01")
  pub at_index : get_elem? order.identifiers domain_idx ≡ some identifier
  pub pending : is_validated identifier ≡ false
  pub wildcard_by_dns : (is_wildcard identifier && text_eq challenge_type (text "http-01")) ≡ false
  pub account_found : get_acme_account account_id db ≡ some account
  pub bound : account.acme_jwk ≡ some jwk_str
  pub key : x.from_str jwk_str ≡ some jwk
  pub thumbprint_of_key : jwk_thumbprint x jwk ≡ ok thumbprint
  pub authorization : key_auth ≡ identifier.token ++ (text "." ++ thumbprint)

-- Whether the identifier is taken as validated.
abbrev pub passes : External → Config → Env → Text → AcmeIdentifier → AcmeAccount → Text → Bool
passes x config env challenge_type identifier account key_auth =
    account.auto_validate || validation_passes x config env challenge_type identifier key_auth

abbrev pub failure_message : Text → AcmeIdentifier → Text
failure_message challenge_type identifier =
    challenge_type ++ (text " validation failed for " ++ identifier.value)

module _ {κ} (x : External) (config : Config) (env : Env) (account_id : ℕ) (db : Db) where
  pub get_challenge_cases :
      (Q : Fallible AcmeChallenge → Db → Type κ) (order_id : ℤ) (challenge_type : Text)
      (domain_idx : ℕ)
      → ((e : AcmeError) → Q (err e) db)
      → ((order : AcmeOrderRow) (identifier : AcmeIdentifier)
          → get_acme_order_i64 order_id db ≡ some order
          → order.account_id ≡ account_id
          → get_elem? order.identifiers domain_idx ≡ some identifier
          → is_validated identifier ≡ true
          → Q (ok (challenge_reply x config order.id identifier challenge_type domain_idx)) db)
      → ((order : AcmeOrderRow) (identifier : AcmeIdentifier) (account : AcmeAccount)
            (key_auth : Text)
          → Attempted x account_id order_id domain_idx challenge_type db order identifier account
              key_auth
          → passes x config env challenge_type identifier account key_auth ≡ true
          → Q
              (ok (challenge_reply x config order.id identifier challenge_type domain_idx))
              (record_valid order.id domain_idx db))
      → ((order : AcmeOrderRow) (identifier : AcmeIdentifier) (account : AcmeAccount)
            (key_auth : Text)
          → Attempted x account_id order_id domain_idx challenge_type db order identifier account
              key_auth
          → passes x config env challenge_type identifier account key_auth ≡ false
          → Q
              (err (unauthorized "{challenge_type} validation failed for {domain}"))
              (record_invalid order.id domain_idx (failure_message challenge_type identifier) db))
      → Outcome Q (get_challenge x config env account_id order_id challenge_type domain_idx) db
  unfolding get_challenge attempt key_authorization
  get_challenge_cases Q order_id challenge_type domain_idx refused done valid invalid =
      Outcome-ensure Q _ _ _ db
        (λ known.
          Outcome-owned_order Q order_id account_id _ _ db
            (λ order found owned.
              Outcome-lift Q _ _ db
                (λ identifier at_index.
                  Outcome-if Q (is_validated identifier) _ _ db
                    (λ validated.
                      Outcome-pure Q _ db
                        (done order identifier found owned (ok_or-eq-ok _ _ at_index) validated))
                    (λ pending.
                      Outcome-ensure Q _ _ _ db
                        (λ wildcard. Outcome-Then Q _ _ db (
                          Outcome-require (Then Q _) _ _ _ db
                            (λ account account_found.
                              Outcome-lift (Then Q _) _ _ db
                                (λ jwk_str bound.
                                  Outcome-lift (Then Q _) _ _ db
                                    (λ jwk key.
                                      Outcome-lift (Then Q _) _ _ db
                                        (λ thumbprint thumbprint_of_key.
                                          Outcome-pure (Then Q _) _ db (
                                            let facts : Attempted x account_id order_id domain_idx
                                                challenge_type db order identifier account
                                                (identifier.token ++ (text "." ++ thumbprint)) =
                                              record {
                                                jwk_str = jwk_str;
                                                jwk = jwk;
                                                thumbprint = thumbprint;
                                                found = found;
                                                owned = owned;
                                                known = known_type challenge_type known;
                                                at_index = ok_or-eq-ok _ _ at_index;
                                                pending = pending;
                                                wildcard_by_dns = ground arith;
                                                account_found = account_found;
                                                bound = ok_or-eq-ok _ _ bound;
                                                key = ok_or-eq-ok _ _ key;
                                                thumbprint_of_key = thumbprint_of_key;
                                                authorization = refl;
                                              } in
                                            Outcome-if Q
                                              (passes x config env challenge_type identifier account
                                                (identifier.token ++ (text "." ++ thumbprint)))
                                              _ _ db
                                              (λ p. Outcome-modify Q _ _ db (
                                                Outcome-pure Q _ _
                                                  (valid order identifier account _ facts p)))
                                              (λ p. Outcome-modify Q _ _ db (
                                                Outcome-raise Q _ _
                                                  (invalid order identifier account _ facts p)))))
                                        (λ e _. refused e))
                                    (λ e _. refused e))
                                (λ e _. refused e))
                            (λ _. refused _)))
                        (λ _. refused _)))
                (λ e _. refused e))
            refused)
        (λ _. refused _)
