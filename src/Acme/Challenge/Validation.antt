-- ===== src/Acme/Challenge/Validation.antt =====
-- `get_challenge` of backend/src/acme/routes.rs: when an identifier counts as validated.
use vaul_tls.Base.{ℕ, ◌≡◌, true, some, get_elem?}
use vaul_tls.Base.Result.{ok, err}
use vaul_tls.Text.{Text}
use vaul_tls.Text.Decimal.{ℤ}
use vaul_tls.Db.Rows.{Db, AcmeAccount, AcmeIdentifier, AcmeOrderRow}
use vaul_tls.Db.Orders.{get_acme_order_i64}
use vaul_tls.Db.Orders.Lookups.{found_by_id}
use vaul_tls.Acme.Types.{AcmeError, Fallible, AcmeChallenge, unauthorized}
use vaul_tls.Acme.External.{External, Config, Env}
use vaul_tls.Acme.Challenge.{
  is_validated, challenge_reply, record_valid, record_invalid, get_challenge,
}
use vaul_tls.Acme.Challenge.Tries.{Passed, Missed, try-Passed, try-Missed}
use vaul_tls.Acme.Challenge.Recorded.{
  RecordedValid, RecordedInvalid, record_valid-RecordedValid, record_invalid-RecordedInvalid,
}
use vaul_tls.Acme.Challenge.Rules.{Attempted, failure_message, get_challenge_cases}

pub data ChallengeOutcome (x : External) (config : Config) (env : Env) (account_id : ℕ)
    (order_id : ℤ) (challenge_type : Text) (domain_idx : ℕ) (db : Db)
    : Fallible AcmeChallenge → Db → Type 0 where
  refused :
      (e : AcmeError)
      → ChallengeOutcome x config env account_id order_id challenge_type domain_idx db (err e) db
  already :
      (order : AcmeOrderRow) (identifier : AcmeIdentifier)
      → get_acme_order_i64 order_id db ≡ some order
      → order.account_id ≡ account_id
      → get_elem? order.identifiers domain_idx ≡ some identifier
      → is_validated identifier ≡ true
      → ChallengeOutcome x config env account_id order_id challenge_type domain_idx db
          (ok (challenge_reply x config order.id identifier challenge_type domain_idx))
          db
  validated :
      (order : AcmeOrderRow) (identifier : AcmeIdentifier) (account : AcmeAccount) (key_auth : Text)
      → Attempted x account_id order_id domain_idx challenge_type db order identifier account
          key_auth
      → Passed x env challenge_type identifier account key_auth
      → RecordedValid order domain_idx (record_valid order.id domain_idx db)
      → ChallengeOutcome x config env account_id order_id challenge_type domain_idx db
          (ok (challenge_reply x config order.id identifier challenge_type domain_idx))
          (record_valid order.id domain_idx db)
  failed :
      (order : AcmeOrderRow) (identifier : AcmeIdentifier) (account : AcmeAccount) (key_auth : Text)
      → Attempted x account_id order_id domain_idx challenge_type db order identifier account
          key_auth
      → Missed x env challenge_type identifier account key_auth
      → RecordedInvalid order domain_idx
          (failure_message challenge_type identifier)
          (record_invalid order.id domain_idx (failure_message challenge_type identifier) db)
      → ChallengeOutcome x config env account_id order_id challenge_type domain_idx db
          (err (unauthorized "{challenge_type} validation failed for {domain}"))
          (record_invalid order.id domain_idx (failure_message challenge_type identifier) db)

-- A challenge request refuses and writes nothing; or answers an identifier that is validated
-- already and writes nothing; or tries an identifier of the account's own order, where a wildcard is
-- not tried by http-01. The try passes if the account validates automatically; or, for dns-01, if
-- the domain, without a leading `*.`, shows the encoded hash of the key authorization in a TXT record;
-- or, for http-01, if the identifier's host answers with the key authorization under its token. The
-- key authorization is made of the token and the thumbprint of the account's key. After a pass only
-- that identifier of the order is changed, to valid, and the order is ready if all of them are valid
-- and has its old status if one is not. After a miss, which is one of the opposite cases, only that
-- identifier is changed, to invalid, the order is invalid with the message, and an error is returned.
pub get_challenge-outcome :
    (x : External) (config : Config) (env : Env) (account_id : ℕ) (order_id : ℤ)
    (challenge_type : Text) (domain_idx : ℕ) (db : Db)
    → ChallengeOutcome x config env account_id order_id challenge_type domain_idx db
        (get_challenge x config env account_id order_id challenge_type domain_idx db).0
        (get_challenge x config env account_id order_id challenge_type domain_idx db).1
get_challenge-outcome x config env account_id order_id challenge_type domain_idx db =
    get_challenge_cases x config env account_id db
      (ChallengeOutcome x config env account_id order_id challenge_type domain_idx db) order_id
      challenge_type domain_idx refused already
      (λ order identifier account key_auth attempted p.
        validated order identifier account key_auth attempted
          (try-Passed x config env challenge_type identifier account key_auth attempted.known p)
          (record_valid-RecordedValid order domain_idx identifier db
            (found_by_id order_id db order attempted.found) attempted.at_index))
      (λ order identifier account key_auth attempted p.
        failed order identifier account key_auth attempted
          (try-Missed x config env challenge_type identifier account key_auth attempted.known p)
          (record_invalid-RecordedInvalid order domain_idx identifier db
            (found_by_id order_id db order attempted.found) attempted.at_index
            (failure_message challenge_type identifier)))
