-- ===== src/Acme/Types.antt =====
-- backend/src/acme/types.rs: the problem document, the JWS and the resources of the protocol.
use vaul_tls.Base.{ℕ, String, Option, List}
use vaul_tls.Base.Result.{Result}
use vaul_tls.Text.{Text}
use vaul_tls.Db.Rows.{AcmeIdentifier, IdentifierStatus, OrderStatus}

-- The last word of the `urn:ietf:params:acme:error:` type.
pub data ErrorType : Type 0 where
  bad_nonce_type malformed_type unauthorized_type server_internal_type account_does_not_exist_type
        rejected_identifier_type :
      ErrorType

-- `detail` is the message, or the format string of a message with arguments.
pub record AcmeError : Type 0 where
  pub error_type : ErrorType
  pub detail : String
  pub status : ℕ

abbrev pub bad_nonce : String → AcmeError
bad_nonce d = record { error_type = bad_nonce_type; detail = d; status = 400 }

abbrev pub malformed : String → AcmeError
malformed d = record { error_type = malformed_type; detail = d; status = 400 }

abbrev pub unauthorized : String → AcmeError
unauthorized d = record { error_type = unauthorized_type; detail = d; status = 403 }

abbrev pub not_found : AcmeError
not_found = record { error_type = malformed_type; detail = "Resource not found"; status = 404 }

abbrev pub server_internal : String → AcmeError
server_internal d = record { error_type = server_internal_type; detail = d; status = 500 }

abbrev pub account_does_not_exist : AcmeError
account_does_not_exist = record {
  error_type = account_does_not_exist_type;
  detail = "Account does not exist";
  status = 400;
}

-- A panic of a handler: Rocket catches it and answers 500.
abbrev pub panicked : AcmeError
panicked = server_internal "panic"

abbrev pub rejected_identifier : String → AcmeError
rejected_identifier d = record { error_type = rejected_identifier_type; detail = d; status = 403 }

abbrev pub Fallible : Type 0 → Type 0
Fallible = Result AcmeError

pub record JwsRequest : Type 0 where
  pub protected : Text
  pub payload : Text
  pub signature : Text

pub record JwsProtectedHeader (Json : Type 0) : Type 0 where
  pub alg : Text
  pub nonce : Option Text
  pub url : Option Text
  pub jwk : Option Json
  pub kid : Option Text

-- `expires` stays a number: chrono prints it.
pub record AcmeOrder : Type 0 where
  pub status : OrderStatus
  pub expires : ℕ
  pub identifiers : List AcmeIdentifier
  pub authorizations : List Text
  pub finalize : Text
  pub certificate : Option Text

pub record AcmeChallenge : Type 0 where
  pub challenge_type : Text
  pub url : Text
  pub token : Text
  pub status : IdentifierStatus

pub record AcmeAuthorization : Type 0 where
  pub identifier : AcmeIdentifier
  pub status : IdentifierStatus
  pub challenges : List AcmeChallenge

pub record Directory : Type 0 where
  pub new_nonce : Text
  pub new_account : Text
  pub new_order : Text
  pub revoke_cert : Text
