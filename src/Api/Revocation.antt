-- ===== src/Api/Revocation.antt =====
-- Revocation in backend/src/api.rs: `hex_decode`, `create_crl_params`, `create_krl_params`,
-- `revoke_cert_and_update_crl`. The serial number that is read out of a certificate's material
-- (`Certificate::get_serial`) and the signing and saving of a list (`create_and_save_crl`,
-- `create_and_save_krl`, which return the CA's new number) are parameters.
pub mod Lists
pub mod Saved
pub mod Published
use vaul_tls.Base.{
  ℕ, ◌+◌, ◌-◌, ◌*◌, ◌/◌, Bool, true, false, not, ◌&&◌, Option, none, some, List, [], ◌∷◌, ◌++◌, map,
  leb, ◌==◌, select, is_some, if◌then◌else◌,
}
use vaul_tls.Base.Result.{Result, ok, err, ok_or}
use vaul_tls.Base.Action.{Action, ◌>>=◌, ◌>>◌, pure, lift, gets, modify, require, ensure}
use vaul_tls.Text.{Text, text, is_empty}
use vaul_tls.Db.Rows.{Bytes, Db, CertificateRow, Ca, CaType}
use vaul_tls.Db.Accounts.{opt_id_eq}
use vaul_tls.Db.Certs.{
  get_user_cert_by_id, get_ca_by_id, revoke_user_cert, has_private_key, increase_ca_crl_number,
}
use vaul_tls.Db.Versions.{get_revoked_history_serials_for_ca}
use vaul_tls.Api.Errors.{ApiError, not_found_error, bad_request, other}

-- `char::to_digit(16)`
unfoldable pub to_digit : ℕ → Option ℕ
to_digit c =
    if leb 48 c && leb c 57
    then some (c - 48)
    else if leb 97 c && leb c 102
    then some (c - 87)
    else if leb 65 c && leb c 70
    then some (c - 55)
    else none

abbrev pub byte_of : Option ℕ → Option ℕ → Option ℕ
byte_of none low = none
byte_of (some high) none = none
byte_of (some high) (some low) = some (high * 16 + low)

abbrev pub cons_byte : Option ℕ → Option Bytes → Option Bytes
cons_byte none rest = none
cons_byte (some b) none = none
cons_byte (some b) (some rest) = some (b ∷ rest)

-- The pairs of an even number of characters.
unfoldable pub decode_pairs : Text → Option Bytes
unfolding to_digit
decode_pairs [] = some []
decode_pairs (c ∷ []) = none
decode_pairs (c ∷ d ∷ rest) = cons_byte (byte_of (to_digit c) (to_digit d)) (decode_pairs rest)

unfoldable pub hex_decode : Text → Option Bytes
unfolding decode_pairs
hex_decode s = if is_empty s then none else decode_pairs s

-- `format!("{b:02x}")`
abbrev pub hex_digit : ℕ → ℕ
hex_digit n = if leb n 9 then n + 48 else n + 87

unfoldable pub hex_encode : Bytes → Text
hex_encode [] = []
hex_encode (b ∷ rest) = hex_digit (b / 16) ∷ hex_digit (b - b / 16 * 16) ∷ hex_encode rest

-- `get_user_certs(None, Some(ca_id), Some(true))`
unfoldable pub revoked_certs_of : ℕ → Db → List CertificateRow
revoked_certs_of ca_id db = select (λ c. opt_id_eq c.ca_id ca_id && is_some c.revoked_at) db.certs

abbrev pub revocation_time : Option ℕ → ℕ
revocation_time none = 0
revocation_time (some at) = at

-- A malformed serial of the history is left out.
unfoldable pub history_serials : List (Text × ℕ) → List (Bytes × ℕ)
unfolding hex_decode
history_serials [] = []
history_serials (entry ∷ rest) = elim (hex_decode entry.0) [
  | none ↦ history_serials rest
  | some serial ↦ (serial, entry.1) ∷ history_serials rest
]

abbrev pub append_history :
    Result ApiError (List (Bytes × ℕ)) → List (Bytes × ℕ) → Result ApiError (List (Bytes × ℕ))
append_history (err e) history = err e
append_history (ok serials) history = ok (serials ++ history)

abbrev pub serials_alone : Result ApiError (List (Bytes × ℕ)) → Result ApiError (List Bytes)
serials_alone (err e) = err e
serials_alone (ok serials) = ok (map (λ (e : Bytes × ℕ). e.0) serials)

abbrev pub cons_serial :
    Text
    → Option Bytes
    → ℕ
    → Result ApiError (List (Bytes × ℕ))
    → Result ApiError (List (Bytes × ℕ))
cons_serial message none at rest = err (other message)
cons_serial message (some serial) at (err e) = err e
cons_serial message (some serial) at (ok serials) = ok ((serial, at) ∷ serials)

module _ (get_serial : CertificateRow → Option Bytes) where
  -- The serials of the revoked certificates; one that cannot be read is an error.
  unfoldable pub current_serials : Text → List CertificateRow → Result ApiError (List (Bytes × ℕ))
  current_serials message [] = ok []
  current_serials message (c ∷ rest) =
      cons_serial message (get_serial c) (revocation_time c.revoked_at)
        (current_serials message rest)

  unfoldable pub create_crl_params : Ca → Db → Result ApiError (List (Bytes × ℕ))
  unfolding current_serials history_serials revoked_certs_of
  create_crl_params ca db =
      append_history
        (current_serials (text "Could not retrieve serial number from certificate to create CRL")
          (revoked_certs_of ca.id db))
        (history_serials (get_revoked_history_serials_for_ca ca.id db))

  unfoldable pub create_krl_params : Ca → Db → Result ApiError (List Bytes)
  unfolding current_serials revoked_certs_of
  create_krl_params ca db =
      serials_alone (current_serials (text "serial") (revoked_certs_of ca.id db))

-- `publish` builds the CRL or KRL of the CA from the database, saves it and returns the new number.
unfoldable pub revoke_cert_and_update_crl :
    (publish : Ca → Db → Result ApiError ℕ) → ℕ → ℕ → Action Db ApiError CertificateRow
revoke_cert_and_update_crl publish now cert_id = do
  cert ← require (get_user_cert_by_id cert_id) (other (text "certificate"))
  ensure (not (is_some cert.revoked_at)) (bad_request (text "certificate is already revoked"))
  ca_id ← lift (
      ok_or cert.ca_id
        (bad_request (text "ACME certificates cannot be revoked via an internal CA")))
  ca ← require (get_ca_by_id ca_id) not_found_error
  ensure (has_private_key ca)
      (bad_request (text "This CA has no private key; cannot generate CRL/KRL"))
  modify (revoke_user_cert now cert_id)
  published ← gets (publish ca)
  crl_number ← lift published
  modify (increase_ca_crl_number ca.id crl_number)
  pure cert

-- The publication that the handler carries out, by the kind of the CA.
module _ (get_serial : CertificateRow → Option Bytes)
    (create_and_save_crl : Ca → List (Bytes × ℕ) → Result ApiError ℕ)
    (create_and_save_krl : Ca → List Bytes → Result ApiError ℕ) where
  abbrev pub publish_crl : Ca → Result ApiError (List (Bytes × ℕ)) → Result ApiError ℕ
  publish_crl ca (err e) = err e
  publish_crl ca (ok revoked_params) = create_and_save_crl ca revoked_params

  abbrev pub publish_krl : Ca → Result ApiError (List Bytes) → Result ApiError ℕ
  publish_krl ca (err e) = err e
  publish_krl ca (ok revoked_serials) = create_and_save_krl ca revoked_serials

  abbrev pub publish_by : CaType → Ca → Db → Result ApiError ℕ
  publish_by CaType.tls ca db = publish_crl ca (create_crl_params get_serial ca db)
  publish_by CaType.ssh ca db = publish_krl ca (create_krl_params get_serial ca db)

  unfoldable pub publish_list : Ca → Db → Result ApiError ℕ
  publish_list ca db = publish_by ca.ca_type ca db
