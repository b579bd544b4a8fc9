-- ===== src/Api/Chain.antt =====
-- `download_ca_fullchain` of backend/src/api.rs: a CA with its issuers, up to the root. The loop runs
-- on fuel, which is enough (Termination).
pub mod Termination
use vaul_tls.Base.{
  ℕ, zero, suc, ◌+◌, Bool, true, false, not, ◌&&◌, Option, none, some, List, [], ◌∷◌, ◌++◌, any,
  length, select, if◌then◌else◌, map,
}
use mathlib.Core.Option
use vaul_tls.Base.Result.{Result, ok, err}
use vaul_tls.Base.Action.{Action, ◌>>=◌, ◌>>◌, pure, lift, gets, require, ensure}
use vaul_tls.Text.{Text, text, text_eq}
use vaul_tls.Db.Rows.{Bytes, Db, Ca, CaType}
use vaul_tls.Db.Certs.{get_ca_by_id}
use vaul_tls.Api.Errors.{ApiError, not_found_error, bad_request, other}
use vaul_tls.Api.State.{AppState, Api}
use vaul_tls.Api.Import.{X509, Pki, find_issuing_ca}
use vaul_tls.Api.Certificates.{DownloadResponse}

abbrev pub is_seen : List Bytes → Bytes → Bool
is_seen seen serial = any (λ s. text_eq s serial) seen

abbrev pub is_self_signed : X509 → Bool
is_self_signed c = text_eq c.issuer c.subject

abbrev pub cons_cert : X509 → Option (List X509) → Option (List X509)
cons_cert c none = none
cons_cert c (some rest) = some (c ∷ rest)

-- `seen` has the serial numbers of the certificates that were written; `none` where the fuel runs out.
unfoldable pub chain_from : ℕ → List X509 → List Bytes → X509 → Option (List X509)
unfolding find_issuing_ca
chain_from zero candidates seen current = none
chain_from (suc fuel) candidates seen current =
    if is_seen seen current.serial
    then some []
    else if is_self_signed current
    then some (current ∷ [])
    else elim (find_issuing_ca current candidates) [
      | none ↦ some (current ∷ [])
      | some issuer ↦ cons_cert current (chain_from fuel candidates (current.serial ∷ seen) issuer)
    ]

abbrev pub is_tls_ca : CaType → Bool
is_tls_ca CaType.tls = true
is_tls_ca CaType.ssh = false

abbrev pub cons_some : Option X509 → List X509 → List X509
cons_some none rest = rest
cons_some (some c) rest = c ∷ rest

-- Every TLS CA that is stored and can be read.
unfoldable pub candidates_of : Pki → List Ca → List X509
candidates_of pki [] = []
candidates_of pki (ca ∷ rest) =
    let later = candidates_of pki rest in
    if is_tls_ca ca.ca_type then cons_some (pki.from_der ca.cert) later else later

abbrev pub fullchain : List X509 → X509 → Option (List X509)
fullchain candidates current = chain_from (length candidates + 2) candidates [] current

abbrev pub or_error : {A : Type 0} → Option A → ApiError → Result ApiError A
or_error none e = err e
or_error (some a) e = ok a

abbrev pub concat : List Bytes → Bytes
concat [] = []
concat (b ∷ rest) = b ++ concat rest

unfoldable pub download_ca_fullchain : (to_pem : X509 → Bytes) → Pki → ℕ → Api DownloadResponse
download_ca_fullchain to_pem pki id = do
  ca ← require (λ s. get_ca_by_id id s.db) not_found_error
  ensure (is_tls_ca ca.ca_type) (bad_request (text "Fullchain is only available for TLS CAs"))
  candidates ← gets (λ s. candidates_of pki s.db.cas)
  current ← lift (or_error (pki.from_der ca.cert) (other (text "OpenSSL")))
  chain ← lift (or_error (fullchain candidates current) (other (text "fuel")))
  pure (record {
    content = concat (map to_pem chain);
    filename = text "fullchain_" ++ (ca.name.cn ++ text ".pem");
  })
