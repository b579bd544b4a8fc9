-- ===== src/Api/Import.antt =====
-- Uploaded certificates in backend/src/api.rs: `cn_from_cert`, `leaf_fingerprint_hex`, the material of
-- `import_certificate` and `update_certificate`, the issuing CA that both look up or import, and
-- `find_issuing_ca` of backend/src/certs/import.rs with `find_ca_by_cert_der`,
-- `find_imported_ca_by_cert`, `find_cert_by_fingerprint` and `find_cert_version_by_fingerprint` of
-- backend/src/db.rs. OpenSSL is a parameter; of a certificate that it has read, the model has what the
-- handlers look at.
use vaul_tls.Base.{
  ℕ, Bool, true, false, ◌&&◌, Option, none, some, List, [], ◌∷◌, ◌++◌, ◌==◌, find, if◌then◌else◌,
}
use vaul_tls.Base.Result.{Result, ok, err, ◌>>=◌}
use vaul_tls.Base.Tables.{next_id}
use vaul_tls.Text.{Text, text, text_eq}
use vaul_tls.Db.Rows.{
  Bytes, Db, CertificateRow, CertificateType, CertificateRenewMethod, VersionRow, Ca, CaType,
}
use vaul_tls.Db.Accounts.{opt_text_eq}
use vaul_tls.Api.Errors.{ApiError, bad_request}
use vaul_tls.Api.State.{AppState, Api}

-- A certificate that OpenSSL has read. Times are in milliseconds.
pub record X509 : Type 0 where
  pub der : Bytes
  pub serial : Bytes
  pub common_name : Option Text
  pub subject : Text
  pub issuer : Text
  pub not_before : ℕ
  pub not_after : ℕ
  pub subject_key_id : Option Bytes
  pub authority_key_id : Option Bytes
  pub digest : Option Text

pub record Pki : Type 0 where
  pub parse_pkcs12 : Bytes → Text → Result ApiError (X509 × List X509)
  pub parse_pem_bundle : Bytes → Result ApiError (List X509)
  pub parse_cert : Bytes → Result ApiError X509
  pub parse_private_key : Bytes → Result ApiError Bytes
  pub build_pkcs12 : X509 → Bytes → List X509 → Text → Result ApiError Bytes
  pub from_der : Bytes → Option X509
  pub verify_signed_by : X509 → X509 → Bool
  pub get_serial : Bytes → Text → Option Bytes
  pub get_fingerprint : Bytes → Text → Result ApiError Text

abbrev pub cn_from_cert : X509 → Text
cn_from_cert cert = elim cert.common_name [ none ↦ text "Imported CA" | some cn ↦ cn ]

-- `ImportCertForm`: the files as their bytes.
pub record ImportCertForm : Type 0 where
  pub p12 : Option Bytes
  pub password : Option Text
  pub cert : Option Bytes
  pub key : Option Bytes
  pub chain : Option Bytes
  pub user_id : ℕ
  pub ca_id : Option ℕ
  pub cert_type : Option ℕ
  pub renew_method : Option ℕ
  pub force : Option Bool

abbrev pub or_blank : Option Text → Text
or_blank none = []
or_blank (some t) = t

-- The leaf, the chain and the bytes that are stored.
pub record Material : Type 0 where
  pub leaf : X509
  pub chain : List X509
  pub stored : Bytes

abbrev pub or_bad : {A : Type 0} → Option A → Text → Result ApiError A
or_bad none message = err (bad_request message)
or_bad (some a) message = ok a

-- The certificates of a file that is a bundle, else none.
abbrev pub bundle_or_none : Result ApiError (List X509) → List X509
bundle_or_none (err e) = []
bundle_or_none (ok certs) = certs

abbrev pub extra_chain : Pki → Option Bytes → Result ApiError (List X509)
extra_chain pki none = ok []
extra_chain pki (some bytes) = pki.parse_pem_bundle bytes

-- The first of a bundle is the leaf; a file that is no bundle holds the leaf alone.
abbrev pub leaf_and_rest : Pki → Bytes → List X509 → Result ApiError (X509 × List X509)
leaf_and_rest pki bytes [] = pki.parse_cert bytes >>= λ leaf. ok (leaf, [])
leaf_and_rest pki bytes (leaf ∷ rest) = ok (leaf, rest)

unfoldable pub parse_files : Pki → ImportCertForm → Result ApiError Material
parse_files pki form = do
  cert_bytes ← or_bad form.cert (text "cert or p12 required")
  key_bytes ← or_bad form.key (text "key required with cert")
  parsed ← leaf_and_rest pki cert_bytes (bundle_or_none (pki.parse_pem_bundle cert_bytes))
  key ← pki.parse_private_key key_bytes
  extra ← extra_chain pki form.chain
  stored ← pki.build_pkcs12 parsed.0 key (parsed.1 ++ extra) (or_blank form.password)
  ok (record { leaf = parsed.0; chain = parsed.1 ++ extra; stored = stored })

abbrev pub material_of : Bytes → X509 × List X509 → Material
material_of bytes parsed = record { leaf = parsed.0; chain = parsed.1; stored = bytes }

unfoldable pub parse_material : Pki → ImportCertForm → Result ApiError Material
unfolding parse_files
parse_material pki form = elim form.p12 [
  | some bytes ↦
      pki.parse_pkcs12 bytes (or_blank form.password) >>= λ parsed. ok (material_of bytes parsed)
  | none ↦ parse_files pki form
]

abbrev pub opt_bytes_eq : Option Bytes → Bytes → Bool
opt_bytes_eq none b = false
opt_bytes_eq (some a) b = text_eq a b

-- By the key identifiers, else by the names.
unfoldable pub find_issuing_ca : X509 → List X509 → Option X509
find_issuing_ca leaf chain =
    let by_name : Option X509 = find (λ (c : X509). text_eq leaf.issuer c.subject) chain in
    elim leaf.authority_key_id [
      | none ↦ by_name
      | some aki ↦ elim (find (λ (c : X509). opt_bytes_eq c.subject_key_id aki) chain) [
        | none ↦ by_name
        | some c ↦ some c
      ]
    ]

unfoldable pub find_ca_by_cert_der : Bytes → Db → Option Ca
find_ca_by_cert_der der db = find (λ ca. text_eq ca.cert der) db.cas

abbrev pub key_id_of : Pki → Bytes → Option Bytes
key_id_of pki der = elim (pki.from_der der) [ none ↦ none | some x ↦ x.subject_key_id ]

-- An imported CA with the same key identifier.
unfoldable pub find_imported_ca_by_cert : Pki → Bytes → Db → Option Ca
find_imported_ca_by_cert pki der db = elim (key_id_of pki der) [
  | none ↦ none
  | some ski ↦ find (λ (ca : Ca). ca.is_imported && opt_bytes_eq (key_id_of pki ca.cert) ski) db.cas
]

unfoldable pub find_cert_by_fingerprint : Text → Db → Option CertificateRow
find_cert_by_fingerprint fp db = find (λ c. opt_text_eq c.fingerprint fp) db.certs

unfoldable pub find_cert_version_by_fingerprint : Text → Db → Option VersionRow
find_cert_version_by_fingerprint fp db = find (λ v. text_eq v.fingerprint fp) db.versions

abbrev pub imported_ca : X509 → Bytes → Db → Ca
imported_ca issuer key db = record {
  id = next_id (λ (c : Ca). c.id) db.cas;
  name = record { cn = cn_from_cert issuer; ou = none };
  created_on = issuer.not_before;
  valid_until = some issuer.not_after;
  ca_type = CaType.tls;
  cert = issuer.der;
  key = key;
  crl_number = 0;
  is_imported = true;
}

-- The CA of an issuer that is verified, and the CAs with it.
abbrev pub known_issuer : Pki → X509 → Db → ℕ × List Ca
known_issuer pki issuer db = elim (find_ca_by_cert_der issuer.der db) [
  | some ca ↦ (ca.id, db.cas)
  | none ↦ elim (find_imported_ca_by_cert pki issuer.der db) [
    | some ca ↦ (ca.id, db.cas)
    | none ↦ ((imported_ca issuer [] db).id, db.cas ++ imported_ca issuer [] db ∷ [])
  ]
]

abbrev pub issuer_of : Pki → Material → Result ApiError X509
issuer_of pki m = elim (find_issuing_ca m.leaf m.chain) [
  | none ↦ err (bad_request (text "could not find issuing CA in chain"))
  | some issuer ↦
      if pki.verify_signed_by m.leaf issuer
      then ok issuer
      else err (bad_request (text "leaf is not signed by the provided CA chain"))
]

abbrev pub with_cas : List Ca → AppState → AppState
with_cas cas s = record s { db = record s.db { cas = cas } }

-- The CA from the chain, imported if it is not known.
unfoldable pub resolve_issuer : Pki → Material → Api ℕ
resolve_issuer pki m s = elim (issuer_of pki m) [
  | err e ↦ (err e, s)
  | ok issuer ↦ (ok (known_issuer pki issuer s.db).0, with_cas (known_issuer pki issuer s.db).1 s)
]

-- The numbers of the database's columns.
unfoldable pub renew_method_of : ℕ → Option CertificateRenewMethod
renew_method_of n =
    if n == 0
    then some CertificateRenewMethod.no_renewal
    else if n == 1
    then some CertificateRenewMethod.notify
    else if n == 2
    then some CertificateRenewMethod.renew
    else if n == 3
    then some CertificateRenewMethod.renew_and_notify
    else none

unfoldable pub certificate_type_of : ℕ → Option CertificateType
certificate_type_of n =
    if n == 0
    then some CertificateType.tls_client
    else if n == 1
    then some CertificateType.tls_server
    else if n == 10
    then some CertificateType.ssh_client
    else if n == 11
    then some CertificateType.ssh_server
    else none
