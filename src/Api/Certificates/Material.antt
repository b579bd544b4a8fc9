-- ===== src/Api/Certificates/Material.antt =====
-- What the handlers of backend/src/api.rs hand out of a certificate, described by the tables.
use vaul_tls.Base.{
  ℕ, ◌≡◌, ◌≢◌, refl, sym, ap, true, false, ◌⊎◌, inl, inr, Option, none, some, ◌++◌, ◌==◌, ==_iff,
  any, Any, any_iff, find, Bool-cases, Option-cases, arith,
}
use vaul_tls.Base.Tables.{find-Any, find-passes}
use vaul_tls.Base.Result.{Result, ok, Result-cases}
use vaul_tls.Text.{Text, text, text_eq}
use vaul_tls.Text.Laws.{text_eq_iff}
use vaul_tls.Session.{Claims, ServiceClaims}
use vaul_tls.Db.Rows.{Bytes, CertificateType, CertificateRow, VersionRow}
use vaul_tls.Db.Versions.{StoredCertVersion, get_certificate_version, is_version}
use vaul_tls.Api.Errors.{ApiError}
use vaul_tls.Api.State.{AppState}
use vaul_tls.Api.Certificates.{
  may_read, found, served_material, served_version, packed, DownloadResponse, is_tls_type,
  wants_pem,
}

-- A person, or a service whose scopes have the reading of certificates.
pub data MayRead (claims : Claims) : Type 0 where
  person : claims.service ≡ none → MayRead claims
  service :
      (service_claims : ServiceClaims)
      → claims.service ≡ some service_claims
      → Any (λ scope. scope ≡ text "cert:read") service_claims.scopes
      → MayRead claims

pub may_read-MayRead : (claims : Claims) → may_read claims ≡ true → MayRead claims
may_read-MayRead claims h = elim (Option-cases claims.service) [
  | inl no_service ↦ person no_service
  | inr (given, is_given) ↦
      let scoped : any (λ scope. text_eq scope (text "cert:read")) given.scopes ≡ true =
        ground (arith, rw is_given at h) in
      service given is_given (
        (any_iff (λ scope. text_eq scope (text "cert:read"))
            (λ scope. text_eq_iff scope (text "cert:read")) given.scopes).0
          scoped)
]

-- The contents under the number that is asked for: those of the row, if no number is asked for or it
-- is the row's, and otherwise those that the history has under the number.
pub data MaterialOf (id : ℕ) (c : CertificateRow) (s : AppState) (material : StoredCertVersion)
    (asked : Option ℕ) (number : ℕ) : Type 0 where
  current :
      (asked ≡ none) ⊎ (asked ≡ some c.version)
      → number ≡ c.version
      → material.bytes ≡ c.bytes
      → material.password ≡ c.password
      → MaterialOf id c s material asked number
  archived :
      (row : VersionRow)
      → asked ≡ some number
      → (number == c.version) ≡ false
      → Any (λ v. v ≡ row) s.db.versions
      → row.cert_id ≡ id
      → row.version ≡ number
      → material.bytes ≡ row.bytes
      → material.password ≡ row.password
      → MaterialOf id c s material asked number

pub served_material-MaterialOf :
    (id : ℕ) (c : CertificateRow) (s : AppState) (material : StoredCertVersion) (asked : Option ℕ)
    → found id s ≡ some c
    → served_material id asked c s ≡ some material
    → MaterialOf id c s material asked (served_version asked c)
unfolding get_certificate_version
served_material-MaterialOf id c s material none exists stored =
    let same : record { bytes = c.bytes; password = c.password } ≡ material = cc in
    current (inl refl) refl (sym (ap (λ (m : StoredCertVersion). m.bytes) same))
      (sym (ap (λ (m : StoredCertVersion). m.password) same))
served_material-MaterialOf id c s material (some v) exists stored =
    elim (Bool-cases (v == c.version)) [
      | inl is_current ↦
          let is_version_of : v ≡ c.version = (==_iff v c.version).0 is_current in
          let same : record { bytes = c.bytes; password = c.password } ≡ material =
            cc (rw (get_certificate_version, exists, is_current) at stored) in
          current (inr (ap some is_version_of)) is_version_of
            (sym (ap (λ (m : StoredCertVersion). m.bytes) same))
            (sym (ap (λ (m : StoredCertVersion). m.password) same))
      | inr older ↦ elim (Option-cases (find (is_version id v) s.db.versions)) [
        | inl missing ↦
            absurd (ground (arith, rw (get_certificate_version, exists, older, missing) at stored))
        | inr (row, in_history) ↦
            let same : record { bytes = row.bytes; password = row.password } ≡ material =
              cc (rw (get_certificate_version, exists, older, in_history) at stored) in
            let numbers : (row.cert_id ≡ id) × (row.version ≡ v) =
              ground (arith, find-passes (is_version id v) s.db.versions row in_history) in
            archived row refl older (find-Any (is_version id v) s.db.versions row in_history)
              numbers.0 numbers.1 (sym (ap (λ (m : StoredCertVersion). m.bytes) same))
              (sym (ap (λ (m : StoredCertVersion). m.password) same))
      ]
    ]

pub data IsTls : CertificateType → Type 0 where
  client : IsTls CertificateType.tls_client
  server : IsTls CertificateType.tls_server

pub data IsSsh : CertificateType → Type 0 where
  client : IsSsh CertificateType.ssh_client
  server : IsSsh CertificateType.ssh_server

IsTls-or-IsSsh :
    (t : CertificateType) → (IsTls t × (is_tls_type t ≡ true)) ⊎ (IsSsh t × (is_tls_type t ≡ false))
IsTls-or-IsSsh CertificateType.tls_client = inl (IsTls.client, refl)
IsTls-or-IsSsh CertificateType.tls_server = inl (IsTls.server, refl)
IsTls-or-IsSsh CertificateType.ssh_client = inr (IsSsh.client, refl)
IsTls-or-IsSsh CertificateType.ssh_server = inr (IsSsh.server, refl)

-- The download: the PEM files of a TLS certificate if that format is asked for, and otherwise the
-- stored bytes.
pub data Packed (pem_zip : Bytes → Text → Result ApiError Bytes) (format : Option Text)
    (c : CertificateRow) (material : StoredCertVersion) (response : DownloadResponse) : Type 0 where
  pem :
      format ≡ some (text "pem")
      → IsTls c.certificate_type
      → pem_zip material.bytes material.password ≡ ok response.content
      → response.filename ≡ (c.name.cn ++ text ".zip")
      → Packed pem_zip format c material response
  pkcs12 :
      format ≢ some (text "pem")
      → IsTls c.certificate_type
      → response.content ≡ material.bytes
      → response.filename ≡ (c.name.cn ++ text ".p12")
      → Packed pem_zip format c material response
  ssh :
      IsSsh c.certificate_type
      → response.content ≡ material.bytes
      → response.filename ≡ (c.name.cn ++ text ".zip")
      → Packed pem_zip format c material response

wants_pem-false : (format : Option Text) → wants_pem format ≡ false → format ≢ some (text "pem")
wants_pem-false none e same = cc
wants_pem-false (some given) e same =
    let is_pem : given ≡ text "pem" = cc in
    ground (arith, (text_eq_iff given (text "pem")).1 is_pem)

wants_pem-true : (format : Option Text) → wants_pem format ≡ true → format ≡ some (text "pem")
wants_pem-true none e = cc
wants_pem-true (some given) e = ap some ((text_eq_iff given (text "pem")).0 e)

abbrev stored_as : Bytes → Text → Result ApiError DownloadResponse
stored_as content filename = ok (record { content = content; filename = filename })

as_stored-fields :
    (content : Bytes) (filename : Text) (response : DownloadResponse)
    → stored_as content filename ≡ ok response
    → (response.content ≡ content) × (response.filename ≡ filename)
as_stored-fields content filename response made =
    let same : record { content = content; filename = filename } ≡ response = cc in
    (
      sym (ap (λ (r : DownloadResponse). r.content) same),
      sym (ap (λ (r : DownloadResponse). r.filename) same),
    )

pub packed-Packed :
    (pem_zip : Bytes → Text → Result ApiError Bytes) (format : Option Text) (c : CertificateRow)
    (material : StoredCertVersion) (response : DownloadResponse)
    → packed pem_zip format c material ≡ ok response
    → Packed pem_zip format c material response
packed-Packed pem_zip format c material response made = elim (IsTls-or-IsSsh c.certificate_type) [
  | inr (is_ssh, not_tls) ↦
      let fields : (response.content ≡ material.bytes)
          × (response.filename ≡ (c.name.cn ++ text ".zip")) =
        elim (Bool-cases (wants_pem format)) [
          | inl wanted ↦ as_stored-fields _ _ _ (rw (not_tls, wanted) at made)
          | inr other ↦ as_stored-fields _ _ _ (rw (not_tls, other) at made)
        ] in
      ssh is_ssh fields.0 fields.1
  | inl (tls, is_tls) ↦ elim (Bool-cases (wants_pem format)) [
    | inr other ↦
        let fields : (response.content ≡ material.bytes)
            × (response.filename ≡ (c.name.cn ++ text ".p12")) =
          as_stored-fields _ _ _ (rw (is_tls, other) at made) in
        pkcs12 (wants_pem-false format other) tls fields.0 fields.1
    | inl wanted ↦ elim (Result-cases (pem_zip material.bytes material.password)) [
      | inr (e, failed) ↦ absurd (cc (rw (is_tls, wanted, failed) at made))
      | inl (zip, zipped) ↦
          let fields : (response.content ≡ zip) × (response.filename ≡ (c.name.cn ++ text ".zip")) =
            as_stored-fields _ _ _ (rw (is_tls, wanted, zipped) at made) in
          pem (wants_pem-true format wanted) tls (rw fields.0 zipped) fields.1
    ]
  ]
]
