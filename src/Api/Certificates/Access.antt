-- ===== src/Api/Certificates/Access.antt =====
-- Who gets at the private material of a certificate.
use vaul_tls.Base.{ℕ, ◌≡◌, refl, true, ◌||◌, Option, some, [], ◌++◌, ◌==◌}
use vaul_tls.Base.Result.{Result, ok, err}
use vaul_tls.Base.Outcome.{
  Outcome-lift, Outcome-pure, Outcome-require, Outcome-ensure, Outcome-gets, Outcome-modify,
}
use vaul_tls.Text.{Text, text}
use vaul_tls.Text.Decimal.{show}
use vaul_tls.Session.{Claims, is_local_admin}
use vaul_tls.Db.Rows.{Bytes, CertificateRow}
use vaul_tls.Db.Versions.{StoredCertVersion}
use vaul_tls.Db.Audit.{AuditAction}
use vaul_tls.Groups.Visibility.{share_group, visibility-agrees}
use vaul_tls.Api.Errors.{ApiError}
use vaul_tls.Api.State.{AppState, Authenticated, audited}
use vaul_tls.Api.Certificates.Material.{
  MayRead, may_read-MayRead, MaterialOf, served_material-MaterialOf, Packed, packed-Packed,
}
use vaul_tls.Api.Certificates.{
  can_access_cert_secret, found, on_certificate, fetch_certificate_password, DownloadResponse,
  download_certificate, format_name,
}

-- Whom the rules let at the material: a local admin, the owner, or who shares a group with it.
abbrev pub Entitled : Claims → CertificateRow → ℕ → AppState → Type 0
Entitled claims c id s =
    (is_local_admin claims || (c.user_id == claims.id || share_group claims.id id s.groups)) ≡ true

can_access-Entitled :
    (claims : Claims) (c : CertificateRow) (id : ℕ) (s : AppState)
    → can_access_cert_secret claims c.user_id id s
      ≡ (is_local_admin claims || (c.user_id == claims.id || share_group claims.id id s.groups))
unfolding can_access_cert_secret
can_access-Entitled claims c id s = rw ((visibility-agrees claims.id id s.groups []).0) refl

-- What is known when the material of a certificate is handed out.
pub record Served (auth : Authenticated) (id : ℕ) (version : Option ℕ) (s : AppState)
    (c : CertificateRow) (material : StoredCertVersion) (number : ℕ) : Type 0 where
  pub exists : found id s ≡ some c
  pub scope : MayRead auth.claims
  pub entitled : Entitled auth.claims c id s
  pub stored : MaterialOf id c s material version number

-- How a request for the password ends.
abbrev pub PasswordServed :
    Authenticated → ℕ → Option ℕ → AppState → Result ApiError Text → AppState → Type 0
PasswordServed auth id version s (err e) after = after ≡ s
PasswordServed auth id version s (ok password) after =
    (c : CertificateRow) × (material : StoredCertVersion) × (number : ℕ) × Served auth id version s
      c material number
    × (password ≡ material.password)
    × (after
        ≡ audited auth
            (on_certificate AuditAction.fetch_certificate_password c id
              (some (text "v" ++ show number)))
            s)

-- A password is handed out only for a version that exists, to a local admin, the certificate's owner
-- or a member of a group that the certificate is in, and to a service only with the scope to read.
-- It is the password of the certificate's row, if no version or the row's own is asked for, and
-- otherwise the one that the history has under the number asked for. The audit log then names the
-- certificate and the version. A refusal changes nothing.
pub fetch_certificate_password-outcome :
    (auth : Authenticated) (id : ℕ) (version : Option ℕ) (s : AppState)
    → let (r, after) = fetch_certificate_password id version auth s in
      PasswordServed auth id version s r after
unfolding fetch_certificate_password
fetch_certificate_password-outcome auth id version s =
    let Q = PasswordServed auth id version s in
    Outcome-ensure Q _ _ _ s
      (λ scope.
        Outcome-require Q _ _ _ s
          (λ c exists. Outcome-gets Q _ _ s (
            Outcome-ensure Q _ _ _ s
              (λ allowed.
                Outcome-require Q _ _ _ s
                  (λ material stored. Outcome-modify Q _ _ s (
                    Outcome-pure Q _ _ (
                      c,
                      material,
                      _,
                      record {
                        exists = exists;
                        scope = may_read-MayRead _ scope;
                        entitled = rw can_access-Entitled at allowed;
                        stored = served_material-MaterialOf id c s material version exists stored;
                      },
                      refl,
                      refl,
                    )))
                  (λ _. refl))
              (λ _. refl)))
          (λ _. refl))
      (λ _. refl)

abbrev pub MaterialServed :
    (Bytes → Text → Result ApiError Bytes)
    → Authenticated
    → ℕ
    → Option Text
    → Option ℕ
    → AppState
    → Result ApiError DownloadResponse
    → AppState
    → Type 0
MaterialServed pem_zip auth id format version s (err e) after = after ≡ s
MaterialServed pem_zip auth id format version s (ok response) after =
    (c : CertificateRow) × (material : StoredCertVersion) × (number : ℕ) × Served auth id version s
      c material number
    × Packed pem_zip format c material response
    × (after
        ≡ audited auth
            (on_certificate AuditAction.download_certificate c id
              (some (format_name format ++ (text " v" ++ show number))))
            s)

-- The private key is downloaded under the same conditions as the password is fetched, and it is that
-- of the row or of the history in the same way. A TLS certificate is converted if PEM files are asked
-- for, under a name that ends in `.zip`; otherwise the stored bytes are the content, under a name that
-- ends in `.p12` for TLS and in `.zip` for SSH. Each download is in the audit log with the version. A
-- refusal changes nothing.
pub download_certificate-outcome :
    (pem_zip : Bytes → Text → Result ApiError Bytes) (auth : Authenticated) (id : ℕ)
    (format : Option Text) (version : Option ℕ) (s : AppState)
    → let (r, after) = download_certificate pem_zip id format version auth s in
      MaterialServed pem_zip auth id format version s r after
unfolding download_certificate
download_certificate-outcome pem_zip auth id format version s =
    let Q = MaterialServed pem_zip auth id format version s in
    Outcome-ensure Q _ _ _ s
      (λ scope.
        Outcome-require Q _ _ _ s
          (λ c exists. Outcome-gets Q _ _ s (
            Outcome-ensure Q _ _ _ s
              (λ allowed.
                Outcome-require Q _ _ _ s
                  (λ material stored.
                    Outcome-lift Q _ _ s
                      (λ response made. Outcome-modify Q _ _ s (
                        Outcome-pure Q _ _ (
                          c,
                          material,
                          _,
                          record {
                            exists = exists;
                            scope = may_read-MayRead _ scope;
                            entitled = rw can_access-Entitled at allowed;
                            stored =
                                served_material-MaterialOf id c s material version exists stored;
                          },
                          packed-Packed pem_zip format c material _ made,
                          refl,
                        )))
                      (λ _ _. refl))
                  (λ _. refl))
              (λ _. refl)))
          (λ _. refl))
      (λ _. refl)
