-- ===== src/Api/Replace/Steps.antt =====
-- The steps of a replacement that write: the search for the issuing CA and the replacement in the
-- database.
use vaul_tls.Base.{
  ℕ, suc, ◌≡◌, refl, sym, Option, none, some, List, [], ◌∷◌, ◌++◌, any, Bool-cases, Option-cases,
  inl, inr, subst,
}
use vaul_tls.Base.Result.{Result, ok, err}
use vaul_tls.Base.Action.{◌>>=◌, continue}
use vaul_tls.Base.Outcome.{Outcome}
use vaul_tls.Base.Tables.{find-has_id, next_id}
use vaul_tls.Db.Rows.{Db, CertificateRow, VersionRow, Ca}
use vaul_tls.Db.Certs.{get_user_cert_by_id}
use vaul_tls.Db.Versions.{
  ReplaceGuard, ReplaceError, ReplaceCertificateInput, may_replace, is_version, replaced,
  version_of, write_replacement, replace_certificate,
}
use vaul_tls.Db.Versions.History.{get-write}
use vaul_tls.Api.Errors.{ApiError}
use vaul_tls.Api.State.{AppState, Api}
use vaul_tls.Api.Import.{X509, Pki, Material, resolve_issuer, issuer_of, with_cas}
use vaul_tls.Api.Replace.{issuing_ca, as_api, replace_in}

abbrev pub version_id : VersionRow → ℕ
version_id v = v.id

-- A replacement in the database that went through, or not.
abbrev pub Written :
    ℕ → ℕ → Option ℕ → ReplaceCertificateInput → Db → Result ReplaceError ℕ → Db → Type 0
Written now id actor_id input db (err e) after = after ≡ db
Written now id actor_id input db (ok version) after =
    (c : CertificateRow) × (get_user_cert_by_id id db ≡ some c)
    × (get_user_cert_by_id id after ≡ some (replaced input (suc c.version) c))
    × (after.versions
        ≡ db.versions ++ version_of now actor_id (next_id version_id db.versions) c ∷ [])

module _ (now id : ℕ) (actor_id : Option ℕ) (input : ReplaceCertificateInput) (db : Db) where
  written :
      (c : CertificateRow)
      → get_user_cert_by_id id db ≡ some c
      → get_user_cert_by_id id (write_replacement now actor_id input c db)
        ≡ some (replaced input (suc c.version) c)
  unfolding get_user_cert_by_id
  written c there =
      let same : c.id ≡ id = find-has_id (λ (r : CertificateRow). r.id) id db.certs c there in
      subst
        (λ k.
          get_user_cert_by_id k (write_replacement now actor_id input c db)
          ≡ some (replaced input (suc c.version) c))
        same
        (get-write now actor_id input c db
          (subst (λ k. get_user_cert_by_id k db ≡ some c) (sym same) there))

  replace-Written :
      (guard : ReplaceGuard)
      → Written now id actor_id input db
          (replace_certificate now id actor_id input guard db).0
          (replace_certificate now id actor_id input guard db).1
  unfolding replace_certificate
  replace-Written guard = elim (Option-cases (get_user_cert_by_id id db)) [
    | inl none_there ↦ rw (replace_certificate, none_there) refl
    | inr (c, there) ↦ elim (Bool-cases (any (is_version c.id c.version) db.versions)) [
      | inl twice ↦ rw (replace_certificate, there, twice) refl
      | inr once ↦ elim (Bool-cases (may_replace guard c)) [
        | inr shut ↦ rw (replace_certificate, there, once, shut) refl
        | inl free ↦ rw (replace_certificate, there, once, free) (c, there, written c there, refl)
      ]
    ]
  ]

module _ {κ} {B : Type 0} (Q : Result ApiError B → AppState → Type κ) where
  module _ (now id actor_id : ℕ) (input : ReplaceCertificateInput) (k : ℕ → Api B) (s : AppState)
      (good : (version : ℕ) (db : Db)
        → Written now id (some actor_id) input s.db (ok version) db
        → Outcome Q (k version) (record s { db = db }))
      (bad : (e : ApiError) → Q (err e) s) where
    left : (e : ApiError) (db : Db) → db ≡ s.db → Q (err e) (record s { db = db })
    left e db same = subst (λ d. Q (err e) (record s { db = d })) (sym same) (bad e)

    after_replace :
        (r : Result ReplaceError ℕ) (db : Db)
        → Written now id (some actor_id) input s.db r db
        → Q
            (continue (as_api r) k (record s { db = db })).0
            (continue (as_api r) k (record s { db = db })).1
    after_replace (ok version) db w = good version db w
    after_replace (err ReplaceError.missing) db same = left _ db same
    after_replace (err ReplaceError.duplicate_version) db same = left _ db same
    after_replace (err ReplaceError.not_replaceable) db same = left _ db same

    pub Outcome-replace_in : Outcome Q (replace_in now id actor_id input >>= k) s
    unfolding ◌>>=◌ replace_in
    Outcome-replace_in =
        after_replace _ _
          (replace-Written now id (some actor_id) input s.db ReplaceGuard.imported_manual)

  after_issuer :
      (pki : Pki) (m : Material) (k : ℕ → Api B) (s : AppState) (r : Result ApiError X509)
      → issuer_of pki m ≡ r
      → ((ca_id : ℕ) (cas : List Ca) → Outcome Q (k ca_id) (with_cas cas s))
      → ((e : ApiError) → Q (err e) s)
      → Outcome Q (resolve_issuer pki m >>= k) s
  unfolding ◌>>=◌ resolve_issuer
  after_issuer pki m k s (ok issuer) p good bad = rw (resolve_issuer, p) (good _ _)
  after_issuer pki m k s (err e) p good bad = rw (resolve_issuer, p) (bad e)

  -- Whatever CA is found or imported, only the CAs may have changed.
  pub Outcome-issuing_ca :
      (pki : Pki) (m : Material) (known : Option ℕ) (k : ℕ → Api B) (s : AppState)
      → ((ca_id : ℕ) (cas : List Ca) → Outcome Q (k ca_id) (with_cas cas s))
      → ((e : ApiError) → Q (err e) s)
      → Outcome Q (issuing_ca pki m known >>= k) s
  unfolding ◌>>=◌ issuing_ca
  Outcome-issuing_ca pki m none k s good bad = after_issuer pki m k s _ refl good bad
  Outcome-issuing_ca pki m (some ca_id) k s good bad = good ca_id s.db.cas
