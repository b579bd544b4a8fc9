-- ===== src/Api/Replace/Rules.antt =====
-- What a replacement has passed, and what it leaves.
use vaul_tls.Base.{
  ℕ, suc, ◌≤◌, ◌<◌, ◌≡◌, refl, sym, ap, ◌∙◌, Bool, true, false, not, ◌&&◌, Option, some, [], ◌∷◌,
  ◌++◌, is_some, ◌⊎◌, inl, inr, arith, leb, subst,
}
use vaul_tls.Base.Result.{Result, ok, err}
use vaul_tls.Base.Outcome.{
  Outcome-require, Outcome-require_last, Outcome-gets, Outcome-ensure, Outcome-lift, Outcome-modify,
}
use vaul_tls.Base.Tables.{next_id}
use vaul_tls.Text.{Text, text_eq}
use vaul_tls.Text.Laws.{text_eq_iff}
use vaul_tls.Db.Rows.{Bytes, CertificateRow, CertificateRenewMethod}
use vaul_tls.Db.Certs.{get_user_cert_by_id}
use vaul_tls.Db.Versions.{ReplaceCertificateInput, replaced, version_of}
use vaul_tls.Api.Errors.{ApiError}
use vaul_tls.Api.State.{AppState, Authenticated, audited, record_audit}
use vaul_tls.Api.Import.{
  X509, Pki, ImportCertForm, Material, parse_material, cn_from_cert, with_cas,
}
use vaul_tls.Api.Certificates.{found, is_tls_type}
use vaul_tls.Api.Replace.{
  may_replace_file, check_replaceable, is_duplicate, is_forced, check_leaf, input_of,
  update_certificate,
}
use vaul_tls.Api.Replace.Steps.{version_id, Outcome-replace_in, Outcome-issuing_ca}

check_replaceable-ok :
    (c : CertificateRow) (u : Unit {0})
    → check_replaceable c ≡ ok u
    → (is_some c.acme_provider_id ≡ false)
      × (c.is_imported ≡ true)
      × (is_some c.revoked_at ≡ false)
      × (is_tls_type c.certificate_type ≡ true)
unfolding check_replaceable
check_replaceable-ok c u e = ground (arith, e)

check_leaf-ok :
    (now : ℕ) (forced : Bool) (c : CertificateRow) (leaf : X509) (u : Unit {0})
    → check_leaf now forced c leaf ≡ ok u
    → (text_eq (cn_from_cert leaf) c.name.cn ≡ true)
      × (leaf.not_before ≤ now)
      × (now < leaf.not_after)
      × ((leb leaf.not_after c.valid_until && not forced) ≡ false)
unfolding check_leaf
check_leaf-ok now forced c leaf u e = ground (arith, e)

extends_or_forced :
    (a b : ℕ) (forced : Bool) → (leb a b && not forced) ≡ false → (b < a) ⊎ (forced ≡ true)
extends_or_forced a b true h = inr refl
extends_or_forced a b false h = inl (ground (arith, h))

-- What holds of a replacement that went through, with the certificate `made` that it returns.
pub record Replacement (pki : Pki) (id : ℕ) (form : ImportCertForm) (auth : Authenticated)
    (s : AppState) (made : CertificateRow) (after : AppState) : Type 0 where
  pub existing : CertificateRow
  pub exists : found id s ≡ some existing
  pub allowed : may_replace_file auth.claims existing id s ≡ true
  pub not_acme : is_some existing.acme_provider_id ≡ false
  pub imported : existing.is_imported ≡ true
  pub not_revoked : is_some existing.revoked_at ≡ false
  pub of_tls : is_tls_type existing.certificate_type ≡ true
  pub m : Material
  pub parsed : parse_material pki form ≡ ok m
  pub unique : is_duplicate existing.id m.leaf s ≡ false
  pub same_name : cn_from_cert m.leaf ≡ existing.name.cn
  pub started : m.leaf.not_before ≤ auth.now
  pub lasts : auth.now < m.leaf.not_after
  pub extends : (existing.valid_until < m.leaf.not_after) ⊎ (is_forced form auth.claims ≡ true)
  pub id_kept : made.id ≡ existing.id
  pub owner_kept : made.user_id ≡ existing.user_id
  pub name_kept : made.name ≡ existing.name
  pub still_valid : made.revoked_at ≡ existing.revoked_at
  pub version_next : made.version ≡ suc existing.version
  pub material_new : made.bytes ≡ m.stored
  pub expiry_new : made.valid_until ≡ m.leaf.not_after
  pub history :
      after.db.versions
      ≡ s.db.versions
        ++ version_of auth.now (some auth.claims.id) (next_id version_id s.db.versions) existing
          ∷ []

abbrev pub ReplacementEnds :
    Pki
    → ℕ
    → ImportCertForm
    → Authenticated
    → AppState
    → Result ApiError CertificateRow
    → AppState
    → Type 0
ReplacementEnds pki id form auth s (err e) after =
    (after.db.certs ≡ s.db.certs) × (after.db.versions ≡ s.db.versions) × (after.audit ≡ s.audit)
ReplacementEnds pki id form auth s (ok made) after = Replacement pki id form auth s made after

module _ (pki : Pki) (id : ℕ) (form : ImportCertForm) (auth : Authenticated) (s : AppState)
    (existing : CertificateRow) (exists : found id s ≡ some existing)
    (allowed : may_replace_file auth.claims existing id s ≡ true) (u : Unit {0})
    (replaceable : check_replaceable existing ≡ ok u) (m : Material)
    (parsed : parse_material pki form ≡ ok m) (unique : is_duplicate existing.id m.leaf s ≡ false)
    (v : Unit {0}) (fits : check_leaf auth.now (is_forced form auth.claims) existing m.leaf ≡ ok v)
    (password : Text) (serial : Option Bytes) (fingerprint : Text) (ca_id : ℕ)
    (method : CertificateRenewMethod) (after : AppState) where
  the_input : ReplaceCertificateInput
  the_input = input_of m password serial fingerprint ca_id method

  replacement :
      after.db.versions
        ≡ s.db.versions
          ++ version_of auth.now (some auth.claims.id) (next_id version_id s.db.versions) existing
            ∷ []
      → Replacement pki id form auth s (replaced the_input (suc existing.version) existing) after
  unfolding the_input
  replacement history = record {
    existing = existing;
    exists = exists;
    allowed = allowed;
    not_acme = (check_replaceable-ok existing u replaceable).0;
    imported = (check_replaceable-ok existing u replaceable).1;
    not_revoked = (check_replaceable-ok existing u replaceable).2;
    of_tls = (check_replaceable-ok existing u replaceable).3;
    m = m;
    parsed = parsed;
    unique = unique;
    same_name =
        (text_eq_iff (cn_from_cert m.leaf) existing.name.cn).0
          ((check_leaf-ok auth.now (is_forced form auth.claims) existing m.leaf v fits).0);
    started = (check_leaf-ok auth.now (is_forced form auth.claims) existing m.leaf v fits).1;
    lasts = (check_leaf-ok auth.now (is_forced form auth.claims) existing m.leaf v fits).2;
    extends =
        extends_or_forced m.leaf.not_after existing.valid_until (is_forced form auth.claims)
          (check_leaf-ok auth.now (is_forced form auth.claims) existing m.leaf v fits).3;
    id_kept = refl;
    owner_kept = refl;
    name_kept = refl;
    still_valid = refl;
    version_next = refl;
    material_new = refl;
    expiry_new = refl;
    history = history;
  }

  -- The row that is read at the end.
  concluded :
      (c made : CertificateRow)
      → found id s ≡ some c
      → found id after ≡ some (replaced the_input (suc c.version) c)
      → found id after ≡ some made
      → after.db.versions
        ≡ s.db.versions
          ++ version_of auth.now (some auth.claims.id) (next_id version_id s.db.versions) c ∷ []
      → Replacement pki id form auth s made after
  concluded c made there here read history =
      let same : c ≡ existing = cc (there, exists) in
      let last : replaced the_input (suc c.version) c ≡ made = cc (here, read) in
      subst (λ r. Replacement pki id form auth s r after)
        (sym (ap (λ (x : CertificateRow). replaced the_input (suc x.version) x) same) ∙ last)
        (replacement (
          history
          ∙ ap
              (λ (x : CertificateRow).
                s.db.versions
                ++ version_of auth.now (some auth.claims.id) (next_id version_id s.db.versions) x
                  ∷ [])
              same))

-- A replacement goes through only for the certificate's owner, a local administrator, a member of a
-- group with the certificate, or the owner's service with the scope to issue; only for an imported TLS
-- certificate that is neither revoked nor of an ACME provider; and only with material that no other
-- certificate has, of the same name, already valid, not expired, and expiring later than the present
-- one unless a local administrator forces it. The certificate then keeps its id, its owner, its name and
-- its revocation state, has the new material and expiry under the next version number, and the replaced
-- contents are the last row of the history. A refusal leaves the certificates, their history and the
-- audit log as they are.
pub update_certificate-outcome :
    (pki : Pki) (id : ℕ) (form : ImportCertForm) (auth : Authenticated) (s : AppState)
    → let (r, after) = update_certificate pki id form auth s in
      ReplacementEnds pki id form auth s r after
unfolding update_certificate get_user_cert_by_id audited record_audit the_input
update_certificate-outcome pki id form auth s =
    let Q = ReplacementEnds pki id form auth s in
    Outcome-require Q _ _ _ s
      (λ existing exists. Outcome-gets Q _ _ s (
        Outcome-ensure Q _ _ _ s
          (λ allowed.
            Outcome-lift Q _ _ s
              (λ u replaceable.
                Outcome-lift Q _ _ s
                  (λ m parsed. Outcome-gets Q _ _ s (
                    Outcome-ensure Q _ _ _ s
                      (λ unique.
                        Outcome-lift Q _ _ s
                          (λ v fits.
                            Outcome-lift Q _ _ s
                              (λ method _. Outcome-gets Q _ _ s (
                                Outcome-issuing_ca Q pki m _ _ s
                                  (λ ca_id cas.
                                    Outcome-lift Q _ _ (with_cas cas s)
                                      (λ fingerprint _.
                                        Outcome-replace_in Q auth.now id auth.claims.id _ _
                                          (with_cas cas s)
                                          (λ version db (c, there, here, history).
                                            let t : AppState = record (with_cas cas s) {
                                              db = db;
                                            } in
                                            Outcome-modify Q _ _ t (
                                              Outcome-require_last Q _ _ _
                                                (λ made read.
                                                  concluded pki id form auth s existing exists
                                                    allowed u replaceable m parsed
                                                    (ground (arith, unique)) v fits _ _ fingerprint
                                                    ca_id method _ c made there here read history)
                                                (λ gone. cc (gone, here))))
                                          (λ _. (refl, refl, refl)))
                                      (λ _ _. (refl, refl, refl)))
                                  (λ _. (refl, refl, refl))))
                              (λ _ _. (refl, refl, refl)))
                          (λ _ _. (refl, refl, refl)))
                      (λ _. (refl, refl, refl))))
                  (λ _ _. (refl, refl, refl)))
              (λ _ _. (refl, refl, refl)))
          (λ _. (refl, refl, refl))))
      (λ _. (refl, refl, refl))
