-- ===== src/Api/Revocation/Published.antt =====
-- The list that a revocation signs and saves (`revoke_cert_and_update_crl` of backend/src/api.rs).
use vaul_tls.Base.{
  ℕ, ◌≡◌, refl, sym, ap, ◌∙◌, subst, false, Option, none, some, List, is_some, arith,
}
use vaul_tls.Base.Result.{Result, ok, err, ok_or}
use vaul_tls.Base.Outcome.{
  Outcome, Outcome-lift, Outcome-pure, Outcome-require, Outcome-ensure, Outcome-gets,
  Outcome-modify,
}
use vaul_tls.Base.Tables.{find-has_id}
use vaul_tls.Db.Rows.{Bytes, Db, CertificateRow, Ca}
use vaul_tls.Db.Certs.{get_user_cert_by_id, get_ca_by_id, revoke_user_cert, increase_ca_crl_number}
use vaul_tls.Api.Errors.{ApiError}
use vaul_tls.Api.Revocation.{revoke_cert_and_update_crl, publish_list}
use vaul_tls.Api.Revocation.Saved.{ListSaved, saved_by}

ok_or-some : (o : Option ℕ) (e : ApiError) {n : ℕ} → ok_or o e ≡ ok n → o ≡ some n
ok_or-some none e h = cc
ok_or-some (some n) e h = cc

-- A revocation that went through: the CA that the certificate names, the list that was saved for it
-- and got a number, and the tables with the revocation and that number.
pub record Published (get_serial : CertificateRow → Option Bytes)
    (create_and_save_crl : Ca → List (Bytes × ℕ) → Result ApiError ℕ)
    (create_and_save_krl : Ca → List Bytes → Result ApiError ℕ) (now id : ℕ) (db : Db)
    (cert : CertificateRow) (after : Db) : Type 0 where
  pub ca : Ca
  pub n : ℕ
  pub found : get_user_cert_by_id id db ≡ some cert
  pub not_revoked : is_some cert.revoked_at ≡ false
  pub of_ca : cert.ca_id ≡ some ca.id
  pub ca_found : get_ca_by_id ca.id db ≡ some ca
  pub saved : ListSaved get_serial create_and_save_crl create_and_save_krl now id db cert ca n
  pub written : after ≡ increase_ca_crl_number ca.id n (revoke_user_cert now id db)

module _ (get_serial : CertificateRow → Option Bytes)
    (create_and_save_crl : Ca → List (Bytes × ℕ) → Result ApiError ℕ)
    (create_and_save_krl : Ca → List Bytes → Result ApiError ℕ) (now id : ℕ) (db : Db) where
  abbrev Ends : Result ApiError CertificateRow → Db → Type 0
  Ends (err e) after = Unit
  Ends (ok cert) after =
      Published get_serial create_and_save_crl create_and_save_krl now id db cert after

  abbrev publish : Ca → Db → Result ApiError ℕ
  publish = publish_list get_serial create_and_save_crl create_and_save_krl

  list_saved :
      (cert : CertificateRow) (ca : Ca) (n : ℕ)
      → get_user_cert_by_id id db ≡ some cert
      → cert.ca_id ≡ some ca.id
      → publish ca (revoke_user_cert now id db) ≡ ok n
      → ListSaved get_serial create_and_save_crl create_and_save_krl now id db cert ca n
  unfolding publish_list
  list_saved cert ca n found of_ca saved =
      saved_by get_serial create_and_save_crl create_and_save_krl now id db cert ca n found of_ca
        ca.ca_type refl saved

  ca_id-of : (ca_id : ℕ) (ca : Ca) → get_ca_by_id ca_id db ≡ some ca → ca.id ≡ ca_id
  unfolding get_ca_by_id
  ca_id-of ca_id ca found = find-has_id (λ (c : Ca). c.id) ca_id db.cas ca found

  revoke-Ends : Outcome Ends (revoke_cert_and_update_crl publish now id) db
  unfolding revoke_cert_and_update_crl get_ca_by_id revoke_user_cert
  revoke-Ends =
      Outcome-require Ends _ _ _ db
        (λ cert found.
          Outcome-ensure Ends _ _ _ db
            (λ fresh.
              Outcome-lift Ends _ _ db
                (λ ca_id named.
                  Outcome-require Ends _ _ _ db
                    (λ ca ca_found.
                      let of_ca : cert.ca_id ≡ some ca.id =
                        ok_or-some cert.ca_id _ named
                        ∙ ap some (sym (ca_id-of ca_id ca ca_found)) in
                      Outcome-ensure Ends _ _ _ db
                        (λ _. Outcome-modify Ends _ _ db (
                          Outcome-gets Ends _ _ _ (
                            Outcome-lift Ends _ _ _
                              (λ n saved. Outcome-modify Ends _ _ _ (
                                Outcome-pure Ends _ _ (record {
                                  ca = ca;
                                  n = n;
                                  found = found;
                                  not_revoked = ground (arith, fresh);
                                  of_ca = of_ca;
                                  ca_found =
                                      subst (λ k. get_ca_by_id k db ≡ some ca)
                                        (sym (ca_id-of ca_id ca ca_found)) ca_found;
                                  saved = list_saved cert ca n found of_ca saved;
                                  written = refl;
                                })))
                              (λ _ _. tt))))
                        (λ _. tt))
                    (λ _. tt))
                (λ _ _. tt))
            (λ _. tt))
        (λ _. tt)

  -- A revocation that went through had found the certificate, not revoked, and the CA that it names.
  -- For a TLS CA the list that was then signed and saved has the certificate's own serial, and the
  -- serial of each version in its history that the CA had issued, if it decodes, each with the time
  -- of the revocation in seconds; for an SSH CA the list has the certificate's own serial. The tables
  -- are left with the revocation and the list's number.
  pub revoke_cert_and_update_crl-publish_list :
      (cert : CertificateRow)
      → (revoke_cert_and_update_crl publish now id db).0 ≡ ok cert
      → Published get_serial create_and_save_crl create_and_save_krl now id db cert
          (revoke_cert_and_update_crl publish now id db).1
  revoke_cert_and_update_crl-publish_list cert went =
      subst (λ r. Ends r (revoke_cert_and_update_crl publish now id db).1) went revoke-Ends
