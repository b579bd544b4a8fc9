-- ===== src/Db/Versions/Revoked.antt =====
-- The CRL knows the serials of the versions that were replaced.
use vaul_tls.Base.{
  ℕ, suc, ◌/◌, ◌≡◌, refl, ◌∙◌, true, false, Option, some, List, [], ◌∷◌, ◌++◌, Any, find, update,
  inl, inr, ◌==◌, ==_refl,
}
use vaul_tls.Base.Tables.{find-update, next_id}
use vaul_tls.Text.{Text, is_empty}
use vaul_tls.Db.Rows.{Db, CertificateRow, VersionRow}
use vaul_tls.Db.Certs.{get_user_cert_by_id, revoke_user_cert}
use vaul_tls.Db.Versions.{
  ReplaceGuard, ReplaceCertificateInput, may_replace, version_of, replaced, write_replacement,
  replace_certificate, revoked_serial, revoked_serials, get_revoked_history_serials_for_ca,
}
use vaul_tls.Db.Versions.History.{IsVersioned, replace-goes, get-write}

pub Any-append {ℓ} : {A : Type ℓ} (P : A → Type 0) (xs ys : List A) → Any P ys → Any P (xs ++ ys)
Any-append P [] ys h = h
Any-append P (x ∷ xs) ys h = inr (Any-append P xs ys h)

pub Any-append_left {ℓ} :
    {A : Type ℓ} (P : A → Type 0) (xs ys : List A) → Any P xs → Any P (xs ++ ys)
Any-append_left P [] ys h = absurd h
Any-append_left P (x ∷ xs) ys (inl h) = inl h
Any-append_left P (x ∷ xs) ys (inr h) = inr (Any-append_left P xs ys h)

-- The serials of a last version are among them all.
revoked_serials-last :
    (P : Text × ℕ → Type 0) (ca_id : ℕ) (certs : List CertificateRow) (vs : List VersionRow)
    (v : VersionRow)
    → Any P (revoked_serial ca_id certs v)
    → Any P (revoked_serials ca_id certs (vs ++ v ∷ []))
revoked_serials-last P ca_id certs [] v h = Any-append_left P (revoked_serial ca_id certs v) [] h
revoked_serials-last P ca_id certs (w ∷ vs) v h =
    Any-append P (revoked_serial ca_id certs w) _ (revoked_serials-last P ca_id certs vs v h)

module _ (ca_id : ℕ) (serial : Text) (v : VersionRow) (c : CertificateRow) (at : ℕ)
    (certs : List CertificateRow) where
  pub revoked_serial-found :
      find (λ (c' : CertificateRow). c'.id == v.cert_id) certs ≡ some c
      → c.revoked_at ≡ some at
      → v.serial_hex ≡ some serial
      → v.ca_id ≡ some ca_id
      → is_empty serial ≡ false
      → Any (λ (e : Text × ℕ). e ≡ (serial, at)) (revoked_serial ca_id certs v)
  revoked_serial-found found revoked has_serial of_ca nonempty =
      rw (revoked_serial, found, revoked, has_serial, of_ca, ==_refl ca_id, nonempty) (inl refl)

-- When a certificate is replaced and later revoked, the serial that the replacement took from it is
-- listed, with the time of the revocation, for the CRL of the CA that had issued it, whatever CA the
-- new material names.
pub replaced-get_revoked_history_serials_for_ca :
    (now later : ℕ) (actor_id : Option ℕ) (input : ReplaceCertificateInput) (guard : ReplaceGuard)
    (c : CertificateRow) (ca_id : ℕ) (serial : Text) (db : Db)
    → IsVersioned db
    → get_user_cert_by_id c.id db ≡ some c
    → may_replace guard c ≡ true
    → c.ca_id ≡ some ca_id
    → c.serial_hex ≡ some serial
    → is_empty serial ≡ false
    → Any
        (λ (e : Text × ℕ). e ≡ (serial, later / 1000))
        (get_revoked_history_serials_for_ca ca_id
          (revoke_user_cert later c.id (replace_certificate now c.id actor_id input guard db).1))
unfolding get_revoked_history_serials_for_ca revoke_user_cert get_user_cert_by_id
replaced-get_revoked_history_serials_for_ca now later actor_id input guard c ca_id serial db
      versioned found allowed of_ca has_serial nonempty =
    rw (replace-goes now c.id actor_id input guard c db versioned found allowed) (
      revoked_serials-last (λ e. e ≡ (serial, later / 1000)) ca_id _ db.versions v
        (revoked_serial-found ca_id serial v revoked_row (later / 1000) _ found_after refl
          has_serial of_ca nonempty))
  where
    v : VersionRow
    v = version_of now actor_id (next_id (λ (w : VersionRow). w.id) db.versions) c

    revoked_row : CertificateRow
    revoked_row = record (replaced input (suc c.version) c) { revoked_at = some (later / 1000) }

    found_after :
        find
          (λ (c' : CertificateRow). c'.id == c.id)
          (update
            (λ row. row.id == c.id)
            (λ row. record row { revoked_at = some (later / 1000) })
            (write_replacement now actor_id input c db).certs)
        ≡ some revoked_row
    found_after =
        find-update (λ (row : CertificateRow). row.id) c.id c.id
          (λ row. record row { revoked_at = some (later / 1000) })
          (write_replacement now actor_id input c db).certs (λ _. refl)
        ∙ rw (get-write now actor_id input c db found, ==_refl c.id) refl
