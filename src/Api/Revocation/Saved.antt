-- ===== src/Api/Revocation/Saved.antt =====
-- What stands on the list of a CA that is saved after a revocation: `create_crl_params` and
-- `create_krl_params` of backend/src/api.rs.
use vaul_tls.Base.{
  ℕ, ◌/◌, ◌≡◌, ◌≢◌, refl, ap, true, false, inl, inr, ◌&&◌, Option, none, some, List, [], ◌∷◌, ◌++◌,
  map, All, Any, ◌==◌, ==_refl, ==_iff, Bool-cases, Option-cases, is_some, arith,
}
use vaul_tls.Base.Result.{Result, ok, Result-cases}
use vaul_tls.Text.{Text, text}
use vaul_tls.Db.Rows.{Bytes, Db, CertificateRow, VersionRow, Ca, CaType}
use vaul_tls.Db.Accounts.{opt_id_eq}
use vaul_tls.Db.Certs.{get_user_cert_by_id, revoke_user_cert}
use vaul_tls.Db.Versions.{get_revoked_history_serials_for_ca}
use vaul_tls.Db.Versions.Revoked.{Any-append, Any-append_left, revoked_serial-found}
use vaul_tls.Api.Errors.{ApiError}
use vaul_tls.Api.Revocation.{
  hex_decode, history_serials, current_serials, revoked_certs_of, create_crl_params,
  create_krl_params, publish_by,
}
use vaul_tls.Api.Revocation.Lists.{
  Any-select-find, current_serials-has, history_serials-has, revoked_serials-has,
  hex_decode-nonempty, append_history-eq-ok, found-revoked, revoked_row,
}

-- What a version of the history is to the list: its serial is on it with the time; or it is another
-- certificate's or another CA's, or has no serial, or one that does not decode.
pub data VersionListed (id ca_id time : ℕ) (params : List (Bytes × ℕ)) (v : VersionRow)
    : Type 0 where
  listed :
      (hex : Text) (serial : Bytes)
      → v.serial_hex ≡ some hex
      → hex_decode hex ≡ some serial
      → Any (λ (e : Bytes × ℕ). e ≡ (serial, time)) params
      → VersionListed id ca_id time params v
  other_cert : v.cert_id ≢ id → VersionListed id ca_id time params v
  other_ca : v.ca_id ≢ some ca_id → VersionListed id ca_id time params v
  no_serial : v.serial_hex ≡ none → VersionListed id ca_id time params v
  undecodable :
      (hex : Text)
      → v.serial_hex ≡ some hex
      → hex_decode hex ≡ none
      → VersionListed id ca_id time params v

All-from-Any :
    {A : Type 0} (P : A → Type 0) (xs : List A) → ((x : A) → Any (λ y. y ≡ x) xs → P x) → All P xs
All-from-Any P [] h = tt
All-from-Any P (x ∷ xs) h = (h x (inl refl), All-from-Any P xs (λ y later. h y (inr later)))

Any-map :
    {A B : Type 0} (f : A → B) (x : A) (xs : List A)
    → Any (λ y. y ≡ x) xs
    → Any (λ y. y ≡ f x) (map f xs)
Any-map f x [] a = absurd a
Any-map f x (y ∷ xs) (inl same) = inl (ap f same)
Any-map f x (y ∷ xs) (inr later) = inr (Any-map f x xs later)

not_same : (a b : ℕ) → (a == b) ≡ false → a ≢ b
not_same a b e same = ground (arith, e)

not_of_ca : (o : Option ℕ) (ca_id : ℕ) → opt_id_eq o ca_id ≡ false → o ≢ some ca_id
not_of_ca o ca_id e same = cc (rw (same, ==_refl ca_id) at e)

of_ca_eq : (o : Option ℕ) (ca_id : ℕ) → opt_id_eq o ca_id ≡ true → o ≡ some ca_id
of_ca_eq none ca_id e = cc
of_ca_eq (some n) ca_id e = ap some ((==_iff n ca_id).0 e)

module _ (get_serial : CertificateRow → Option Bytes)
    (create_and_save_crl : Ca → List (Bytes × ℕ) → Result ApiError ℕ)
    (create_and_save_krl : Ca → List Bytes → Result ApiError ℕ) (now id : ℕ) (db : Db)
    (cert : CertificateRow) (ca : Ca) (n : ℕ) where
  -- The CRL of a TLS CA, and the KRL of an SSH CA.
  pub data ListSaved : Type 0 where
    crl :
        (params : List (Bytes × ℕ)) (own : Bytes)
        → ca.ca_type ≡ CaType.tls
        → create_and_save_crl ca params ≡ ok n
        → get_serial (revoked_row now cert) ≡ some own
        → Any (λ (e : Bytes × ℕ). e ≡ (own, now / 1000)) params
        → All (VersionListed id ca.id (now / 1000) params) db.versions
        → ListSaved
    krl :
        (serials : List Bytes) (own : Bytes)
        → ca.ca_type ≡ CaType.ssh
        → create_and_save_krl ca serials ≡ ok n
        → get_serial (revoked_row now cert) ≡ some own
        → Any (λ serial. serial ≡ own) serials
        → ListSaved

  module _ (found : get_user_cert_by_id id db ≡ some cert) (of_ca : cert.ca_id ≡ some ca.id) where
    among_revoked :
        Any (λ c. c ≡ revoked_row now cert) (revoked_certs_of ca.id (revoke_user_cert now id db))
    unfolding revoked_certs_of
    among_revoked =
        Any-select-find (λ c. opt_id_eq c.ca_id ca.id && is_some c.revoked_at) (λ c. c.id == id)
          (revoke_user_cert now id db).certs (revoked_row now cert)
          (found-revoked now id db cert found) (rw (of_ca, ==_refl ca.id) refl)

    history_listed :
        (current : List (Bytes × ℕ)) (v : VersionRow)
        → Any (λ w. w ≡ v) db.versions
        → VersionListed id ca.id
            (now / 1000)
            (current
              ++ history_serials
                  (get_revoked_history_serials_for_ca ca.id (revoke_user_cert now id db)))
            v
    unfolding get_revoked_history_serials_for_ca revoke_user_cert
    history_listed current v kept = elim (Bool-cases (v.cert_id == id)) [
      | inr other ↦ other_cert (not_same v.cert_id id other)
      | inl of_cert ↦ elim (Bool-cases (opt_id_eq v.ca_id ca.id)) [
        | inr other ↦ other_ca (not_of_ca v.ca_id ca.id other)
        | inl issued ↦ elim (Option-cases v.serial_hex) [
          | inl missing ↦ no_serial missing
          | inr (hex, has_serial) ↦ elim (Option-cases (hex_decode hex)) [
            | inl bad ↦ undecodable hex has_serial bad
            | inr (serial, decoded) ↦
                let same_id : v.cert_id ≡ id = (==_iff v.cert_id id).0 of_cert in
                listed hex serial has_serial decoded (
                  Any-append (λ e. e ≡ (serial, now / 1000)) current _
                    (history_serials-has hex (now / 1000) serial _ decoded (
                      revoked_serials-has (λ e. e ≡ (hex, now / 1000)) ca.id _ v db.versions kept
                        (revoked_serial-found ca.id hex v (revoked_row now cert) (now / 1000) _
                          (rw same_id (found-revoked now id db cert found)) refl has_serial
                          (of_ca_eq v.ca_id ca.id issued) (hex_decode-nonempty hex decoded)))))
          ]
        ]
      ]
    ]

    pub saved_by :
        (kind : CaType)
        → ca.ca_type ≡ kind
        → publish_by get_serial create_and_save_crl create_and_save_krl kind ca
            (revoke_user_cert now id db)
          ≡ ok n
        → ListSaved
    unfolding create_crl_params create_krl_params
    saved_by CaType.tls kind saved =
        elim (Result-cases (create_crl_params get_serial ca (revoke_user_cert now id db))) [
          | inr (e, failed) ↦ absurd (cc (rw failed at saved))
          | inl (params, built) ↦
              let (current, made, appended) = append_history-eq-ok _ _ built in
              let (own, readable, on_list) =
                current_serials-has get_serial _ (revoked_row now cert) _ current among_revoked
                  made in
              crl params own kind (rw built at saved) readable
                (rw appended (Any-append_left (λ e. e ≡ (own, now / 1000)) current _ on_list))
                (All-from-Any _ db.versions (λ v kept. rw appended (history_listed current v kept)))
        ]
    saved_by CaType.ssh kind saved =
        elim (Result-cases (
          current_serials get_serial (text "serial")
            (revoked_certs_of ca.id (revoke_user_cert now id db)))) [
              | inr (e, failed) ↦ absurd (cc (rw (create_krl_params, failed) at saved))
              | inl (current, made) ↦
                  let (own, readable, on_list) =
                    current_serials-has get_serial _ (revoked_row now cert) _ current among_revoked
                      made in
                  krl (map (λ (e : Bytes × ℕ). e.0) current) own kind
                    (rw (create_krl_params, made) at saved) readable
                    (Any-map (λ (e : Bytes × ℕ). e.0) (own, now / 1000) current on_list)
            ]
