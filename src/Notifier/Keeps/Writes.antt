-- ===== src/Notifier/Keeps/Writes.antt =====
-- The two statements through which the watcher writes to the certificates.
use vaul_tls.Base.{
  ℕ, suc, ◌≡◌, refl, sym, ◌∙◌, true, none, some, [], ◌∷◌, ◌==◌, any, Bool-cases, Option-cases, inl,
  inr, arith, subst, if◌then◌else◌,
}
use vaul_tls.Base.Tables.{find-update, find-has_id, next_id}
use vaul_tls.Db.Rows.{Db, CertificateRow, CertificateRenewMethod, VersionRow}
use vaul_tls.Db.Certs.{get_user_cert_by_id}
use vaul_tls.Db.Versions.{
  ReplaceGuard, ReplaceCertificateInput, may_replace, is_version, replaced, version_of,
  write_replacement, replace_certificate,
}
use vaul_tls.Db.Versions.Revoked.{Any-append}
use vaul_tls.Notifier.Watch.{update_cert_renew_method}
use vaul_tls.Notifier.Keeps.{
  Keeps, Kept, Archives, is_renewable, Held-refl, Held-silenced, Held-replaced,
  SameContents-silenced, SameContents-refl, append_nil, Keeps-refl,
}

abbrev cert_id : CertificateRow → ℕ
cert_id c = c.id

pub Keeps-update_cert_renew_method :
    (id : ℕ) (method : CertificateRenewMethod) (db : Db)
    → Keeps db (update_cert_renew_method id method db)
unfolding update_cert_renew_method get_user_cert_by_id
Keeps-update_cert_renew_method id method db = record {
  more = [];
  grown = append_nil db.versions;
  rows = λ k c there.
      let read : get_user_cert_by_id k (update_cert_renew_method id method db)
          ≡ (if id == k then some (record c { renew_method = method }) else some c) =
        find-update cert_id id k (λ c'. record c' { renew_method = method }) db.certs (λ _. refl)
        ∙ rw there refl in
      elim (Bool-cases (id == k)) [
        | inl hit ↦ record {
          row = record c { renew_method = method };
          there = read ∙ rw hit refl;
          held = Held-silenced method c;
          contents = inl (SameContents-silenced method c);
        }
        | inr other ↦ record {
          row = c;
          there = read ∙ rw other refl;
          held = Held-refl c;
          contents = inl (SameContents-refl c);
        }
      ];
}

-- A replacement without a user, under a guard that lets only renewable certificates through.
module _ (now id : ℕ) (input : ReplaceCertificateInput) (guard : ReplaceGuard)
    (fit : (c : CertificateRow) → may_replace guard c ≡ true → is_renewable c ≡ true)
    (db : Db) where
  abbrev written : CertificateRow → Db
  written c = write_replacement now none input c db

  abbrev archived : CertificateRow → VersionRow
  archived c = version_of now none (next_id (λ (v : VersionRow). v.id) db.versions) c

  archived-Archives : (c : CertificateRow) → Archives c (archived c)
  archived-Archives c = record { cert_id = refl; version = refl; bytes = refl; password = refl }

  -- The row that is replaced, or another one.
  row_written :
      (c : CertificateRow)
      → get_user_cert_by_id id db ≡ some c
      → may_replace guard c ≡ true
      → (k : ℕ) (row : CertificateRow) → get_user_cert_by_id k db ≡ some row
      → Kept k row (written c)
  unfolding get_user_cert_by_id
  row_written c here free k row there =
      let same : c.id ≡ id = find-has_id cert_id id db.certs c here in
      let read : get_user_cert_by_id k (written c)
          ≡ (if c.id == k then some (replaced input (suc c.version) row) else some row) =
        find-update cert_id c.id k (replaced input (suc c.version)) db.certs (λ _. refl)
        ∙ rw there refl in
      elim (Bool-cases (c.id == k)) [
        | inl hit ↦
            let same_id : id ≡ k = ground (arith, hit, same) in
            let found : c ≡ row =
              cc (here, subst (λ j. get_user_cert_by_id j db ≡ some row) (sym same_id) there) in
            record {
              row = replaced input (suc c.version) row;
              there = read ∙ rw hit refl;
              held = Held-replaced input (suc c.version) row;
              contents = inr (
                fit row (subst (λ r. may_replace guard r ≡ true) found free),
                Any-append (Archives row) db.versions _
                    (inl (subst (λ r. Archives r (archived c)) found (archived-Archives c))),
              );
            }
        | inr other ↦ record {
          row = row;
          there = read ∙ rw other refl;
          held = Held-refl row;
          contents = inl (SameContents-refl row);
        }
      ]

  pub Keeps-replace_certificate : Keeps db (replace_certificate now id none input guard db).1
  unfolding replace_certificate
  Keeps-replace_certificate = elim (Option-cases (get_user_cert_by_id id db)) [
    | inl gone ↦ rw (replace_certificate, gone) (Keeps-refl db)
    | inr (c, here) ↦ elim (Bool-cases (any (is_version c.id c.version) db.versions)) [
      | inl twice ↦ rw (replace_certificate, here, twice) (Keeps-refl db)
      | inr once ↦ elim (Bool-cases (may_replace guard c)) [
        | inr shut ↦ rw (replace_certificate, here, once, shut) (Keeps-refl db)
        | inl free ↦
            rw (replace_certificate, here, once, free)
              (record { more = archived c ∷ []; grown = refl; rows = row_written c here free })
      ]
    ]
  ]
