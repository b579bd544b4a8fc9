-- ===== src/Db/Versions/History.antt =====
-- The history of a certificate: nothing that was replaced is lost.
use vaul_tls.Base.{
  ℕ, suc, ◌<◌, ◌≡◌, refl, sym, subst, ◌∙◌, Bool, true, false, Option, some, List, [], ◌∷◌, ◌++◌,
  All, All-map, any, find, update, Bool-cases, Option-cases, inl, inr, ◌==◌, ==_refl, arith,
}
use vaul_tls.Base.Result.{ok}
use vaul_tls.Base.Tables.{
  Ascending, Ascending-update, All-find, All-append, All-update_found, find-has_id, find-update,
  has_id, next_id, All-select,
}
use vaul_tls.Db.Rows.{Db, CertificateRow, VersionRow}
use vaul_tls.Db.Certs.{get_user_cert_by_id}
use vaul_tls.Db.Versions.{
  ReplaceGuard, ReplaceCertificateInput, may_replace, version_of, replaced, is_version,
  write_replacement, replace_certificate, get_certificate_version, delete_certificate_version,
}

abbrev cert_id : CertificateRow → ℕ
cert_id c = c.id

-- The versions of a certificate in the history are older than the current one.
abbrev pub IsOlder : List CertificateRow → VersionRow → Type 0
IsOlder certs v = All (λ (c : CertificateRow). c.id ≡ v.cert_id → v.version < c.version) certs

pub record IsVersioned (db : Db) : Type 0 where
  pub ascending : Ascending (λ (c : CertificateRow). c.id) db.certs
  pub older : All (IsOlder db.certs) db.versions

any-none {ℓ} :
    {A : Type ℓ} (p : A → Bool) (xs : List A) → All (λ x. p x ≡ false) xs → any p xs ≡ false
any-none p [] h = refl
any-none p (x ∷ xs) h = ground (arith, h.0, any-none p xs h.1)

find-last {ℓ} :
    {A : Type ℓ} (p : A → Bool) (xs : List A) (x : A)
    → All (λ y. p y ≡ false) xs
    → p x ≡ true
    → find p (xs ++ x ∷ []) ≡ some x
find-last p [] x h e = rw e refl
find-last p (y ∷ xs) x h e = rw h.0 (find-last p xs x h.1 e)

module _ (c : CertificateRow) (db : Db) (versioned : IsVersioned db)
    (found : get_user_cert_by_id c.id db ≡ some c) where
  -- The current version is not in the history yet.
  current_absent : All (λ v. is_version c.id c.version v ≡ false) db.versions
  unfolding get_user_cert_by_id
  current_absent =
      All-map db.versions
        (λ v older. differs v (
          All-find (λ (c' : CertificateRow). c'.id ≡ v.cert_id → v.version < c'.version)
            (has_id cert_id c.id) db.certs c older found))
        versioned.older
    where
      differs :
          (v : VersionRow)
          → (c.id ≡ v.cert_id → v.version < c.version)
          → is_version c.id c.version v ≡ false
      differs v below = ground (arith, below)

  IsOlder-after :
      (input : ReplaceCertificateInput) (v : VersionRow)
      → IsOlder db.certs v
      → IsOlder (update (λ row. row.id == c.id) (replaced input (suc c.version)) db.certs) v
  unfolding get_user_cert_by_id
  IsOlder-after input v older =
      All-update_found cert_id (λ (c' : CertificateRow). c'.id ≡ v.cert_id → v.version < c'.version)
        c.id _ db.certs c versioned.ascending found (λ below same. still (below same)) older
    where
      still : v.version < c.version → v.version < suc c.version
      still h = omega arith

newest :
    (k n : ℕ) (input : ReplaceCertificateInput) (certs : List CertificateRow)
    → All
        (λ (y : CertificateRow). y.id ≡ k → n < y.version)
        (update (λ row. row.id == k) (replaced input (suc n)) certs)
newest k n input [] = tt
newest k n input (y ∷ certs) = elim (Bool-cases (y.id == k)) [
  | inl e ↦ rw e ((λ _. omega arith), newest k n input certs)
  | inr e ↦ rw e ((λ same. absurd (ground arith)), newest k n input certs)
]

module _ (now : ℕ) (actor_id : Option ℕ) (input : ReplaceCertificateInput) (c : CertificateRow)
    (db : Db) where
  write-IsVersioned :
      IsVersioned db
      → get_user_cert_by_id c.id db ≡ some c
      → IsVersioned (write_replacement now actor_id input c db)
  write-IsVersioned versioned found = record {
    ascending = Ascending-update cert_id _ _ db.certs (λ _. refl) versioned.ascending;
    older =
        All-append
          (IsOlder (update (λ row. row.id == c.id) (replaced input (suc c.version)) db.certs))
          db.versions _
          (All-map db.versions (IsOlder-after c db versioned found input) versioned.older)
          (newest c.id c.version input db.certs, tt);
  }

  -- The current certificate after the replacement.
  pub get-write :
      get_user_cert_by_id c.id db ≡ some c
      → get_user_cert_by_id c.id (write_replacement now actor_id input c db)
        ≡ some (replaced input (suc c.version) c)
  unfolding get_user_cert_by_id
  get-write found =
      find-update cert_id c.id c.id (replaced input (suc c.version)) db.certs (λ _. refl)
      ∙ rw (found, ==_refl c.id) refl

module _ (now id : ℕ) (actor_id : Option ℕ) (input : ReplaceCertificateInput) (guard : ReplaceGuard)
    (c : CertificateRow) (db : Db) where
  -- A replacement that the guard lets through.
  pub replace-goes :
      IsVersioned db
      → get_user_cert_by_id c.id db ≡ some c
      → may_replace guard c ≡ true
      → replace_certificate now c.id actor_id input guard db
        ≡ (ok (suc c.version), write_replacement now actor_id input c db)
  unfolding replace_certificate
  replace-goes versioned found allowed =
      rw
        (
          replace_certificate,
          found,
          any-none _ db.versions (current_absent c db versioned found),
          allowed,
        )
        refl

  read_new :
      get_user_cert_by_id c.id db ≡ some c
      → get_certificate_version c.id (suc c.version) (write_replacement now actor_id input c db)
        ≡ some (record { bytes = input.bytes; password = input.password })
  unfolding get_certificate_version
  read_new found =
      rw (get_certificate_version, get-write now actor_id input c db found, ==_refl (suc c.version))
        refl

  read_old :
      IsVersioned db
      → get_user_cert_by_id c.id db ≡ some c
      → get_certificate_version c.id c.version (write_replacement now actor_id input c db)
        ≡ some (record { bytes = c.bytes; password = c.password })
  unfolding get_certificate_version
  read_old versioned found =
      rw
        (
          get_certificate_version,
          get-write now actor_id input c db found,
          not_next c.version,
          find-last (is_version c.id c.version) db.versions
              (version_of now actor_id (next_id (λ (v : VersionRow). v.id) db.versions) c)
              (current_absent c db versioned found) (ground (arith)),
        )
        refl
    where
      not_next : (n : ℕ) → (n == suc n) ≡ false
      not_next n = ground arith

same_row : (id : ℕ) (c : CertificateRow) (db : Db) → get_user_cert_by_id id db ≡ some c → c.id ≡ id
unfolding get_user_cert_by_id
same_row id c db found = find-has_id cert_id id db.certs c found

-- A replacement that the guard allows succeeds, with the next version number. The new material is
-- read back under that number, and the material that was replaced under its own.
pub replace_certificate-get_certificate_version :
    (now id : ℕ) (actor_id : Option ℕ) (input : ReplaceCertificateInput) (guard : ReplaceGuard)
    (c : CertificateRow) (db : Db)
    → IsVersioned db
    → get_user_cert_by_id id db ≡ some c
    → may_replace guard c ≡ true
    → let after = replace_certificate now id actor_id input guard db in
      (after.0 ≡ ok (suc c.version))
      × (get_certificate_version id (suc c.version) after.1
          ≡ some (record { bytes = input.bytes; password = input.password }))
      × (get_certificate_version id c.version after.1
          ≡ some (record { bytes = c.bytes; password = c.password }))
replace_certificate-get_certificate_version now id actor_id input guard c db versioned found
      allowed =
    subst
      (λ k.
        let after = replace_certificate now k actor_id input guard db in
        (after.0 ≡ ok (suc c.version))
        × (get_certificate_version k (suc c.version) after.1
            ≡ some (record { bytes = input.bytes; password = input.password }))
        × (get_certificate_version k c.version after.1
            ≡ some (record { bytes = c.bytes; password = c.password })))
      (same_row id c db found)
      (rw (replace-goes now id actor_id input guard c db versioned found' allowed) (
        refl,
        read_new now id actor_id input guard c db found',
        read_old now id actor_id input guard c db versioned found',
      ))
  where
    found' : get_user_cert_by_id c.id db ≡ some c
    found' = subst (λ k. get_user_cert_by_id k db ≡ some c) (sym (same_row id c db found)) found

-- A replacement, whether it succeeds or not, and the deletion of an old version keep the rows of the
-- certificates in the order of their ids, and every version in the history older than the current
-- one.
pub replace_certificate-IsVersioned :
    (now id : ℕ) (actor_id : Option ℕ) (input : ReplaceCertificateInput) (guard : ReplaceGuard)
    (version : ℕ) (db : Db)
    → IsVersioned db
    → IsVersioned (replace_certificate now id actor_id input guard db).1
      × IsVersioned (delete_certificate_version id version db).1
unfolding replace_certificate delete_certificate_version
replace_certificate-IsVersioned now id actor_id input guard version db versioned = (
  elim (Option-cases (get_user_cert_by_id id db)) [
    | inl e ↦ rw (replace_certificate, e) versioned
    | inr (c, e) ↦
        rw (replace_certificate, e)
          (elim (Bool-cases (any (is_version c.id c.version) db.versions)) [
            | inl twice ↦ rw twice versioned
            | inr once ↦ rw once (elim (Bool-cases (may_replace guard c)) [
              | inl allowed ↦ rw allowed (
                  write-IsVersioned now actor_id input c db versioned
                    (subst (λ k. get_user_cert_by_id k db ≡ some c) (sym (same_row id c db e)) e))
              | inr refused ↦ rw refused versioned
            ])
          ])
  ],
  record {
    ascending = versioned.ascending;
    older = All-select (IsOlder db.certs) _ db.versions versioned.older;
  },
)
