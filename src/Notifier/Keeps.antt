-- ===== src/Notifier/Keeps.antt =====
-- What a round of the expiry watcher leaves of the certificates.
pub mod Writes
pub mod Tasks
pub mod Rounds
use vaul_tls.Base.{
  ℕ, suc, ◌≡◌, refl, sym, ap, ◌∙◌, Bool, true, false, not, ◌&&◌, ◌||◌, Option, none, some, List, [],
  ◌∷◌, ◌++◌, ◌==◌, ==_refl, is_some, update, find, any, Any, Bool-cases, Option-cases, ◌⊎◌, inl,
  inr, arith, subst, if◌then◌else◌,
}
use mathlib.Core.Option
use vaul_tls.Base.Result.{Result, ok, err}
use vaul_tls.Base.Tables.{find-update, find-has_id, next_id}
use vaul_tls.Text.{Text}
use vaul_tls.Db.Rows.{Bytes, Db, CertificateRow, CertificateRenewMethod, VersionRow}
use vaul_tls.Db.Certs.{get_user_cert_by_id}
use vaul_tls.Db.Versions.{
  ReplaceGuard, ReplaceCertificateInput, may_replace, is_version, replaced, version_of,
  write_replacement, replace_certificate,
}
use vaul_tls.Db.Versions.Revoked.{Any-append, Any-append_left}
use vaul_tls.Notifier.Watch.{update_cert_renew_method}

-- The row's contents are as before.
pub record SameContents (c d : CertificateRow) : Type 0 where
  pub bytes : d.bytes ≡ c.bytes
  pub password : d.password ≡ c.password
  pub valid_until : d.valid_until ≡ c.valid_until
  pub fingerprint : d.fingerprint ≡ c.fingerprint
  pub version : d.version ≡ c.version

-- What the watcher never changes.
pub record Held (c d : CertificateRow) : Type 0 where
  pub id : d.id ≡ c.id
  pub user_id : d.user_id ≡ c.user_id
  pub name : d.name ≡ c.name
  pub certificate_type : d.certificate_type ≡ c.certificate_type
  pub revoked_at : d.revoked_at ≡ c.revoked_at
  pub acme_provider_id : d.acme_provider_id ≡ c.acme_provider_id
  pub is_imported : d.is_imported ≡ c.is_imported

-- The certificates whose contents the watcher may replace.
abbrev pub is_renewable : CertificateRow → Bool
is_renewable c = not (is_some c.revoked_at) && (is_some c.acme_provider_id || not c.is_imported)

-- The version has the contents of the row.
pub record Archives (c : CertificateRow) (v : VersionRow) : Type 0 where
  pub cert_id : v.cert_id ≡ c.id
  pub version : v.version ≡ c.version
  pub bytes : v.bytes ≡ c.bytes
  pub password : v.password ≡ c.password

abbrev pub Passed : List VersionRow → CertificateRow → CertificateRow → Type 0
Passed versions c d = SameContents c d ⊎ ((is_renewable c ≡ true) × Any (Archives c) versions)

-- The row as it is found afterwards.
pub record Kept (k : ℕ) (c : CertificateRow) (after : Db) : Type 0 where
  pub row : CertificateRow
  pub there : get_user_cert_by_id k after ≡ some row
  pub held : Held c row
  pub contents : Passed after.versions c row

pub record Keeps (before after : Db) : Type 0 where
  pub more : List VersionRow
  pub grown : after.versions ≡ before.versions ++ more
  pub rows : (k : ℕ) (c : CertificateRow) → get_user_cert_by_id k before ≡ some c → Kept k c after

pub Held-refl : (c : CertificateRow) → Held c c
Held-refl c = record {
  id = refl;
  user_id = refl;
  name = refl;
  certificate_type = refl;
  revoked_at = refl;
  acme_provider_id = refl;
  is_imported = refl;
}

pub Held-silenced :
    (method : CertificateRenewMethod) (c : CertificateRow)
    → Held c (record c { renew_method = method })
Held-silenced method c = record {
  id = refl;
  user_id = refl;
  name = refl;
  certificate_type = refl;
  revoked_at = refl;
  acme_provider_id = refl;
  is_imported = refl;
}

pub Held-replaced :
    (input : ReplaceCertificateInput) (next : ℕ) (c : CertificateRow)
    → Held c (replaced input next c)
Held-replaced input next c = record {
  id = refl;
  user_id = refl;
  name = refl;
  certificate_type = refl;
  revoked_at = refl;
  acme_provider_id = refl;
  is_imported = refl;
}

pub SameContents-silenced :
    (method : CertificateRenewMethod) (c : CertificateRow)
    → SameContents c (record c { renew_method = method })
SameContents-silenced method c = record {
  bytes = refl;
  password = refl;
  valid_until = refl;
  fingerprint = refl;
  version = refl;
}

pub SameContents-refl : (c : CertificateRow) → SameContents c c
SameContents-refl c = record {
  bytes = refl;
  password = refl;
  valid_until = refl;
  fingerprint = refl;
  version = refl;
}

pub append_nil : {A : Type 0} (xs : List A) → xs ≡ xs ++ []
append_nil [] = refl
append_nil (x ∷ xs) = ap (λ ys. x ∷ ys) (append_nil xs)

append_append : {A : Type 0} (xs ys zs : List A) → (xs ++ ys) ++ zs ≡ xs ++ (ys ++ zs)
append_append [] ys zs = refl
append_append (x ∷ xs) ys zs = ap (λ l. x ∷ l) (append_append xs ys zs)

pub Keeps-refl : (db : Db) → Keeps db db
Keeps-refl db = record {
  more = [];
  grown = append_nil db.versions;
  rows = λ k c there. record {
    row = c;
    there = there;
    held = Held-refl c;
    contents = inl (SameContents-refl c);
  };
}

-- A row that was kept twice.
module _ (c d e : CertificateRow) where
  Held-trans : Held c d → Held d e → Held c e
  Held-trans h g = record {
    id = g.id ∙ h.id;
    user_id = g.user_id ∙ h.user_id;
    name = g.name ∙ h.name;
    certificate_type = g.certificate_type ∙ h.certificate_type;
    revoked_at = g.revoked_at ∙ h.revoked_at;
    acme_provider_id = g.acme_provider_id ∙ h.acme_provider_id;
    is_imported = g.is_imported ∙ h.is_imported;
  }

  SameContents-trans : SameContents c d → SameContents d e → SameContents c e
  SameContents-trans h g = record {
    bytes = g.bytes ∙ h.bytes;
    password = g.password ∙ h.password;
    valid_until = g.valid_until ∙ h.valid_until;
    fingerprint = g.fingerprint ∙ h.fingerprint;
    version = g.version ∙ h.version;
  }

module _ (c d : CertificateRow) where
  is_renewable-Held : Held c d → is_renewable d ≡ is_renewable c
  is_renewable-Held h = rw (h.revoked_at, h.acme_provider_id, h.is_imported) refl

  Archives-before : Held c d → SameContents c d → (v : VersionRow) → Archives d v → Archives c v
  Archives-before h s v a = record {
    cert_id = a.cert_id ∙ h.id;
    version = a.version ∙ s.version;
    bytes = a.bytes ∙ s.bytes;
    password = a.password ∙ s.password;
  }

Any-map :
    {A : Type 0} (P Q : A → Type 0) → ((a : A) → P a → Q a) → (xs : List A) → Any P xs → Any Q xs
Any-map P Q f [] h = h
Any-map P Q f (x ∷ xs) (inl h) = inl (f x h)
Any-map P Q f (x ∷ xs) (inr h) = inr (Any-map P Q f xs h)

Passed-trans :
    (c d e : CertificateRow) (vs more : List VersionRow)
    → Held c d
    → Passed vs c d
    → Passed (vs ++ more) d e
    → Passed (vs ++ more) c e
Passed-trans c d e vs more h (inl same) (inl same') = inl (SameContents-trans c d e same same')
Passed-trans c d e vs more h (inl same) (inr (renewed, old)) = inr (
  sym (is_renewable-Held c d h) ∙ renewed,
  Any-map (Archives d) (Archives c) (Archives-before c d h same) (vs ++ more) old,
)
Passed-trans c d e vs more h (inr (renewed, old)) g =
    inr (renewed, Any-append_left (Archives c) vs more old)

pub Keeps-trans : (a b c : Db) → Keeps a b → Keeps b c → Keeps a c
Keeps-trans a b c h g = record {
  more = h.more ++ g.more;
  grown = g.grown ∙ ap (λ vs. vs ++ g.more) h.grown ∙ append_append a.versions h.more g.more;
  rows = λ k row there.
      let first : Kept k row b = h.rows k row there in
      let second : Kept k first.row c = g.rows k first.row first.there in
      record {
        row = second.row;
        there = second.there;
        held = Held-trans row first.row second.row first.held second.held;
        contents =
            subst (λ vs. Passed vs row second.row) (sym g.grown)
              (Passed-trans row first.row second.row b.versions g.more first.held first.contents
                (subst (λ vs. Passed vs first.row second.row) g.grown second.contents));
      };
}
