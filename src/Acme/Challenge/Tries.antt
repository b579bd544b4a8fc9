-- ===== src/Acme/Challenge/Tries.antt =====
-- `validate_dns01`, `validate_http01` and `auto_validate` of backend/src/acme/routes.rs: when a try
-- passes, by what the network answers.
use vaul_tls.Base.{
  ◌≡◌, ◌≢◌, refl, sym, ◌∙◌, Bool, true, false, ◌⊎◌, inl, inr, ◌||◌, Option, none, some, ◌++◌,
  Bool-cases, Option-cases, arith,
}
use vaul_tls.Text.{Text, text, text_eq, strip_prefix, starts_with, trim}
use vaul_tls.Text.Laws.{text_eq_iff, strip_prefix_sound}
use vaul_tls.Db.Rows.{AcmeAccount, AcmeIdentifier}
use vaul_tls.Acme.External.{External, Config, Env}
use vaul_tls.Acme.Challenge.{validation_passes, domain_for_dns}

-- The domain whose TXT records are asked for: the value without a leading `*.`.
pub data RecordDomain (value domain : Text) : Type 0 where
  wildcard : value ≡ text "*." ++ domain → RecordDomain value domain
  plain : starts_with (text "*.") value ≡ false → domain ≡ value → RecordDomain value domain

abbrev pub challenge_url : AcmeIdentifier → Text
challenge_url identifier =
    text "http://"
    ++ (identifier.value ++ (text "/.well-known/acme-challenge/" ++ identifier.token))

module _ (x : External) (env : Env) (challenge_type : Text) (identifier : AcmeIdentifier)
    (account : AcmeAccount) (key_auth : Text) where
  pub data Passed : Type 0 where
    automatic : account.auto_validate ≡ true → Passed
    by_dns :
        (domain : Text)
        → challenge_type ≡ text "dns-01"
        → RecordDomain identifier.value domain
        → env.txt_record_present domain (x.encode (x.sha256 key_auth)) ≡ true
        → Passed
    by_http :
        (body : Text)
        → challenge_type ≡ text "http-01"
        → env.http_get (challenge_url identifier) ≡ some body
        → trim body ≡ key_auth
        → Passed

  pub data Missed : Type 0 where
    no_record :
        (domain : Text)
        → account.auto_validate ≡ false
        → challenge_type ≡ text "dns-01"
        → RecordDomain identifier.value domain
        → env.txt_record_present domain (x.encode (x.sha256 key_auth)) ≡ false
        → Missed
    no_answer :
        account.auto_validate ≡ false
        → challenge_type ≡ text "http-01"
        → env.http_get (challenge_url identifier) ≡ none
        → Missed
    other_body :
        (body : Text)
        → account.auto_validate ≡ false
        → challenge_type ≡ text "http-01"
        → env.http_get (challenge_url identifier) ≡ some body
        → trim body ≢ key_auth
        → Missed

true-false : true ≡ false → ⊥
true-false same = cc

domain_for_dns-RecordDomain :
    (x : External) (config : Config) (identifier : AcmeIdentifier)
    → RecordDomain identifier.value (domain_for_dns x config identifier)
domain_for_dns-RecordDomain x config identifier =
    elim (Option-cases (strip_prefix (text "*.") identifier.value)) [
      | inl no_prefix ↦ rw no_prefix (plain (rw no_prefix refl) refl)
      | inr (rest, stripped) ↦
          rw stripped (wildcard (strip_prefix_sound (text "*.") identifier.value rest stripped))
    ]

pub known_type :
    (challenge_type : Text)
    → (text_eq challenge_type (text "http-01") || text_eq challenge_type (text "dns-01")) ≡ true
    → (challenge_type ≡ text "http-01") ⊎ (challenge_type ≡ text "dns-01")
known_type challenge_type h = elim (Bool-cases (text_eq challenge_type (text "http-01"))) [
  | inl http ↦ inl ((text_eq_iff challenge_type (text "http-01")).0 http)
  | inr other ↦ inr ((text_eq_iff challenge_type (text "dns-01")).0 (ground (arith, rw other at h)))
]

module _ (x : External) (config : Config) (env : Env) (challenge_type : Text)
    (identifier : AcmeIdentifier) (account : AcmeAccount) (key_auth : Text)
    (known : (challenge_type ≡ text "http-01") ⊎ (challenge_type ≡ text "dns-01")) where
  abbrev passes_here : Bool
  passes_here =
      account.auto_validate || validation_passes x config env challenge_type identifier key_auth

  abbrev body_shows : Option Text → Bool
  body_shows none = false
  body_shows (some body) = text_eq (trim body) key_auth

  http-body_shows :
      (answer : Option Text)
      → challenge_type ≡ text "http-01"
      → env.http_get (challenge_url identifier) ≡ answer
      → account.auto_validate ≡ false
      → passes_here ≡ body_shows answer
  unfolding validation_passes text_eq
  http-body_shows none http answered manual = rw (manual, http, answered) refl
  http-body_shows (some body) http answered manual = rw (manual, http, answered) refl

  pub try-Passed : passes_here ≡ true → Passed x env challenge_type identifier account key_auth
  unfolding validation_passes text_eq
  try-Passed h = elim (Bool-cases account.auto_validate) [
    | inl auto ↦ automatic auto
    | inr manual ↦ elim known [
      | inr dns ↦
          by_dns (domain_for_dns x config identifier) dns
            (domain_for_dns-RecordDomain x config identifier) (rw (manual, dns) at h)
      | inl http ↦ elim (Option-cases (env.http_get (challenge_url identifier))) [
        | inl silent ↦ absurd (true-false (sym h ∙ http-body_shows none http silent manual))
        | inr (body, answered) ↦ by_http body http answered (
            (text_eq_iff (trim body) key_auth).0
              (sym (http-body_shows (some body) http answered manual) ∙ h))
      ]
    ]
  ]

  pub try-Missed : passes_here ≡ false → Missed x env challenge_type identifier account key_auth
  unfolding validation_passes text_eq
  try-Missed h = elim (Bool-cases account.auto_validate) [
    | inl auto ↦ absurd (cc (rw auto at h))
    | inr manual ↦ elim known [
      | inr dns ↦
          no_record (domain_for_dns x config identifier) manual dns
            (domain_for_dns-RecordDomain x config identifier) (rw (manual, dns) at h)
      | inl http ↦ elim (Option-cases (env.http_get (challenge_url identifier))) [
        | inl silent ↦ no_answer manual http silent
        | inr (body, answered) ↦ other_body body manual http answered (λ same. true-false (
            sym ((text_eq_iff (trim body) key_auth).1 same)
            ∙ sym (http-body_shows (some body) http answered manual)
            ∙ h))
      ]
    ]
  ]
