-- ===== src/Acme/Domain/Permission.antt =====
-- `check_domains` of backend/src/acme/domain.rs against the patterns' meaning.
use vaul_tls.Base.{
  ◌<◌, ◌≡◌, ◌↔◌, true, List, any, All, Any, any_iff, all_sound, all_complete, length, arith,
}
use vaul_tls.Text.{Text, split, trim, to_lowercase}
use vaul_tls.Acme.Domain.{matches_domain, check_domains}
use vaul_tls.Acme.Domain.Matching.{Covers, matches_domain_iff}

-- One of the patterns, trimmed and in lower case, covers the domain.
abbrev pub IsPermitted : Text → Text → Type 0
IsPermitted allowed_domains domain =
    Any (λ (pattern : Text). Covers (to_lowercase (trim pattern)) (to_lowercase (trim domain)))
      (split b',' allowed_domains)

one_iff :
    (allowed_domains domain : Text)
    → (any (λ pattern. matches_domain pattern domain) (split b',' allowed_domains) ≡ true)
      ↔ IsPermitted allowed_domains domain
one_iff allowed_domains domain =
    any_iff (λ pattern. matches_domain pattern domain)
      (λ pattern. matches_domain_iff pattern domain) (split b',' allowed_domains)

-- Domains are permitted exactly when there is one at least and each is covered by one of the
-- comma-separated patterns, both trimmed and in lower case: an exact pattern covers itself,
-- `*.suffix` one more label in front of `.suffix`, and `**.suffix` any text in front of `.suffix`.
pub check_domains_iff :
    (allowed_domains : Text) (requested : List Text)
    → (check_domains allowed_domains requested ≡ true)
      ↔ ((0 < length requested) × All (IsPermitted allowed_domains) requested)
unfolding check_domains
check_domains_iff allowed_domains requested = (sound, complete)
  where
    sound :
        check_domains allowed_domains requested ≡ true
        → (0 < length requested) × All (IsPermitted allowed_domains) requested
    sound h = (
      ground arith,
      all_sound _ (λ domain. (one_iff allowed_domains domain).0) requested (ground arith),
    )

    complete :
        (0 < length requested) × All (IsPermitted allowed_domains) requested
        → check_domains allowed_domains requested ≡ true
    complete k =
        ground
          (arith, k.0, all_complete _ (λ domain. (one_iff allowed_domains domain).1) requested k.1)
