-- ===== src/Acme/Domain/Tests.antt =====
-- The unit tests of backend/src/acme/domain.rs, and the theorems at concrete inputs.
use vaul_tls.Base.{◌≡◌, refl, true, false, [], ◌∷◌}
use vaul_tls.Text.{text, strip_prefix, strip_suffix, split, trim}
use vaul_tls.Acme.Domain.Names.{is_valid_dns_name_iff, IsBareName}
use vaul_tls.Acme.Domain.Permission.{check_domains_iff, IsPermitted}
use vaul_tls.Base.{◌↔◌, ◌<◌, ◌≤◌, length, All}
use vaul_tls.Acme.Domain.{
  matches_domain, is_valid_dns_name, is_valid_bare, is_valid_label, without_wildcard, check_domains,
}

wildcard_single_level_match :
    matches_domain (text "  *.Example.COM ") (text "Foo.example.com") ≡ true
unfolding matches_domain
wildcard_single_level_match = refl

wildcard_does_not_match_deeper :
    matches_domain (text "*.example.com") (text "bar.foo.example.com") ≡ false
unfolding matches_domain
wildcard_does_not_match_deeper = refl

double_wildcard_matches_multi_level :
    matches_domain (text "**.example.com") (text "a.b.example.com") ≡ true
unfolding matches_domain
double_wildcard_matches_multi_level = refl

check_domains_multiple_patterns :
    check_domains
      (text "*.foo.com , *.bar.com , exact.baz.com")
      (text "a.foo.com" ∷ text "b.bar.com" ∷ text "exact.baz.com" ∷ [])
    ≡ true
unfolding check_domains
check_domains_multiple_patterns = refl

valid_wildcard_name : is_valid_dns_name (text "*.foo-bar.example.com") ≡ true
unfolding is_valid_dns_name is_valid_bare is_valid_label without_wildcard strip_prefix strip_suffix
    split trim
valid_wildcard_name = refl

invalid_dns_ipv4 : is_valid_dns_name (text "192.168.1.1") ≡ false
unfolding is_valid_dns_name is_valid_bare is_valid_label without_wildcard strip_prefix strip_suffix
    split trim
invalid_dns_ipv4 = refl

invalid_inner_wildcard : is_valid_dns_name (text "foo.*.example.com") ≡ false
unfolding is_valid_dns_name is_valid_bare is_valid_label without_wildcard strip_prefix strip_suffix
    split trim
invalid_inner_wildcard = refl

invalid_hyphen : is_valid_dns_name (text "example-.com") ≡ false
unfolding is_valid_dns_name is_valid_bare is_valid_label without_wildcard strip_prefix strip_suffix
    split trim
invalid_hyphen = refl

is_valid_dns_name_iff_example : (is_valid_dns_name (text "www.example.com") ≡ true) ↔ (
    (0 < length (trim (text "www.example.com")))
    × (length (trim (text "www.example.com")) ≤ 253)
    × IsBareName (without_wildcard (trim (text "www.example.com"))))
is_valid_dns_name_iff_example = is_valid_dns_name_iff (text "www.example.com")

check_domains_iff_example : (check_domains (text "*.foo.com") (text "a.foo.com" ∷ []) ≡ true) ↔ (
    (0 < length (text "a.foo.com" ∷ []))
    × All (IsPermitted (text "*.foo.com")) (text "a.foo.com" ∷ []))
check_domains_iff_example = check_domains_iff (text "*.foo.com") (text "a.foo.com" ∷ [])
