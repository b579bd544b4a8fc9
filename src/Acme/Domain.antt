-- ===== src/Acme/Domain.antt =====
-- backend/src/acme/domain.rs: which domains an ACME account may ask for, and which names are DNS
-- names.
pub mod Matching
pub mod Names
pub mod Permission
mod Tests
use vaul_tls.Base.{
  ℕ, ◌<◌, Bool, true, false, not, ◌&&◌, ◌||◌, Option, none, some, List, [], ◌∷◌, ◌++◌, ltb, leb,
  ◌==◌, if◌then◌else◌, length, all, any,
}
use vaul_tls.Text.{
  Text, text, text_eq, is_empty, trim, to_lowercase, strip_prefix, strip_suffix, starts_with,
  ends_with, contains, split,
}

-- The part of `matches_domain` behind the test for empty texts.
unfoldable pub matches_nonempty : Text → Text → Bool
matches_nonempty pattern domain = elim (strip_prefix (text "**.") pattern) [
  | some suffix ↦
      let expected_suffix = text "." ++ suffix in
      ends_with expected_suffix domain && ltb (length expected_suffix) (length domain)
  | none ↦ elim (strip_prefix (text "*.") pattern) [
    | some suffix ↦ elim (strip_suffix (text "." ++ suffix) domain) [
      | some label ↦ not (is_empty label) && not (contains b'.' label)
      | none ↦ false
    ]
    | none ↦ text_eq pattern domain
  ]
]

-- `matches_domain` behind the trimming and the lower-casing.
unfoldable pub matches_normalized : Text → Text → Bool
matches_normalized pattern domain =
    if is_empty pattern || is_empty domain then false else matches_nonempty pattern domain

unfoldable pub matches_domain : Text → Text → Bool
unfolding matches_normalized matches_nonempty strip_prefix strip_suffix text_eq trim to_lowercase
matches_domain pattern domain =
    matches_normalized (to_lowercase (trim pattern)) (to_lowercase (trim domain))

abbrev pub is_ascii_digit : ℕ → Bool
is_ascii_digit c = leb b'0' c && leb c b'9'

abbrev pub is_ascii_alphanumeric : ℕ → Bool
is_ascii_alphanumeric c = is_ascii_digit c || leb b'A' c && leb c b'Z' || leb b'a' c && leb c b'z'

-- One pass of the loop over the labels.
unfoldable pub is_valid_label : Text → Bool
is_valid_label label =
    not (is_empty label || ltb 63 (length label))
    && not (starts_with (text "-") label || ends_with (text "-") label)
    && all (λ c. is_ascii_alphanumeric c || c == b'-') label

abbrev pub or_else : Option Text → Text → Text
or_else none s = s
or_else (some t) s = t

-- What is left of a name when a leading wildcard label is taken off.
unfoldable pub without_wildcard : Text → Text
without_wildcard name = or_else (strip_prefix (text "*.") name) name

unfoldable pub is_valid_bare : Text → Bool
is_valid_bare name =
    not (contains b':' name || starts_with (text "[") name || contains b'*' name)
    && (let labels = split b'.' name in
        not (all (all is_ascii_digit) labels && length labels == 4) && all is_valid_label labels)

unfoldable pub is_valid_dns_name : Text → Bool
is_valid_dns_name name =
    let name' = trim name in
    if is_empty name' || ltb 253 (length name')
    then false
    else is_valid_bare (without_wildcard name')

unfoldable pub check_domains : Text → List Text → Bool
unfolding matches_domain split
check_domains allowed_domains requested_domains =
    not (length requested_domains == 0)
    && (let patterns = split b',' allowed_domains in
        all (λ domain. any (λ pattern. matches_domain pattern domain) patterns) requested_domains)
