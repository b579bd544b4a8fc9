-- ===== src/Acme/Domain/Names.antt =====
-- Which names `is_valid_dns_name` accepts, described without its tests.
use vaul_tls.Base.{
  ℕ, ◌<◌, ◌≤◌, ◌≡◌, refl, sym, ap, ◌∙◌, ◌↔◌, ◌≢◌, ◌⊎◌, inl, inr, true, false, ◌&&◌, ◌||◌, none,
  List, [], ◌∷◌, ◌++◌, arith, ◌==◌, Option-cases, Bool-cases, length, All, all, all_sound,
  all_complete, All-map, ==_iff, subst,
}
use vaul_tls.Text.{Text, text, trim, is_empty, strip_prefix, strip_suffix, starts_with, split}
use vaul_tls.Text.Laws.{
  strip_prefix-none, strip_prefix-eq-none, strip_suffix_iff, join, each_after, join-split,
  split-join, split_ne, HasNo,
}
use vaul_tls.Acme.Domain.{
  is_valid_label, without_wildcard, is_valid_bare, is_valid_dns_name, is_ascii_digit,
  is_ascii_alphanumeric,
}

abbrev pub IsDigit : ℕ → Type 0
IsDigit c = (48 ≤ c) × (c ≤ 57)

-- A letter, a digit or a hyphen.
abbrev pub IsLdh : ℕ → Type 0
IsLdh c = IsDigit c ⊎ ((65 ≤ c) × (c ≤ 90)) ⊎ ((97 ≤ c) × (c ≤ 122)) ⊎ (c ≡ 45)

-- A label of a DNS name (RFC 1123).
pub record IsLabel (label : Text) : Type 0 where
  pub nonempty : 0 < length label
  pub short : length label ≤ 63
  pub no_leading_hyphen : (s : Text) → label ≢ text "-" ++ s
  pub no_trailing_hyphen : (s : Text) → label ≢ s ++ text "-"
  pub ldh : All IsLdh label

IsLdh-sound : (c : ℕ) → (is_ascii_alphanumeric c || c == b'-') ≡ true → IsLdh c
IsLdh-sound c h = ground arith

ldh_complete : (c : ℕ) → IsLdh c → (is_ascii_alphanumeric c || c == b'-') ≡ true
ldh_complete c h = ground arith

length-nonempty : (s : Text) → is_empty s ≡ false → 0 < length s
length-nonempty [] h = cc
length-nonempty (c ∷ s) h = omega arith

nonempty-length : (s : Text) → 0 < length s → is_empty s ≡ false
nonempty-length [] h = elim h [ ]
nonempty-length (c ∷ s) h = refl

strip_suffix-none : (p s r : Text) → strip_suffix p s ≡ none → s ≢ r ++ p
strip_suffix-none p s r h e = let g = (strip_suffix_iff p s r).1 e in cc

strip_suffix-eq-none : (p s : Text) → ((r : Text) → s ≢ r ++ p) → strip_suffix p s ≡ none
strip_suffix-eq-none p s h = elim (Option-cases (strip_suffix p s)) [
  | inl e ↦ e
  | inr (r, e) ↦ absurd (h r ((strip_suffix_iff p s r).0 e))
]

IsLabel-sound : (label : Text) → is_valid_label label ≡ true → IsLabel label
unfolding is_valid_label
IsLabel-sound label h = record {
  nonempty = length-nonempty label (ground arith);
  short = ground arith;
  no_leading_hyphen = λ s. strip_prefix-none (text "-") label s (ground arith);
  no_trailing_hyphen = λ s. strip_suffix-none (text "-") label s (ground arith);
  ldh = all_sound _ IsLdh-sound label (ground arith);
}

label_complete : (label : Text) → IsLabel label → is_valid_label label ≡ true
unfolding is_valid_label
label_complete label v =
    rw
      (
        nonempty-length label v.nonempty,
        strip_prefix-eq-none (text "-") label v.no_leading_hyphen,
        strip_suffix-eq-none (text "-") label v.no_trailing_hyphen,
        all_complete (λ c. is_ascii_alphanumeric c || c == b'-') ldh_complete label v.ldh,
      )
      (ground (arith, v.short))

-- Labels joined by dots that do not read as an IPv4 address.
pub record IsBareName (name : Text) : Type 0 where
  pub first : Text
  pub rest : List Text
  pub joined : name ≡ join b'.' (first ∷ rest)
  pub labels : All IsLabel (first ∷ rest)
  pub not_ipv4 : ¬ ((length (first ∷ rest) ≡ 4) × All (All IsDigit) (first ∷ rest))

IsDigit-test :
    (labels : List Text) → all (all is_ascii_digit) labels ≡ true → All (All IsDigit) labels
IsDigit-test labels h =
    all_sound (all is_ascii_digit) (λ s e. all_sound is_ascii_digit (λ c d. ground arith) s e)
      labels h

test_digit :
    (labels : List Text) → All (All IsDigit) labels → all (all is_ascii_digit) labels ≡ true
test_digit labels h =
    all_complete (all is_ascii_digit) (λ s e. all_complete is_ascii_digit (λ c d. ground arith) s e)
      labels h

quad_test :
    (labels : List Text)
    → ¬ ((length labels ≡ 4) × All (All IsDigit) labels)
    → (all (all is_ascii_digit) labels && length labels == 4) ≡ false
quad_test labels h = elim (Bool-cases (all (all is_ascii_digit) labels)) [
  | inl e ↦ elim (Bool-cases (length labels == 4)) [
    | inl f ↦ absurd (h (ground arith, IsDigit-test labels e))
    | inr f ↦ rw (e, f)
  ]
  | inr e ↦ rw e
]

bare_tests :
    (name : Text)
    → is_valid_bare name ≡ true
    → (all is_valid_label (split b'.' name) ≡ true)
      × ((all (all is_ascii_digit) (split b'.' name) && length (split b'.' name) == 4) ≡ false)
unfolding is_valid_bare
bare_tests name h = ground arith

bare_sound : (name : Text) → is_valid_bare name ≡ true → IsBareName name
bare_sound name h = from (split b'.' name) refl
  where
    from : (labels : List Text) → split b'.' name ≡ labels → IsBareName name
    from [] e = absurd (split_ne b'.' name e)
    from (first ∷ rest) e = record {
      first = first;
      rest = rest;
      joined = sym (join-split b'.' name) ∙ ap (join b'.') e;
      labels =
          all_sound is_valid_label IsLabel-sound (first ∷ rest) (rw e at ((bare_tests name h).0));
      not_ipv4 = λ q.
          let t = test_digit (first ∷ rest) q.1 in
          let u : all (all is_ascii_digit) (first ∷ rest) && length (first ∷ rest) == 4 ≡ false =
            rw e at ((bare_tests name h).1) in
          ground (arith, q.0);
    }

All-append : (P : ℕ → Type 0) (s t : Text) → All P s → All P t → All P (s ++ t)
All-append P [] t a b = b
All-append P (c ∷ s) t a b = (a.0, All-append P s t a.1 b)

abbrev IsNameChar : ℕ → Type 0
IsNameChar c = IsLdh c ⊎ (c ≡ 46)

each_after-IsNameChar :
    (labels : List Text) → All IsLabel labels → All IsNameChar (each_after b'.' labels)
each_after-IsNameChar [] h = tt
each_after-IsNameChar (label ∷ labels) h = (
  inr refl,
  All-append IsNameChar label _ (All-map label (λ c d. inl d) h.0.ldh)
      (each_after-IsNameChar labels h.1),
)

HasNo-IsNameChar : (d : ℕ) (s : Text) → ¬ IsNameChar d → All IsNameChar s → HasNo d s
HasNo-IsNameChar d [] n h = refl
HasNo-IsNameChar d (c ∷ s) n h = elim (Bool-cases (c == d)) [
  | inl e ↦ absurd (n (subst IsNameChar ((==_iff c d).0 e) h.0))
  | inr e ↦ rw e (HasNo-IsNameChar d s n h.1)
]

HasNo-dot : (s : Text) → All IsLdh s → HasNo b'.' s
HasNo-dot [] h = refl
HasNo-dot (c ∷ s) h = ground (arith, HasNo-dot s h.1)

not_bracket : (s : Text) → All IsNameChar s → starts_with (text "[") s ≡ false
unfolding strip_prefix
not_bracket [] h = refl
not_bracket (c ∷ s) h = ground arith

bare_chars : {name : Text} (v : IsBareName name) → All IsNameChar name
bare_chars v = rw v.joined (
    All-append IsNameChar v.first _ (All-map v.first (λ c d. inl d) v.labels.0.ldh)
      (each_after-IsNameChar v.rest v.labels.1))

bare_labels : {name : Text} (v : IsBareName name) → split b'.' name ≡ v.first ∷ v.rest
bare_labels v =
    ap (split b'.') v.joined
    ∙ split-join b'.' v.first v.rest (HasNo-dot v.first v.labels.0.ldh)
        (All-map v.rest (λ s l. HasNo-dot s l.ldh) v.labels.1)

bare_complete : (name : Text) → IsBareName name → is_valid_bare name ≡ true
unfolding is_valid_bare
bare_complete name v =
    let chars = bare_chars v in
    rw
      (
        HasNo-IsNameChar b':' name (λ h. omega arith) chars,
        not_bracket name chars,
        HasNo-IsNameChar b'*' name (λ h. omega arith) chars,
        bare_labels v,
        quad_test (v.first ∷ v.rest) v.not_ipv4,
      )
      (all_complete is_valid_label label_complete (v.first ∷ v.rest) v.labels)

-- A name is accepted exactly when, trimmed, it has 1 to 253 characters and, without a leading `*.`,
-- it is a sequence of labels joined by dots: each of 1 to 63 letters, digits and hyphens, with no
-- hyphen at either end, and not four labels of digits alone.
pub is_valid_dns_name_iff :
    (name : Text)
    → (is_valid_dns_name name ≡ true) ↔ (
        (0 < length (trim name))
        × (length (trim name) ≤ 253)
        × IsBareName (without_wildcard (trim name)))
unfolding is_valid_dns_name
is_valid_dns_name_iff name = (sound, complete)
  where
    sound :
        is_valid_dns_name name ≡ true
        → (0 < length (trim name))
          × (length (trim name) ≤ 253)
          × IsBareName (without_wildcard (trim name))
    sound h = (
      length-nonempty (trim name) (ground arith),
      ground arith,
      bare_sound (without_wildcard (trim name)) (ground arith),
    )

    complete :
        (0 < length (trim name))
          × (length (trim name) ≤ 253)
          × IsBareName (without_wildcard (trim name))
        → is_valid_dns_name name ≡ true
    complete h =
        let b = bare_complete (without_wildcard (trim name)) h.2 in
        ground (arith, nonempty-length (trim name) h.0, h.1)
