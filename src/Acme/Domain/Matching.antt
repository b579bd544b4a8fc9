-- ===== src/Acme/Domain/Matching.antt =====
-- Domain patterns against a description that names no code.
use vaul_tls.Base.{
  ◌≡◌, refl, sym, ap, ◌∙◌, ◌↔◌, ◌≢◌, inl, inr, true, false, not, ◌&&◌, Option, none, some, [], ◌∷◌,
  ◌++◌, arith, ltb, Option-cases, is_some, length, length-append,
}
use vaul_tls.Text.{Text, text, strip_prefix, strip_suffix, contains, is_empty, trim, to_lowercase}
use vaul_tls.Text.Laws.{
  text_eq_refl, text_eq_iff, strip_prefix_iff, strip_suffix_iff, strip_suffix-append,
  strip_prefix-append, strip_prefix-none, strip_prefix-eq-none,
}
use vaul_tls.Acme.Domain.{matches_nonempty, matches_normalized, matches_domain}

-- `Covers pattern domain`: a plain pattern covers itself, `*.s` covers one label before `.s`, and
-- `**.s` covers any non-empty text before `.s`.
pub data Covers (pattern domain : Text) : Type 0 where
  exact :
      ((s : Text) → pattern ≢ text "*." ++ s)
      → ((s : Text) → pattern ≢ text "**." ++ s)
      → pattern ≢ []
      → domain ≡ pattern
      → Covers pattern domain
  one_label :
      (label suffix : Text)
      → pattern ≡ text "*." ++ suffix
      → domain ≡ label ++ (text "." ++ suffix)
      → label ≢ []
      → contains b'.' label ≡ false
      → Covers pattern domain
  some_labels :
      (labels suffix : Text)
      → pattern ≡ text "**." ++ suffix
      → domain ≡ labels ++ (text "." ++ suffix)
      → labels ≢ []
      → Covers pattern domain

nonempty : (s : Text) → is_empty s ≡ false → s ≢ []
nonempty [] h = cc
nonempty (c ∷ s) h = λ e. cc

-- The test of the `**.` branch, for a text in front of the suffix.
longer-nonempty :
    (labels suffix : Text) → ltb (length suffix) (length (labels ++ suffix)) ≡ true → labels ≢ []
longer-nonempty labels suffix h e = ground (arith, length-append labels suffix, ap length e)

nonempty-longer :
    (labels suffix : Text) → labels ≢ [] → ltb (length suffix) (length (labels ++ suffix)) ≡ true
nonempty-longer [] suffix n = absurd (n refl)
nonempty-longer (c ∷ labels) suffix n = ground (arith, length-append labels suffix)

nonempty_test : (s : Text) → s ≢ [] → (not (is_empty s) && true) ≡ true
nonempty_test [] n = absurd (n refl)
nonempty_test (c ∷ s) n = refl

append_ne : (label suffix : Text) → label ++ (text "." ++ suffix) ≢ []
append_ne [] suffix e = cc
append_ne (c ∷ s) suffix e = cc

double_sound :
    (suffix domain : Text)
    → (is_some (strip_suffix (text "." ++ suffix) domain)
        && ltb (length (text "." ++ suffix)) (length domain))
      ≡ true
    → Covers (text "**." ++ suffix) domain
double_sound suffix domain h = elim (Option-cases (strip_suffix (text "." ++ suffix) domain)) [
  | inl e ↦ let g = rw e at h in cc
  | inr (labels, e) ↦
      let d = (strip_suffix_iff (text "." ++ suffix) domain labels).0 e in
      let g : ltb (length (text "." ++ suffix)) (length domain) ≡ true = ground arith in
      some_labels labels suffix refl d (longer-nonempty labels (text "." ++ suffix) (rw d at g))
]

single_sound :
    (suffix domain : Text) (o : Option Text)
    → strip_suffix (text "." ++ suffix) domain ≡ o
    → (elim o [ some label ↦ not (is_empty label) && not (contains b'.' label) | none ↦ false ])
      ≡ true
    → Covers (text "*." ++ suffix) domain
single_sound suffix domain none e h = cc
single_sound suffix domain (some label) e h =
    one_label label suffix refl ((strip_suffix_iff (text "." ++ suffix) domain label).0 e)
      (nonempty label (ground arith)) (ground arith)

Covers-sound :
    (pattern domain : Text)
    → pattern ≢ []
    → matches_nonempty pattern domain ≡ true
    → Covers pattern domain
unfolding matches_nonempty
Covers-sound pattern domain n h = elim (Option-cases (strip_prefix (text "**.") pattern)) [
  | inr (suffix, e) ↦
      rw ((strip_prefix_iff (text "**.") pattern suffix).0 e)
        (double_sound suffix domain (rw (e, matches_nonempty) at h))
  | inl e ↦ elim (Option-cases (strip_prefix (text "*.") pattern)) [
    | inr (suffix, e') ↦
        rw ((strip_prefix_iff (text "*.") pattern suffix).0 e')
          (single_sound suffix domain _ refl (rw (e, e', matches_nonempty) at h))
    | inl e' ↦
        exact (λ s. strip_prefix-none (text "*.") pattern s e')
          (λ s. strip_prefix-none (text "**.") pattern s e) n
          (sym ((text_eq_iff pattern domain).0 (rw (e, e', matches_nonempty) at h)))
  ]
]

star_star-ne-star : (s : Text) → strip_prefix (text "**.") (text "*." ++ s) ≡ none
unfolding strip_prefix
star_star-ne-star s = refl

exact_matches :
    (pattern : Text)
    → strip_prefix (text "**.") pattern ≡ none
    → strip_prefix (text "*.") pattern ≡ none
    → matches_nonempty pattern pattern ≡ true
unfolding matches_nonempty
exact_matches pattern e e' = rw (e, e', matches_nonempty) (text_eq_refl pattern)

one_label_matches :
    (label suffix : Text)
    → label ≢ []
    → contains b'.' label ≡ false
    → matches_nonempty (text "*." ++ suffix) (label ++ (text "." ++ suffix)) ≡ true
unfolding matches_nonempty
one_label_matches label suffix n c =
    let e = strip_prefix-append (text "*.") suffix in
    let e' = strip_suffix-append (text "." ++ suffix) label in
    rw (star_star-ne-star suffix, e, e', c, matches_nonempty) (nonempty_test label n)

some_labels_match :
    (labels suffix : Text)
    → labels ≢ []
    → matches_nonempty (text "**." ++ suffix) (labels ++ (text "." ++ suffix)) ≡ true
unfolding matches_nonempty
some_labels_match labels suffix n =
    let e = strip_prefix-append (text "**.") suffix in
    let e' = strip_suffix-append (text "." ++ suffix) labels in
    rw (e, e', matches_nonempty) (nonempty-longer labels (text "." ++ suffix) n)

Covers-complete :
    (pattern domain : Text) → Covers pattern domain → matches_nonempty pattern domain ≡ true
Covers-complete pattern domain (exact single double n e) = rw e (
    exact_matches pattern (strip_prefix-eq-none (text "**.") pattern double)
      (strip_prefix-eq-none (text "*.") pattern single))
Covers-complete pattern domain (one_label label suffix p d n c) =
    rw (p, d) (one_label_matches label suffix n c)
Covers-complete pattern domain (some_labels labels suffix p d n) =
    rw (p, d) (some_labels_match labels suffix n)

Covers-nonempty : {pattern domain : Text} → Covers pattern domain → (pattern ≢ []) × (domain ≢ [])
Covers-nonempty (exact single double n e) = (n, λ z. n (sym e ∙ z))
Covers-nonempty (one_label label suffix p d n c) =
    (λ z. cc, λ z. append_ne label suffix (sym d ∙ z))
Covers-nonempty (some_labels labels suffix p d n) =
    (λ z. cc, λ z. append_ne labels suffix (sym d ∙ z))

nonempty_normalized :
    (pattern domain : Text)
    → pattern ≢ []
    → domain ≢ []
    → matches_normalized pattern domain ≡ matches_nonempty pattern domain
unfolding matches_normalized
nonempty_normalized [] domain p d = absurd (p refl)
nonempty_normalized (c ∷ s) [] p d = absurd (d refl)
nonempty_normalized (c ∷ s) (e ∷ t) p d = refl

normalized-nonempty :
    (pattern domain : Text)
    → matches_normalized pattern domain ≡ true
    → (pattern ≢ []) × (domain ≢ [])
unfolding matches_normalized
normalized-nonempty [] domain h = cc
normalized-nonempty (c ∷ s) [] h = cc
normalized-nonempty (c ∷ s) (e ∷ t) h = (λ z. cc, λ z. cc)

-- On texts that are trimmed and in lower case, a pattern matches a domain exactly when it covers it.
pub matches_normalized_iff :
    (pattern domain : Text) → (matches_normalized pattern domain ≡ true) ↔ Covers pattern domain
matches_normalized_iff pattern domain = (sound, complete)
  where
    sound : matches_normalized pattern domain ≡ true → Covers pattern domain
    sound h =
        let n = normalized-nonempty pattern domain h in
        Covers-sound pattern domain n.0 (sym (nonempty_normalized pattern domain n.0 n.1) ∙ h)

    complete : Covers pattern domain → matches_normalized pattern domain ≡ true
    complete c =
        let n = Covers-nonempty c in
        nonempty_normalized pattern domain n.0 n.1 ∙ Covers-complete pattern domain c

-- A pattern matches a domain exactly when, both trimmed and in lower case, the pattern covers the
-- domain: it is the domain, or it is `*.s` and the domain is one label before `.s`, or it is `**.s`
-- and the domain is some text before `.s`.
pub matches_domain_iff :
    (pattern domain : Text)
    → (matches_domain pattern domain ≡ true)
      ↔ Covers (to_lowercase (trim pattern)) (to_lowercase (trim domain))
unfolding matches_domain
matches_domain_iff pattern domain =
    matches_normalized_iff (to_lowercase (trim pattern)) (to_lowercase (trim domain))
