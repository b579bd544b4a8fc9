-- ===== src/Metrics/Escaping.antt =====
-- What a scraper reads of an escaped label value.
use vaul_tls.Base.{
  ℕ, ◌≡◌, refl, sym, ap, ◌∙◌, Bool, true, false, not, Option, none, some, [], ◌∷◌, ◌++◌, ◌==◌,
  ==_iff, all, Bool-cases, inl, inr, if◌then◌else◌,
}
use vaul_tls.Text.{Text}
use vaul_tls.Metrics.{backslash, quote, newline, escape_label_value}

abbrev prepend : ℕ → Option (Text × Text) → Option (Text × Text)
prepend c none = none
prepend c (some (value, rest)) = some (c ∷ value, rest)

-- A value up to the closing quote, and what follows it, by the rules of the exposition format: a
-- backslash stands before a backslash, a quote or an n. The flag says whether a backslash was read.
abbrev pub read_value : Bool → Text → Option (Text × Text)
read_value escaped [] = none
read_value true (c ∷ s) = prepend (if c == b'n' then newline else c) (read_value false s)
read_value false (c ∷ s) =
    let plain = prepend c (read_value false s) in
    let special = read_value true s in
    if c == quote then some ([], s) else if c == backslash then special else plain

-- Whatever a label value holds, its escaped form has no line break, and a scraper that reads it up
-- to the closing quote gets the value back and goes on behind that quote.
pub escape_label_value-read_value :
    (v rest : Text)
    → (read_value false (escape_label_value v ++ quote ∷ rest) ≡ some (v, rest))
      × (all (λ c. not (c == newline)) (escape_label_value v) ≡ true)
unfolding escape_label_value
escape_label_value-read_value [] rest = (refl, refl)
escape_label_value-read_value (c ∷ v) rest =
    let (back, clean) = escape_label_value-read_value v rest in
    elim (Bool-cases (c == backslash)) [
      | inl e ↦ rw e (
        ap (prepend backslash) back ∙ ap (λ d. some (d ∷ v, rest)) (sym ((==_iff c backslash).0 e)),
        clean,
      )
      | inr plain ↦ elim (Bool-cases (c == quote)) [
        | inl e ↦
            rw (plain, e)
              (
                ap (prepend quote) back ∙ ap (λ d. some (d ∷ v, rest)) (sym ((==_iff c quote).0 e)),
                clean,
              )
        | inr unquoted ↦ elim (Bool-cases (c == newline)) [
          | inl e ↦
              rw (plain, unquoted, e)
                (
                  ap (prepend newline) back
                      ∙ ap (λ d. some (d ∷ v, rest)) (sym ((==_iff c newline).0 e)),
                  clean,
                )
          | inr inline ↦
              rw (plain, unquoted, inline)
                (rw (unquoted, plain, inline) (ap (prepend c) back, clean))
        ]
      ]
    ]
