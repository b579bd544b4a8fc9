-- ===== src/Metrics/Tests.antt =====
-- A value with a quote and a line break in it.
use vaul_tls.Base.{◌≡◌, refl, true, false, not, some, [], ◌∷◌, ◌++◌, ◌==◌, all}
use vaul_tls.Text.{Text, text}
use vaul_tls.Metrics.{quote, newline, backslash, escape_label_value}
use vaul_tls.Metrics.Escaping.{read_value, escape_label_value-read_value}

abbrev odd_name : Text
odd_name = b'a' ∷ quote ∷ backslash ∷ newline ∷ b'n' ∷ []

escaped_name :
    escape_label_value odd_name
    ≡ b'a' ∷ backslash ∷ quote ∷ backslash ∷ backslash ∷ backslash ∷ b'n' ∷ b'n' ∷ []
unfolding escape_label_value
escaped_name = refl

escape_label_value-read_value_example :
    (read_value false (escape_label_value odd_name ++ quote ∷ text "} 1")
      ≡ some (odd_name, text "} 1"))
    × (all (λ c. not (c == newline)) (escape_label_value odd_name) ≡ true)
escape_label_value-read_value_example = escape_label_value-read_value odd_name (text "} 1")
