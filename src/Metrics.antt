-- ===== src/Metrics.antt =====
-- `escape_label_value` of backend/src/metrics.rs.
pub mod Escaping
mod Tests
use vaul_tls.Base.{ℕ, Bool, true, false, List, [], ◌∷◌, ◌==◌, if◌then◌else◌}
use vaul_tls.Text.{Text}

abbrev pub backslash : ℕ
backslash = 92

abbrev pub quote : ℕ
quote = 34

abbrev pub newline : ℕ
newline = 10

unfoldable pub escape_label_value : Text → Text
escape_label_value [] = []
escape_label_value (c ∷ v) =
    let rest = escape_label_value v in
    if c == backslash
    then backslash ∷ backslash ∷ rest
    else if c == quote
    then backslash ∷ quote ∷ rest
    else if c == newline
    then backslash ∷ b'n' ∷ rest
    else c ∷ rest
