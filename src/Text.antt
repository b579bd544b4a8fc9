-- ===== src/Text.antt =====
-- Text as the list of its characters' code points, and the operations of Rust's `str` that the
-- backend calls on it. The texts are ASCII: `trim` and `to_lowercase` are written for ASCII, and
-- the number of characters is the number of bytes, which is Rust's `len`.
pub mod Laws
pub mod Decimal
use Prim.Native.Char.{code}
use mathlib.Core.List.{reverse}
use mathlib.Core.Option
use vaul_tls.Base.{
  ℕ, ◌+◌, String, Bool, true, false, ◌&&◌, ◌||◌, Option, none, some, List, [], ◌∷◌, map, leb, ◌==◌,
  if◌then◌else◌, is_some, any,
}

abbrev pub Text : Type 0
Text = List ℕ

-- A literal.
abbrev pub text : String → Text
text String.[] = []
text (String.◌∷◌ c s) = code c ∷ text s

unfoldable pub text_eq : Text → Text → Bool
text_eq [] [] = true
text_eq [] (d ∷ t) = false
text_eq (c ∷ s) [] = false
text_eq (c ∷ s) (d ∷ t) = c == d && text_eq s t

abbrev pub is_empty : Text → Bool
is_empty [] = true
is_empty (c ∷ s) = false

unfoldable pub is_space : ℕ → Bool
is_space c = c == 32 || leb 9 c && leb c 13

unfoldable pub trim_start : Text → Text
trim_start [] = []
trim_start (c ∷ s) = let rest = trim_start s in if is_space c then rest else c ∷ s

unfoldable pub trim : Text → Text
unfolding trim_start is_space
trim s = reverse (trim_start (reverse (trim_start s)))

unfoldable pub to_lower : ℕ → ℕ
to_lower c = if leb b'A' c && leb c b'Z' then c + 32 else c

unfoldable pub to_lowercase : Text → Text
unfolding to_lower
to_lowercase = map to_lower

-- `s.strip_prefix(p)`
unfoldable pub strip_prefix : Text → Text → Option Text
strip_prefix [] s = some s
strip_prefix (c ∷ p) [] = none
strip_prefix (c ∷ p) (d ∷ s) = if c == d then strip_prefix p s else none

-- `s.strip_suffix(p)`
unfoldable pub strip_suffix : Text → Text → Option Text
unfolding strip_prefix
strip_suffix p s = Option.map reverse (strip_prefix (reverse p) (reverse s))

abbrev pub starts_with : Text → Text → Bool
starts_with p s = is_some (strip_prefix p s)

abbrev pub ends_with : Text → Text → Bool
ends_with p s = is_some (strip_suffix p s)

abbrev pub contains : ℕ → Text → Bool
contains c = any (λ d. d == c)

-- `s.split(c)`, the piece before the first separator and those behind it.
unfoldable pub split_from : ℕ → Text → Text × List Text
split_from c [] = ([], [])
split_from c (d ∷ s) =
    let (piece, pieces) = split_from c s in
    if d == c then ([], piece ∷ pieces) else (d ∷ piece, pieces)

unfoldable pub split : ℕ → Text → List Text
unfolding split_from
split c s = let (piece, pieces) = split_from c s in piece ∷ pieces

-- `s.splitn(2, c)` where it has two pieces.
unfoldable pub split_once : ℕ → Text → Option (Text × Text)
split_once c [] = none
split_once c (d ∷ s) =
    if d == c
    then some ([], s)
    else Option.map (λ (p : Text × Text). (d ∷ p.0, p.1)) (split_once c s)
