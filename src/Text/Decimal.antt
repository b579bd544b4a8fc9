-- ===== src/Text/Decimal.antt =====
-- Decimal numbers as `format!` prints them and as `str::parse` reads them.
use vaul_tls.Base.{
  ℕ, zero, suc, ◌+◌, ◌-◌, ◌*◌, ◌/◌, ◌%◌, ◌^◌, ◌≤◌, ◌<◌, ◌≡◌, refl, Bool, false, ◌&&◌, Option, none,
  some, [], ◌∷◌, arith, ltb, leb, ◌==◌, if◌then◌else◌,
}
use vaul_tls.Text.{Text, contains, is_empty}

show_onto : ℕ → ℕ → Text → Text
show_onto zero n rest = rest
show_onto (suc fuel) n rest =
    let rest' = (48 + n % 10) ∷ rest in
    let more = show_onto fuel (n / 10) rest' in if ltb n 10 then rest' else more

-- `{n}` in a format string; a number has fewer digits than it counts, and 0 has one.
unfoldable pub show : ℕ → Text
unfolding show_onto
show n = show_onto (suc n) n []

abbrev is_digit : ℕ → Bool
is_digit c = leb 48 c && leb c 57

unfoldable pub value : ℕ → Text → Option ℕ
value n [] = some n
value n (c ∷ s) = if is_digit c then value (n * 10 + (c - 48)) s else none

abbrev at_most : ℕ → Option ℕ → Option ℕ
at_most limit none = none
at_most limit (some n) = if leb n limit then some n else none

abbrev magnitude : ℕ → Text → Option ℕ
magnitude limit s = if is_empty s then none else at_most limit (value 0 s)

-- `s.parse::<usize>()` on a 64-bit machine
unfoldable pub parse_usize : Text → Option ℕ
unfolding value
parse_usize [] = none
parse_usize (c ∷ s) = if c == b'+' then magnitude (2 ^ 64 - 1) s else magnitude (2 ^ 64 - 1) (c ∷ s)

-- An `i64`: `negsuc n` is -(n + 1).
pub data ℤ : Type 0 where
  pos : ℕ → ℤ
  negsuc : ℕ → ℤ

abbrev pub neg : ℕ → ℤ
neg zero = pos zero
neg (suc n) = negsuc n

abbrev signed : (ℕ → ℤ) → Option ℕ → Option ℤ
signed f none = none
signed f (some n) = some (f n)

-- `s.parse::<i64>()`
unfoldable pub parse_i64 : Text → Option ℤ
unfolding value
parse_i64 [] = none
parse_i64 (c ∷ s) =
    if c == b'-'
    then signed neg (magnitude (2 ^ 63) s)
    else if c == b'+'
    then signed pos (magnitude (2 ^ 63 - 1) s)
    else signed pos (magnitude (2 ^ 63 - 1) (c ∷ s))

value-show_onto :
    (fuel n : ℕ) (rest : Text) → n < fuel → value 0 (show_onto fuel n rest) ≡ value n rest
unfolding show_onto value
value-show_onto zero n rest h = elim h [ ]
value-show_onto (suc fuel) n rest h =
    ground (arith, value-show_onto fuel (n / 10) ((48 + n % 10) ∷ rest))

pub value-show : (n : ℕ) → value 0 (show n) ≡ some n
unfolding show value
value-show n = value-show_onto (suc n) n [] (omega arith)

-- The first character of a printed number is a digit.
abbrev pub StartsWithDigit : Text → Type 0
StartsWithDigit [] = ⊥
StartsWithDigit (c ∷ s) = (48 ≤ c) × (c ≤ 57)

show_onto-StartsWithDigit :
    (fuel n : ℕ) (rest : Text) → n < fuel → StartsWithDigit (show_onto fuel n rest)
unfolding show_onto
show_onto-StartsWithDigit zero n rest h = elim h [ ]
show_onto-StartsWithDigit (suc fuel) n rest h =
    ground (arith, show_onto-StartsWithDigit fuel (n / 10) ((48 + n % 10) ∷ rest))

contains-show_onto :
    (c fuel n : ℕ) (rest : Text)
    → c < 48
    → contains c rest ≡ false
    → contains c (show_onto fuel n rest) ≡ false
unfolding show_onto
contains-show_onto c zero n rest h k = k
contains-show_onto c (suc fuel) n rest h k =
    ground (arith, contains-show_onto c fuel (n / 10) ((48 + n % 10) ∷ rest))

-- A printed number has no character below the digits, such as a dash.
pub contains-show : (c n : ℕ) → c < 48 → contains c (show n) ≡ false
unfolding show
contains-show c n h = contains-show_onto c (suc n) n [] h refl

parse_i64-digits :
    (s : Text) (n : ℕ)
    → StartsWithDigit s
    → value 0 s ≡ some n
    → n ≤ 2 ^ 63 - 1
    → parse_i64 s ≡ some (pos n)
unfolding parse_i64
parse_i64-digits [] n d v h = elim d [ ]
parse_i64-digits (c ∷ s) n d v h = ground arith

parse_usize-digits :
    (s : Text) (n : ℕ)
    → StartsWithDigit s
    → value 0 s ≡ some n
    → n ≤ 2 ^ 64 - 1
    → parse_usize s ≡ some n
unfolding parse_usize
parse_usize-digits [] n d v h = elim d [ ]
parse_usize-digits (c ∷ s) n d v h = ground arith

show-StartsWithDigit : (n : ℕ) → StartsWithDigit (show n)
unfolding show
show-StartsWithDigit n = show_onto-StartsWithDigit (suc n) n [] (omega arith)

pub parse_i64-show : (n : ℕ) → n ≤ 2 ^ 63 - 1 → parse_i64 (show n) ≡ some (pos n)
parse_i64-show n h = parse_i64-digits (show n) n (show-StartsWithDigit n) (value-show n) h

pub parse_usize-show : (n : ℕ) → n ≤ 2 ^ 64 - 1 → parse_usize (show n) ≡ some n
parse_usize-show n h = parse_usize-digits (show n) n (show-StartsWithDigit n) (value-show n) h
