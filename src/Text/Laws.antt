-- ===== src/Text/Laws.antt =====
-- What the text operations compute.
use mathlib.Core.List.{reverse, reverse-append, reverse-reverse, append-nil}
use vaul_tls.Base.{
  ℕ, ◌≡◌, refl, sym, ap, ◌∙◌, ◌↔◌, inl, inr, true, false, ◌≢◌, none, some, [], ◌∷◌, ◌++◌, arith,
  Option-cases, Bool-cases, All, ==_iff, ==_refl, false, ◌==◌, ℕ, List,
}
use vaul_tls.Text.{
  Text, text_eq, strip_prefix, strip_suffix, contains, split_once, split_from, split,
}

pub text_eq_refl : (s : Text) → text_eq s s ≡ true
unfolding text_eq
text_eq_refl [] = refl
text_eq_refl (c ∷ s) = ground (arith, text_eq_refl s)

text_eq-eq : (s t : Text) → text_eq s t ≡ true → s ≡ t
unfolding text_eq
text_eq-eq [] [] h = refl
text_eq-eq [] (d ∷ t) h = cc
text_eq-eq (c ∷ s) [] h = cc
text_eq-eq (c ∷ s) (d ∷ t) h = ground (arith, text_eq-eq s t)

pub text_eq_iff : (s t : Text) → (text_eq s t ≡ true) ↔ (s ≡ t)
text_eq_iff s t = (text_eq-eq s t, λ e. rw e (text_eq_refl t))

pub strip_prefix_sound : (p s r : Text) → strip_prefix p s ≡ some r → s ≡ p ++ r
unfolding strip_prefix
strip_prefix_sound [] s r h = cc
strip_prefix_sound (c ∷ p) [] r h = cc
strip_prefix_sound (c ∷ p) (d ∷ s) r h = ground (arith, strip_prefix_sound p s r)

pub strip_prefix-append : (p r : Text) → strip_prefix p (p ++ r) ≡ some r
unfolding strip_prefix
strip_prefix-append [] r = refl
strip_prefix-append (c ∷ p) r = ground (arith, strip_prefix-append p r)

-- `strip_prefix` succeeds exactly on the texts that begin with the prefix.
pub strip_prefix_iff : (p s r : Text) → (strip_prefix p s ≡ some r) ↔ (s ≡ p ++ r)
strip_prefix_iff p s r = (strip_prefix_sound p s r, λ e. rw e (strip_prefix-append p r))

strip_suffix_sound : (p s r : Text) → strip_suffix p s ≡ some r → s ≡ r ++ p
unfolding strip_suffix
strip_suffix_sound p s r h = elim (Option-cases (strip_prefix (reverse p) (reverse s))) [
  | inl e ↦ let g = rw e at h in cc
  | inr (q, e) ↦
      let g : reverse q ≡ r = ground arith in
      let f = strip_prefix_sound (reverse p) (reverse s) q e in
      sym (reverse-reverse s)
      ∙ ap reverse f
      ∙ reverse-append (reverse p) q
      ∙ cc (g, reverse-reverse p)
]

pub strip_suffix-append : (p r : Text) → strip_suffix p (r ++ p) ≡ some r
unfolding strip_suffix
strip_suffix-append p r =
    rw (reverse-append r p, strip_prefix-append (reverse p) (reverse r))
      (ap some (reverse-reverse r))

pub strip_suffix_iff : (p s r : Text) → (strip_suffix p s ≡ some r) ↔ (s ≡ r ++ p)
strip_suffix_iff p s r = (strip_suffix_sound p s r, λ e. rw e (strip_suffix-append p r))

pub split_once-append :
    (c : ℕ) (s t : Text) → contains c s ≡ false → split_once c (s ++ c ∷ t) ≡ some (s, t)
unfolding split_once
split_once-append c [] t h = ground arith
split_once-append c (d ∷ s) t h = ground (arith, split_once-append c s t)

-- Where `strip_prefix` fails, the text does not begin with the prefix.
pub strip_prefix-none : (p s r : Text) → strip_prefix p s ≡ none → s ≢ p ++ r
strip_prefix-none p s r h e = ground (arith, strip_prefix-append p r)

pub strip_prefix-eq-none : (p s : Text) → ((r : Text) → s ≢ p ++ r) → strip_prefix p s ≡ none
strip_prefix-eq-none p s h = elim (Option-cases (strip_prefix p s)) [
  | inl e ↦ e
  | inr (r, e) ↦ absurd (h r (strip_prefix_sound p s r e))
]

-- The pieces of a text, joined by a separator.
abbrev pub each_after : ℕ → List Text → Text
each_after c [] = []
each_after c (piece ∷ pieces) = c ∷ (piece ++ each_after c pieces)

abbrev pub join : ℕ → List Text → Text
join c [] = []
join c (piece ∷ pieces) = piece ++ each_after c pieces

join-split_from : (c : ℕ) (s : Text) → join c ((split_from c s).0 ∷ (split_from c s).1) ≡ s
unfolding split_from
join-split_from c [] = refl
join-split_from c (d ∷ s) = elim (Bool-cases (d == c)) [
  | inl e ↦ rw e (cc (join-split_from c s, (==_iff d c).0 e))
  | inr e ↦ rw e (ap (λ t. d ∷ t) (join-split_from c s))
]

-- Joining the pieces of a text gives it back.
pub join-split : (c : ℕ) (s : Text) → join c (split c s) ≡ s
unfolding split
join-split c s = join-split_from c s

abbrev pub HasNo : ℕ → Text → Type 0
HasNo c s = contains c s ≡ false

split_from-append :
    (c : ℕ) (piece rest : Text)
    → HasNo c piece
    → split_from c (piece ++ (c ∷ rest)) ≡ (piece, split c rest)
unfolding split_from split
split_from-append c [] rest h = rw (==_refl c)
split_from-append c (d ∷ piece) rest h =
    let e : d == c ≡ false = ground arith in rw (e, split_from-append c piece rest (ground arith))

split_from_piece : (c : ℕ) (piece : Text) → HasNo c piece → split_from c piece ≡ (piece, [])
unfolding split_from
split_from_piece c [] h = refl
split_from_piece c (d ∷ piece) h =
    let e : d == c ≡ false = ground arith in rw (e, split_from_piece c piece (ground arith))

-- Splitting the join of pieces that do not hold the separator gives them back.
pub split-join :
    (c : ℕ) (piece : Text) (pieces : List Text)
    → HasNo c piece
    → All (HasNo c) pieces
    → split c (join c (piece ∷ pieces)) ≡ piece ∷ pieces
unfolding split
split-join c piece [] h hs = rw (append-nil piece, split_from_piece c piece h)
split-join c piece (next ∷ pieces) h hs =
    rw (split_from-append c piece (join c (next ∷ pieces)) h)
      (ap (λ ps. piece ∷ ps) (split-join c next pieces hs.0 hs.1))

-- There is always a first piece.
pub split_ne : (c : ℕ) (s : Text) → split c s ≢ []
unfolding split
split_ne c s e = cc
