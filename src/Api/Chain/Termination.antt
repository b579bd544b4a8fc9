-- ===== src/Api/Chain/Termination.antt =====
-- The loop over the issuers ends, and what it writes is a chain.
use vaul_tls.Base.{
  ℕ, zero, suc, ◌+◌, ◌≤◌, ◌<◌, ◌≡◌, refl, sym, ap, ◌∙◌, Bool, true, false, not, some, List, [], ◌∷◌,
  Any, find, length, select, Bool-cases, Option-cases, inl, inr, arith,
}
use vaul_tls.Text.{text_eq}
use vaul_tls.Text.Laws.{text_eq_refl}
use vaul_tls.Db.Rows.{Bytes}
use vaul_tls.Api.Import.{X509, opt_bytes_eq, find_issuing_ca}
use vaul_tls.Api.Chain.{is_seen, is_self_signed, chain_from, fullchain}

find-Any :
    {A : Type 0} (p : A → Bool) (xs : List A) (x : A) → find p xs ≡ some x → Any (λ y. y ≡ x) xs
find-Any p [] x e = cc
find-Any p (y ∷ xs) x e = elim (Bool-cases (p y)) [
  | inl hit ↦ inl (ground (arith, rw hit at e))
  | inr miss ↦ inr (find-Any p xs x (rw miss at e))
]

issuer-Any :
    (c : X509) (candidates : List X509) (issuer : X509)
    → find_issuing_ca c candidates ≡ some issuer
    → Any (λ y. y ≡ issuer) candidates
unfolding find_issuing_ca
issuer-Any c candidates issuer e = elim (Option-cases c.authority_key_id) [
  | inl no_key ↦ find-Any _ candidates issuer (rw (find_issuing_ca, no_key) at e)
  | inr (aki, key) ↦
      elim (Option-cases (find (λ (d : X509). opt_bytes_eq d.subject_key_id aki) candidates)) [
        | inl missing ↦ find-Any _ candidates issuer (rw (find_issuing_ca, key, missing) at e)
        | inr (d, hit) ↦
            let same : d ≡ issuer = ground (arith, rw (find_issuing_ca, key, hit) at e) in
            find-Any _ candidates issuer (hit ∙ ap some same)
      ]
]

abbrev unseen : List Bytes → List X509 → ℕ
unseen seen candidates = length (select (λ (c : X509). not (is_seen seen c.serial)) candidates)

unseen-le :
    (seen : List Bytes) (serial : Bytes) (candidates : List X509)
    → unseen (serial ∷ seen) candidates ≤ unseen seen candidates
unseen-le seen serial [] = omega arith
unseen-le seen serial (c ∷ rest) = ground (arith, unseen-le seen serial rest)

-- A candidate that is written is seen from then on.
unseen-lt :
    (seen : List Bytes) (c : X509) (candidates : List X509)
    → Any (λ y. y ≡ c) candidates
    → is_seen seen c.serial ≡ false
    → unseen (c.serial ∷ seen) candidates < unseen seen candidates
unseen-lt seen c [] a fresh = absurd a
unseen-lt seen c (d ∷ rest) (inl same) fresh =
    let new : is_seen seen d.serial ≡ false =
      ap (λ (x : X509). is_seen seen x.serial) same ∙ fresh in
    let now_seen : text_eq c.serial d.serial ≡ true =
      ap (λ (x : X509). text_eq c.serial x.serial) same ∙ text_eq_refl c.serial in
    rw (new, now_seen) (ground (arith, unseen-le seen c.serial rest))
unseen-lt seen c (d ∷ rest) (inr later) fresh = ground (arith, unseen-lt seen c rest later fresh)

-- Each certificate behind `c` is the issuer that was found for the one before it.
abbrev pub AreIssuers : List X509 → X509 → List X509 → Type 0
AreIssuers candidates c [] = Unit
AreIssuers candidates c (d ∷ rest) =
    (find_issuing_ca c candidates ≡ some d) × AreIssuers candidates d rest

-- No serial number is in `seen`, or twice.
abbrev pub AreFresh : List Bytes → List X509 → Type 0
AreFresh seen [] = Unit
AreFresh seen (c ∷ rest) = (is_seen seen c.serial ≡ false) × AreFresh (c.serial ∷ seen) rest

-- The chain that starts at `current`, or that has nothing left to add.
abbrev StartsAt : List X509 → X509 → List X509 → Type 0
StartsAt candidates current [] = Unit
StartsAt candidates current (c ∷ rest) = (c ≡ current) × AreIssuers candidates c rest

abbrev Ends : ℕ → List X509 → List Bytes → X509 → Type 0
Ends fuel candidates seen current =
    (chain : List X509) × (chain_from fuel candidates seen current ≡ some chain)
    × StartsAt candidates current chain
    × AreFresh seen chain

linked :
    (candidates : List X509) (current issuer : X509) (chain : List X509)
    → find_issuing_ca current candidates ≡ some issuer
    → StartsAt candidates issuer chain
    → AreIssuers candidates current chain
linked candidates current issuer [] found h = tt
linked candidates current issuer (c ∷ rest) found h = (found ∙ ap some (sym h.0), h.1)

module _ (candidates : List X509) where
  -- One round, given the rounds behind it.
  round :
      (fuel : ℕ) (seen : List Bytes) (current : X509)
      → is_seen seen current.serial ≡ false
      → ((issuer : X509)
          → find_issuing_ca current candidates ≡ some issuer
          → Ends fuel candidates (current.serial ∷ seen) issuer)
      → (rest : List X509) × (chain_from (suc fuel) candidates seen current ≡ some (current ∷ rest))
        × AreIssuers candidates current rest
        × AreFresh seen (current ∷ rest)
  unfolding chain_from
  round fuel seen current fresh later = elim (Bool-cases (is_self_signed current)) [
    | inl root ↦ ([], rw (chain_from, fresh, root) refl, tt, (fresh, tt))
    | inr signed ↦ elim (Option-cases (find_issuing_ca current candidates)) [
      | inl nobody ↦ ([], rw (chain_from, fresh, signed, nobody) refl, tt, (fresh, tt))
      | inr (issuer, found) ↦
          let (rest, runs, starts, new) = later issuer found in
          (
            rest,
            rw (chain_from, fresh, signed, found, runs) refl,
            linked candidates current issuer rest found starts,
            (fresh, new),
          )
    ]
  ]

  -- From a candidate, as many rounds as there are candidates that were not written, and one more.
  from_candidate :
      (fuel : ℕ) (seen : List Bytes) (current : X509)
      → Any (λ y. y ≡ current) candidates
      → unseen seen candidates < fuel
      → Ends fuel candidates seen current
  unfolding chain_from
  from_candidate zero seen current here enough = absurd (omega arith)
  from_candidate (suc fuel) seen current here enough =
      elim (Bool-cases (is_seen seen current.serial)) [
        | inl old ↦ ([], rw (chain_from, old) refl, tt, tt)
        | inr fresh ↦
            let (rest, runs, issuers, new) = round fuel seen current fresh (λ issuer found.
              from_candidate fuel (current.serial ∷ seen) issuer
                (issuer-Any current candidates issuer found)
                (omega (arith, unseen-lt seen current candidates here fresh))) in
            (current ∷ rest, runs, (refl, issuers), new)
      ]

  unseen-nil : (xs : List X509) → unseen [] xs ≡ length xs
  unseen-nil [] = refl
  unseen-nil (x ∷ xs) = ap suc (unseen-nil xs)

  -- The loop of the full chain ends with the fuel that is given, for every CA to start from and every
  -- set of stored CAs, also where their issuers go round in a circle. What it writes starts with the
  -- CA itself, each further certificate is the issuer that was found for the one before it, and no
  -- serial number is written twice.
  pub fullchain-ends :
      (current : X509)
      → (rest : List X509) × (fullchain candidates current ≡ some (current ∷ rest))
        × AreIssuers candidates current rest
        × AreFresh [] (current ∷ rest)
  fullchain-ends current =
      let steps : length candidates + 2 ≡ suc (length candidates + 1) = omega arith in
      rw steps (
        round (length candidates + 1) [] current refl (λ issuer found.
          from_candidate (length candidates + 1) (current.serial ∷ []) issuer
            (issuer-Any current candidates issuer found)
            (omega (arith, unseen-le [] current.serial candidates, unseen-nil candidates))))
