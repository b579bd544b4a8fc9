-- ===== src/Base/Tables.antt =====
-- Tables with a primary key: rows in the order of their ids, and what selections and updates keep.
use Prim.Native.Nat.{ℕ, suc, ◌≤◌, ◌<◌, max}
use mathlib.Core.Path.{◌≡◌, refl, sym, ap, subst, ◌∙◌}
use mathlib.Core.Logic.{inl, inr}
use mathlib.Core.Bool.{Bool, true, false}
use mathlib.Core.List.{List, [], ◌∷◌, ◌++◌, map}
use mathlib.Core.Option.{Option, none, some}
use mathlib.Core.Option
use native.Mathlib.Omega.{arith}
use vaul_tls.Base.Tests.{◌==◌, Bool-cases, if◌then◌else◌}
use vaul_tls.Base.Lists.{All, Any, All-map, select, find, update}

module _ {ℓ κ} {A : Type ℓ} (P : A → Type κ) where
  pub All-append : (xs ys : List A) → All P xs → All P ys → All P (xs ++ ys)
  All-append [] ys h k = k
  All-append (x ∷ xs) ys h k = (h.0, All-append xs ys h.1 k)

  pub All-select : (p : A → Bool) (xs : List A) → All P xs → All P (select p xs)
  All-select p [] h = tt
  All-select p (x ∷ xs) h = elim (Bool-cases (p x)) [
    | inl e ↦ rw e (h.0, All-select p xs h.1)
    | inr e ↦ rw e (All-select p xs h.1)
  ]

  pub All-find : (p : A → Bool) (xs : List A) (x : A) → All P xs → find p xs ≡ some x → P x
  All-find p [] x h e = cc
  All-find p (y ∷ xs) x h e = elim (Bool-cases (p y)) [
    | inl hit ↦ let same : y ≡ x = ground (arith, rw hit at e) in subst P same h.0
    | inr miss ↦ All-find p xs x h.1 (rw miss at e)
  ]

  pub All-update :
      (p : A → Bool) (f : A → A) (xs : List A)
      → ((y : A) → P y → p y ≡ true → P (f y))
      → All P xs
      → All P (update p f xs)
  All-update p f [] keep h = tt
  All-update p f (x ∷ xs) keep h = elim (Bool-cases (p x)) [
    | inl e ↦ rw e (keep x h.0 e, All-update p f xs keep h.1)
    | inr e ↦ rw e (h.0, All-update p f xs keep h.1)
  ]

-- No row passes a test that finds none.
pub find-none {ℓ} :
    {A : Type ℓ} (p : A → Bool) (xs : List A) → find p xs ≡ none → All (λ x. p x ≡ false) xs
find-none p [] e = tt
find-none p (x ∷ xs) e = elim (Bool-cases (p x)) [
  | inl hit ↦ absurd (ground (arith, rw hit at e))
  | inr miss ↦ (miss, find-none p xs (rw miss at e))
]

pub find-passes {ℓ} :
    {A : Type ℓ} (p : A → Bool) (xs : List A) (x : A) → find p xs ≡ some x → p x ≡ true
find-passes p [] x e = cc
find-passes p (y ∷ xs) x e = elim (Bool-cases (p y)) [
  | inl hit ↦ let same : y ≡ x = ground (arith, rw hit at e) in subst (λ z. p z ≡ true) same hit
  | inr miss ↦ find-passes p xs x (rw miss at e)
]

-- What a search finds is a row.
pub find-Any :
    {A : Type 0} (p : A → Bool) (xs : List A) (x : A) → find p xs ≡ some x → Any (λ y. y ≡ x) xs
find-Any p [] x e = cc
find-Any p (y ∷ xs) x e = elim (Bool-cases (p y)) [
  | inl hit ↦ inl (ground (arith, rw hit at e))
  | inr miss ↦ inr (find-Any p xs x (rw miss at e))
]

-- A row that an update is for has its new contents afterwards.
pub Any-update :
    {A : Type 0} (p : A → Bool) (f : A → A) (xs : List A) (x : A)
    → p x ≡ true
    → Any (λ y. y ≡ x) xs
    → Any (λ y. y ≡ f x) (update p f xs)
Any-update p f [] x hit a = absurd a
Any-update p f (y ∷ xs) x hit (inl same) =
    let here : p y ≡ true = ap p same ∙ hit in rw here (inl (ap f same))
Any-update p f (y ∷ xs) x hit (inr later) = inr (Any-update p f xs x hit later)

-- An update that does not touch what a search tests.
pub find-update_by {ℓ} :
    {A : Type ℓ} (p q : A → Bool) (f : A → A) (xs : List A)
    → ((x : A) → q (f x) ≡ q x)
    → find q (update p f xs) ≡ Option.map (λ x. if p x then f x else x) (find q xs)
find-update_by p q f [] same = refl
find-update_by p q f (x ∷ xs) same = elim (Bool-cases (p x)) [
  | inl hit ↦ elim (Bool-cases (q x)) [
    | inl here ↦ rw (hit, find, same x, here) (rw hit refl)
    | inr miss ↦ rw (hit, find, same x, miss) (find-update_by p q f xs same)
  ]
  | inr other ↦ elim (Bool-cases (q x)) [
    | inl here ↦ rw (other, find, here) (rw other refl)
    | inr miss ↦ rw (other, find, miss) (find-update_by p q f xs same)
  ]
]

pub find-append {ℓ} :
    {A : Type ℓ} (p : A → Bool) (xs ys : List A) (x : A)
    → find p xs ≡ some x
    → find p (xs ++ ys) ≡ some x
find-append p [] ys x e = cc
find-append p (y ∷ xs) ys x e = elim (Bool-cases (p y)) [
  | inl hit ↦ rw hit (rw hit at e)
  | inr miss ↦ rw miss (find-append p xs ys x (rw miss at e))
]

pub All-selected {ℓ} :
    {A : Type ℓ} (p : A → Bool) (xs : List A) → All (λ x. p x ≡ true) (select p xs)
All-selected p [] = tt
All-selected p (x ∷ xs) = elim (Bool-cases (p x)) [
  | inl e ↦ rw e (e, All-selected p xs)
  | inr e ↦ rw e (All-selected p xs)
]

-- An update that takes one property of the rows to another.
pub All-update_to {ℓ κ μ} :
    {A : Type ℓ} (P : A → Type κ) (Q : A → Type μ) (p : A → Bool) (f : A → A) (xs : List A)
    → ((y : A) → P y → p y ≡ true → Q (f y))
    → ((y : A) → P y → Q y)
    → All P xs
    → All Q (update p f xs)
All-update_to P Q p f [] hit miss h = tt
All-update_to P Q p f (x ∷ xs) hit miss h = elim (Bool-cases (p x)) [
  | inl e ↦ rw e (hit x h.0 e, All-update_to P Q p f xs hit miss h.1)
  | inr e ↦ rw e (miss x h.0, All-update_to P Q p f xs hit miss h.1)
]

pub All-both {ℓ κ μ} :
    {A : Type ℓ} (P : A → Type κ) (Q : A → Type μ) (xs : List A)
    → All P xs
    → All Q xs
    → All (λ x. P x × Q x) xs
All-both P Q [] h k = tt
All-both P Q (x ∷ xs) h k = ((h.0, k.0), All-both P Q xs h.1 k.1)

pub All-mapped {ℓ κ} :
    {A : Type ℓ} (P : A → Type κ) (f : A → A) (xs : List A)
    → ((y : A) → P y → P (f y))
    → All P xs
    → All P (map f xs)
All-mapped P f [] keep h = tt
All-mapped P f (x ∷ xs) keep h = (keep x h.0, All-mapped P f xs keep h.1)

module _ {ℓ} {A : Type ℓ} (id : A → ℕ) where
  abbrev pub Ascending : List A → Type 0
  Ascending [] = Unit
  Ascending (x ∷ xs) = All (λ y. id x < id y) xs × Ascending xs

  abbrev pub has_id : ℕ → A → Bool
  has_id k x = id x == k

  pub Ascending-select : (p : A → Bool) (xs : List A) → Ascending xs → Ascending (select p xs)
  Ascending-select p [] h = tt
  Ascending-select p (x ∷ xs) h = elim (Bool-cases (p x)) [
    | inl e ↦ rw e (All-select (λ y. id x < id y) p xs h.0, Ascending-select p xs h.1)
    | inr e ↦ rw e (Ascending-select p xs h.1)
  ]

  pub Ascending-update :
      (p : A → Bool) (f : A → A) (xs : List A)
      → ((y : A) → id (f y) ≡ id y)
      → Ascending xs
      → Ascending (update p f xs)
  Ascending-update p f [] same h = tt
  Ascending-update p f (x ∷ xs) same h = elim (Bool-cases (p x)) [
    | inl e ↦ rw e (rw (same x) kept, Ascending-update p f xs same h.1)
    | inr e ↦ rw e (kept, Ascending-update p f xs same h.1)
  ]
    where
      kept : All (λ y. id x < id y) (update p f xs)
      kept = All-update (λ y. id x < id y) p f xs (λ y h' _. rw (same y) h') h.0

  pub Ascending-mapped :
      (f : A → A) (xs : List A) → ((y : A) → id (f y) ≡ id y) → Ascending xs → Ascending (map f xs)
  Ascending-mapped f [] same h = tt
  Ascending-mapped f (x ∷ xs) same h = (
    rw (same x) (All-mapped (λ y. id x < id y) f xs (λ y below. rw (same y) below) h.0),
    Ascending-mapped f xs same h.1,
  )

  pub Ascending-append :
      (xs : List A) (new : A)
      → All (λ y. id y < id new) xs
      → Ascending xs
      → Ascending (xs ++ new ∷ [])
  Ascending-append [] new h a = (tt, tt)
  Ascending-append (x ∷ xs) new h a =
      (All-append (λ y. id x < id y) xs (new ∷ []) a.0 (h.0, tt), Ascending-append xs new h.1 a.1)

  -- The row that an id finds is the only one with the id.
  pub only_found :
      (k : ℕ) (xs : List A) (x : A)
      → Ascending xs
      → find (has_id k) xs ≡ some x
      → All (λ y. has_id k y ≡ true → y ≡ x) xs
  only_found k [] x a e = tt
  only_found k (y ∷ xs) x a e = elim (Bool-cases (id y == k)) [
    | inl hit ↦
        let same : y ≡ x = ground (arith, rw hit at e) in
        (λ _. same, All-map xs (λ z below h. absurd (ground arith)) a.0)
    | inr miss ↦ (λ h. cc, only_found k xs x a.1 (rw miss at e))
  ]

  pub find-has_id : (k : ℕ) (xs : List A) (x : A) → find (has_id k) xs ≡ some x → id x ≡ k
  find-has_id k [] x e = cc
  find-has_id k (y ∷ xs) x e = elim (Bool-cases (id y == k)) [
    | inl hit ↦ ground (arith, rw hit at e)
    | inr miss ↦ find-has_id k xs x (rw miss at e)
  ]

  -- An update of a row, read back by any id.
  pub find-update :
      (k j : ℕ) (f : A → A) (xs : List A)
      → ((y : A) → id (f y) ≡ id y)
      → find (has_id j) (update (has_id k) f xs)
        ≡ (if k == j then Option.map f (find (has_id j) xs) else find (has_id j) xs)
  find-update k j f [] same = ground arith
  find-update k j f (y ∷ xs) same = ground (arith, same y, find-update k j f xs same)

  -- An update of the row that an id finds keeps what holds of every row if it does so of that row.
  pub All-update_found {κ} :
      (P : A → Type κ) (k : ℕ) (f : A → A) (xs : List A) (x : A)
      → Ascending xs
      → find (has_id k) xs ≡ some x
      → (P x → P (f x))
      → All P xs
      → All P (update (has_id k) f xs)
  All-update_found P k f xs x a e keep h =
      All-update_to (λ y. P y × (has_id k y ≡ true → y ≡ x)) P (has_id k) f xs one (λ y r. r.0)
        (All-both P (λ y. has_id k y ≡ true → y ≡ x) xs h (only_found k xs x a e))
    where
      one : (y : A) → P y × (has_id k y ≡ true → y ≡ x) → has_id k y ≡ true → P (f y)
      one y r hit = subst (λ z. P (f z)) (sym (r.1 hit)) (keep (subst P (r.1 hit) r.0))

  abbrev pub largest : List A → ℕ
  largest [] = 0
  largest (x ∷ xs) = max (id x) (largest xs)

  -- SQLite gives a new row the id behind the largest one in use.
  abbrev pub next_id : List A → ℕ
  next_id xs = suc (largest xs)

  largest_bounds : (n : ℕ) (xs : List A) → largest xs ≤ n → All (λ y. id y < suc n) xs
  largest_bounds n [] h = tt
  largest_bounds n (x ∷ xs) h = (omega arith, largest_bounds n xs (omega arith))

  pub All-lt-next_id : (xs : List A) → All (λ y. id y < next_id xs) xs
  All-lt-next_id xs = largest_bounds (largest xs) xs (omega arith)

  -- An update of a new row, which is the last one and alone has its id.
  pub update-appended :
      (f : A → A) (xs : List A) (new : A)
      → All (λ y. id y < id new) xs
      → update (has_id (id new)) f (xs ++ new ∷ []) ≡ xs ++ f new ∷ []
  update-appended f [] new h = ground arith
  update-appended f (x ∷ xs) new h = ground (arith, h.0, update-appended f xs new h.1)
