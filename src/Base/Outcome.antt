-- ===== src/Base/Outcome.antt =====
-- To prove something of what a handler returns and of the state that it leaves, go through its
-- steps: each lemma takes one step of a handler off, and hands on what the step found.
use mathlib.Core.Path.{◌≡◌, refl}
use mathlib.Core.Bool.{Bool, true, false}
use mathlib.Core.Option.{Option, none, some}
use mathlib.Core.Logic.{inl, inr}
use vaul_tls.Base.Tests.{if◌then◌else◌, Option-cases}
use vaul_tls.Base.Result.{Result, ok, err}
use vaul_tls.Base.Action.{
  Action, continue, ◌>>=◌, ◌>>◌, pure, raise, lift, gets, modify, require, ensure,
}

-- `Q` of the result and of the state after it.
abbrev pub Outcome {κ} : {S E B : Type 0} → (Result E B → S → Type κ) → Action S E B → S → Type κ
Outcome Q m s = Q (m s).0 (m s).1

module _ {κ} {S E A B : Type 0} (Q : Result E B → S → Type κ) where
  after_require :
      (f : S → Option A) (e : E) (k : A → Action S E B) (s : S) (o : Option A)
      → f s ≡ o
      → ((a : A) → f s ≡ some a → Outcome Q (k a) s)
      → (f s ≡ none → Q (err e) s)
      → Outcome Q (require f e >>= k) s
  unfolding ◌>>=◌
  after_require f e k s none p found missing = rw p (missing p)
  after_require f e k s (some a) p found missing = rw p (found a p)

  pub Outcome-require :
      (f : S → Option A) (e : E) (k : A → Action S E B) (s : S)
      → ((a : A) → f s ≡ some a → Outcome Q (k a) s)
      → (f s ≡ none → Q (err e) s)
      → Outcome Q (require f e >>= k) s
  Outcome-require f e k s = after_require f e k s (f s) refl

  after_lift :
      (r : Result E A) (k : A → Action S E B) (s : S) (r' : Result E A)
      → r ≡ r'
      → ((a : A) → r ≡ ok a → Outcome Q (k a) s)
      → ((e : E) → r ≡ err e → Q (err e) s)
      → Outcome Q (lift r >>= k) s
  unfolding ◌>>=◌
  after_lift r k s (ok a) p good bad = rw p (good a p)
  after_lift r k s (err e) p good bad = rw p (bad e p)

  pub Outcome-lift :
      (r : Result E A) (k : A → Action S E B) (s : S)
      → ((a : A) → r ≡ ok a → Outcome Q (k a) s)
      → ((e : E) → r ≡ err e → Q (err e) s)
      → Outcome Q (lift r >>= k) s
  Outcome-lift r k s = after_lift r k s r refl

  pub Outcome-gets :
      (f : S → A) (k : A → Action S E B) (s : S)
      → Outcome Q (k (f s)) s
      → Outcome Q (gets f >>= k) s
  unfolding ◌>>=◌
  Outcome-gets f k s h = h

  -- The result and the state of the first part, then the rest.
  after_bind :
      (m : Action S E A) (k : A → Action S E B) (s : S) (r : Result E A)
      → (m s).0 ≡ r
      → ((a : A) → (m s).0 ≡ ok a → Outcome Q (k a) (m s).1)
      → ((e : E) → (m s).0 ≡ err e → Q (err e) (m s).1)
      → Outcome Q (m >>= k) s
  unfolding ◌>>=◌
  after_bind m k s (ok a) p good bad = rw p (good a p)
  after_bind m k s (err e) p good bad = rw p (bad e p)

  pub Outcome-bind :
      (m : Action S E A) (k : A → Action S E B) (s : S)
      → ((a : A) → (m s).0 ≡ ok a → Outcome Q (k a) (m s).1)
      → ((e : E) → (m s).0 ≡ err e → Q (err e) (m s).1)
      → Outcome Q (m >>= k) s
  Outcome-bind m k s = after_bind m k s (m s).0 refl

-- What is left to show once the first part has returned.
abbrev pub Then {κ} :
    {S E A B : Type 0} → (Result E B → S → Type κ) → (A → Action S E B) → Result E A → S → Type κ
Then Q k (ok a) s = Outcome Q (k a) s
Then Q k (err e) s = Q (err e) s

module _ {κ} {S E A B : Type 0} (Q : Result E B → S → Type κ) where
  pub Then-either :
      (k : A → Action S E B) (s : S)
      → ((a : A) → Outcome Q (k a) s)
      → ((e : E) → Q (err e) s)
      → (r : Result E A) → Then Q k r s
  Then-either k s good bad (ok a) = good a
  Then-either k s good bad (err e) = bad e

  then_continue :
      (k : A → Action S E B) (r : Result E A) (s : S)
      → Then Q k r s
      → Q (continue r k s).0 (continue r k s).1
  then_continue k (ok a) s h = h
  then_continue k (err e) s h = h

  pub Outcome-Then :
      (m : Action S E A) (k : A → Action S E B) (s : S)
      → Outcome (Then Q k) m s
      → Outcome Q (m >>= k) s
  unfolding ◌>>=◌
  Outcome-Then m k s h = then_continue k (m s).0 (m s).1 h

module _ {κ} {S E B : Type 0} (Q : Result E B → S → Type κ) where
  pub Outcome-ensure :
      (b : Bool) (e : E) (k : Action S E B) (s : S)
      → (b ≡ true → Outcome Q k s)
      → (b ≡ false → Q (err e) s)
      → Outcome Q (ensure b e >> k) s
  unfolding ◌>>=◌
  Outcome-ensure true e k s good bad = good refl
  Outcome-ensure false e k s good bad = bad refl

  pub Outcome-pure : (b : B) (s : S) → Q (ok b) s → Outcome Q (pure b) s
  unfolding pure
  Outcome-pure b s h = h

  pub Outcome-raise : (e : E) (s : S) → Q (err e) s → Outcome Q (raise e) s
  unfolding raise
  Outcome-raise e s h = h

  pub Outcome-require_last :
      (f : S → Option B) (e : E) (s : S)
      → ((b : B) → f s ≡ some b → Q (ok b) s)
      → (f s ≡ none → Q (err e) s)
      → Outcome Q (require f e) s
  unfolding require
  Outcome-require_last f e s found missing = elim (Option-cases (f s)) [
    | inl p ↦ rw (p, require) (missing p)
    | inr (b, p) ↦ rw (p, require) (found b p)
  ]

  pub Outcome-lift_last :
      (r : Result E B) (s : S)
      → ((b : B) → r ≡ ok b → Q (ok b) s)
      → ((e : E) → r ≡ err e → Q (err e) s)
      → Outcome Q (lift r) s
  unfolding lift
  Outcome-lift_last (ok b) s good bad = good b refl
  Outcome-lift_last (err e) s good bad = bad e refl

  pub Outcome-modify :
      (f : S → S) (k : Action S E B) (s : S) → Outcome Q k (f s) → Outcome Q (modify f >> k) s
  unfolding ◌>>=◌
  Outcome-modify f k s h = h

  pub Outcome-if :
      (b : Bool) (m n : Action S E B) (s : S)
      → (b ≡ true → Outcome Q m s)
      → (b ≡ false → Outcome Q n s)
      → Outcome Q (if b then m else n) s
  Outcome-if true m n s p q = p refl
  Outcome-if false m n s p q = q refl

module _ {κ} {S E : Type 0} (Q : Result E (Unit {0}) → S → Type κ) where
  pub Outcome-modify_last : (f : S → S) (s : S) → Q (ok tt) (f s) → Outcome Q (modify f) s
  unfolding modify
  Outcome-modify_last f s h = h

  pub Outcome-ensure_last :
      (b : Bool) (e : E) (s : S)
      → (b ≡ true → Q (ok tt) s)
      → (b ≡ false → Q (err e) s)
      → Outcome Q (ensure b e) s
  unfolding ensure
  Outcome-ensure_last true e s good bad = good refl
  Outcome-ensure_last false e s good bad = bad refl
