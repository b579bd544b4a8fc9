-- ===== src/Base/Action.antt =====
-- Handlers: a state, a result, and the state after it.
use mathlib.Core.Bool.{Bool, true, false}
use mathlib.Core.Option.{Option, none, some}
use vaul_tls.Base.Result.{Result, ok, err}

abbrev pub Action : Type 0 → Type 0 → Type 0 → Type 0
Action S E A = S → Result E A × S

unfoldable pub pure : {S E A : Type 0} → A → Action S E A
pure a s = (ok a, s)

unfoldable pub raise : {S E A : Type 0} → E → Action S E A
raise e s = (err e, s)

unfoldable pub lift : {S E A : Type 0} → Result E A → Action S E A
lift r s = (r, s)

unfoldable pub gets : {S E A : Type 0} → (S → A) → Action S E A
gets f s = (ok (f s), s)

unfoldable pub modify : {S E : Type 0} → (S → S) → Action S E (Unit {0})
modify f s = (ok tt, f s)

-- What the state has, or the error.
unfoldable pub require : {S E A : Type 0} → (S → Option A) → E → Action S E A
require f e s = (elim (f s) [ none ↦ err e | some a ↦ ok a ], s)

-- `if !test { return Err(e) }`
unfoldable pub ensure : {S E : Type 0} → Bool → E → Action S E (Unit {0})
ensure true e s = (ok tt, s)
ensure false e s = (err e, s)

abbrev pub continue : {S E A B : Type 0} → Result E A → (A → Action S E B) → Action S E B
continue (ok a) f s = f a s
continue (err e) f s = (err e, s)

-- Opening this opens the actions above.
infixl 5 ◌>>=◌ ◌>>◌
unfoldable pub ◌>>=◌ : {S E A B : Type 0} → Action S E A → (A → Action S E B) → Action S E B
unfolding pure raise lift gets modify require ensure
◌>>=◌ m f s = continue (m s).0 f (m s).1

abbrev pub ◌>>◌ : {S E B : Type 0} → Action S E (Unit {0}) → Action S E B → Action S E B
m >> k = m >>= λ _. k
