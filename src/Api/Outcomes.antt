-- ===== src/Api/Outcomes.antt =====
-- The steps of the handlers: what a request guard, and a statement that may fail, leave to show.
use vaul_tls.Base.{◌≡◌, refl, Option, some, Option-cases, inl, inr}
use vaul_tls.Base.Result.{Result, err}
use vaul_tls.Base.Action.{◌>>=◌, ◌>>◌}
use vaul_tls.Base.Outcome.{Outcome}
use vaul_tls.Session.{Claims, Guarded, success, unauthorized, forbidden}
use vaul_tls.Api.Errors.{ApiError}
use vaul_tls.Api.State.{AppState, Api, admitted, try_modify}

module _ {κ} {B : Type 0} (Q : Result ApiError B → AppState → Type κ) where
  pub Outcome-admitted :
      (g : Guarded) (k : Claims → Api B) (s : AppState)
      → ((claims : Claims) → g ≡ success claims → Outcome Q (k claims) s)
      → ((e : ApiError) → Q (err e) s)
      → Outcome Q (admitted g >>= k) s
  unfolding admitted ◌>>=◌
  Outcome-admitted unauthorized k s good bad = bad _
  Outcome-admitted forbidden k s good bad = bad _
  Outcome-admitted (success claims) k s good bad = good claims refl

  pub Outcome-try_modify :
      (f : AppState → Option AppState) (k : Api B) (s : AppState)
      → ((after : AppState) → f s ≡ some after → Outcome Q k after)
      → ((e : ApiError) → Q (err e) s)
      → Outcome Q (try_modify f >> k) s
  unfolding try_modify ◌>>=◌
  Outcome-try_modify f k s good bad = elim (Option-cases (f s)) [
    | inl p ↦ rw (try_modify, p) (bad _)
    | inr (after, p) ↦ rw (try_modify, p) (good after p)
  ]
