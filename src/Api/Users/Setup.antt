-- ===== src/Api/Users/Setup.antt =====
-- The first set-up of a server happens once.
use vaul_tls.Base.{
  ◌≡◌, refl, ap, Bool, true, false, ◌||◌, Option, none, some, List, [], ◌∷◌, ◌++◌, any, Bool-cases,
  inl, inr, arith, subst,
}
use vaul_tls.Base.Result.{Result, ok, err}
use vaul_tls.Base.Action.{◌>>=◌}
use vaul_tls.Base.Outcome.{
  Outcome, Outcome-gets, Outcome-ensure, Outcome-modify, Outcome-modify_last, Outcome-lift,
}
use vaul_tls.Text.{Text}
use vaul_tls.Db.Rows.{Ca}
use vaul_tls.Db.Users.{is_setup}
use vaul_tls.Api.Errors.{ApiError, unauthorized_error}
use vaul_tls.Api.State.{AppState}
use vaul_tls.Api.Outcomes.{Outcome-try_modify}
use vaul_tls.Api.Users.{
  Passwords, SetupRequest, already_setup, insert_ca, inserted_ca, with_language, setup,
}

any-last {ℓ} : {A : Type ℓ} (xs : List A) (x : A) → any (λ (y : A). true) (xs ++ x ∷ []) ≡ true
any-last [] x = refl
any-last (y ∷ xs) x = refl

or-true : (b : Bool) → (b || true) ≡ true
or-true true = refl
or-true false = refl

set_up :
    (ca : Ca) (language : Option Text) (s : AppState)
    → already_setup (with_language language (insert_ca ca s)) ≡ true
unfolding is_setup
set_up ca none s = rw (any-last s.db.cas ca) (or-true _)
set_up ca (some language) s = rw (any-last s.db.cas ca) (or-true _)

module _ (passwords : Passwords) (build_ca : SetupRequest → Result ApiError Ca)
    (save_ca : Ca → Result ApiError (Unit {0})) where
  abbrev IsSetUp : Result ApiError (Unit {0}) → AppState → Type 0
  IsSetUp (err e) after = Unit
  IsSetUp (ok u) after = already_setup after ≡ true

  setup-IsSetUp :
      (req : SetupRequest) (s : AppState) → Outcome IsSetUp (setup passwords build_ca save_ca req) s
  unfolding setup
  setup-IsSetUp req s = Outcome-gets IsSetUp _ _ s (
      Outcome-ensure IsSetUp _ _ _ s
        (λ _. Outcome-gets IsSetUp _ _ s (
          Outcome-ensure IsSetUp _ _ _ s
            (λ _. Outcome-modify IsSetUp _ _ s (
              Outcome-lift IsSetUp _ _ _
                (λ h _.
                  Outcome-try_modify IsSetUp _ _ _
                    (λ t _.
                      Outcome-lift IsSetUp _ _ t
                        (λ built _. Outcome-gets IsSetUp _ _ t (
                          Outcome-modify IsSetUp _ _ t (
                            Outcome-lift IsSetUp _ _ _
                              (λ _ _.
                                Outcome-modify_last IsSetUp _ _
                                  (set_up (inserted_ca built t) req.default_language t))
                              (λ _ _. tt))))
                        (λ _ _. tt))
                    (λ _. tt))
                (λ _ _. tt)))
            (λ _. tt)))
        (λ _. tt))

  refused :
      (req : SetupRequest) (s : AppState)
      → already_setup s ≡ true
      → setup passwords build_ca save_ca req s ≡ (err unauthorized_error, s)
  unfolding setup ◌>>=◌
  refused req s done = rw done refl

  -- A set-up goes through only where there is neither a user nor a CA. Once one has, every other one
  -- is refused and changes nothing.
  pub setup-once :
      (first second : SetupRequest) (s : AppState)
      → (setup passwords build_ca save_ca first s).0 ≡ ok tt
      → let after = (setup passwords build_ca save_ca first s).1 in
        (already_setup s ≡ false)
        × (setup passwords build_ca save_ca second after ≡ (err unauthorized_error, after))
  setup-once first second s went = (
    elim (Bool-cases (already_setup s)) [
      | inl done ↦ absurd (ground (arith, ap (λ (p : _ × _). p.0) (refused first s done), went))
      | inr fresh ↦ fresh
    ],
    refused second _ (
        subst (λ r. IsSetUp r (setup passwords build_ca save_ca first s).1) went
          (setup-IsSetUp first s)),
  )
