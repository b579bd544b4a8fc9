-- ===== src/Api/Users/Roles.antt =====
-- No one becomes an administrator by editing users.
use vaul_tls.Base.{
  ℕ, ◌≡◌, refl, ◌∙◌, true, false, not, ◌&&◌, ◌||◌, Option, none, some, List, ◌==◌, any, update, sym,
  ap, subst, Bool-cases, Option-cases, ◌⊎◌, inl, inr, arith, if◌then◌else◌,
}
use mathlib.Core.Option
use vaul_tls.Base.Result.{Result, ok, err}
use vaul_tls.Base.Outcome.{Outcome, Outcome-ensure, Outcome-modify_last}
use vaul_tls.Base.Tables.{find-update}
use vaul_tls.Text.{text_eq}
use vaul_tls.Session.{is_service, is_admin}
use vaul_tls.Db.Users.{User, has_user_id, with_profile, update_user, get_user}
use vaul_tls.Api.Errors.{ApiError}
use vaul_tls.Api.State.{AppState, Authenticated, audited, record_audit}
use vaul_tls.Api.Outcomes.{Outcome-try_modify}
use vaul_tls.Api.Users.{on_users, edit_user}

abbrev edited : ℕ → User → User → User
edited id payload u = with_profile (record payload { id = id }) u

update_user-some :
    (user : User) (users after : List User)
    → update_user user users ≡ some after
    → after ≡ update (has_user_id user.id) (with_profile user) users
unfolding update_user
update_user-some user users after went =
    elim (Bool-cases (
      any (has_user_id user.id) users
      && any (λ (u : User). not (u.id == user.id) && text_eq u.email user.email) users)) [
        | inl clash ↦ absurd (ground (arith, rw (update_user, clash) at went))
        | inr free ↦ ground (arith, rw (update_user, free) at went)
      ]

on_users-some :
    (f : List User → Option (List User)) (s after : AppState)
    → on_users f s ≡ some after
    → f s.users ≡ some after.users
on_users-some f s after went = elim (Option-cases (f s.users)) [
  | inl p ↦ absurd (ground (arith, rw (on_users, p) at went))
  | inr (users, p) ↦
      let made : record s { users = users } ≡ after = ground (arith, rw (on_users, p) at went) in
      p ∙ ap some (ap (λ (x : AppState). x.users) made)
]

-- The users after an edit, read by id.
on_users-get_user :
    (id k : ℕ) (payload : User) (s after : AppState)
    → on_users (update_user (record payload { id = id })) s ≡ some after
    → get_user k after.users ≡ (
        if id == k then Option.map (edited id payload) (get_user k s.users) else get_user k s.users)
unfolding get_user
on_users-get_user id k payload s after went =
    rw
      (update_user-some (record payload { id = id }) s.users after.users
        (on_users-some (update_user (record payload { id = id })) s after went))
      (find-update (λ (u : User). u.id) id k (edited id payload) s.users (λ _. refl))

-- What an edit has done to the user `k`.
abbrev Edited :
    ℕ → User → Authenticated → ℕ → AppState → Result ApiError (Unit {0}) → AppState → Type 0
Edited id payload auth k s (err e) after = after ≡ s
Edited id payload auth k s (ok u) after =
    (is_service auth.claims ≡ false)
    × ((auth.claims.id == id || is_admin auth.claims.role) ≡ true)
    × ((not (is_admin auth.claims.role) && is_admin payload.role) ≡ false)
    × (get_user k after.users ≡ (
        if id == k
        then Option.map (edited id payload) (get_user k s.users)
        else get_user k s.users))

edit_user-Edited :
    (id : ℕ) (payload : User) (auth : Authenticated) (k : ℕ) (s : AppState)
    → Outcome (Edited id payload auth k s) (edit_user id payload auth) s
unfolding edit_user audited record_audit
edit_user-Edited id payload auth k s =
    let Q = Edited id payload auth k s in
    Outcome-ensure Q _ _ _ s
      (λ human.
        Outcome-ensure Q _ _ _ s
          (λ own.
            Outcome-ensure Q _ _ _ s
              (λ role.
                Outcome-try_modify Q _ _ s
                  (λ after went. Outcome-modify_last Q _ after (
                    ground (arith, human),
                    own,
                    ground (arith, role),
                    on_users-get_user id k payload s after went,
                  ))
                  (λ _. refl))
              (λ _. refl))
          (λ _. refl))
      (λ _. refl)

-- A user after an edit by someone who is no administrator, against the user before.
abbrev pub Unescalated : ℕ → Authenticated → AppState → User → Type 0
Unescalated k auth s u =
    (before : User) × (get_user k s.users ≡ some before)
    × ((is_admin u.role && not (is_admin before.role)) ≡ false)
    × ((k ≡ auth.claims.id) ⊎ (u ≡ before))
    × (u.password_hash ≡ before.password_hash)
    × (u.oidc_id ≡ before.oidc_id)

Unescalated-same :
    (k : ℕ) (auth : Authenticated) (s : AppState) (u : User)
    → get_user k s.users ≡ some u
    → Unescalated k auth s u
Unescalated-same k auth s u found = (u, found, ground arith, inr refl, refl, refl)

Unescalated-edited :
    (id : ℕ) (payload : User) (k : ℕ) (auth : Authenticated) (s : AppState) (u : User)
    (o : Option User)
    → get_user k s.users ≡ o
    → Option.map (edited id payload) o ≡ some u
    → is_admin payload.role ≡ false
    → k ≡ auth.claims.id
    → Unescalated k auth s u
Unescalated-edited id payload k auth s u none was now plain own = cc
Unescalated-edited id payload k auth s u (some before) was now plain own =
    let made : edited id payload before ≡ u = ground (arith, now) in
    (
      before,
      was,
      ground (arith, ap (λ (x : User). x.role) made, plain),
      inl own,
      sym (ap (λ (x : User). x.password_hash) made),
      sym (ap (λ (x : User). x.oidc_id) made),
    )

module _ (id : ℕ) (payload : User) (auth : Authenticated) (k : ℕ) (s : AppState) (u : User)
    (plain : is_admin auth.claims.role ≡ false) where
  conclude :
      (r : Result ApiError (Unit {0})) (after : AppState)
      → Edited id payload auth k s r after
      → get_user k after.users ≡ some u
      → Unescalated k auth s u
  conclude (err e) after same found =
      Unescalated-same k auth s u (subst (λ (x : AppState). get_user k x.users ≡ some u) same found)
  conclude (ok v) after (human, own, role, users) found = elim (Bool-cases (id == k)) [
    | inl hit ↦
        Unescalated-edited id payload k auth s u _ refl (sym (rw hit at users) ∙ found)
          (ground (arith, role, plain)) (ground (arith, own, plain, hit))
    | inr miss ↦ Unescalated-same k auth s u (sym (rw miss at users) ∙ found)
  ]

-- After an edit that a caller without the role of an administrator sent, every administrator was one
-- before, every user but the caller is as before, no user has appeared, and no password and no OIDC
-- subject has changed.
pub edit_user-no_escalation :
    (id : ℕ) (payload : User) (auth : Authenticated) (k : ℕ) (s : AppState) (u : User)
    → is_admin auth.claims.role ≡ false
    → get_user k (edit_user id payload auth s).1.users ≡ some u
    → Unescalated k auth s u
edit_user-no_escalation id payload auth k s u plain found =
    conclude id payload auth k s u plain (edit_user id payload auth s).0 _
      (edit_user-Edited id payload auth k s) found
