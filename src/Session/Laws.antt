-- ===== src/Session/Laws.antt =====
-- When a session ends: backend/src/auth/session_auth.rs over any history of requests, logins and
-- logouts.
use vaul_tls.Base.{
  ℕ, ◌+◌, ◌≤◌, ◌≡◌, refl, ap, ◌∙◌, Bool, true, false, not, Option, none, some, [], ◌∷◌, All,
  All-map, ltb, select, if◌then◌else◌, Bool-cases, Option-cases, inl, inr, arith,
}
use vaul_tls.Base.Tables.{All-select, All-selected, All-update}
use vaul_tls.Text.{Text, text_eq}
use vaul_tls.Text.Laws.{text_eq_iff}
use vaul_tls.Session.{
  Claims, UserRole, Store, remove, is_service, register_jti, needs_renewal, human_claims,
  generate_token, shorten, renew_session_cookie_if_needed, is_alive, Credentials, token_of, admit,
  authenticate_auth_token, invalidate_token, session_renew_grace_secs, session_ttl_secs,
}

-- Every entry of the token ends by the time.
abbrev pub EndsBy : Text → ℕ → Store → Type 0
EndsBy jti time store =
    All (λ (entry : Text × ℕ). text_eq entry.0 jti ≡ true → entry.1 ≤ time) store

-- What happens to the store.
pub data SessionStep (decode : Text → Option Claims) (jti : Text) : Store → Store → Type 0 where
  request_step :
      {store : Store} (now : ℕ) (fresh : Text) (credentials : Credentials)
      → text_eq fresh jti ≡ false
      → SessionStep decode jti store
          (authenticate_auth_token decode now fresh credentials store).store
  login_step :
      {store : Store} (now : ℕ) (fresh : Text) (user_id : ℕ) (role : UserRole) (is_local : Bool)
      → text_eq fresh jti ≡ false
      → SessionStep decode jti store (generate_token now fresh user_id role is_local store).1
  logout_step :
      {store : Store} (other : Text) → SessionStep decode jti store (invalidate_token other store)

-- A history in which no new token draws the id.
pub data SessionHistory (decode : Text → Option Claims) (jti : Text) (start : Store)
    : Store → Type 0 where
  here : SessionHistory decode jti start start
  and_then :
      {store store' : Store}
      → SessionHistory decode jti start store
      → SessionStep decode jti store store'
      → SessionHistory decode jti start store'

module _ (jti : Text) (time : ℕ) where
  remove-EndsBy :
      (other : Text) (store : Store) → EndsBy jti time store → EndsBy jti time (remove other store)
  remove-EndsBy other store h =
      All-select (λ entry. text_eq entry.0 jti ≡ true → entry.1 ≤ time) _ store h

  register-EndsBy :
      (now : ℕ) (fresh : Text) (expires : ℕ) (store : Store)
      → text_eq fresh jti ≡ false
      → EndsBy jti time store
      → EndsBy jti time (register_jti now fresh expires store)
  unfolding register_jti
  register-EndsBy now fresh expires store other h = (
    (λ same. cc),
    remove-EndsBy fresh (select (λ entry. ltb now entry.1) store)
        (All-select (λ entry. text_eq entry.0 jti ≡ true → entry.1 ≤ time) _ store h),
  )

  shorten-EndsBy :
      (who : Text) (grace_exp : ℕ) (store : Store)
      → EndsBy jti time store
      → EndsBy jti time (shorten who grace_exp store)
  unfolding shorten
  shorten-EndsBy who grace_exp store h =
      All-update (λ entry. text_eq entry.0 jti ≡ true → entry.1 ≤ time) _ _ store
        (λ entry ends _ same. shorter entry.1 (ends same)) h
    where
      shorter : (e : ℕ) → e ≤ time → (if ltb grace_exp e then grace_exp else e) ≤ time
      shorter e le = ground arith

  admit-EndsBy :
      (now : ℕ) (fresh : Text) (from_cookie : Bool) (claims : Claims) (store : Store)
      → text_eq fresh jti ≡ false
      → EndsBy jti time store
      → EndsBy jti time (admit now fresh from_cookie claims store).store
  unfolding admit renew_session_cookie_if_needed generate_token
  admit-EndsBy now fresh from_cookie claims store other h =
      let renewed =
        shorten-EndsBy claims.jti (now + session_renew_grace_secs) _
          (register-EndsBy now fresh (now + session_ttl_secs) store other h) in
      elim (Bool-cases (is_service claims)) [
        | inl service ↦ rw service h
        | inr human ↦ rw human (elim (Bool-cases (is_alive now claims.jti store)) [
          | inr dead ↦ rw dead h
          | inl alive ↦ rw alive (elim (Bool-cases from_cookie) [
            | inr bearer ↦ rw bearer h
            | inl cookie ↦ rw cookie (elim (Bool-cases (needs_renewal claims.exp now)) [
              | inl old ↦ rw old renewed
              | inr young ↦ rw young h
            ])
          ])
        ])
      ]

module _ (decode : Text → Option Claims) (jti : Text) (time : ℕ) where
  step-EndsBy :
      {store store' : Store}
      → SessionStep decode jti store store'
      → EndsBy jti time store
      → EndsBy jti time store'
  unfolding authenticate_auth_token generate_token invalidate_token
  step-EndsBy {store = store} (request_step now fresh credentials other) h =
      elim (Option-cases (token_of credentials)) [
        | inl none_given ↦ rw (authenticate_auth_token, none_given) h
        | inr (token, given) ↦
            rw (authenticate_auth_token, given)
              (elim (Option-cases (decode token.0)) [
                | inl bad ↦ rw bad h
                | inr (claims, good) ↦
                    rw good (admit-EndsBy jti time now fresh token.1 claims store other h)
              ])
      ]
  step-EndsBy {store = store} (login_step now fresh user_id role is_local other) h =
      register-EndsBy jti time now fresh _ store other h
  step-EndsBy {store = store} (logout_step other) h = remove-EndsBy jti time other store h

  history-EndsBy :
      {start store : Store}
      → SessionHistory decode jti start store
      → EndsBy jti time start
      → EndsBy jti time store
  history-EndsBy here h = h
  history-EndsBy (and_then before step) h = step-EndsBy step (history-EndsBy before h)

-- Where every entry of a token has ended, the token is refused.
not_alive :
    (jti : Text) (time now : ℕ) (store : Store)
    → time ≤ now
    → EndsBy jti time store
    → is_alive now jti store ≡ false
unfolding is_alive
not_alive jti time now [] le h = refl
not_alive jti time now (entry ∷ rest) le h = elim (Bool-cases (text_eq entry.0 jti)) [
  | inl e ↦ rw (is_alive, e) (ended entry.1 (h.0 e))
  | inr e ↦ rw (is_alive, e) (not_alive jti time now rest le h.1)
]
  where
    ended : (exp : ℕ) → exp ≤ time → ltb now exp ≡ false
    ended exp before = ground arith

module _ (decode : Text → Option Claims) (now : ℕ) (fresh : Text) (credentials : Credentials)
    (token : Text) (from_cookie : Bool) (claims : Claims) where
  ended-refused :
      (time : ℕ) (store : Store)
      → token_of credentials ≡ some (token, from_cookie)
      → decode token ≡ some claims
      → is_service claims ≡ false
      → EndsBy claims.jti time store
      → time ≤ now
      → (authenticate_auth_token decode now fresh credentials store).claims ≡ none
  unfolding authenticate_auth_token admit
  ended-refused time store given decoded human ends le =
      rw
        (
          authenticate_auth_token,
          given,
          decoded,
          admit,
          human,
          not_alive claims.jti time now store le ends,
        )
        refl

removed-EndsBy : (jti : Text) (store : Store) → EndsBy jti 0 (remove jti store)
removed-EndsBy jti store =
    All-map (remove jti store) (λ entry gone same. absurd (ground arith))
      (All-selected (λ (entry : Text × ℕ). not (text_eq entry.0 jti)) store)

-- After a logout, a request with the token of the session that was left is refused, at any time and
-- after any history in which no new token draws its id. The token decodes and is a human's.
pub logout-ends :
    (decode : Text → Option Claims) (now : ℕ) (fresh : Text) (credentials : Credentials)
    (token : Text) (from_cookie : Bool) (claims : Claims) (before : Store) {store : Store}
    → token_of credentials ≡ some (token, from_cookie)
    → decode token ≡ some claims
    → is_service claims ≡ false
    → SessionHistory decode claims.jti (invalidate_token claims.jti before) store
    → (authenticate_auth_token decode now fresh credentials store).claims ≡ none
unfolding invalidate_token
logout-ends decode now fresh credentials token from_cookie claims before {store = store} given
      decoded human history =
    ended-refused decode now fresh credentials token from_cookie claims 0 store given decoded human
      (history-EndsBy decode claims.jti 0 history (removed-EndsBy claims.jti before)) (omega arith)

shortened-EndsBy :
    (jti : Text) (grace_exp : ℕ) (store : Store)
    → EndsBy jti grace_exp (shorten jti grace_exp store)
unfolding shorten
shortened-EndsBy jti grace_exp [] = tt
shortened-EndsBy jti grace_exp (entry ∷ rest) = elim (Bool-cases (text_eq entry.0 jti)) [
  | inl e ↦ rw e ((λ _. least entry.1), shortened-EndsBy jti grace_exp rest)
  | inr e ↦ rw e ((λ same. absurd (ground arith)), shortened-EndsBy jti grace_exp rest)
]
  where
    least : (e : ℕ) → (if ltb grace_exp e then grace_exp else e) ≤ grace_exp
    least e = ground arith

-- A session that is renewed has the grace time left: once a minute has passed since the renewal, a
-- request with the old token is refused, after any history in which no new token draws its id.
pub renewal-ends :
    (decode : Text → Option Claims) (renewed_at now : ℕ) (new_jti fresh : Text)
    (credentials : Credentials) (token : Text) (from_cookie : Bool) (claims : Claims)
    (before : Store) {store : Store}
    → needs_renewal claims.exp renewed_at ≡ true
    → token_of credentials ≡ some (token, from_cookie)
    → decode token ≡ some claims
    → is_service claims ≡ false
    → SessionHistory decode claims.jti
        (renew_session_cookie_if_needed renewed_at new_jti claims before).1
        store
    → renewed_at + session_renew_grace_secs ≤ now
    → (authenticate_auth_token decode now fresh credentials store).claims ≡ none
unfolding renew_session_cookie_if_needed
renewal-ends decode renewed_at now new_jti fresh credentials token from_cookie claims before
      {store = store} needs given decoded human history le =
    ended-refused decode now fresh credentials token from_cookie claims
      (renewed_at + session_renew_grace_secs) store given decoded human
      (history-EndsBy decode claims.jti (renewed_at + session_renew_grace_secs) history renewed) le
  where
    renewed :
        EndsBy claims.jti
          (renewed_at + session_renew_grace_secs)
          (renew_session_cookie_if_needed renewed_at new_jti claims before).1
    renewed = rw needs (shortened-EndsBy claims.jti (renewed_at + session_renew_grace_secs) _)

registered_alive :
    (now later : ℕ) (jti : Text) (expires : ℕ) (store : Store)
    → is_alive later jti (register_jti now jti expires store) ≡ ltb later expires
unfolding is_alive register_jti
registered_alive now later jti expires store = rw (is_alive, (text_eq_iff jti jti).1 refl) refl

admit_human :
    (now : ℕ) (fresh : Text) (claims : Claims) (store : Store)
    → is_service claims ≡ false
    → (admit now fresh true claims store).claims
      ≡ (if is_alive now claims.jti store then some claims else none)
unfolding admit
admit_human now fresh claims store human = elim (Bool-cases (is_alive now claims.jti store)) [
  | inl e ↦ rw (human, e) refl
  | inr e ↦ rw (human, e) refl
]

-- A token that was just handed out authenticates, by the cookie, exactly until its hour is over.
pub login-lives :
    (decode : Text → Option Claims) (now later : ℕ) (jti fresh : Text) (user_id : ℕ)
    (role : UserRole) (is_local : Bool) (store : Store) (cookie : Text)
    → decode cookie ≡ some (human_claims now jti user_id role is_local)
    → (authenticate_auth_token decode later fresh
        (record { authorization = none; cookie = some cookie })
        (generate_token now jti user_id role is_local store).1).claims
      ≡ (if ltb later (now + session_ttl_secs)
          then some (human_claims now jti user_id role is_local)
          else none)
unfolding authenticate_auth_token token_of generate_token
login-lives decode now later jti fresh user_id role is_local store cookie decoded =
    let claims = human_claims now jti user_id role is_local in
    rw decoded (
      admit_human later fresh claims (register_jti now jti (now + session_ttl_secs) store) refl
      ∙ ap (λ b. if b then some claims else none)
          (registered_alive now later jti (now + session_ttl_secs) store))
