-- ===== src/Session/Tests.antt =====
-- A session at concrete times.
use vaul_tls.Base.{◌≡◌, refl, true, false, Option, none, some, [], ◌∷◌, arith}
use vaul_tls.Text.{Text, text, text_eq}
use vaul_tls.Session.{
  Claims, UserRole, Store, human_claims, Credentials, token_of, authenticate_auth_token,
  generate_token, invalidate_token, needs_renewal, renew_session_cookie_if_needed,
}
use vaul_tls.Session.Laws.{here, and_then, request_step, logout-ends, renewal-ends, login-lives}

abbrev ann : Claims
ann = human_claims 0 (text "j1") 7 UserRole.admin true

abbrev decode_ann : Text → Option Claims
decode_ann t = some ann

abbrev by_cookie : Credentials
by_cookie = record { authorization = none; cookie = some (text "t") }

abbrev ann_store : Store
ann_store = (text "j1", 3600) ∷ []

given : token_of by_cookie ≡ some (text "t", true)
unfolding token_of
given = refl

fresh_differs : text_eq (text "j2") (text "j1") ≡ false
unfolding text_eq
fresh_differs = refl

logout-ends_example :
    (authenticate_auth_token decode_ann 20
      (text "j3")
      by_cookie
      (authenticate_auth_token decode_ann 10
        (text "j2")
        by_cookie
        (invalidate_token (text "j1") ann_store)).store).claims
    ≡ none
logout-ends_example =
    logout-ends decode_ann 20 (text "j3") by_cookie (text "t") true ann ann_store given refl refl
      (and_then here (request_step 10 (text "j2") by_cookie fresh_differs))

due : needs_renewal 3600 3000 ≡ true
unfolding needs_renewal
due = refl

renewal-ends_example :
    (authenticate_auth_token decode_ann 3060
      (text "j3")
      by_cookie
      (renew_session_cookie_if_needed 3000 (text "j2") ann ann_store).1).claims
    ≡ none
renewal-ends_example =
    renewal-ends decode_ann 3000 3060 (text "j2") (text "j3") by_cookie (text "t") true ann
      ann_store due given refl refl here (omega arith)

login-lives_example :
    (authenticate_auth_token decode_ann 3599
      (text "j3")
      by_cookie
      (generate_token 0 (text "j1") 7 UserRole.admin true []).1).claims
    ≡ some ann
login-lives_example =
    login-lives decode_ann 0 3599 (text "j1") (text "j3") 7 UserRole.admin true [] (text "t") refl
