-- ===== src/Acme/Tests/Requests.antt =====
-- Single requests.
use vaul_tls.Base.{◌≡◌, ◌≢◌, refl, some, [], ◌∷◌, arith}
use vaul_tls.Base.Result.{ok}
use vaul_tls.Text.{text}
use vaul_tls.Text.Decimal.{pos}
use vaul_tls.Db.Rows.{Db, IdentifierStatus, OrderStatus}
use vaul_tls.Db.Orders.{get_acme_order}
use vaul_tls.Acme.Authenticate.{authenticate_jws}
use vaul_tls.Acme.Authenticate.Requests.{AuthOutcome, authenticate_jws-outcome}
use vaul_tls.Acme.NewAccount.{new_account}
use vaul_tls.Acme.NewAccount.Binding.{AccountOutcome, new_account-outcome}
use vaul_tls.Acme.NewOrder.{new_order}
use vaul_tls.Acme.NewOrder.Limits.{OrderOutcome, new_order-outcome}
use vaul_tls.Acme.Challenge.{get_challenge}
use vaul_tls.Acme.Challenge.Validation.{ChallengeOutcome, get_challenge-outcome}
use vaul_tls.Acme.Finalize.{finalize_order}
use vaul_tls.Acme.Finalize.Issuance.{FinalizeOutcome, finalize_order-outcome}
use vaul_tls.Acme.Revoke.{revoke_cert}
use vaul_tls.Acme.Revoke.Permission.{RevokeOutcome, revoke_cert-outcome}
use vaul_tls.Acme.Server.{route, finalize_route}
use vaul_tls.Acme.Urls.{authz_id, parse_authz_id, account_url, parse_kid}
use vaul_tls.Acme.Urls.Laws.{parse_authz_id-authz_id, parse_kid-account_url}
use vaul_tls.Acme.Isolation.{route-isolated}
use vaul_tls.Acme.Tests.{
  toy, toy_config, toy_env, toy_account, unbound_account, toy_order, other_order, toy_db,
}

abbrev with_account : Db
with_account = toy_db (toy_account ∷ []) []

authenticate_jws-outcome_example :
    AuthOutcome toy toy_config 5
      (text "order")
      (text "/api/acme/new-order")
      with_account
      (authenticate_jws toy toy_config 5 (text "order") (text "/api/acme/new-order") with_account).0
      (authenticate_jws toy toy_config 5 (text "order") (text "/api/acme/new-order") with_account).1
authenticate_jws-outcome_example =
    authenticate_jws-outcome toy toy_config 5 (text "order") (text "/api/acme/new-order")
      with_account

abbrev without_key : Db
without_key = toy_db (unbound_account ∷ []) []

new_account-outcome_example :
    AccountOutcome toy [] 5
      (text "register")
      without_key
      (new_account toy [] 5 (text "register") without_key).0
      (new_account toy [] 5 (text "register") without_key).1
new_account-outcome_example = new_account-outcome toy [] 5 (text "register") without_key

new_order-outcome_example :
    OrderOutcome toy toy_config
      (toy_env 5 (text "n3"))
      1
      with_account
      (new_order toy toy_config (toy_env 5 (text "n3")) 1 (text "payload") with_account).0
      (new_order toy toy_config (toy_env 5 (text "n3")) 1 (text "payload") with_account).1
new_order-outcome_example =
    new_order-outcome toy toy_config (toy_env 5 (text "n3")) 1 (text "payload") with_account

abbrev waiting : Db
waiting = toy_db (toy_account ∷ []) (toy_order OrderStatus.pending IdentifierStatus.pending ∷ [])

get_challenge-outcome_example :
    ChallengeOutcome toy toy_config
      (toy_env 5 (text "n3"))
      1
      (pos 1)
      (text "dns-01")
      0
      waiting
      (get_challenge toy toy_config (toy_env 5 (text "n3")) 1 (pos 1) (text "dns-01") 0 waiting).0
      (get_challenge toy toy_config (toy_env 5 (text "n3")) 1 (pos 1) (text "dns-01") 0 waiting).1
get_challenge-outcome_example =
    get_challenge-outcome toy toy_config (toy_env 5 (text "n3")) 1 (pos 1) (text "dns-01") 0 waiting

abbrev ready : Db
ready =
    toy_db (toy_account ∷ [])
      (toy_order OrderStatus.ready IdentifierStatus.valid ∷ other_order ∷ [])

finalize_order-outcome_example :
    FinalizeOutcome toy toy_config 5 1
      (pos 1)
      (text "payload")
      ready
      (finalize_order toy toy_config 5 1 (pos 1) (text "payload") ready).0
      (finalize_order toy toy_config 5 1 (pos 1) (text "payload") ready).1
finalize_order-outcome_example =
    finalize_order-outcome toy toy_config 5 1 (pos 1) (text "payload") ready

revoke_cert-outcome_example :
    RevokeOutcome toy toy_config 5
      (text "revoke")
      with_account
      (revoke_cert toy toy_config 5 (text "revoke") with_account).0
      (revoke_cert toy toy_config 5 (text "revoke") with_account).1
revoke_cert-outcome_example = revoke_cert-outcome toy toy_config 5 (text "revoke") with_account

two-one : other_order.account_id ≢ 1
two-one = ground (arith)

found_other : get_acme_order 2 ready ≡ some other_order
unfolding get_acme_order
found_other = refl

route-isolated_example :
    get_acme_order 2
      (route toy toy_config
        (toy_env 5 (text "n3"))
        (finalize_route (pos 1))
        1
        (text "payload")
        ready).1
    ≡ some other_order
route-isolated_example =
    route-isolated toy toy_config (toy_env 5 (text "n3")) 1 2 other_order ready found_other two-one
      (finalize_route (pos 1)) (text "payload")

parse_authz_id-authz_id_example : parse_authz_id (authz_id 12 3) ≡ ok (pos 12, 3)
parse_authz_id-authz_id_example = parse_authz_id-authz_id 12 3 (omega arith) (omega arith)

parse_kid-account_url_example :
    parse_kid (text "https://ca.example") (account_url (text "https://ca.example") 42) ≡ ok (pos 42)
parse_kid-account_url_example = parse_kid-account_url (text "https://ca.example") 42 (omega arith)
