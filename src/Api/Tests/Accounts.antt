-- ===== src/Api/Tests/Accounts.antt =====
-- Logging in, editing users, the first administrator, service accounts.
use vaul_tls.Base.{◌≡◌, refl, false, none, some, [], ◌∷◌}
use vaul_tls.Base.Action.{◌>>=◌}
use vaul_tls.Base.Result.{Result, ok, err}
use vaul_tls.Text.{Text, text, text_eq, trim}
use vaul_tls.Session.{UserRole}
use vaul_tls.Db.Rows.{Ca}
use vaul_tls.Db.Users.{User, get_user, update_user, insert_user, is_setup}
use vaul_tls.Db.ServiceAccounts.{get_service_account_by_id, get_service_account_by_client_id}
use vaul_tls.Api.Errors.{ApiError, forbidden_error, unauthorized_error}
use vaul_tls.Api.State.{AppState, try_modify, audited, record_audit}
use vaul_tls.Api.Users.{TimespanUnit, SetupRequest, already_setup, edit_user, setup}
use vaul_tls.Api.Users.Roles.{Unescalated, edit_user-no_escalation}
use vaul_tls.Api.Users.Setup.{setup-once}
use vaul_tls.Api.ServiceAccounts.{
  Credentials, authorize_service_account, ensure_can_manage_service_accounts,
  create_service_account, withdraw_service_account, service_token,
}
use vaul_tls.Api.ServiceAccounts.Scopes.{CreationEnds, create_service_account-outcome}
use vaul_tls.Api.ServiceAccounts.Tokens.{withdraw_service_account-service_token}
use vaul_tls.Api.Tests.{installed, as_bob, bob, robot, root_ca, test_db, test_passwords}

-- Bob asks to be an administrator, and then for another name.
abbrev ambition : User
ambition = record bob { role = UserRole.admin }

refused : (edit_user 2 ambition as_bob installed).0 ≡ err forbidden_error
unfolding edit_user ◌>>=◌
refused = refl

abbrev renaming : User
renaming = record bob { name = text "Rob" }

renamed_bob : get_user 2 (edit_user 2 renaming as_bob installed).1.users ≡ some renaming
unfolding edit_user get_user ◌>>=◌ try_modify update_user text_eq audited record_audit
renamed_bob = refl

edit_user-no_escalation_example : Unescalated 2 as_bob installed renaming
edit_user-no_escalation_example =
    edit_user-no_escalation 2 renaming as_bob 2 installed renaming refl renamed_bob

abbrev empty_state : AppState
empty_state = record installed {
  db = record test_db { certs = []; versions = []; cas = [] };
  users = [];
  service_accounts = [];
}

abbrev first_setup : SetupRequest
first_setup = record {
  name = text "Ada";
  email = text "ada@x";
  ca_name = text "Root";
  validity_duration = some 5;
  validity_unit = some TimespanUnit.year;
  password = some (text "secret");
  default_language = none;
}

abbrev test_build : SetupRequest → Result ApiError Ca
test_build req = ok root_ca

abbrev test_save : Ca → Result ApiError (Unit {0})
test_save ca = ok tt

set_up : (setup test_passwords test_build test_save first_setup empty_state).0 ≡ ok tt
unfolding setup ◌>>=◌ is_setup trim try_modify insert_user
set_up = refl

setup-once_example :
    let after = (setup test_passwords test_build test_save first_setup empty_state).1 in
    (already_setup empty_state ≡ false)
    × (setup test_passwords test_build test_save first_setup after
        ≡ (err unauthorized_error, after))
setup-once_example =
    setup-once test_passwords test_build test_save first_setup first_setup empty_state set_up

abbrev test_hash : Text → Result ApiError Text
test_hash secret = ok secret

abbrev test_fresh : Credentials
test_fresh = record { client_id = text "c4"; secret = text "s4" }

create_service_account-outcome_example :
    let (r, after) =
      create_service_account test_hash test_fresh 2
        (text "ci2")
        (text "cert:read" ∷ [])
        as_bob
        installed in
    CreationEnds test_fresh 2 (text "ci2") (text "cert:read" ∷ []) as_bob installed r after
create_service_account-outcome_example =
    create_service_account-outcome test_hash test_fresh 2 (text "ci2") (text "cert:read" ∷ [])
      as_bob installed

withdrawn : (withdraw_service_account 3 as_bob installed).0 ≡ ok tt
unfolding withdraw_service_account ◌>>=◌ authorize_service_account get_service_account_by_id
    ensure_can_manage_service_accounts
withdrawn = refl

robot_found : get_service_account_by_client_id (text "c3") installed.service_accounts ≡ some robot
unfolding get_service_account_by_client_id text_eq
robot_found = refl

withdraw_service_account-service_token_example :
    let after = (withdraw_service_account 3 as_bob installed).1 in
    service_token text_eq 9000 (text "c3") (text "h") after ≡ (err unauthorized_error, after)
withdraw_service_account-service_token_example =
    withdraw_service_account-service_token text_eq 3 9000 as_bob installed (text "c3") (text "h")
      robot withdrawn robot_found refl
