-- ===== src/Api/Tests/Contents.antt =====
-- Contents that are replaced, the chain of a CA, what the audit log has of a call.
use vaul_tls.Base.{◌≡◌, some, List, [], ◌∷◌}
use vaul_tls.Base.Result.{ok}
use vaul_tls.Text.{text}
use vaul_tls.Api.Import.{X509}
use vaul_tls.Api.Replace.{update_certificate}
use vaul_tls.Api.Replace.Rules.{ReplacementEnds, update_certificate-outcome}
use vaul_tls.Api.Chain.{fullchain}
use vaul_tls.Api.Chain.Termination.{AreIssuers, AreFresh, fullchain-ends}
use vaul_tls.Api.AuditLog.Trail.{Logged}
use vaul_tls.Api.Calls.{Env, Call, action_of, handle}
use vaul_tls.Api.Calls.Recorded.{handle-Logged}
use vaul_tls.Api.Tests.{
  installed, as_bob, leaf_cert, root_cert, root_ca, test_pki, test_passwords, renewed_files,
}

update_certificate-outcome_example :
    let (r, after) = update_certificate test_pki 5 renewed_files as_bob installed in
    ReplacementEnds test_pki 5 renewed_files as_bob installed r after
update_certificate-outcome_example =
    update_certificate-outcome test_pki 5 renewed_files as_bob installed

-- Two certificates that name each other as issuers.
abbrev ring_cert : X509
ring_cert = record root_cert { issuer = text "CN=web" }

abbrev ring : List X509
ring = ring_cert ∷ leaf_cert ∷ []

fullchain-ends_example :
    (rest : List X509) × (fullchain ring leaf_cert ≡ some (leaf_cert ∷ rest))
    × AreIssuers ring leaf_cert rest
    × AreFresh [] (leaf_cert ∷ rest)
fullchain-ends_example = fullchain-ends ring leaf_cert

abbrev test_env : Env
test_env = record {
  pki = test_pki;
  passwords = test_passwords;
  pem_zip = λ bytes password. ok bytes;
  publish = λ ca db. ok 1;
  hash_secret = λ secret. ok secret;
  fresh = record { client_id = text "c5"; secret = text "s5" };
  build_ca = ok root_ca;
  save_ca = λ ca. ok tt;
}

handle-Logged_example :
    let (r, after) =
      handle test_env (Call.update_certificate_call 5 renewed_files) as_bob installed in
    Logged (action_of (Call.update_certificate_call 5 renewed_files)) as_bob installed r after
handle-Logged_example =
    handle-Logged test_env (Call.update_certificate_call 5 renewed_files) as_bob installed
