-- ===== src/Groups/Tests.antt =====
-- Two groups, two users, two certificates.
use vaul_tls.Base.{
  ℕ, ◌≡◌, refl, false, none, some, List, [], true, Bool, ◌∷◌, ◌&&◌, ◌||◌, any, select, ◌==◌,
}
use vaul_tls.Text.{text}
use vaul_tls.Db.Rows.{CertificateRow, CertificateType, CertificateRenewMethod}
use vaul_tls.Groups.{
  Group, Groups, members_fit, set_group_users, is_member, user_shares_group_with_cert,
  group_shared_cert_ids, get_visible_certs, delete_group,
}
use vaul_tls.Groups.Sharing.{share_other_group, set_group_users-user_shares_group_with_cert}
use vaul_tls.Groups.Visibility.{visibility-agrees, share_group}

abbrev cert_of : ℕ → ℕ → CertificateRow
cert_of id user_id = record {
  id = id;
  name = record { cn = text "a"; ou = none };
  created_on = 0;
  valid_until = 1000;
  bytes = text "x";
  password = [];
  certificate_type = CertificateType.tls_client;
  renew_method = CertificateRenewMethod.notify;
  ca_id = some 1;
  user_id = user_id;
  revoked_at = none;
  acme_provider_id = none;
  acme_account_id = none;
  serial_hex = none;
  version = 1;
  fingerprint = none;
  is_imported = false;
}

abbrev team : Groups
team = record {
  groups = [];
  group_users =
      record { group_id = 1; member_id = 7 } ∷ record { group_id = 2; member_id = 8 } ∷ [];
  group_certs =
      record { group_id = 1; member_id = 30 } ∷ record { group_id = 2; member_id = 31 } ∷ [];
}

abbrev table : List CertificateRow
table = cert_of 30 1 ∷ cert_of 31 1 ∷ cert_of 32 7 ∷ []

visible_to_7 : get_visible_certs 7 team table ≡ cert_of 30 1 ∷ cert_of 32 7 ∷ []
unfolding get_visible_certs
visible_to_7 = refl

removed_user : (delete_group 1 team).group_users ≡ record { group_id = 2; member_id = 8 } ∷ []
unfolding delete_group
removed_user = refl

visibility-agrees_example :
    (user_shares_group_with_cert 7 30 team ≡ share_group 7 30 team)
    × (any (λ id. id == 30) (group_shared_cert_ids 7 team) ≡ user_shares_group_with_cert 7 30 team)
    × (get_visible_certs 7 team table
        ≡ select
            (λ (c : CertificateRow). c.user_id == 7 || user_shares_group_with_cert 7 c.id team)
            table)
visibility-agrees_example = visibility-agrees 7 30 team table

abbrev ops : Group
ops = record { id = 1; name = text "ops"; description = none; created_on = 0 }

abbrev known_team : Groups
known_team = record team { groups = ops ∷ [] }

abbrev anyone : ℕ → Bool
anyone id = true

fitting : members_fit anyone 1 (8 ∷ []) known_team.groups ≡ true
fitting = refl

set_group_users-user_shares_group_with_cert_example :
    (after : Groups) × (set_group_users anyone 1 (8 ∷ []) known_team ≡ some after)
    × (after.groups ≡ known_team.groups)
    × (after.group_certs ≡ known_team.group_certs)
    × (user_shares_group_with_cert 8 30 after ≡ (
        any (is_member 1 30) known_team.group_certs && any (λ id. id == 8) (8 ∷ [])
        || share_other_group 1 8 30 known_team))
set_group_users-user_shares_group_with_cert_example =
    set_group_users-user_shares_group_with_cert anyone 1 8 30 (8 ∷ []) known_team fitting
