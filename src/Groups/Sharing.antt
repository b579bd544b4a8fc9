-- ===== src/Groups/Sharing.antt =====
-- What the members of a group are once they are set.
use vaul_tls.Base.{
  ℕ, ◌≡◌, refl, ◌∙◌, Bool, true, not, ◌&&◌, ◌||◌, some, List, [], ◌∷◌, map, ◌==◌, any, select,
  Bool-cases, inl, inr, arith,
}
use vaul_tls.Groups.{
  Groups, Membership, is_member, set_members, members_fit, set_group_users,
  user_shares_group_with_cert,
}
use vaul_tls.Groups.Visibility.{visibility-agrees, any-append}

-- The rows of the group are gone, those of other groups are kept.
any-kept :
    (k j m : ℕ) (rows : List Membership)
    → any (is_member j m) (select (λ r. not (r.group_id == k)) rows)
      ≡ (not (j == k) && any (is_member j m) rows)
any-kept k j m [] = ground arith
any-kept k j m (r ∷ rows) = elim (Bool-cases (r.group_id == k)) [
  | inl same ↦ rw same (ground (arith, any-kept k j m rows))
  | inr other ↦ rw other (ground (arith, any-kept k j m rows))
]

any-written :
    (k j m : ℕ) (ids : List ℕ)
    → any (is_member j m) (map (λ id. record { group_id = k; member_id = id }) ids)
      ≡ (j == k && any (λ id. id == m) ids)
any-written k j m [] = ground arith
any-written k j m (id ∷ ids) = ground (arith, any-written k j m ids)

any-set_members :
    (k j m : ℕ) (ids : List ℕ) (rows : List Membership)
    → any (is_member j m) (set_members k ids rows)
      ≡ (not (j == k) && any (is_member j m) rows || j == k && any (λ id. id == m) ids)
any-set_members k j m ids rows =
    any-append (is_member j m) (select (λ r. not (r.group_id == k)) rows)
      (map (λ id. record { group_id = k; member_id = id }) ids)
    ∙ rw (any-kept k j m rows, any-written k j m ids) refl

-- A group other than `k` that both belong to.
abbrev pub share_other_group : ℕ → ℕ → ℕ → Groups → Bool
share_other_group k user_id cert_id groups =
    any
      (λ (gc : Membership).
        not (gc.group_id == k)
        && (gc.member_id == cert_id && any (is_member gc.group_id user_id) groups.group_users))
      groups.group_certs

module _ (k user_id cert_id : ℕ) (ids : List ℕ) (users : List Membership) where
  -- The row of one certificate, before and after.
  regroup :
      (g m : ℕ)
      → (m == cert_id && any (is_member g user_id) (set_members k ids users)) ≡ (
          m == cert_id && (not (g == k) && any (is_member g user_id) users)
          || (m == cert_id && (g == k && any (λ id. id == user_id) ids)))
  regroup g m = rw (any-set_members k g user_id ids users) (ground arith)

  share-set_members :
      (gcs : List Membership)
      → any
          (λ (gc : Membership).
            gc.member_id == cert_id
            && any (is_member gc.group_id user_id) (set_members k ids users))
          gcs
        ≡ (any (is_member k cert_id) gcs && any (λ id. id == user_id) ids
            || any
                (λ (gc : Membership).
                  not (gc.group_id == k)
                  && (gc.member_id == cert_id && any (is_member gc.group_id user_id) users))
                gcs)
  share-set_members [] = refl
  share-set_members (gc ∷ gcs) =
      rw (regroup gc.group_id gc.member_id, share-set_members gcs) (ground arith)

-- Where no user is named twice, and the group and each of the users exist, the users of a group are
-- set. A user then shares a group with a certificate exactly if the user is one of those and the
-- certificate is in that group, or if they had another group in common. The groups and the
-- certificates in them are as before.
pub set_group_users-user_shares_group_with_cert :
    (known : ℕ → Bool) (k user_id cert_id : ℕ) (ids : List ℕ) (groups : Groups)
    → members_fit known k ids groups.groups ≡ true
    → (after : Groups) × (set_group_users known k ids groups ≡ some after)
      × (after.groups ≡ groups.groups)
      × (after.group_certs ≡ groups.group_certs)
      × (user_shares_group_with_cert user_id cert_id after ≡ (
          any (is_member k cert_id) groups.group_certs && any (λ id. id == user_id) ids
          || share_other_group k user_id cert_id groups))
unfolding set_group_users
set_group_users-user_shares_group_with_cert known k user_id cert_id ids groups fits = (
  record groups { group_users = set_members k ids groups.group_users },
  rw fits refl,
  refl,
  refl,
  (visibility-agrees user_id cert_id
        (record groups { group_users = set_members k ids groups.group_users }) []).0
      ∙ share-set_members k user_id cert_id ids groups.group_users groups.group_certs,
)
