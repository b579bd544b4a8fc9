-- ===== src/Groups.antt =====
-- Groups and who sees which certificate: `get_visible_certs`, `user_shares_group_with_cert`,
-- `group_shared_cert_ids` and the operations on groups of backend/src/db.rs. The two tables of
-- memberships are lists of pairs. A statement that a constraint refuses is `none`: a name that is
-- taken, a member twice, a group, user or certificate that is not there.
pub mod Visibility
pub mod Sharing
mod Tests
use vaul_tls.Base.{
  ℕ, Bool, true, false, not, ◌&&◌, ◌||◌, Option, none, some, List, [], ◌∷◌, ◌++◌, map, ltb, ◌==◌,
  any, all, length, select, find, update, if◌then◌else◌,
}
use vaul_tls.Base.Tables.{next_id}
use vaul_tls.Text.{Text, text_eq}
use vaul_tls.Db.Rows.{CertificateRow}

-- A row of `group_users` or of `group_certificates`.
pub record Membership : Type 0 where
  pub group_id : ℕ
  pub member_id : ℕ

pub record Group : Type 0 where
  pub id : ℕ
  pub name : Text
  pub description : Option Text
  pub created_on : ℕ

pub record Groups : Type 0 where
  pub groups : List Group
  pub group_users : List Membership
  pub group_certs : List Membership

abbrev pub is_member : ℕ → ℕ → Membership → Bool
is_member group_id member_id m = m.group_id == group_id && m.member_id == member_id

-- The rows of `group_users` that a row of `group_certificates` is joined with, for one user.
abbrev pub joined : ℕ → Groups → Membership → List Membership
joined user_id groups gc = select (is_member gc.group_id user_id) groups.group_users

-- The certificate's id for each row of the join.
abbrev pub joined_certs : ℕ → Groups → List Membership → List ℕ
joined_certs user_id groups [] = []
joined_certs user_id groups (gc ∷ rest) =
    map (λ (gu : Membership). gc.member_id) (joined user_id groups gc)
    ++ joined_certs user_id groups rest

-- `COUNT(*) > 0`
unfoldable pub user_shares_group_with_cert : ℕ → ℕ → Groups → Bool
user_shares_group_with_cert user_id cert_id groups = ltb 0 (
    length
      (joined_certs user_id groups (select (λ gc. gc.member_id == cert_id) groups.group_certs)))

-- `DISTINCT` leaves the first of equal ids.
abbrev pub distinct : List ℕ → List ℕ
distinct [] = []
distinct (n ∷ rest) = n ∷ select (λ m. not (m == n)) (distinct rest)

unfoldable pub group_shared_cert_ids : ℕ → Groups → List ℕ
group_shared_cert_ids user_id groups = distinct (joined_certs user_id groups groups.group_certs)

-- Owned, or in the subquery.
unfoldable pub get_visible_certs : ℕ → Groups → List CertificateRow → List CertificateRow
get_visible_certs user_id groups certs =
    select
      (λ c.
        c.user_id == user_id
        || any (λ id. id == c.id) (joined_certs user_id groups groups.group_certs))
      certs

-- The primary key: no member twice.
abbrev pub all_distinct : List ℕ → Bool
all_distinct [] = true
all_distinct (n ∷ rest) = not (any (λ m. m == n) rest) && all_distinct rest

abbrev pub set_members : ℕ → List ℕ → List Membership → List Membership
set_members group_id ids rows =
    select (λ m. not (m.group_id == group_id)) rows
    ++ map (λ id. record { group_id = group_id; member_id = id }) ids

abbrev pub has_group_id : ℕ → Group → Bool
has_group_id id g = g.id == id

-- The constraints of the rows that are inserted: `known` tells the members that exist.
abbrev pub members_fit : (ℕ → Bool) → ℕ → List ℕ → List Group → Bool
members_fit known group_id ids groups =
    all_distinct ids && all (λ id. any (has_group_id group_id) groups && known id) ids

-- A failure rolls the transaction back.
unfoldable pub set_group_users : (ℕ → Bool) → ℕ → List ℕ → Groups → Option Groups
set_group_users known group_id ids groups =
    if members_fit known group_id ids groups.groups
    then some (record groups { group_users = set_members group_id ids groups.group_users })
    else none

unfoldable pub set_group_certs : (ℕ → Bool) → ℕ → List ℕ → Groups → Option Groups
set_group_certs known group_id ids groups =
    if members_fit known group_id ids groups.groups
    then some (record groups { group_certs = set_members group_id ids groups.group_certs })
    else none

-- The foreign keys cascade.
unfoldable pub delete_group : ℕ → Groups → Groups
delete_group group_id groups = record {
  groups = select (λ g. not (g.id == group_id)) groups.groups;
  group_users = select (λ m. not (m.group_id == group_id)) groups.group_users;
  group_certs = select (λ m. not (m.group_id == group_id)) groups.group_certs;
}

abbrev pub group_id_of : Group → ℕ
group_id_of g = g.id

unfoldable pub insert_group : Text → Option Text → ℕ → Groups → Option (Group × Groups)
insert_group name description created_on groups =
    let group : Group = record {
      id = next_id group_id_of groups.groups;
      name = name;
      description = description;
      created_on = created_on;
    } in
    if any (λ (g : Group). text_eq g.name name) groups.groups
    then none
    else some (group, record groups { groups = groups.groups ++ group ∷ [] })

-- The name of another group is refused, if there is a group to write.
unfoldable pub update_group : ℕ → Text → Option Text → Groups → Option Groups
update_group id name description groups =
    if any (has_group_id id) groups.groups
      && any (λ (g : Group). not (g.id == id) && text_eq g.name name) groups.groups
    then none
    else some (record groups {
      groups =
          update (has_group_id id) (λ g. record g { name = name; description = description })
            groups.groups;
    })

pub record GroupDetail : Type 0 where
  pub group : Group
  pub user_ids : List ℕ
  pub certificate_ids : List ℕ

abbrev pub members_of : ℕ → List Membership → List ℕ
members_of id rows = map (λ (m : Membership). m.member_id) (select (λ m. m.group_id == id) rows)

unfoldable pub get_group_detail : ℕ → Groups → Option GroupDetail
get_group_detail id groups = elim (find (has_group_id id) groups.groups) [
  | none ↦ none
  | some group ↦ some (record {
    group = group;
    user_ids = members_of id groups.group_users;
    certificate_ids = members_of id groups.group_certs;
  })
]
