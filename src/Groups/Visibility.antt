-- ===== src/Groups/Visibility.antt =====
-- The three statements that say what a user sees, against one description.
use vaul_tls.Base.{
  ℕ, ◌≡◌, refl, sym, ap, ◌∙◌, Bool, false, not, ◌&&◌, ◌||◌, List, [], ◌∷◌, ◌++◌, map, ltb, ◌==◌,
  any, length, select, Bool-cases, inl, inr, arith,
}
use vaul_tls.Db.Rows.{CertificateRow}
use vaul_tls.Groups.{
  Membership, Groups, is_member, joined, joined_certs, user_shares_group_with_cert,
  group_shared_cert_ids, get_visible_certs, distinct,
}

-- A group that both belong to.
abbrev pub share_group : ℕ → ℕ → Groups → Bool
share_group user_id cert_id groups =
    any
      (λ (gc : Membership).
        gc.member_id == cert_id && any (is_member gc.group_id user_id) groups.group_users)
      groups.group_certs

pub any-append {ℓ} :
    {A : Type ℓ} (p : A → Bool) (xs ys : List A) → any p (xs ++ ys) ≡ (any p xs || any p ys)
any-append p [] ys = refl
any-append p (x ∷ xs) ys = ground (arith, any-append p xs ys)

-- Copies of one id, one for each row that passes a test.
any-copies :
    (id k : ℕ) (p : Membership → Bool) (ms : List Membership)
    → any (λ n. n == k) (map (λ (m : Membership). id) (select p ms)) ≡ (id == k && any p ms)
any-copies id k p [] = ground arith
any-copies id k p (m ∷ ms) = elim (Bool-cases (p m)) [
  | inl e ↦ rw e (ground (arith, any-copies id k p ms))
  | inr e ↦ rw e (any-copies id k p ms)
]

any-joined_certs :
    (user_id cert_id : ℕ) (groups : Groups) (gcs : List Membership)
    → any (λ n. n == cert_id) (joined_certs user_id groups gcs)
      ≡ any
          (λ (gc : Membership).
            gc.member_id == cert_id && any (is_member gc.group_id user_id) groups.group_users)
          gcs
any-joined_certs user_id cert_id groups [] = refl
any-joined_certs user_id cert_id groups (gc ∷ gcs) =
    any-append (λ n. n == cert_id)
      (map (λ (gu : Membership). gc.member_id) (joined user_id groups gc))
      (joined_certs user_id groups gcs)
    ∙ rw
        (
          any-copies gc.member_id cert_id (is_member gc.group_id user_id) groups.group_users,
          any-joined_certs user_id cert_id groups gcs,
        )
        refl

any-remove :
    (n k : ℕ) (xs : List ℕ)
    → (n == k) ≡ false
    → any (λ m. m == k) (select (λ m. not (m == n)) xs) ≡ any (λ m. m == k) xs
any-remove n k [] e = refl
any-remove n k (x ∷ xs) e = elim (Bool-cases (x == n)) [
  | inl same ↦ rw same (ground (arith, any-remove n k xs e))
  | inr other ↦ rw other (ground (arith, any-remove n k xs e))
]

any-distinct : (k : ℕ) (xs : List ℕ) → any (λ m. m == k) (distinct xs) ≡ any (λ m. m == k) xs
any-distinct k [] = refl
any-distinct k (n ∷ xs) = elim (Bool-cases (n == k)) [
  | inl hit ↦ rw hit refl
  | inr miss ↦ rw miss (any-remove n k (distinct xs) miss ∙ any-distinct k xs)
]

length-copies :
    (id : ℕ) (ys : List ℕ) (p : Membership → Bool) (ms : List Membership)
    → ltb 0 (length (map (λ (m : Membership). id) (select p ms) ++ ys))
      ≡ (any p ms || ltb 0 (length ys))
length-copies id ys p [] = refl
length-copies id ys p (m ∷ ms) = elim (Bool-cases (p m)) [
  | inl e ↦ rw e (ground arith)
  | inr e ↦ rw e (length-copies id ys p ms)
]

count-share :
    (user_id cert_id : ℕ) (groups : Groups) (gcs : List Membership)
    → ltb 0 (length (joined_certs user_id groups (select (λ gc. gc.member_id == cert_id) gcs)))
      ≡ any
          (λ (gc : Membership).
            gc.member_id == cert_id && any (is_member gc.group_id user_id) groups.group_users)
          gcs
count-share user_id cert_id groups [] = refl
count-share user_id cert_id groups (gc ∷ gcs) = elim (Bool-cases (gc.member_id == cert_id)) [
  | inl e ↦ rw e (
      length-copies gc.member_id _ (is_member gc.group_id user_id) groups.group_users
      ∙ ap (λ b. any (is_member gc.group_id user_id) groups.group_users || b)
          (count-share user_id cert_id groups gcs))
  | inr e ↦ rw e (count-share user_id cert_id groups gcs)
]

select-same {ℓ} :
    {A : Type ℓ} (p q : A → Bool) (xs : List A) → ((x : A) → p x ≡ q x) → select p xs ≡ select q xs
select-same p q [] h = refl
select-same p q (x ∷ xs) h = rw (h x, select-same p q xs h) refl

-- The test of one certificate, the ids of all shared certificates and the listing agree: the test
-- holds exactly where the user and the certificate have a group in common, the ids are those for
-- which it holds, and the listing has the certificates that the user owns or shares a group with, in
-- the order of the table.
pub visibility-agrees :
    (user_id cert_id : ℕ) (groups : Groups) (certs : List CertificateRow)
    → (user_shares_group_with_cert user_id cert_id groups ≡ share_group user_id cert_id groups)
      × (any (λ id. id == cert_id) (group_shared_cert_ids user_id groups)
          ≡ user_shares_group_with_cert user_id cert_id groups)
      × (get_visible_certs user_id groups certs
          ≡ select
              (λ (c : CertificateRow).
                c.user_id == user_id || user_shares_group_with_cert user_id c.id groups)
              certs)
unfolding user_shares_group_with_cert group_shared_cert_ids get_visible_certs
visibility-agrees user_id cert_id groups certs = (
  count-share user_id cert_id groups groups.group_certs,
  any-distinct cert_id (joined_certs user_id groups groups.group_certs)
      ∙ any-joined_certs user_id cert_id groups groups.group_certs
      ∙ sym (count-share user_id cert_id groups groups.group_certs),
  select-same _ _ certs (λ c.
      ap (λ b. c.user_id == user_id || b)
        (any-joined_certs user_id c.id groups groups.group_certs
          ∙ sym (count-share user_id c.id groups groups.group_certs))),
)
