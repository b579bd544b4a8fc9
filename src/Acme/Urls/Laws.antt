-- ===== src/Acme/Urls/Laws.antt =====
-- What the server prints into a URL it reads back.
use vaul_tls.Base.{ℕ, ◌-◌, ◌^◌, ◌≤◌, ◌≡◌, arith}
use vaul_tls.Base.Result.{ok}
use vaul_tls.Text.{Text}
use vaul_tls.Text.Laws.{split_once-append, strip_prefix-append}
use vaul_tls.Text.Decimal.{show, pos, parse_i64-show, parse_usize-show, contains-show}
use vaul_tls.Acme.Urls.{authz_id, parse_authz_id, account_prefix, account_url, parse_kid}

-- The id of an authorization reads back as its order and its index, for ids in the range of `i64`
-- and indices in that of `usize`.
pub parse_authz_id-authz_id :
    (order_id domain_idx : ℕ)
    → order_id ≤ 2 ^ 63 - 1
    → domain_idx ≤ 2 ^ 64 - 1
    → parse_authz_id (authz_id order_id domain_idx) ≡ ok (pos order_id, domain_idx)
unfolding authz_id parse_authz_id
parse_authz_id-authz_id order_id domain_idx h k =
    let dash = contains-show b'-' order_id (omega arith) in
    ground (
      arith,
      split_once-append b'-' (show order_id) (show domain_idx) dash,
      parse_i64-show order_id h,
      parse_usize-show domain_idx k,
    )

-- The URL of an account, used as a `kid`, reads back as the account's id.
pub parse_kid-account_url :
    (base : Text) (id : ℕ) → id ≤ 2 ^ 63 - 1 → parse_kid base (account_url base id) ≡ ok (pos id)
unfolding account_url parse_kid
parse_kid-account_url base id h =
    rw (strip_prefix-append (account_prefix base) (show id), parse_i64-show id h)
