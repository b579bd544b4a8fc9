-- ===== src/Db/Nonces.antt =====
-- The nonce table: `insert_acme_nonce`, `validate_and_delete_nonce` and `cleanup_old_nonces` of
-- backend/src/db.rs.
use vaul_tls.Base.{ℕ, ◌+◌, Bool, not, ◌&&◌, [], ◌∷◌, ◌++◌, ltb, leb, any, select, if◌then◌else◌}
use vaul_tls.Text.{Text, text_eq}
use vaul_tls.Db.Rows.{Db, NonceRow}

-- One hour in milliseconds.
abbrev pub nonce_ttl : ℕ
nonce_ttl = 3_600_000

-- `created_on > now - ttl`
abbrev pub is_fresh : ℕ → NonceRow → Bool
is_fresh now row = ltb now (row.created_on + nonce_ttl)

-- The column is a primary key: an insertion of a nonce that is there fails, and the caller drops the
-- error.
unfoldable pub insert_acme_nonce : ℕ → Text → Db → Db
unfolding text_eq
insert_acme_nonce now nonce db = record db {
  nonces =
      if any (λ row. text_eq row.nonce nonce) db.nonces
      then db.nonces
      else db.nonces ++ record { nonce = nonce; created_on = now } ∷ [];
}

abbrev pub spends : ℕ → Text → NonceRow → Bool
spends now nonce row = text_eq row.nonce nonce && is_fresh now row

-- Whether a row was deleted, and the database without the rows that were.
unfoldable pub validate_and_delete_nonce : ℕ → Text → Db → Bool × Db
validate_and_delete_nonce now nonce db = (
  any (spends now nonce) db.nonces,
  record db { nonces = select (λ row. not (spends now nonce row)) db.nonces },
)

-- `created_on < now - ttl` is deleted.
unfoldable pub cleanup_old_nonces : ℕ → Db → Db
cleanup_old_nonces now db = record db {
  nonces = select (λ row. leb now (row.created_on + nonce_ttl)) db.nonces;
}
