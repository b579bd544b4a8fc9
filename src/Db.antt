-- ===== src/Db.antt =====
-- The tables of the SQLite database (backend/migrations) that the model covers, a record for each
-- row type of backend/src/data/objects.rs, backend/src/certs/common.rs and
-- backend/src/acme/types.rs. A table is the list of its rows in the order of insertion. Times are
-- milliseconds since 1970 and ids are row ids, both natural numbers. Status columns hold a fixed
-- set of literals and are enumerations; the JSON column `identifiers` is the list that it encodes.
pub mod Rows
pub mod Nonces
pub mod Accounts
pub mod Orders
pub mod Certs
pub mod Versions
pub mod Users
pub mod ServiceAccounts
pub mod Audit
pub mod AcmeClient
