-- ===== src/Lib.antt =====
-- VaulTLS, an internal certificate authority: its ACME server with its administration, and its
-- management API with sessions, users, service accounts, groups, certificates with their versions and
-- the audit log (the Rust backend, backend/src).
--
-- The parts and their files:
--
-- Base: shared names, lists over the native numbers, tables with a primary key (Tables), results
--   and handlers (Action: the state comes back beside an error too, as SQLite keeps what was written
--   before a handler fails), and lemmas that go through a handler step by step (Outcome).
-- Text: `str` as a list of code points, with the operations of Rust's standard library that the
--   backend calls; Text/Decimal: `parse::<i64>`, `parse::<usize>` and printing, with their bounds
--   2 ^ 63 and 2 ^ 64.
-- Db: the tables as lists of rows and the statements of backend/src/db.rs as functions on them, one
--   definition per function, of the same name. `INSERT` gives the id behind the largest. Rows, Nonces,
--   Accounts, Orders and Certs are the tables of the ACME server and the certificates; Versions is the
--   replacement of a certificate and its history; Users, ServiceAccounts and Audit are the tables
--   that only the management has.
-- Groups: the groups and their members of backend/src/db.rs, and the statements on who sees a
--   certificate; Groups/Sharing and Groups/Visibility prove things of them.
-- Acme: backend/src/acme. Domain is domain.rs; Types and Jws are types.rs and jws.rs; Authenticate is
--   `authenticate_jws` of jws.rs, cut into the part on the nonce, the URL and the `kid`; NewAccount,
--   NewOrder, Challenge, Finalize, Revoke and Urls are the handlers of routes.rs, each whole, with
--   its blocks as helpers; Server is the guards of guard.rs, the routing and the fairing of nonce.rs;
--   Admin is admin.rs. Each handler has a module Rules that lists what it can do, by cases.
-- Acme/Transitions: the writes of the server as a step relation; Acme/System: the histories of
--   requests, administrative calls and the management's writes of certificates; Acme/Soundness: the
--   invariant of the database.
-- Session: backend/src/auth/session_auth.rs, the store of the valid tokens and the guards.
-- Api: backend/src/api.rs. State is the state that the handlers share (`AppState`), the guards before
--   a handler, the audit trail (`record_audit`, `audit_actor`) and the deletions that cascade;
--   Errors is backend/src/data/error.rs. Users has `login`, `setup`, `change_password`, `logout` and
--   the handlers on users; ServiceAccounts those on service accounts and `service_token`; Groups those
--   on groups; AuditLog `get_audit` and `delete_audit`; Certificates the listing, the versions, the
--   password, the download, the deletion and the revocation of a certificate and `delete_ca`; Revocation
--   `revoke_cert_and_update_crl` with what it puts on a CRL or KRL; Import the parsing of uploaded
--   files and the search for the issuing CA; Replace `update_certificate`; Issue
--   `create_user_certificate` and `import_certificate`; Cas `create_ca`, `persist_imported_ca` and
--   the bundle; Chain `download_ca_fullchain`; Validate `validate_certificate`. A handler that has the
--   name of its statement in backend/src/db.rs has another one here: `edit_user`, `remove_user`,
--   `edit_group`, `remove_group`, `put_group_users`, `remove_user_cert`, `remove_version`, `remove_ca`,
--   `get_versions`, `withdraw_service_account`, `remove_service_account`.
-- Api/Calls: the calls that the audit log records, as one data type with one function that runs them.
-- Notifier: backend/src/notification/notifier.rs, a round of `watch_expiry` with the renewals that it
--   starts; Db/AcmeClient: the tables of the ACME client that a renewal uses.
-- Agents: backend/src/agents.rs, the reports of the agents and their listing; the arithmetic of
--   `agent_online` wraps at 2 ^ 64.
-- Metrics: the escaping of backend/src/metrics.rs.
--
-- A request of the ACME protocol reaches Acme/Server, which authenticates it (Authenticate over Jws and
-- the nonce and account tables), calls the handler of the route with the account's id, and lets the
-- fairing add a nonce and sweep the tables. A call of the management API, or of the ACME server's
-- administration, passes a guard of Session first; both revoke through Api/Revocation. The watcher and the
-- replacement by hand write through the same statement of Db/Versions.
--
-- A parameter (Acme/External, `Pki`, `Passwords` and `Env` in Api, `Issuers` in Notifier) is what is not
-- under the repository: serde_json, base64, OpenSSL, ssh-key, Argon2, the network, the random bytes and
-- the clock, which is read once per request; and what is little else than calls of these: the building
-- of certificates in backend/src/certs and the protocol run of backend/src/acme_client/client.rs.
-- `openssl::memcmp::eq` panics on different lengths; a panic is the answer 500. No property assumes
-- anything of these functions.
--
-- Chosen for the model: texts are ASCII; ids and times are natural numbers, where the code's are
-- `i64` that count up from 1970 and from 1, so that a CA without an end, -1 in the code, is `none`;
-- a column with a fixed set of literals is an enumeration and a JSON column is the list that it
-- encodes; a statement fails only on a missing row, or on a key that is there already or a row that
-- is missing where the code can meet one (nonces, versions, members, addresses, client ids); a message
-- with arguments is its format string; the texts of 401, 403 and 404 are left out; `expires` is not
-- printed as a date; requests run one after another, so what two requests do between each other's
-- statements is not covered.
-- Loops are by recursion on a list or a number. The walk up a chain of CAs alone has fuel: two rounds
-- more than there are stored CAs, which is enough, as each round marks another serial number.
--
-- Not modelled: OIDC, the settings, the downloads of stored files, the rest of the metrics, the routes
-- and the protocol run of the ACME client, the mails, the backfills at start-up, the migrations, the
-- agent (api-client) and the front end.
mod Base
pub mod Text
pub mod Api
pub mod Acme
pub mod Db
pub mod Session
pub mod Groups
pub mod Metrics
pub mod Notifier
pub mod Agents
