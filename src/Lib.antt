-- ===== src/Lib.antt =====
-- ky_server_base: a server with local accounts, sign-in through KyIdentity, SCIM provisioning
-- and a SQL store. This library models its store and its migrations (internal/store), its
-- configuration (internal/config), its sign-in and request checks (internal/auth, internal/api,
-- internal/sso), its SCIM handlers (internal/scim/handler.go), its backups and restore drills
-- (internal/backup, internal/api/backup_handlers.go) and the administrators that the command
-- line makes (cmd/server/main.go).
--
-- The parts and their files:
-- - Prelude, Sql, Dict: shared names, and results that end at the first error
--   (Prelude/Checked); statements on a table as functions on a list of rows; a Go map as an
--   association list.
-- - Store/Models: the rows of internal/store/models.go, the errors of internal/store/store.go
--   and the database as a record of tables. Store/Tx: a statement may fail with an error of the
--   database (Io says which statements of a call do), an operation is a function from a
--   database to a result and a database, and a transaction that ends in an error is undone.
-- - Store/Users, Store/Sessions, Store/Groups, Store/Audit: the operations of userStore,
--   sessionStore, groupStore, auditStore and settingsStore of internal/store/sqlstore.go, one
--   function for each, in the order of their statements. Their children hold the lemmas and
--   theorems on: Users/Names (names in any letter case), Users/Cas and Users/Access (the
--   compare-and-swap writes), Sessions/Fences and Sessions/Subjects (logouts and later sign-
--   ins), Sessions/Race (a sign-in and a logout at once, as a step relation),
--   Sessions/Passwords.
-- - Auth/Session: internal/auth/session.go (AuthenticateRequest, ValidateCSRF, issue,
--   RevokeSession). Auth/Pow: internal/auth/pow.go. Auth/ClientIp: internal/auth/clientip.go,
--   from the values of all X-Forwarded-For headers on.
-- - Api/Limiter: allowAttempt and its helpers of internal/api/server.go. Api/Gate: ServeHTTP,
--   requireAdmin and requireAuthenticated of internal/api/server.go, and AuthMiddleware of
--   internal/scim/handler.go. Api/Login: handleLogin of internal/api/auth_handlers.go.
--   Api/Password: handleChangePassword of internal/api/password_handlers.go. Api/Settings:
--   handleGetSettings and handleSetTheme of internal/api/settings_handlers.go. Sign-in and
--   password change take the limiter's windows in seconds.
-- - Scim/Values, Scim/Patch, Scim/Users, Scim/Groups: the readers of attributes, the changes of
--   a user by PUT and PATCH, and the user and group handlers of internal/scim/handler.go.
--   Scim/List: its list of accounts, over Store/Lists (listUsers of
--   internal/store/sqlstore.go).
-- - Sso: LocalRole and AdoptSCIMUser of internal/sso, and handleKySignOnBackchannelLogout of
--   internal/api/sso_handlers.go. Sso/Callback: handleKySignOnCallback of the same file.
--   Sso/Tokens: the checks on ID tokens and logout tokens of internal/sso/oauth.go and
--   internal/sso/backchannel.go.
-- - Config/Env, Config/Values, Config/Load, Config/Proxies: internal/config/config.go (the
--   readers of variables, the structs, LoadFromEnv, ParseTrustedProxies).
-- - Migrations/Schema: tables, rows, indexes and the SQL statements that the scripts use.
--   Migrations/Registry, Migrations/Run, Migrations/Names: the scripts of both drivers, Run and
--   EnsureUsernameIndex of internal/store/migrations/migrations.go.
-- - Cli: runInitAdmin, initAdmin and the start of runServer of cmd/server/main.go.
-- - Backup/Drill, Backup/Payload: Checks of internal/backup/drill.go, Collect and its helpers
--   of internal/backup/payload.go. Api/Backup: the handlers of internal/api/backup_handlers.go
--   that change state (Pairing: pair, pin, unpair, schedule; Capsules: drill with RunDrill of
--   internal/backup/run_drill.go, export, run) and the records they leave.
--
-- How they interact: a handler of Scim/Users is a chain of store calls of Store/Users;
-- Auth/Session calls Store/Sessions and Store/Users; Api/Gate calls Auth/Session; Api/Login
-- calls Api/Limiter, Auth/Pow, the stores and issue; Api/Password calls Api/Limiter,
-- Auth/Session and the session store; Sso/Callback calls Sso, the stores and issue, and takes
-- the claims that Sso/Tokens checks; Cli calls Store/Users and Store/Sessions; Api/Backup calls
-- Auth/Session for the actor, Store/Audit, and Backup/Payload and Backup/Drill. What other
-- requests write between two store calls of a handler is a function on the database, an
-- argument of the model. A time is a number of one unit, and a function that reads the clock
-- takes what it reads.
--
-- Parameters: LOWER, LIKE and the order of texts in the database (Backend), SHA-256, HMAC,
-- number printing and decoding (PowEnv), strings and the filter expression (Strings), addresses
-- (Net), addresses of pages (Site), the environment, key files and number parsing (Os), IP
-- addresses and prefixes (Netip), the file system and SQLite's integrity check (Host), SQLite's
-- snapshots and the files they lie in (Machine), the recovery client (Recovery), password
-- hashing, what the OIDC library decodes of a token. A random draw is an argument.
--
-- Bounds: the limiter's map holds 10000 keys at most; the spent set is pruned from 1024 salts
-- on; a SCIM update makes four passes at most, by recursion on the number of retries left, as
-- the loop of the code does. No other recursion than on lists and this number is used, so every
-- function is total.
--
-- Not modelled: discovery, HTTP clients and SAML of internal/sso, the directory handler and
-- handleBackupStatus of internal/api, internal/crypto, the opening of the database, the other
-- commands of the command line, and the list of groups in SCIM. A row's text encodings, time
-- zones and the size of integers in SQL are left out; of the migrations also the times they are
-- recorded with and the predicate of a partial index.
pub mod Prelude
pub mod Sql
pub mod Dict
pub mod Store
pub mod Api
pub mod Auth
pub mod Backup
pub mod Cli
pub mod Config
pub mod Migrations
pub mod Scim
pub mod Sso
