-- ===== src/Lib.antt =====
-- Perchtail is a server that browses log files on remote sources: a rule chain says which paths of a
-- source are visible, roles and grants say who may see a source, and an audit log records who did what.
-- This library models the core of backend/app and proves what makes it correct. The tables of the
-- database are lists of records, a request handler is a function from the tables to an outcome of
-- `Run` (a value, an HTTP error, an exception, or a loop out of fuel), and a job or an in-memory
-- store is a function on its state.
--
-- - Model: the rows and enums of backend/app/models.py and backend/app/auth/models.py.
-- - Rules: backend/app/rules.py. `Rules.Glob` has `_compile_glob` and the match of its result,
--   `Rules.Segments` the folder analysis `_glob_could_match_below` and
--   `_glob_covers_everything_below`, `Rules` itself `is_visible`, `is_dir_visible` and
--   `is_entry_visible`. The other modules below Rules hold the proofs.
-- - Paths: `is_safe_relative_path` and `is_safe_windows_relative_path` of backend/app/rules.py, which
--   guard what reaches the rules.
-- - Rbac: backend/app/auth/rbac.py, which every handler asks. `Rbac.Boundary` has
--   `FolderVisibilityContext` and `folder_path_boundary`.
-- - FoldersApi: backend/app/api/folders.py, the handlers that change the folder tree that the loops
--   of Rbac climb.
-- - RolesApi: backend/app/api/roles.py, the handlers that change roles and grants.
-- - LoginThrottle: backend/app/login_throttle.py.
-- - Sessions: backend/app/auth/sessions.py.
-- - Audit: the hash chain of backend/app/audit_hash_chain.py, its writer backend/app/audit.py and the
--   sweep of backend/app/audit_purge.py. `Audit.Walk` and `Audit.Verify` have the verification of
--   backend/app/audit_integrity.py, and Json what backend/app/json_values.py reads of the metadata.
-- - Scratch: backend/app/scratch.py.
-- - Agents: backend/app/agent_registry.py and the receive loop of backend/app/api/agent_ws.py.
--   `Agents.Chunks` has the streamed fetches and the commands; an `Event` of `Agents.Loop` is what the
--   event loop runs between two awaits: a connection made or lost, a message taken, a chunk written, a
--   command sent, a sender that stops waiting.
-- - Mfa: backend/app/auth/mfa.py.
-- - AuthEvents: backend/app/auth_events.py, failed logins in the audit log with repeats folded.
-- - Login: the login of backend/app/api/auth.py with `authenticate` and `complete_login` of
--   backend/app/auth/providers/local.py, which joins LoginThrottle, AuthEvents, Mfa and
--   Sessions. `Login.SelfService` has the logout and the changes that users make on their own account.
-- - UsersApi: backend/app/api/users.py with `create_local_user` of backend/app/auth/providers/local.py,
--   on top of Rbac and Sessions.
-- - Archive: opening, downloading and closing a file in backend/app/api/archive.py, with the member
--   names and the limit of backend/app/archives.py in `Archive.Names`. It asks Paths and Rules before
--   a fetch and holds the copy in Scratch.
-- - Prelude, Run and Samples: lists, tables and tests on native numbers, outcomes, and test data.
--
-- The loops that climb the folders take fuel. A `Chain` of folders gives the number of rounds that is
-- enough, and in a forest, which the folder handlers keep, every folder has one. All else is
-- structural recursion. Numbers are natural; a comparison of a difference in the source is written
-- as a comparison of sums.
--
-- Parameters stand for library code: the RE2 search and the case folding (`Engine`), the keyed
-- HMAC-SHA256 (`digest`), SHA-256 (`sha256`), the match of the 8.3 short names, the TOTP codes and
-- argon2 hashes (`Mfa.Engine`), base64 (`decode`), and what a source and the archive libraries answer
-- (`Archive.Connector`); `Login.Env` has the clocks, argon2 and the drawn token. A lock or a
-- transaction makes an operation one step, so interleavings are sequences of operations.
--
-- Not modelled: the collectors, which are input and output; browsing, the folder ZIP and sources with
-- several roots; the search index, alerts, configuration transfer, customers, rules and sources
-- among the handlers of backend/app/api; cookies, single sign-on, settings, credentials,
-- log rotation and the set-up of the application; `parse_pattern`, which asks RE2 whether a pattern
-- compiles; the labels that `audit_labels` adds to an entry's metadata, which are part of the
-- metadata here.
pub mod Prelude
pub mod Model
pub mod Samples
pub mod Rules
pub mod Run
pub mod Rbac
pub mod FoldersApi
pub mod RolesApi
pub mod LoginThrottle
pub mod Json
pub mod Audit
pub mod Scratch
pub mod Sessions
pub mod Paths
pub mod Agents
pub mod AuthEvents
pub mod Mfa
pub mod Login
pub mod UsersApi
pub mod Archive
