-- ===== src/Lib.antt =====
-- The security core of fief, the authentication server: its lockout, second factor, rate limits,
-- sessions, login, authorize and consent pages, token endpoint, passkeys, accounts and their roles. Paths are from
-- the repository's root.
--
-- Models (with Models/Audit): the rows of fief/models that the code reads and writes, and `World`, the
-- database of one deployment with the audit lines and the background tasks sent so far. A datetime is
-- its count of microseconds; primary keys are numbers. Prelude: Boolean tests, keyed tables
-- (Prelude/Keyed) and rows with WHERE clauses (Prelude/Rows). Every operation takes the instant at
-- which it runs and the world, and gives its result with the next world; an exception is a constructor
-- of a result type.
--
-- Lockout: fief/services/security/account_lockout.py with fief/repositories/user_lockout.py:
-- `check_locked`, `record_failed` and `reset` as they are named there.
-- Totp: fief/services/security/totp.py and mfa_state.py with fief/repositories/user_totp_secret.py:
-- `begin_enrollment`, `confirm_enrollment`, `verify`, `disable`, `recompute_mfa_enabled`. pyotp, Fernet
-- and the QR renderer are the operations of the record `Otp`.
-- Recovery: fief/services/security/recovery_codes.py: `generate_for` and `consume`. The drawn codes and
-- the bcrypt hasher are parameters; the loop runs on the code's own bound of fifty attempts.
-- RateLimit: fief/services/security/rate_limiter.py: `check`. Redis is the interface `SortedSets`, with
-- the documented laws of its commands; RateLimit/Tests has an implementation in memory.
-- Flow (with Flow/Revoke, Flow/Devices and Flow/Response): sessions of
-- fief/services/authentication_flow.py, the device list and the revocations of
-- fief/services/security/device_sessions.py; what a handler answers with.
-- Challenge (with Challenge/Handlers and Challenge/Recover): /mfa/totp and /mfa/recover of
-- fief/apps/auth/routers/auth.py, with the gate, the attempt counter and the self-heal; Challenge/Attempts
-- follows a login session through wrong codes and logins.
-- Login (with Login/Fresh): /login of the same file, with `authenticate` of
-- fief/services/user_manager.py and the lookup of fief/repositories/user.py, which raises where two
-- users share an address. It calls the
-- limiter, Lockout and Flow, and leaves the pending user for the gate of Challenge. Login/Logout:
-- /logout of the same file.
-- Token: fief/dependencies/token.py and fief/apps/auth/routers/token.py: `token` validates the grant,
-- issues, and then deletes the presented row, as the dependency does after its `yield`. Token/SingleUse
-- follows a code through a sequence of events.
-- Flow/Current: who a request is, fief/dependencies/session_token.py and `get_login_session` of
-- fief/dependencies/auth.py. Authorize: the parameter checks of fief/dependencies/auth.py, in the order
-- in which the framework resolves them, and /authorize of fief/apps/auth/routers/auth.py, which stores
-- the login session that Login, Challenge and Consent read. Consent: /consent of the same file, the
-- grants and the codes that Token redeems. `str.split`, the token hash and the signed branding origin
-- are parameters.
-- ClientAddress: fief/dependencies/client_ip.py, whose two texts are the addresses of Flow's
-- `RequestInfo`; the module `ipaddress` is a parameter. BrandingOrigin:
-- fief/services/branding/origin_verifier.py, which stands behind the `verified_origin` of Authorize;
-- both work on lists of code points.
-- Roles: fief/services/user_roles.py, fief/services/user_role_permissions.py, the tasks of
-- fief/tasks/user_roles.py and fief/tasks/roles.py, and (Roles/Endpoints) the API routes that change
-- roles and permissions. A request leaves tasks in the queue; `drain` is the worker, `settle_all` a
-- sequence of requests with the worker's turn after each. Its tables are those of `RoleStore`, apart
-- from `World`, since no handler of the login core reads them; Roles/Defaults is about a new user.
-- Passkeys (with Passkeys/Routes): fief/services/security/webauthn.py with
-- fief/repositories/user_webauthn_credential.py, and /mfa/passkey and /mfa/passkey/verify of
-- fief/apps/auth/routers/auth.py. The WebAuthn library is the record `Ceremonies`, Redis is `KeyValue`.
-- BreachedPasswords: fief/services/security/breached_passwords.py over `Corpus`, the range API with its
-- cache. Users (with Users/Passwords and Users/Create): fief/services/user_manager.py,
-- fief/services/password.py and fief/repositories/email_verification.py. `create` asks
-- BreachedPasswords, stores the row and then calls `add_default_roles` of Roles, whose store it carries
-- beside `World`; `reset_password` and the verifications work on the tables of `World`. Users/Routes:
-- /forgot of fief/apps/auth/routers/reset.py and /verify-link, over the limiter of RateLimit.
-- Samples and the Tests modules: concrete data.
--
-- No function needs fuel but the code's own bounds. Not modelled: the registration pages, OAuth
-- providers, the rest of the admin API, the dashboards, what the tokens of a hybrid response hold, the
-- command line, templates, webhooks and e-mail; the signing of tokens, a library's work; the concurrency of requests (each runs in one
-- step, and so does a task) and the latency floor of failures, which changes no state.
pub mod Prelude
pub mod Models
pub mod Lockout
pub mod Totp
pub mod Recovery
pub mod RateLimit
pub mod Flow
pub mod Challenge
pub mod BrandingOrigin
pub mod BreachedPasswords
pub mod Users
pub mod ClientAddress
pub mod Login
pub mod Passkeys
pub mod Authorize
pub mod Samples
pub mod Token
pub mod Consent
pub mod Roles
