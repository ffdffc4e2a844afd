-- ===== src/Lib.antt =====
-- A verification library of the project-management backend.
--
-- The backend is a Go service. Its core logic stands in backend/internal: order keys for lists that
-- are sorted by hand, the authorization matrix and the scope of a caller, and the identity module,
-- whose services run statements of a repository on PostgreSQL inside transactions that
-- backend/cmd/api/main.go opens.
--
-- Files and what they model:
--   Prelude: lists of native numbers, byte strings, tests, and the outcome of Go code (a value, an
--     error, or a run-time panic).
--   Fracdex: backend/internal/fracdex/fracdex.go, one function for each Go function, with the loops of
--     increment, decrement and midpoint as functions of their own. Digit, Order, Integer, Fraction,
--     Midpoint, Split, Parts and Correct prove the parts; Between is the package's contract and Insert
--     the ordered list that its callers keep.
--   Authz: backend/internal/authz/role.go and can.go; Authz/Scope: scope.go. The membership store is a
--     parameter whose answers may be errors.
--   Identity/Base64, Token, Window, Session, Invitation, PasswordReset, Utf8, Password:
--     backend/internal/modules/identity/domain, with base64url and UTF-8 of the standard library as
--     far as it is used.
--   Identity/Failure, Tables, Store: backend/internal/modules/identity/repository. A table is a list
--     of rows, a statement a function of the tables that may fail at any time. Identity/Tables also
--     has inTx of backend/cmd/api/main.go, and Identity/Atomic its theorem.
--   Identity/Service/Reset and ResetRequest, Invitations, Sessions, Credentials, LoginGuard:
--     passwordreset.go, invitation.go, session.go, credentials.go and loginguard.go of
--     backend/internal/modules/identity/service, with their guards in Identity/Service/Guards, and
--     Identity/Text for strings.TrimSpace. Confirm and Accept are split where they read the row and
--     where they stamp it, since another transaction may commit between the two.
--   Redis: the scripts of backend/internal/redis/ratelimit.go and failures.go over an interface of the
--     commands that they call; Redis/Laws says what is relied on of these. Redis/Limiter has the
--     callers, with their keys and the reading of the answers, and the login guard that
--     backend/cmd/api/main.go builds from them. Redis/Hits follows one tier's key through one command
--     after the other, Window through the loops of a script, Bound through any run of scripts.
--   Httpx: clientip.go, ratelimit.go, csrf.go and errors.go of backend/internal/httpx.
--   Identity/Handler: backend/internal/modules/identity/handler and RequireSession of
--     backend/internal/modules/identity/route/route.go. A request comes with its body read or not; a
--     Reply is the status, the session cookie, Retry-After and the body. Auth is auth.go, where the
--     guard, the password and the session meet, Sessions is sessions.go and caller.go.
--   Mail: backend/internal/mail/mail.go; Mail/Smtp: smtp.go, as the conversation with a server that
--     takes or refuses each command after what was said before. Mail/Header reads a message back.
--   Config: backend/internal/config/config.go, from a lookup of variables to a configuration or the
--     list of all problems, Config/Settings for each setting alone; Config/Integer is what it uses of
--     strconv.
--   Server: what backend/cmd/api/main.go decides when it puts the parts together: the options of mail,
--     and the limits around the endpoints, with POST /invitations as a whole.
--
-- Conventions. A Go string is the list of its bytes. A time is a number of nanoseconds, also where it
-- is stored; PostgreSQL keeps microseconds of it. The clock of the application and the clock of the
-- database are two arguments, related only where a theorem says how far one is ahead of the other. A
-- call is given which statements fail in it. An id is the canonical text of a UUID, compared as text.
-- SHA-256, NFKC, Argon2, lower-casing, the reading of a UUID, of a URL and of a mail address, and the
-- random source are parameters or arguments. Transactions are steps one after the other, except
-- where a theorem splits one. A panic in a handler is answered as httpx's Recover does. Durations and
-- the port of a mail server are not negative.
--
-- Bounds and fuel. The only fuel is that of `midpoint`: one more than the length of the upper
-- fraction, which each round shortens by at least a byte; `Fracdex.Midpoint.midpoint_lem` shows that
-- it is enough. All other loops are structural. Headers of order keys are bytes and wrap at 256.
--
-- Not modelled: the middleware that recovers, logs and numbers requests, the probes, the table of
-- routes, the attributes of cookies and the JSON of bodies, migrations and connection pools, starting
-- and stopping the server, which are input and output or wiring; logging.
pub mod Prelude
pub mod Fracdex
pub mod Authz
pub mod Identity
pub mod Redis
pub mod Httpx
pub mod Mail
pub mod Config
pub mod Server
