-- ===== src/Lib.antt =====
-- Shauth: models and theorems of the single sign-on service and of its gateway.
--
-- The gateway (internal/gateway) signs a browser in with an OpenID Connect provider, keeps an
-- application session in a database, and proxies requests that carry one. The identity store
-- (internal/identity) keeps accounts, browser sessions, their correlation with provider sessions and
-- the durable grants of a logout. Both log through internal/observe, and internal/app counts the
-- requests served.
--
-- Common holds the shared parts: tests and equality, lists, tables of rows, and fallible steps over
-- a database. A transaction publishes its rows only when its step succeeds and its commit does; a
-- commit may be done with its answer lost. Every statement has a site, and a function from sites
-- says which calls the database answers, so each theorem holds for every pattern of failures.
--
-- * Gateway.Store is internal/gateway/store.go: Create, Find, RevokeToken,
--   RevokeFrontchannelSession and RevokeProviderSession, with their sweeps of dead rows. Times are
--   microseconds. Ciphers, hashes, the encoding of additional data and the database's text of a
--   UUID are a record of parameters with one law: opening what was sealed gives it back. A history is a list of whole operations
--   of any gateways on the database: the advisory lock makes the conflicting ones exclusive.
-- * Gateway.Config is internal/gateway/config.go: Load, its checks and the pattern of releases.
-- * Gateway.Server is internal/gateway/server.go: login, callback, session, logout, frontchannelLogout,
--   backchannelLogout, currentSession and requireSession. The OpenID Connect client, base64, JSON
--   and URL parsing are parameters, and so is each reading of the clock.
-- * Identity.Policy is internal/identity/session_policy.go and the stored policy. Its durations are
--   nanoseconds, and the product of a stored column and a second wraps at 64 bits.
-- * Identity.Rows has the tables and Identity.Sessions the operations on accounts and browser
--   sessions of internal/identity/store.go; a history of them (Identity.Sessions.History) is a list
--   of sign-ins, reads, disabling, enabling, revocations, revalidations, correlations with provider
--   sessions and policy changes. Identity.Grants has its logout correlation grants.
-- * Identity.Accounts is the ways to get an account in internal/identity/store.go: invitations,
--   CreatePasswordUser and AuthenticatePassword, and in Accounts.Federation FindOrCreateGitHubUser and
--   FindOrCreateEntraUser. Each has its tables with the unique columns that the database checks.
--   Accounts.History is the histories of the operations on invitations and password accounts (and
--   Accounts.Used what they keep); the
--   sign-ins of Accounts.Federation leave the invitations alone and are not in it.
-- * Identity.Validation is the validation runs of managed applications in internal/identity/store.go,
--   from the queue to the result: ClaimAppValidation, CompleteAppValidation,
--   ExpireAbandonedAppValidation, EnqueueAppValidations, validationWitness and truncateUTF8. A
--   predicate says which rows other transactions have locked; identifiers are chosen at random.
-- * Github is internal/github/teams.go: Teams, Organizations, IsMember and primaryVerifiedEmail.
-- * Observe is internal/observe/log.go, the ring of recent lines.
-- * App.TokenHook is internal/app/token_hook.go over the tables of Identity.Rows: the guards of
--   hydraTokenHook in their order and the claims that it returns.
-- * App.Traffic is internal/app/traffic.go, the counters of requests.
--
-- Loops are structural recursion, and need no fuel; only the loop over GitHub's pages has fuel, one
-- for each request, since it goes on for as long as the server answers full pages. Clock values and counters are natural
-- numbers; the log's sequence number, the number of requests in flight and the durations of a stored policy
-- keep their 64 bits.
-- Concurrent transactions are ordered as whole operations; isolation below that is the database's.
-- Not modelled: HTML and HTTP plumbing, the administration and observability endpoints,
-- migrations, network clients, deployment.
pub mod Common
pub mod Gateway
pub mod Identity
pub mod Observe
pub mod App
pub mod Github
