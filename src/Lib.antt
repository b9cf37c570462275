-- ===== src/Lib.antt =====
-- Orkai's API server and worker: deploys of applications and pages, organizations, accounts, access
-- control, keys, the job queue, alerts.
--
-- Orkai is a platform that builds and runs applications. The API server (apps/api/cmd/server)
-- answers requests; the worker (apps/api/cmd/worker) reads jobs from a queue in PostgreSQL and runs
-- them. Both act on one database through the repositories of apps/api/internal/store/pg. A deploy
-- crosses all of them: `Trigger` writes a deployment and enqueues a job, the worker dispatches the
-- job, `RunDeployJob` builds, deploys and records the outcome, and `Cancel` sets a flag that the job
-- looks for. Who may ask for any of this is decided by the middleware (sessions and API keys) and by
-- the guards (which project a resource belongs to, and who may reach that project).
--
-- How code is modelled
--   Result, Exec      Go's errors, and methods that change a state and may fail: what was written
--                     before an error stays written. Exec/Preserves, Exec/Yields and Exec/Triple are the
--                     rules for invariants, for actions that never fail, and for what holds on the
--                     two ways out. The text of an error (`%v`, `err.Error()`) is a parameter of
--                     the code that writes it to a log.
--   World             the database as lists of rows, the clock, the notifications handed over, the
--                     state of a job's context, and `faults`: which of the next round trips fail. A
--                     theorem without a condition on `faults` holds whichever queries fail. A
--                     transaction (`Store.Tx`) is `tx`, and World/Atomic shows it to be atomic.
--   Model             the structs of apps/api/internal/model and apps/api/internal/jobs/jobs.go,
--                     by the fields that the modelled code reads or writes.
--   Store             apps/api/internal/store/pg and apps/api/internal/jobs/queue.go: one function
--                     for each query. A row with `deleted_at` is invisible, and UPDATE of a model
--                     writes every column, as bun does.
--
-- The components
--   Deploy            apps/api/internal/service/deploy_service.go and build_service.go: Trigger,
--                     Cancel, Rollback, RunDeployJob, executeDeploy (Build is its first stage,
--                     Execute the rest). The builder, the registry's credentials and the deploy
--                     target are the parameters `Env`; each call says what it returns, whether the
--                     job's context is done after it, and what other processes wrote meanwhile.
--   Team              apps/api/internal/service/team_service.go: members and roles (Members),
--                     invitations (Invites), teams (Groups). The tokens, bcrypt, the case mapping
--                     `strings.ToLower` and the signing of tokens are parameters.
--   Access            apps/api/internal/service/authz_service.go (Authz) and
--                     apps/api/internal/api/v1/guards.go (Guards).
--   Keys              apps/api/internal/service/api_key_service.go and
--                     apps/api/internal/auth/apikey.go; the random bytes and SHA-256 are parameters.
--   Worker            processMessage and dispatchJob of apps/api/cmd/worker/main.go.
--   Auth              apps/api/internal/service/auth_service.go and apps/api/internal/auth/jwt.go:
--                     tokens (Jwt), codes (Totp), registration, sign-in and refresh (Sessions),
--                     sign-in through another provider (Oauth), the account's changes (Profile).
--                     golang-jwt, bcrypt, HMAC-SHA1 and Base32 are parameters; where a theorem needs
--                     it, golang-jwt parses what it has signed until that expires (`Parses`).
--   Middleware        RateLimit, who a request comes from (Requests), and the cache of token versions
--                     (currentVersion, Invalidate) as steps that interleave, of
--                     apps/api/internal/api/middleware/auth.go.
--   Alerts            apps/api/internal/service/alert_evaluator.go over its own state `Monitor`, the
--                     table of alerts of apps/api/internal/store/pg/metrics_store.go. What a rule
--                     reports of the cluster and the order of Go's `range` over a map are parameters.
--   Pages             apps/api/internal/service/page_service.go (Service), page_deploy_service.go
--                     and page_domain.go: the page service, Trigger and the recovery of stale
--                     deployments (Requests), and
--                     RunJob (Job, Domains) over the state `Run`, which holds the rows as the job
--                     has them in memory. An error of a step is a value that ends in `fail`. Git, the
--                     build pod, ACM, the DNS APIs and the pages providers are the parameters
--                     `PageEnv`.
--   Versions          shouldUpdate and isNewer of apps/api/internal/service/version_service.go.
--   Tests             the theorems at concrete inputs.
--
-- Bounds. No model runs on fuel: the loops of the modelled code are over lists. The retry loop of
-- currentVersion is the caller's choice of events. The counters of invalidations are 64 bits wide and
-- wrap around. Ids are numbers, handed out in order where PostgreSQL draws a random UUID; the id 0 is
-- `uuid.Nil`. Times are nanoseconds, and two readings of the clock within one step are one.
--
-- Not modelled. The encryption of secrets in the database, the paged lists, logging, the texts of
-- notifications, the cleanup of pods, the cluster and the cloud providers behind the targets, the
-- HTTP layer around the services, the services of workers and applications, the end of a
-- worker's own context while a page's job runs, the built-in alert rules.
pub mod Prelude
pub mod Result
pub mod Exec
pub mod Model
pub mod World
pub mod Store
pub mod Deploy
pub mod Team
pub mod Access
pub mod Auth
pub mod Keys
pub mod Worker
pub mod Middleware
pub mod Alerts
pub mod Tests
pub mod Pages
pub mod Versions
