-- ===== src/Lib.antt =====
-- Verification of the platform's Go services.
--
-- The program. Every request from outside meets the Gateway (go/services/gateway): it strips the
-- identity headers that the client sent, finds out who calls from a bearer token or from the session
-- that a cookie names, checks the path rules and the blocklist, injects the verified identity as
-- headers, and proxies the request to the service whose route prefix is the longest match, with a
-- shared token. A service (go/pkg/httpx) takes a request only with that token and reads the identity
-- back from the headers. The login pages put sessions into Redis; the webhook of the identity provider
-- (go/services/auth-service) puts deleted users on the blocklist, which the Gateway asks; the file
-- service (go/services/file-service) takes and serves the files of their owners, and the user service
-- (go/services/user-service) their profiles. The identity store of auth-service maps the subjects of
-- providers to users. The worker takes jobs from a message queue, records their effects once, and
-- hands the rows of the business outbox to the audit service as events.
--
-- The files. Each operation of the source is a function that has its name in lower case with
-- underscores; the source's `(T, error)` is a Result, a handler gives the reply and the new state.
--   Base            lists, texts, decisions, sorting, and errors as values (shared helpers)
--   Http            headers, requests, the error envelope: go/pkg/errs, go/pkg/httpx/errors.go
--   Identity        go/pkg/identity: strip_untrusted, inject, from_headers, has_role
--   Httpx           go/pkg/httpx: gateway_trust, internal_auth, require_role, request_id, chain;
--                   Httpx.Health is health.go with go/pkg/db and go/pkg/cache, Httpx.Paths pathnorm.go
--   Trace           go/pkg/trace/traceparent.go
--   Redis           the commands that the code calls, with their documented laws and the time that a key
--                   lives, and a server that meets them (Redis.Model)
--   Revocation      go/pkg/revocation/store.go
--   Session         go/services/gateway/internal/session/store.go; Session.Coding is a codec that
--                   meets the laws of the JSON codec
--   Jwt             go/pkg/auth/verifier.go and go/pkg/config/placeholder.go;
--                   Jwt.Issuer and Jwt.KeySet are go/pkg/auth/issuer.go, Jwt.DevToken devtoken.go
--   Oidc            go/pkg/oidc/client.go; Oidc.Login is the login pages over it
--   Gateway.Rules   go/services/gateway/internal/auth/anon.go and sensitive.go
--   Gateway.Authenticate  go/services/gateway/internal/auth/middleware.go and resolve.go
--   Gateway.Proxy   go/services/gateway/internal/proxy and siteproxy
--   Gateway.Bff     go/services/gateway/internal/bff
--   Gateway.Resolver  go/services/gateway/internal/identityresolve/client.go, and the route of
--                   auth-service that it calls
--   Gateway.EndToEnd  the Gateway and a service together, with what Go's reverse proxy does to a
--                   request in between as a record
--   Files           go/services/file-service/internal/store and access
--   Storage         go/pkg/storage: Encode the encoding of paths, Sign the signatures, Presign the
--                   links, Objects the requests, Links the file service's links over them
--   Webhook         go/services/auth-service/internal/logto and store/deliveries.go
--   Files.Upload    go/services/file-service/internal/upload
--   Worker          go/pkg/mq/consumer.go and job.go, go/services/worker/internal/jobs/router.go;
--                   Worker.Queue is topology.go, publish.go and the consumer around a delivery;
--                   Worker.Effects is internal/store/effects.go and internal/effects
--   Accounts        go/services/auth-service/internal/store/identity.go, identityapi and miniprogram:
--                   Growth is what any process writes, Validity the invariant of the tables, Outcomes
--                   what a statement leaves, Progress that a resolution ends
--                   (WechatClient is internal/wechat/client.go)
--   Audit           go/pkg/audit and go/services/audit-service/internal/store and ingest;
--                   Audit.Query is the listing, with internal/query, Audit.Entry the Gateway's entry
--                   events with entry.go and async.go
--   Contracts       go/pkg/contracts
--   Outbox          go/services/worker/internal/outbox, with the audit service behind it
--   RateLimit       go/services/gateway/internal/ratelimit
--   Users           go/services/user-service/internal
--   Tests           the theorems at concrete inputs
--
-- Conventions. A text is the list of its code points, as native numbers; a time or a duration is a
-- number of nanoseconds. Where the source multiplies into an int64, the wrap-around is written out.
-- Loops are structural recursion on the list that the source ranges over, so there is no fuel. The
-- clock, random ids and the environment are arguments. Libraries and services are parameters: Redis,
-- the JWT library, the reverse proxy, JSON, URL parsing, HMAC, SHA-256, the object storage, the provider's token endpoint; where
-- a theorem relies on one, its record states the documented law. SQL statements act on a list of rows.
--
-- Failures and other processes are data: a fate says of each next statement or request whether it is
-- answered, refused, or carried out with its answer lost, and a turn of the identity store also says
-- what other processes committed before it.
--
-- Not modelled: the broker itself and the ping of it, the payload column of the effects, Recover and
-- the server loop, the database's connection URI and migrations, telemetry, logging, the embedded site,
-- and most of the wiring in each main.go.
pub mod Base
pub mod Http
pub mod Identity
pub mod Httpx
pub mod Trace
pub mod Redis
pub mod Revocation
pub mod Session
pub mod Jwt
pub mod Gateway
pub mod Files
pub mod Webhook
pub mod Worker
pub mod Accounts
pub mod Audit
pub mod Contracts
pub mod Storage
pub mod Oidc
pub mod Outbox
pub mod RateLimit
pub mod Users
pub mod Tests
