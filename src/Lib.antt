-- ===== src/Lib.antt =====
-- Verification of the services behind the API gateway.
--
-- A client's request passes the gateway (services/api-gateway/app), which limits its body,
-- authenticates it, gives it a request id, limits its rate, and forwards it to a backend through a
-- circuit breaker with headers that it signs. The backend checks the signature. The task service
-- (services/task-service/app) keeps projects and tasks and publishes events, which the
-- notification service (services/notification-service/app) delivers to the event streams of the
-- users they are for. The user service (services/user-service/app) keeps accounts and logs users in.
--
-- Prelude: numbers, texts as lists of character codes, dicts in insertion order, decimals, results.
-- services/api-gateway/app:
--   Gateway.Breaker: circuit_breaker.py; its registry is Gateway.Breaker.Registry.
--   Gateway.Proxy: routes/proxy.py; Headers has `_resolve_upstream` and `_build_forward_headers`,
--     Dispatch has `_dispatch_with_retry`, and Route the route itself.
--   Gateway.RateLimiter, Auth, BodySize, Correlation, SecurityHeaders: middleware/rate_limiter.py,
--     auth.py, body_size.py, correlation.py and security_headers.py.
--   Gateway.Config: config.py.
--   Gateway.Pipeline: the middleware stack of main.py, in the order in which it runs, over a router
--     that is a parameter: it receives the body in pieces, as an application of Gateway.BodySize does.
-- services:
--   Gateway.Keyring: _shared_jwt_keyring.py, of which two services have a copy.
--   Identity: _shared_identity_signing.py, of which four services have a copy.
-- services/notification-service/app:
--   Notification.Broadcaster, Consumer: broadcaster.py and consumer.py.
-- services/task-service/app:
--   Task.Models: models.py, with the payloads of schemas.py.
--   Task.Pagination, Idempotency: pagination.py and idempotency.py.
--   Task.Routes: routes/tasks.py; Task.Routes.Projects: routes/projects.py and `list_tasks`.
-- services/user-service/app:
--   User.Client: redis_client.py; User.Models: models.py.
--   User.Login: login, refresh and logout of routes/auth.py; User.Account: its other routes.
--   User.Admin: routes/users.py, with the role check of dependencies.py. User.Requests joins the
--     routes of the service, and User.Changes says what one of them may do to the table.
-- services/chaos-controller/app, which stands apart from the others:
--   Chaos.Script: coroutines, which change a state between their waits. Chaos.Cluster: the state of
--     the mock cluster of cluster.py. Chaos.Actions, Outages and Cascades: its actions on one service,
--     on one fixed service and on several; Chaos.Commands: all of them by name. Chaos.Ambient: the
--     drift of the metrics, and the snapshot; Chaos.Noise: what it may change.
--   Chaos.Scenario: the scenario runner, with the scenarios of explainers.py in Scenario.Shipped.
--   Chaos.Hub: events.py; Chaos.Routes: the routes of main.py; Chaos.Config: config.py.
-- Redis: the client of the services that share one, as a record of operations and one of laws.
-- Tests: the theorems at concrete inputs.
--
-- A handler is a function from its state, its input and what it reads of the world (the clock, a
-- new id, whether Redis is in reach) to the next state and its answer. Code outside the repository
-- is a parameter: the digest and base64 (Identity.Crypto), the token library (Gateway.Auth.Jwt), the
-- answers of a backend (`request` in Gateway.Proxy.Dispatch), JSON (`get` and `dumps` in
-- Notification.Consumer), the text of a UUID, and Redis (Redis.Redis, with what is documented of it
-- in Redis.Laws; User.Client for the user service; `check` in the rate limiter). The tables of the
-- task service are dicts by primary key. Times and UUIDs are numbers. An await is a place where
-- another operation may come in only in the notification service, whose streams are taken apart
-- there, and in the chaos controller; the other handlers run whole.
--
-- All loops are over lists or a fixed number of attempts, so nothing runs on fuel.
--
-- In the cluster the floats are a parameter, the random suffixes of pods are arguments, and a pod is
-- told by its name. Under the lock one action runs at a time, and only the ambient loop comes in at its
-- waits: `run` takes what it does there. A scenario suspends the lock, and `interleave` resumes its
-- tasks in an order that is given.
--
-- Not modelled: the texts and the jitter of the mock cluster, the live cluster, which is a
-- placeholder, metrics, telemetry, logging, email transport, settings without logic, database
-- sessions and migrations, the constant headers of the backends, deployment and tests, which are
-- wiring and output.
pub mod Prelude
pub mod Chaos
pub mod Gateway
pub mod Identity
pub mod Redis
pub mod Notification
pub mod Task
pub mod User
pub mod Tests
