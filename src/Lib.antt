-- ===== src/Lib.antt =====
-- Kokkeak API: the backend of a marketplace for household services, in Rust. This library models
-- the part of it that decides something, and proves what makes those decisions right.
--
-- The program's parts and the files that model them:
--
-- Breaker (crates/infra/src/circuit_breaker.rs, crates/domain/src/circuit_breaker.rs): the circuit
-- breaker. `state` is `poll`; `allow_request`, `record_success`, `record_failure` and `snapshot`
-- keep their names, and each takes the reading of the clock in seconds. Breaker/Steps is about calls
-- of which each ends before the next begins; the source gives up its lock between reading the state
-- and changing the counters, and calls that overlap are not modelled. Breaker/Probes follows the calls
-- that a half-open breaker admits.
--
-- Worker (crates/worker/src): the consumer of the message queue. `process` is one delivered
-- message of the loop in runner.rs and returns what it sends to the queue and the handler;
-- `process_all` is a run of deliveries; Worker/Retry is retry.rs, Worker/Claims is idempotency.rs.
-- The order in which the hash set of the claims iterates is an argument.
--
-- Permission, User (crates/domain/src/user.rs): permissions, roles, statuses and users.
-- Permission/Checker (crates/infra/src/permission_checker.rs,
-- crates/infra/src/cache/permission_cache.rs): who holds a permission, by the cache and the
-- database. The scan that invalidates a user runs on fuel; more than the rank of the server's
-- first cursor is enough.
--
-- Roles (crates/application/src/user_role.rs): the permissions grouped by role, and the batch of
-- updates. AdminUser (crates/application/src/admin_user.rs): what an administrator's changes have
-- to pass before they reach the repository, and the normalised listing.
--
-- PermissionUsers (crates/application/src/permission.rs, crates/domain/src/permission.rs): the
-- paged listing of the users with permissions, the grouping of a user's rows and the update of
-- overrides. PermissionUsers/Follow follows the cursors as a client does.
--
-- RateLimit (crates/infra/src/auth/rate_limit.rs, crates/application/src/rate_limit.rs): the
-- sliding window of failed logins. The lock makes each call one step; a call takes the readings of
-- the clock that it makes. RateLimit/History replays any history of attempts.
--
-- Auth (crates/application/src/auth.rs, crates/domain/src/auth.rs): register, login, refresh and
-- the sessions, over the ports for users, sessions, rate limiting, passwords and tokens, which are
-- parameters with a state of their own. Auth/Login/Lockout puts RateLimit behind the login.
--
-- Http (crates/api/src/middleware): Http/Replay is idempotency.rs over the store in memory of
-- crates/infra/src/idempotency.rs, Http/Authn is auth.rs, Http/Tokens is
-- crates/infra/src/auth/jwt.rs, Http/Signed is crates/api/src/signed_url.rs. The application
-- behind the middleware is a function on its state; what the crates axum and jsonwebtoken do is a
-- parameter.
--
-- Cache (crates/infra/src/cache/layer.rs, crates/infra/src/cache/redis.rs): the cache of two
-- tiers, over parameters for moka and Redis with laws. A call of `get_or_load` is one step;
-- overlapping calls are not interleaved, but what they can leave in the table of flights is in the
-- state. Cache/Refinement is about one instance that works alone on its keys of Redis.
--
-- Chat (crates/application/src/chat.rs, crates/domain/src/chat.rs): rooms and messages over the
-- repository and the transport. Chat/Mongo is the search for a room and the documents of rooms in
-- crates/infra/src/db/mongo_chat.rs, Chat/Handler what the handlers of
-- crates/api/src/handlers/chat.rs decide.
--
-- Order, Payment (crates/domain/src/order.rs, crates/domain/src/payment.rs,
-- crates/application/src/payment.rs): payments, their confirmation and the split into the
-- commission and the payout. Payment/Mssql is crates/infra/src/db/mssql_payment.rs, the only
-- repository of payments that the program has. Order/Service (crates/application/src/order.rs): the creation of an
-- order, its announcement on the queue, and the pages of the listings. The decimal numbers of the
-- crate rust_decimal are a parameter.
--
-- Auth/Sessions (crates/infra/src/auth/session_store.rs): the Redis store of the sessions, which
-- fills the port of Auth; Auth/Renew/InRedis puts it behind the refresh.
--
-- Http/Limit (crates/api/src/middleware/rate_limit_redis.rs): the limit on the requests of one
-- address, over the three commands of its Redis script.
--
-- Config (crates/common/src/config.rs): the settings and their validation. Config/Databases is the
-- fall-back of the database roles, Config/EnvFile the loading of an environment file over an
-- environment that is a map; a panic is no result.
--
-- Database: Database/Connect is crates/infra/src/db/mssql.rs as far as it makes a pool of an
-- address, Database/Topology is crates/infra/src/db/topology.rs, Database/Bundle is
-- crates/api/src/repo_factory.rs, where a repository is the pool that it works on, and
-- Database/Migrations is crates/infra/src/db/migrate.rs over a directory and a database. `build`,
-- `for_role`, `discover`, `run` and `split_go_batches` keep their names; `repos_from` is
-- `from_settings` of the factory.
--
-- Errors (crates/common/src/error.rs, crates/api/src/error.rs): the errors of the services as
-- responses, and their translation. Text/Template (crates/common/src/i18n.rs): placeholders and
-- the language of a request; the loop with its look-ahead is a machine that reads one character.
--
-- Health (crates/domain/src/health.rs, crates/api/src/handlers/health.rs): the readiness of the
-- server.
--
-- Storage (crates/infra/src/storage/local.rs): how the local store resolves a key to a path, and
-- Storage/Files how it stores, reads and deletes a blob over a file system that is a parameter.
--
-- Prelude, Effect, Text, Dict, Loop and Duration are shared: lists and tests, methods that mutate
-- a state and may fail, trimming, lines and the parsing of numbers as in Rust's standard library,
-- association lists for maps, loops over the cursors of a Redis scan, and durations in nanoseconds.
--
-- Loops are structural recursion over the messages, attempts or entries; fuel is used for the
-- client of PermissionUsers/Follow, who may ask for as many pages as there are rows, and for the
-- scans of Permission/Checker and Auth/Sessions, where more than the rank of the first cursor is
-- enough. Unsigned machine integers wrap or saturate as the source does. UUIDs
-- are numbers, time is a number.
--
-- Not modelled: the routes and most handlers of the HTTP layer (axum), the SQL repositories,
-- password hashing, the documents of messages in MongoDB, the Redis store of the worker and
-- tracing; the time stamps and contexts of audit events; the administration of categories, the
-- checks behind Health, and the settings that only serve to log, to sign tokens and to scale images.
pub mod Prelude
pub mod Text
pub mod Dict
pub mod Loop
pub mod Duration
pub mod Breaker
pub mod Worker
pub mod Permission
pub mod User
pub mod PermissionUsers
pub mod RateLimit
pub mod Roles
pub mod AdminUser
pub mod Effect
pub mod Chat
pub mod Auth
pub mod Order
pub mod Payment
pub mod Cache
pub mod Http
pub mod Storage
pub mod Config
pub mod Database
pub mod Errors
pub mod Health
