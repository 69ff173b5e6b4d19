-- ===== src/Lib.antt =====
-- A development on pg-analytics-service: a Go service that answers reports on events from Postgres,
-- caches them in Redis, and rebuilds metric snapshots in background jobs.
--
-- The program has four layers. The HTTP layer parses requests and maps errors; it calls the
-- application services; these call the interfaces of internal/application/ports.go, which the Redis
-- store and the Postgres store implement. `Trigger` takes a lock in Redis, inserts a run, and puts a
-- job into a channel; a worker takes the job, rebuilds the snapshots in one transaction, marks the run,
-- moves the version of the report's cache entries, and releases the lock.
--
-- Files and code:
--   Domain            internal/domain/errors.go, models.go (Errors, Models); the decimal numbers of
--                     fmt and strconv, the dates of time (Numbers, Calendar)
--   Effects           a Go call that returns (T, error) and changes a state
--   Application       internal/application: Ports (ports.go), Validation, ReportService,
--                     RecomputeService, AuditService, HealthService; CacheLaws and LockLaws are what
--                     the services rely on of a cache and a lock
--                     RecomputeService.Threads is the same code call by call, for several workers
--                     and calls of `Trigger` at once, and for several processes over one Redis
--   Redis             internal/infrastructure/redis/store.go; Client is go-redis, a parameter, with the
--                     documented behaviour of its commands, also when calls fail (ClientSafety);
--                     Versions, Advances and Freshness are the order of the calls to the cache
--   Postgres          internal/infrastructure/postgres: Database (the tables, and how a call to the
--                     server ends), Snapshots, Buckets and Recompute (RecomputeReport in store.go), Runs
--                     (CreateRun, GetRun and the three MarkRun in store.go), Reports (the three report
--                     queries), Definitions and Audits (the report definitions and the audit table),
--                     Migrator (migrator.go), Seeder (seed.go)
--   Http              internal/http: Params, Handlers, Routes and Respond (handlers.go, response.go),
--                     Auth (middleware.go)
--   Strings           functions of Go's strings package
--   Api               cmd/api/main.go: the services over one Postgres and one Redis
--   Commands          cmd/migrate/main.go, cmd/seed/main.go, and the start of cmd/api/main.go
--   Config            internal/infrastructure/config/config.go
--   Tests             the theorems at concrete inputs
--
-- Names of functions follow the Go names in snake_case: `RunReport` is `run_report`, `processJob` is
-- `process_job`. A Go call is a function from a state to a result and a state; what was written before
-- an error stays written. SQL statements are functions on lists of rows. For each call to Postgres a
-- driver says whether the call runs, is refused, or runs and loses its reply.
--
-- Choices. A time is a number of nanoseconds since 1 March of the year -400, in UTC, and a string is a
-- list of bytes; spaces and case are those of ASCII, but for the long s that `EqualFold` takes for an s.
-- `int` and `int64` are unbounded where the code only compares them; counters and the parsing of numbers
-- keep the bound of 2^63 - 1, and a difference of times stops at it. How the server reads the text of an
-- id as a UUID, or refuses it, is a parameter. The only fuel is that of the digits of a number, which is
-- the number plus one.
-- `date_trunc` is a parameter with the laws that it has in a session in UTC. The order of texts in the
-- database and ILIKE are parameters; rows that an ORDER BY does not tell apart stand in the order of
-- their table. The directory of migrations and the effect of their SQL are parameters too, and so are
-- ParseBool, ParseDuration, the pool, the parser of Redis URLs, and the route that chi finds.
--
-- Not modelled: the logger; contexts, whose expiry is one of the errors that any call may return; the
-- expiry of keys in Redis; the two commands of `GetVersion` apart from each other; foreign keys and CHECK
-- constraints, whose violation is a refused call; sums beyond 2^63 - 1; signals, the HTTP server and its shutdown;
-- chi and the JSON codec, which are third-party code; the time that the comparison of keys takes.
pub mod Prelude
pub mod Domain
pub mod Strings
pub mod Effects
pub mod Config
pub mod Http
pub mod Redis
pub mod Postgres
pub mod Api
pub mod Commands
pub mod Application
pub mod Tests
