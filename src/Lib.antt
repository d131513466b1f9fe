-- ===== src/Lib.antt =====
-- Todo-1M: a todo service in which commands and reads go different ways (CQRS). The command API
-- (internal/app/commandapi) takes requests over HTTP, asks the identity service (internal/app/identity) who
-- may do what, and publishes commands on a message bus, under a subject that names a shard
-- (internal/sharding). The domain engine (internal/app/domainengine) turns each command into an event. The
-- data sink (internal/app/datasink) applies the events to the read model, from which queries
-- (internal/app/query) are answered. Messages are internal/contracts. The SSE streamer (cmd/sse-streamer)
-- shows groups and todos to browsers and keeps them up to date over server-sent events; the load generator
-- (cmd/load-generator) plays users. All of them serve their metrics (internal/platform/metrics).
--
-- How code becomes definitions. A method that changes state and may fail is a function from a state to a
-- result and a state (Exec): what was written before an error stays written. A request starts from a state
-- that says which round trips to the database or the bus will fail, how many ids have been drawn, and the
-- time; theorems that name no such failure hold for every pattern of them. SQL statements are functions of
-- the tables with their keys, foreign keys and ON CONFLICT clauses; a transaction puts the tables back
-- after an error, and now() is the time of the request. A time is a number; an int64 of the stream's sequence wraps as int64() does.
--
-- Files:
--   Prelude: tests, lists, Go's strings and strconv on texts, splitting and joining.
--   Errors, Exec, Postgres: the errors of all packages, methods with state, and the database.
--   Contracts, Sharding, Bus: the messages, the shard of an id with CRC-32 written out, publishing.
--   Platform/Auth: internal/platform/auth/jwt.go (Manager.Sign, Manager.Parse, BearerToken).
--   Identity/Tables, Identity/Repository, Identity/Service: internal/app/identity, one function for each
--     statement, each method of PostgresRepository and each method of Service. The other files of Identity
--     hold its proofs.
--   DomainEngine: internal/app/domainengine/service.go and the subscription of cmd/domain-engine/main.go.
--   ReadModel, DataSink: internal/app/datasink and the subscription of cmd/data-sink/main.go.
--   Query, Query/Waiting: internal/app/query/repository.go; the loop of WaitForCommandApplied is given its turns.
--   Platform/Env: internal/platform/env/env.go and the pool sizes of internal/platform/dbpool/pool.go.
--   Platform/Streams, Platform/Nats: internal/messaging/jetstream.go and internal/platform/natsutil/nats.go, with the
--     waits for Postgres and the readiness checks of the four services.
--   Platform/Lifecycle: main of cmd/data-sink/main.go and cmd/domain-engine/main.go as a step relation, with /readyz.
--   Platform/Metrics: internal/platform/metrics/metrics.go, over bytes.
--   CommandApi, CommandApi/Http and its children Command, Router and Cors, CommandApi/Limiter,
--     CommandApi/Origin: internal/app/commandapi/service.go and http.go. CommandApi/Stages and
--     CommandApi/Pipeline follow a command through the three services.
--   Streamer/Users: the registry of the users' streams of cmd/sse-streamer/main.go, as a step relation.
--   Streamer/Groups: its groupStream, one function for what a method does under the lock; Groups/Steps has the
--     goroutines on it as a step relation, Groups/Snapshots runSnapshotRefresh with waitForProjectionOffset, and
--     Groups/Registry the groupStreamRegistry.
--   Streamer/Reads: its handlers of /api/v1/groups, /api/v1/todos and /ui/workspace.
--   Streamer/Pages, Streamer/Events: what it renders, the handler of /events with what it sends, and the handler of
--     /events/disconnect.
--   LoadGenerator: the requests, actions and configuration of cmd/load-generator/main.go; LoadGenerator/Streams its
--     event streams, and LoadGenerator/Users the set-up.
--   Tests: concrete inputs, encodings that satisfy the hypotheses, and the theorems applied to them.
--
-- Parameters. bcrypt, SHA-256 and nuid are fields of the identity Service; encoding/json, base64 and HMAC
-- are the records Json and Codec, for which theorems assume only that what was encoded can be read back and
-- that base64 has no dot; net/url and net are the record Net. A text is a sequence of Unicode scalar values,
-- and `to_lower` is exact on ASCII and Latin-1.
--
-- html.EscapeString is written out, and the component frontend.EventItem is a parameter. A float64 of the
-- metrics is a type with the operations that are used (Floats), and the draws of the load generator are
-- numbers in the units of its generator.
--
-- Every loop is structural recursion but these, which run on fuel: `itoa`, for which one more than the number is
-- enough; WaitForCommandApplied, for which the timeout in spells of 20 ms, and one turn more, is enough; and the loops
-- that ask until a deadline (Prelude/Polling), for which the time left in pauses, and one turn more, is enough: 64
-- turns of 40 ms at least for waitForProjectionOffset, half seconds for the connection to NATS. `run_sse_loop` needs one
-- more than the turns after which its context is done.
--
-- Not modelled: the wiring of the command API and the SSE streamer in their main functions and their shutdown,
-- response headers but those of corsMiddleware, the collectors that read the Go runtime, and the
-- interleaving of the load generator's goroutines, and the generated frontend.
pub mod Prelude
pub mod Errors
pub mod Exec
pub mod Contracts
pub mod Sharding
pub mod Postgres
pub mod Identity
pub mod Platform
pub mod ReadModel
pub mod DataSink
pub mod Bus
pub mod DomainEngine
pub mod Query
pub mod CommandApi
pub mod Streamer
pub mod LoadGenerator
pub mod Tests
