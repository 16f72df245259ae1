-- ===== src/Lib.antt =====
-- video-processor: the Video Processing context with its worker, the Notification context, and the
-- accounts and tokens of the Identity context.
--
-- A user's upload makes a job. The API writes the job's row and, when the file is stored, moves the row
-- to `queued`, each time with an event in the outbox of the same database. A worker takes a dispatch
-- from the broker, claims the row, extracts the frames under a lease in Redis, and records the outcome
-- with a write that is fenced by the lease epoch. A sweeper in each worker returns the jobs of dead
-- workers to the queue, or fails them. The upload path keeps one job per content in an idempotency
-- store. A relay carries the outbox rows to the broker, and the API reads jobs through a cache in
-- Redis. A caller gets a signed URL for the result of a job of their own. The Notification context keeps
-- each user's preferences and tells a user how a job ended: a terminal event from the same outbox is
-- decoded by the notifier, and a delivery is claimed, attempted within a budget, and resolved by the
-- claimant's token. The Identity context registers users and mints the tokens that the other services
-- verify. The services limit the requests of each caller.
--
-- Prelude: shared names; Go strings as lists of bytes, and Go integers over the native numbers.
-- Errors: sentinel errors, `errors.Is`, results, and methods that mutate a receiver and may refuse.
-- Redis: one key with its expiry, and how a call of the store may fare.
-- Json: an object as its members, and how they fill a struct by its tags. The bytes are the parameter
--   `Json`, and `IsJson` says what is relied on.
-- Video/Status, Video/Job: internal/video/domain/job_status.go and video_job.go. The record `VideoJob`
--   is the struct; `restore_video_job`, `new_video_job`, `enqueue`, `start_processing`, `requeue`,
--   `complete` and `fail` are the functions of these names in Go's spelling.
-- Video/Keys, Video/Filename, Video/Idgen: the value objects of internal/video/domain and the parser in
--   internal/video/infrastructure/idgen/idgen.go. The UUID library is the parameter `uuid`.
-- Video/Store, Video/Repository: internal/video/infrastructure/postgres. `Database` is the tables
--   video_jobs and video_job_outbox; each method of `Repository` is a function on it. `Fault` says where
--   a call fails, and `Turn.meanwhile` what others do between a statement that met no row and the
--   lookup after it.
-- Video/Payloads: the outbox payloads of the same package, by the tags of their structs.
-- Video/Cache: internal/video/infrastructure/cache/repository.go, the read side; its child Writes has the
--   methods that change a job, and Ordering, Reading and Outcomes the proofs. `Lookup` and `Following`
--   hold the times and fates of the Redis calls and what other clients do between them.
-- Video/Outbox, Video/Publisher, Video/Relay: internal/video/infrastructure/postgres/outbox.go, and
--   publisher.go and relay.go of internal/video/infrastructure/messaging. `Broker` is what the AMQP
--   channel answers for each message of a batch, and `Poll` what the calls of one cycle meet.
-- Video/Consumer, Worker/Consuming: internal/video/infrastructure/messaging/consumer.go, over a handler,
--   and the handler that cmd/worker/main.go gives it.
-- Video/Exec, Video/UseCases: internal/video/application, one function for each use case that moves a
--   job. `Visit` holds what other clients do before the load and before the write.
-- Video/LocalPath, Video/Process: internal/video/application/process_video_job.go. `Run` holds what the
--   ports answer.
-- Video/Lease: internal/video/infrastructure/lease/redis_store.go, and the loop of `holdLease`.
-- Video/Idempotency: internal/video/infrastructure/idempotency/redis_store.go.
-- Video/System: the tables under all clients at once, as sequences of repository calls.
-- Api/Jobs, Api/Listings, Api/Download, Api/Parts, Api/Reservation, Api/Upload: the handlers of
--   cmd/video-api/video.go, with the use cases GetJobStatus, ListUserJobs and ListUserResults. `Upload` holds the body of one request and how each
--   of its calls fares, and `World` the tables, the Redis key of this user and these bytes, and the
--   bucket. The wait for another request's reservation has 22 rounds of 100 ms, more than fit its 2 s.
-- Worker/Dispatch: `handle` of cmd/worker/main.go, with its retry of the completion.
-- Worker/Sweeper: cmd/worker/sweeper.go.
-- Notification/Budget: internal/notification/application/delivery_config.go.
-- Notification/Deliveries: the claim and the resolution of a delivery, in
--   internal/notification/infrastructure/postgres/delivery_repository.go, with `RestoreDelivery` of
--   internal/notification/domain/delivery.go.
-- Notification/Delivering: internal/notification/application/deliver_notification.go.
-- Notification/Policy: internal/notification/domain/destination_policy.go. An address is its bits;
--   `url.Parse` and `netip.ParseAddr` are parameters.
-- Notification/Channels, Notification/Preferences: the values and the aggregate of
--   internal/notification/domain, the statements of
--   internal/notification/infrastructure/postgres/repository.go, and the use cases SetPreference and
--   ListPreferences. `mail.ParseAddress` is a parameter.
-- Notification/Notifier: cmd/notifier/main.go, with the messages and events that it decodes.
-- Identity/Users, Identity/Accounts: internal/identity/domain, its PostgreSQL repository, and the use
--   cases RegisterUser and AuthenticateUser, over bcrypt as a parameter.
-- Identity/Tokens: internal/identity/infrastructure/jwtauth/jwtauth.go, over the JWT library.
-- Platform/RateLimit: internal/platform/ratelimit/limiter.go, and the middleware of
--   cmd/video-api/ratelimit.go, which fails open.
-- Witnesses: the theorems at one job and at concrete stores.
--
-- Bounds. `LeaseEpoch` is an int64 that wraps in Go, and a bigint that fails past its largest value in
-- SQL; both are written out. A frame count is taken to fit the INTEGER column. The loops are structural:
-- a completion has four attempts, a sweep's batch is a list of at most fifty rows, and the relay claims at
-- most a hundred. The backoff of the relay is in nanoseconds and never near the end of an int64.
--
-- Assumptions. A transaction takes effect as a whole and the server runs transactions one by one; a
-- script of the Redis store is one step. Lease, idempotency, limiter and delivery records are modelled one key
-- at a time. A history of Video/System interleaves whole calls. In it an
-- enqueue meets the pending row that its client has just created, as on the upload path; claims,
-- updates and requeues may come with any aggregate and any epoch. Video/System/Finality asks instead that
-- a job is enqueued only while no dispatch of it was written. Error texts are kept only where the
-- program stores them. The use cases load from the tables; the API puts the cache before them, which is
-- modelled by itself and whose records are taken to be read back as written. Lease epochs stay below
-- 2^53, where Lua's numbers are exact. The addresses of Identity are lowered and trimmed as ASCII.
--
-- Not modelled: the connection loop of the notifier, which is the worker's over again; SMTP and
-- webhook clients, the rest of the HTTP layer, metrics, logging and configuration, which are input and output or glue around what is modelled. Local files, contexts and
-- pauses of a run are left out, and a best-effort clean-up is the list of calls that are made.
pub mod Prelude
pub mod Errors
pub mod Api
pub mod Identity
pub mod Platform
pub mod Json
pub mod Redis
pub mod Notification
pub mod Video
pub mod Worker
pub mod Witnesses
