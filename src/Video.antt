-- ===== src/Video.antt =====
-- internal/video: the Video Processing context.
pub mod Status
pub mod Job
pub mod Keys
pub mod Idgen
pub mod Filename
pub mod Store
pub mod Payloads
pub mod Repository
pub mod Cache
pub mod Outbox
pub mod Publisher
pub mod Relay
pub mod Consumer
pub mod Exec
pub mod UseCases
pub mod LocalPath
pub mod Process
pub mod Lease
pub mod Idempotency
pub mod System
