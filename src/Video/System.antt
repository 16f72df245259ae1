-- ===== src/Video/System.antt =====
-- The tables under every client at once: API replicas, workers and sweepers. Each client runs one
-- repository call at a time, and the server orders the calls, so a history is a sequence of steps.
pub mod Announcements
pub mod Progress
pub mod Finality
pub mod Ownership
use video_processor.Prelude.{
  ℕ, suc, ◌+◌, ◌≤◌, ℤ, pos, Text, text_eq, Bool, true, false, ◌≡◌, ◌&&◌, if◌then◌else◌, Option,
  none, some, List, [], ◌∷◌,
}
use video_processor.Errors.{Result, ok}
use video_processor.Video.Status.{JobStatus, pending, queued}
use video_processor.Video.Job.{VideoJob, new_video_job}
use video_processor.Video.Store.{
  Database, Turn, find_row, payload_job, EventType, created_event, queued_event, completed_event,
  failed_event, Payload, created_payload, queued_payload, completed_payload, failed_payload,
  OutboxEvent, Row,
}
use video_processor.Video.Repository

-- Interference is a step of its own, so a call meets the same tables throughout.
abbrev pub Alone : Turn → Type 0
Alone t = (db : Database) → t.meanwhile db ≡ db

-- The job of a claim, an update or a requeue is any aggregate whatever, however stale, and so is the
-- epoch: the client may hold it from a run long superseded. `creates` is `CreateVideoJob` with a
-- job that `NewVideoJob` made. `enqueues` is the upload path, which moves the job that it has just
-- created: its row is still pending.
pub data Step (db : Database) : Database → Type 0 where
  creates :
      (t : Turn) (id user filename source hash : Text) (job : VideoJob)
      → new_video_job (some id) user filename source hash ≡ ok job
      → Step db (Repository.create t job db).1
  enqueues :
      (t : Turn) (job : VideoJob) (r : Row)
      → find_row job.id db.rows ≡ some r
      → r.status ≡ pending
      → job.status ≡ queued
      → Step db (Repository.enqueue t job db).1
  claims :
      (t : Turn) (job : VideoJob) → Alone t → Step db (Repository.claim_for_processing t job db).1
  updates :
      (t : Turn) (job : VideoJob) (epoch : ℤ)
      → Alone t
      → Step db (Repository.update t job epoch db).1
  requeues : (t : Turn) (job : VideoJob) (epoch : ℤ) → Step db (Repository.requeue t job epoch db).1
  passes : (now : ℕ) → Step db (record db { clock = now })

pub data Reach (db : Database) : Database → Type 0 where
  here : Reach db db
  next : {e f : Database} → Reach db e → Step e f → Reach db f

abbrev pub empty_database : Database
empty_database = record { rows = []; outbox = []; clock = 0 }

abbrev pub type_eq : EventType → EventType → Bool
type_eq created_event created_event = true
type_eq queued_event queued_event = true
type_eq completed_event completed_event = true
type_eq failed_event failed_event = true
type_eq _ _ = false

-- How many events of a type the outbox holds for a job.
unfoldable pub announced : EventType → Text → List OutboxEvent → ℕ
announced type i [] = 0
announced type i (e ∷ es) =
    let rest = announced type i es in
    if type_eq e.event_type type && text_eq (payload_job e.payload) i then suc rest else rest
