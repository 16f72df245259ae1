-- ===== src/Video/Store.antt =====
-- The two PostgreSQL tables of internal/video/infrastructure/postgres and what a statement may meet.
-- A row of video_jobs has the columns of the aggregate, and its status column holds any text, as
-- `JobStatus` does. The tables change by whole transactions, which the server runs one by one.
use video_processor.Prelude.{
  ℕ, ℤ, Text, codes, text_eq, text_eq_iff, Bool, true, false, ◌≡◌, ◌||◌, if◌then◌else◌, Option,
  none, some, List, [], ◌∷◌, arith,
}
use video_processor.Errors.{Error, sentinel, plain, joined, repository_unavailable}
use video_processor.Video.Job.{VideoJob}

abbrev pub Row : Type 0
Row = VideoJob

-- `event_type`: video_job.created, video_job.queued.v2, video_job.completed.v1, video_job.failed.v1.
pub data EventType : Type 0 where
  created_event queued_event completed_event failed_event : EventType

abbrev pub event_type_text : EventType → Text
event_type_text created_event = codes "video_job.created"
event_type_text queued_event = codes "video_job.queued.v2"
event_type_text completed_event = codes "video_job.completed.v1"
event_type_text failed_event = codes "video_job.failed.v1"

-- The JSON bodies; their `type` field repeats the row's event type.
pub data Payload : Type 0 where
  created_payload : (job_id user_id original_filename : Text) → (occurred_at : ℕ) → Payload
  queued_payload : (job_id user_id source_key content_hash : Text) → (occurred_at : ℕ) → Payload
  completed_payload :
      (job_id user_id : Text) → ℤ → (storage_key : Text) → (occurred_at : ℕ) → Payload
  failed_payload : (job_id user_id error_reason : Text) → (occurred_at : ℕ) → Payload

abbrev pub payload_job : Payload → Text
payload_job (created_payload job user filename now) = job
payload_job (queued_payload job user source hash now) = job
payload_job (completed_payload job user frames key now) = job
payload_job (failed_payload job user reason now) = job

pub record OutboxEvent : Type 0 where
  pub event_id : Text
  pub event_type : EventType
  pub payload : Payload
  pub occurred_at : ℕ

-- `clock` is what `SELECT now()` answers in the next transaction. The outbox is newest first.
pub record Database : Type 0 where
  pub rows : List Row
  pub outbox : List OutboxEvent
  pub clock : ℕ

-- What `errors.Is` and `errors.As` find in an error of the driver.
pub record DriverError : Type 0 where
  pub is_context : Bool
  pub sql_state : Option Text
  pub is_connect : Bool
  pub is_unexpected_eof : Bool
  pub is_net : Bool
  pub message : Text

abbrev unavailable_sql_state : Text → Bool
unavailable_sql_state s =
    text_eq s (codes "57P01") || (text_eq s (codes "57P03") || text_eq s (codes "53300"))

abbrev without_answer : DriverError → Bool
without_answer e = if e.is_connect then true else if e.is_unexpected_eof then true else e.is_net

abbrev by_answer : DriverError → Option Text → Bool
by_answer e none = without_answer e
by_answer e (some s) = unavailable_sql_state s

unfoldable pub is_unavailable : DriverError → Bool
unfolding text_eq
is_unavailable e = if e.is_context then false else by_answer e e.sql_state

unfoldable pub mark_unavailable : DriverError → Error
mark_unavailable e =
    if is_unavailable e
    then joined (sentinel repository_unavailable) (plain e.message)
    else plain e.message

-- Where a repository call fails: `early` up to and with its UPDATE or INSERT of the job; `late`
-- after it, in the outbox insert, in a commit that rolled back, or in the lookup that follows a
-- statement which met no row; `lost` when the statement or commit took effect and its answer was
-- lost.
pub data Fault : Type 0 where
  answers : Fault
  early : DriverError → Fault
  late : DriverError → Fault
  lost : DriverError → Fault

-- What surrounds one repository call: its fault, the fresh event id of `uuid.NewString()`, and what
-- other clients of the database do between a statement that met no row and the lookup after it.
pub record Turn : Type 0 where
  pub fault : Fault
  pub minted : Text
  pub meanwhile : Database → Database

unfoldable pub find_row : Text → List Row → Option Row
find_row i [] = none
find_row i (r ∷ rows) = if text_eq r.id i then some r else find_row i rows

-- The primary key: one row has a given id, and a statement that names it changes that one.
unfoldable pub put_row : Row → List Row → List Row
put_row r [] = []
put_row r (s ∷ rows) = if text_eq s.id r.id then r ∷ rows else s ∷ put_row r rows

pub find_row_id : (i : Text) (rows : List Row) (r : Row) → find_row i rows ≡ some r → r.id ≡ i
unfolding find_row
find_row_id i [] r h = ground arith
find_row_id i (s ∷ rows) r h = ground (arith, text_eq_iff s.id i, find_row_id i rows r)

pub find_row-put_row :
    (i : Text) (r old : Row) (rows : List Row)
    → find_row r.id rows ≡ some old
    → find_row i (put_row r rows) ≡ (if text_eq r.id i then some r else find_row i rows)
unfolding find_row put_row
find_row-put_row i r old [] h = ground arith
find_row-put_row i r old (s ∷ rows) h = ground (
  arith,
  text_eq_iff s.id r.id,
  text_eq_iff s.id i,
  text_eq_iff r.id i,
  find_row-put_row i r old rows,
)
