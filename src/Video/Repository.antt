-- ===== src/Video/Repository.antt =====
-- internal/video/infrastructure/postgres/repository.go: the operations on the tables, one function
-- for each method. A call returns its result and the tables that it leaves.
pub mod Effects
pub mod Outcomes
pub mod Requeues
pub mod Reloading
use video_processor.Prelude.{
  ℕ, ℤ, pos, negsuc, suc, zero, max_int64, eq_ℤ, Text, codes, is_empty, text_eq, Bool, true, false,
  ◌&&◌, ◌==◌, if◌then◌else◌, Option, none, some, List, [], ◌∷◌,
}
use video_processor.Errors.{
  Error, sentinel, plain, Result, ok, err, ◌>>=◌, ◌>>◌, video_job_not_found, job_fenced,
}
use video_processor.Video.Status.{
  JobStatus, pending, queued, processing, completed, failed, unrecognized, status_eq, is_terminal,
}
use video_processor.Video.Job.{VideoJob, restore_video_job}
use video_processor.Video.Keys.{new_user_id, new_storage_key}
use video_processor.Video.Filename.{new_original_filename}
use video_processor.Video.Store.{
  Row, EventType, created_event, queued_event, completed_event, failed_event, Payload,
  created_payload, queued_payload, completed_payload, failed_payload, OutboxEvent, Database,
  DriverError, mark_unavailable, Fault, answers, early, late, lost, Turn, find_row, put_row,
}

-- A transaction that has run its statements: it commits, or it fails and leaves nothing, or its
-- commit takes effect and the answer is lost.
abbrev settle : {A : Type 0} → Fault → A → Database → Database → Result A × Database
settle answers a old new = (ok a, new)
settle (early e) a old new = (err (mark_unavailable e), old)
settle (late e) a old new = (err (mark_unavailable e), old)
settle (lost e) a old new = (err (mark_unavailable e), new)

-- A failure before the statement that decides.
abbrev reached : {A : Type 0} → Fault → Database → Result A × Database → Result A × Database
reached (early e) old rest = (err (mark_unavailable e), old)
reached _ old rest = rest

abbrev pub with_event : Turn → EventType → Payload → List Row → Database → Database
with_event t type payload rows db = record db {
  rows = rows;
  outbox =
      record { event_id = t.minted; event_type = type; payload = payload; occurred_at = db.clock }
      ∷ db.outbox;
}

-- INSERT into video_jobs; an id that a row has already violates the primary key.
abbrev insert_job : Turn → VideoJob → Database → Option Row → Result (Unit {0}) × Database
insert_job t job db (some r) = (err (plain (codes "duplicate key")), db)
insert_job t job db none = settle t.fault tt db (
    with_event t created_event (created_payload job.id job.user_id job.original_filename db.clock)
      (record job { created_at = db.clock } ∷ db.rows) db)

unfoldable pub create : Turn → VideoJob → Database → Result (Unit {0}) × Database
create t job db = reached t.fault db (insert_job t job db (find_row job.id db.rows))

abbrev pub optional_key : Text → Result Text
optional_key value = if is_empty value then ok [] else new_storage_key value

unfoldable pub scan_job_row : (Text → Result Text) → Row → Result VideoJob
scan_job_row parse r = do
  id ← parse r.id
  user ← new_user_id r.user_id
  filename ← new_original_filename r.original_filename
  source ← optional_key r.source_key
  storage ← optional_key r.storage_key
  restore_video_job id user filename source r.content_hash storage r.frame_count r.error_reason
      r.status r.created_at r.lease_epoch

abbrev scan_job : (Text → Result Text) → Option Row → Result VideoJob
scan_job parse none = err (sentinel video_job_not_found)
scan_job parse (some r) = scan_job_row parse r

-- One statement, so a failure of any kind reads nothing.
abbrev reading : {A : Type 0} → Fault → Result A → Result A
reading answers a = a
reading (early e) a = err (mark_unavailable e)
reading (late e) a = err (mark_unavailable e)
reading (lost e) a = err (mark_unavailable e)

unfoldable pub find_by_id : (Text → Result Text) → Fault → Text → Database → Result VideoJob
unfolding scan_job_row
find_by_id parse f id db = reading f (scan_job parse (find_row id db.rows))

abbrev pub queued_payload_of : VideoJob → ℕ → Payload
queued_payload_of job now = queued_payload job.id job.user_id job.source_key job.content_hash now

abbrev enqueue_rows : VideoJob → List Row → Option Row → List Row
enqueue_rows job rows none = rows
enqueue_rows job rows (some r) =
    put_row
      (record r {
        status = job.status;
        frame_count = job.frame_count;
        error_reason = job.error_reason;
        storage_key = job.storage_key;
      })
      rows

-- The statement's row count is not read: the event is written whether or not a row was there.
unfoldable pub enqueue : Turn → VideoJob → Database → Result (Unit {0}) × Database
enqueue t job db = reached t.fault db (
    settle t.fault tt db (
      with_event t queued_event (queued_payload_of job db.clock)
        (enqueue_rows job db.rows (find_row job.id db.rows)) db))

unfoldable pub terminal_event_type : JobStatus → Result EventType
terminal_event_type completed = ok completed_event
terminal_event_type failed = ok failed_event
terminal_event_type _ = err (plain (codes "not a terminal status"))

abbrev pub terminal_payload : EventType → VideoJob → ℕ → Payload
terminal_payload completed_event job now =
    completed_payload job.id job.user_id job.frame_count job.storage_key now
terminal_payload _ job now = failed_payload job.id job.user_id job.error_reason now

abbrev pub outcome_row : VideoJob → Row → Row
outcome_row job r = record r {
  status = job.status;
  frame_count = job.frame_count;
  error_reason = job.error_reason;
  storage_key = job.storage_key;
}

-- `UPDATE .. WHERE id = .. AND lease_epoch = .. AND status = 'processing'`, and the outbox insert if
-- it met a row.
abbrev write_terminal_row :
    Turn → VideoJob → ℤ → EventType → Database → Option Row → Result Bool × Database
write_terminal_row t job epoch type db none = (ok false, db)
write_terminal_row t job epoch type db (some r) =
    if eq_ℤ r.lease_epoch epoch && status_eq r.status processing
    then settle t.fault true db (
        with_event t type (terminal_payload type job db.clock) (put_row (outcome_row job r) db.rows)
          db)
    else (ok false, db)

unfoldable pub write_terminal_outcome :
    Turn → VideoJob → ℤ → EventType → Database → Result Bool × Database
unfolding status_eq
write_terminal_outcome t job epoch type db =
    reached t.fault db (write_terminal_row t job epoch type db (find_row job.id db.rows))

abbrev same_outcome : VideoJob → Row → Bool
same_outcome job r =
    status_eq r.status job.status
    && (eq_ℤ r.frame_count job.frame_count
        && (text_eq r.error_reason job.error_reason && text_eq r.storage_key job.storage_key))

abbrev classify_row : VideoJob → ℤ → Option Row → Result Bool
classify_row job epoch none = err (sentinel video_job_not_found)
classify_row job epoch (some r) =
    if eq_ℤ r.lease_epoch epoch && is_terminal r.status
    then if same_outcome job r then ok false else err (sentinel job_fenced)
    else err (sentinel job_fenced)

-- The lookup after a statement that met no row; only `late` can be its failure.
abbrev probing : {A : Type 0} → Fault → Result A → Result A
probing (late e) a = err (mark_unavailable e)
probing _ a = a

unfoldable pub classify_refused_update : Turn → VideoJob → ℤ → Database → Result Bool
unfolding is_terminal
classify_refused_update t job epoch db =
    probing t.fault (classify_row job epoch (find_row job.id db.rows))

abbrev after_write : Turn → VideoJob → ℤ → Result Bool × Database → Result Bool × Database
after_write t job epoch (ok true, db) = (ok true, db)
after_write t job epoch (ok false, db) =
    let later = t.meanwhile db in (classify_refused_update t job epoch later, later)
after_write t job epoch (err e, db) = (err e, db)

abbrev update_as : Turn → VideoJob → ℤ → Database → Result EventType → Result Bool × Database
update_as t job epoch db (err e) = (err e, db)
update_as t job epoch db (ok type) =
    after_write t job epoch (write_terminal_outcome t job epoch type db)

unfoldable pub update : Turn → VideoJob → ℤ → Database → Result Bool × Database
unfolding terminal_event_type write_terminal_outcome classify_refused_update
update t job epoch db = update_as t job epoch db (terminal_event_type job.status)

-- `lease_epoch + 1` on a bigint column, which fails past the largest value.
abbrev pub bigint_succ : ℤ → Option ℤ
bigint_succ (pos n) = if n == max_int64 then none else some (pos (suc n))
bigint_succ (negsuc zero) = some (pos 0)
bigint_succ (negsuc (suc n)) = some (negsuc n)

abbrev requeue_row : Turn → VideoJob → Database → Row → Option ℤ → Result Bool × Database
requeue_row t job db r none = (err (plain (codes "bigint out of range")), db)
requeue_row t job db r (some next) = settle t.fault true db (
    with_event t queued_event (queued_payload_of job db.clock)
      (put_row (record r { status = queued; lease_epoch = next }) db.rows) db)

abbrev requeue_found : Turn → VideoJob → ℤ → Database → Option Row → Result Bool × Database
requeue_found t job epoch db none = (ok false, db)
requeue_found t job epoch db (some r) =
    if status_eq r.status processing && eq_ℤ r.lease_epoch epoch
    then requeue_row t job db r (bigint_succ r.lease_epoch)
    else (ok false, db)

unfoldable pub requeue : Turn → VideoJob → ℤ → Database → Result Bool × Database
unfolding status_eq
requeue t job epoch db = reached t.fault db (requeue_found t job epoch db (find_row job.id db.rows))

abbrev claim_probe : Option Row → Result (Bool × ℤ)
claim_probe none = err (sentinel video_job_not_found)
claim_probe (some r) = ok (false, pos 0)

abbrev claim_missed : Turn → VideoJob → Database → Result (Bool × ℤ) × Database
claim_missed t job db =
    let later = t.meanwhile db in
    (probing t.fault (claim_probe (find_row job.id later.rows)), later)

-- The claim is one statement: it takes effect and answers, or its answer is lost.
abbrev claim_won : Fault → Row → Database → Result (Bool × ℤ) × Database
claim_won (lost e) r db = (
  err (mark_unavailable e),
  record db { rows = put_row (record r { status = processing }) db.rows },
)
claim_won _ r db = (
  ok (true, r.lease_epoch),
  record db { rows = put_row (record r { status = processing }) db.rows },
)

abbrev claim_found : Turn → VideoJob → Database → Option Row → Result (Bool × ℤ) × Database
claim_found t job db none = claim_missed t job db
claim_found t job db (some r) =
    if status_eq r.status queued then claim_won t.fault r db else claim_missed t job db

unfoldable pub claim_for_processing : Turn → VideoJob → Database → Result (Bool × ℤ) × Database
unfolding status_eq
claim_for_processing t job db = reached t.fault db (claim_found t job db (find_row job.id db.rows))
