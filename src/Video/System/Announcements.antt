-- ===== src/Video/System/Announcements.antt =====
-- The events that the outbox holds of a job, against its row.
use video_processor.Prelude.{
  ℕ, suc, ℤ, pos, negsuc, is_negative, Text, text_eq_iff, Bool, true, false, ◌≡◌, Option, none,
  some, List, arith,
}
use video_processor.Errors.{ok}
use video_processor.Video.Status.{
  JobStatus, pending, queued, processing, completed, failed, status_eq, is_valid,
}
use video_processor.Video.Job.{VideoJob, new_video_job}
use video_processor.Video.Store.{
  Database, Turn, find_row, created_event, queued_event, completed_event, failed_event, OutboxEvent,
  Row, find_row-put_row, find_row_id,
}
use video_processor.Video.Repository
use video_processor.Video.Repository.Effects.{
  create_cases, enqueue_cases, claim_cases, requeue_cases, update_cases,
}
use video_processor.Video.System.{
  Alone, Step, creates, enqueues, claims, updates, requeues, passes, Reach, here, next,
  empty_database, announced,
}

abbrev pub times : Bool → ℕ
times true = 1
times false = 0

-- A row at epoch n has been dispatched once, and once more for each requeue.
abbrev pub dispatches : JobStatus → ℤ → ℕ
dispatches pending epoch = 0
dispatches _ (pos n) = suc n
dispatches _ (negsuc n) = 0

pub record Told (i : Text) (r : Row) (outbox : List OutboxEvent) : Type 0 where
  pub counted_epoch : is_negative r.lease_epoch ≡ false
  pub first_epoch : r.status ≡ pending → r.lease_epoch ≡ pos 0
  pub known_status : is_valid r.status ≡ true
  pub created_once : announced created_event i outbox ≡ 1
  pub queued_times : announced queued_event i outbox ≡ dispatches r.status r.lease_epoch
  pub completed_times : announced completed_event i outbox ≡ times (status_eq r.status completed)
  pub failed_times : announced failed_event i outbox ≡ times (status_eq r.status failed)

pub record Untold (i : Text) (outbox : List OutboxEvent) : Type 0 where
  pub no_created : announced created_event i outbox ≡ 0
  pub no_queued : announced queued_event i outbox ≡ 0
  pub no_completed : announced completed_event i outbox ≡ 0
  pub no_failed : announced failed_event i outbox ≡ 0

abbrev pub Accounts : Text → Option Row → List OutboxEvent → Type 0
Accounts i none outbox = Untold i outbox
Accounts i (some r) outbox = Told i r outbox

abbrev pub Accounted : Database → Type 0
Accounted db = (i : Text) → Accounts i (find_row i db.rows) db.outbox

claim-Accounted :
    (t : Turn) (job : VideoJob) (db : Database)
    → Alone t
    → Accounted db
    → Accounted (Repository.claim_for_processing t job db).1
unfolding is_valid status_eq
claim-Accounted t job db a h = claim_cases Accounted t job db h (rw (a db) h) λ r e q i. ground (
  arith,
  h i,
  find_row-put_row i (record r { status = processing }) r db.rows,
  find_row_id job.id db.rows r e,
  text_eq_iff r.id i,
)

requeue-Accounted :
    (t : Turn) (job : VideoJob) (epoch : ℤ) (db : Database)
    → Accounted db
    → Accounted (Repository.requeue t job epoch db).1
unfolding announced is_valid status_eq
requeue-Accounted t job epoch db h = requeue_cases Accounted t job db h epoch λ r later e s n b i.
    ground (
      arith,
      h i,
      find_row-put_row i (record r { status = queued; lease_epoch = later }) r db.rows,
      find_row_id job.id db.rows r e,
      text_eq_iff r.id i,
    )

update-Accounted :
    (t : Turn) (job : VideoJob) (epoch : ℤ) (db : Database)
    → Alone t
    → Accounted db
    → Accounted (Repository.update t job epoch db).1
unfolding announced is_valid status_eq Repository.terminal_event_type
update-Accounted t job epoch db a h =
    update_cases Accounted t job db h epoch (rw (a db) h) λ r type e w s n i. ground (
      arith,
      h i,
      find_row-put_row i (Repository.outcome_row job r) r db.rows,
      find_row_id job.id db.rows r e,
      text_eq_iff r.id i,
    )

enqueue-Accounted :
    (t : Turn) (job : VideoJob) (r : Row) (db : Database)
    → find_row job.id db.rows ≡ some r
    → r.status ≡ pending
    → job.status ≡ queued
    → Accounted db
    → Accounted (Repository.enqueue t job db).1
unfolding announced is_valid status_eq
enqueue-Accounted t job r db e s q h = enqueue_cases Accounted t job db h r e λ i. ground (
  arith,
  h i,
  find_row-put_row i (Repository.outcome_row job r) r db.rows,
  find_row_id job.id db.rows r e,
  text_eq_iff r.id i,
)

create-Accounted :
    (t : Turn) (id user filename source hash : Text) (job : VideoJob) (db : Database)
    → new_video_job (some id) user filename source hash ≡ ok job
    → Accounted db
    → Accounted (Repository.create t job db).1
unfolding announced is_valid status_eq new_video_job find_row
create-Accounted t id user filename source hash job db e h =
    create_cases Accounted t job db h λ absent i. ground (arith, h i, text_eq_iff job.id i)

pub Step-Accounted : {db later : Database} → Step db later → Accounted db → Accounted later
Step-Accounted (creates t id user filename source hash job e) h =
    create-Accounted t id user filename source hash job _ e h
Step-Accounted (enqueues t job r e s q) h = enqueue-Accounted t job r _ e s q h
Step-Accounted (claims t job a) h = claim-Accounted t job _ a h
Step-Accounted (updates t job epoch a) h = update-Accounted t job epoch _ a h
Step-Accounted (requeues t job epoch) h = requeue-Accounted t job epoch _ h
Step-Accounted (passes now) h = h

pub empty-Accounted : Accounted empty_database
unfolding find_row announced
empty-Accounted i = ground arith

-- From empty tables, whatever the clients do, in any order and with any stale aggregates, failures
-- and lost answers: each row is announced as created once, as completed or as failed once if it is
-- in that state and never otherwise, and as queued once when it was enqueued and once for each step
-- of its epoch; and the outbox names no job that has no row. An enqueue is taken to meet the
-- pending row of its job.
pub Reach-Accounted : {db : Database} → Reach empty_database db → Accounted db
Reach-Accounted here = empty-Accounted
Reach-Accounted (next r s) = Step-Accounted s (Reach-Accounted r)
