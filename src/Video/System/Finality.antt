-- ===== src/Video/System/Finality.antt =====
-- Histories in which each job is enqueued once, as the upload path does, by whatever aggregate: the
-- statement of `Enqueue` names the id alone and does not look at the row's status.
use video_processor.Prelude.{
  ℕ, ℤ, pos, negsuc, is_negative, false, Text, true, ◌≡◌, sym, subst, ◌∙◌, refl, some, arith,
}
use video_processor.Errors.{ok}
use video_processor.Video.Status.{JobStatus, pending, queued, is_terminal}
use video_processor.Video.Job.{VideoJob, new_video_job}
use video_processor.Video.Store.{Database, Turn, Row, find_row, queued_event}
use video_processor.Video.Repository
use video_processor.Video.System.{
  Alone, Step, creates, enqueues, claims, updates, requeues, passes, Reach, here, next,
  empty_database, announced,
}
use video_processor.Video.System.Announcements.{
  Told, Accounts, Accounted, dispatches, Step-Accounted, empty-Accounted,
}
use video_processor.Video.System.Progress.{Reach-terminal}

-- A call by any client. An enqueue is of a job that has a row, with an aggregate that was moved to
-- `queued`, and no dispatch of the job is in the outbox yet; nothing is asked of the row.
pub data ClientCall (db : Database) : Database → Type 0 where
  creates_job :
      (t : Turn) (id user filename source hash : Text) (job : VideoJob)
      → new_video_job (some id) user filename source hash ≡ ok job
      → ClientCall db (Repository.create t job db).1
  enqueues_first :
      (t : Turn) (job : VideoJob) (r : Row)
      → find_row job.id db.rows ≡ some r
      → announced queued_event job.id db.outbox ≡ 0
      → job.status ≡ queued
      → ClientCall db (Repository.enqueue t job db).1
  claims_job :
      (t : Turn) (job : VideoJob)
      → Alone t
      → ClientCall db (Repository.claim_for_processing t job db).1
  updates_job :
      (t : Turn) (job : VideoJob) (epoch : ℤ)
      → Alone t
      → ClientCall db (Repository.update t job epoch db).1
  requeues_job :
      (t : Turn) (job : VideoJob) (epoch : ℤ) → ClientCall db (Repository.requeue t job epoch db).1
  time_passes : (now : ℕ) → ClientCall db (record db { clock = now })

pub data History (db : Database) : Database → Type 0 where
  start : History db db
  called : {e f : Database} → History db e → ClientCall e f → History db f

undispatched :
    (status : JobStatus) (epoch : ℤ)
    → is_negative epoch ≡ false
    → dispatches status epoch ≡ 0
    → status ≡ pending
undispatched pending epoch n d = refl
undispatched _ (pos n) s d = absurd (ground arith)
undispatched _ (negsuc n) s d = absurd (ground arith)

undispatched-pending :
    (i : Text) (r : Row) (db : Database)
    → find_row i db.rows ≡ some r
    → Accounted db
    → announced queued_event i db.outbox ≡ 0
    → r.status ≡ pending
undispatched-pending i r db e a n =
    let told : Told i r db.outbox = subst (λ o. Accounts i o db.outbox) e (a i) in
    undispatched r.status r.lease_epoch told.counted_epoch (sym told.queued_times ∙ n)

ClientCall-Step : {db later : Database} → Accounted db → ClientCall db later → Step db later
ClientCall-Step a (creates_job t id user filename source hash job e) =
    creates t id user filename source hash job e
ClientCall-Step {db} a (enqueues_first t job r e n q) =
    enqueues t job r e (undispatched-pending job.id r db e a n) q
ClientCall-Step a (claims_job t job alone) = claims t job alone
ClientCall-Step a (updates_job t job epoch alone) = updates t job epoch alone
ClientCall-Step a (requeues_job t job epoch) = requeues t job epoch
ClientCall-Step a (time_passes now) = passes now

History-Reach :
    {db later : Database} → Accounted db → History db later → Reach db later × Accounted later
History-Reach a start = (here, a)
History-Reach a (called h c) =
    let (reached, kept) = History-Reach a h in
    let step = ClientCall-Step kept c in (next reached step, Step-Accounted step kept)

-- A row that is completed or failed is final. From empty tables, in any history of calls with any
-- stale aggregates and epochs, failures and lost answers, in which an enqueue is of a job that no
-- dispatch was written for yet: once a row is terminal, no later call changes any of its columns.
pub terminal_final :
    (i : Text) (r : Row) (db later : Database)
    → History empty_database db
    → History db later
    → find_row i db.rows ≡ some r
    → is_terminal r.status ≡ true
    → find_row i later.rows ≡ some r
terminal_final i r db later before after e d =
    let accounted = (History-Reach empty-Accounted before).1 in
    Reach-terminal i r (History-Reach accounted after).0 e d
