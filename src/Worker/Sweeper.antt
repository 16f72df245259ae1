-- ===== src/Worker/Sweeper.antt =====
-- cmd/worker/sweeper.go, and `FindProcessing` of internal/video/infrastructure/postgres/repository.go
-- that it reads: the recovery of jobs whose worker died. The maps of the sweeper are lists.
pub mod Marks
pub mod Confirmation
pub mod Disposal
use video_processor.Prelude.{
  ℕ, zero, suc, ltb, ◌==◌, ℤ, pos, eq_ℤ, leb_ℤ, Text, is_empty, text_eq, Bool, true, false, not,
  ◌||◌, ◌&&◌, if◌then◌else◌, Option, none, some, List, [], ◌∷◌, ◌++◌, length, take,
}
use video_processor.Errors.{Error, Result, ok, err, Outcome}
use video_processor.Video.Status.{status_eq, processing}
use video_processor.Video.Job
use video_processor.Video.Job.{VideoJob}
use video_processor.Video.Store.{
  Row, Database, Fault, answers, early, late, lost, mark_unavailable, Turn,
}
use video_processor.Video.Repository
use video_processor.Video.Repository.{scan_job_row}
use video_processor.Video.Exec.{Visit}
use video_processor.Video.UseCases.{TransitionResult, abandon}
use video_processor.Worker.Dispatch.{Cleanup, source_deleted, key_cleared}

-- `<` on the id column; the canonical texts of two ids are in the order of the ids.
unfoldable pub text_less : Text → Text → Bool
text_less [] [] = false
text_less [] (d ∷ t) = true
text_less (c ∷ s) [] = false
text_less (c ∷ s) (d ∷ t) = ltb c d || (c == d && text_less s t)

unfoldable pub insert_by_id : Row → List Row → List Row
unfolding text_less
insert_by_id r [] = r ∷ []
insert_by_id r (s ∷ rows) = if text_less r.id s.id then r ∷ s ∷ rows else s ∷ insert_by_id r rows

-- `WHERE status = 'processing' [AND id > after] ORDER BY id ASC`
unfoldable pub processing_after : Text → List Row → List Row
unfolding text_less status_eq insert_by_id
processing_after after [] = []
processing_after after (r ∷ rows) =
    if status_eq r.status processing && (is_empty after || text_less after r.id)
    then insert_by_id r (processing_after after rows)
    else processing_after after rows

abbrev pub cons_job : Result VideoJob → Result (List VideoJob) → Result (List VideoJob)
cons_job (err e) rest = err e
cons_job (ok job) (err e) = err e
cons_job (ok job) (ok jobs) = ok (job ∷ jobs)

-- The loop over the rows; the first row that does not scan ends it.
unfoldable pub scan_rows : (Text → Result Text) → List Row → Result (List VideoJob)
scan_rows parse [] = ok []
scan_rows parse (r ∷ rows) = cons_job (scan_job_row parse r) (scan_rows parse rows)

-- The zero id is the empty text. A failure of the query or of reading its rows reads nothing.
abbrev pub scanned : Fault → Result (List VideoJob) → Result (List VideoJob)
scanned answers jobs = jobs
scanned (early e) jobs = err (mark_unavailable e)
scanned (late e) jobs = err (mark_unavailable e)
scanned (lost e) jobs = err (mark_unavailable e)

unfoldable pub find_processing :
    (Text → Result Text) → Fault → Text → ℕ → Database → Result (List VideoJob)
unfolding processing_after scan_rows
find_processing parse f after limit db =
    scanned f (scan_rows parse (take limit (processing_after after db.rows)))

abbrev pub Marks : Type 0
Marks = List (Text × ℤ)

unfoldable pub mark_of : Text → Marks → Option ℤ
mark_of i [] = none
mark_of i ((k, e) ∷ marks) = if text_eq k i then some e else mark_of i marks

-- `delete(s.marks, id)`
unfoldable pub unmark : Text → Marks → Marks
unmark i [] = []
unmark i ((k, e) ∷ marks) = if text_eq k i then unmark i marks else (k, e) ∷ unmark i marks

unfoldable pub member : Text → List Text → Bool
member i [] = false
member i (k ∷ ids) = text_eq k i || member i ids

unfoldable pub keep_seen : List Text → Marks → Marks
unfolding member
keep_seen seen [] = []
keep_seen seen ((k, e) ∷ marks) =
    if member k seen then (k, e) ∷ keep_seen seen marks else keep_seen seen marks

pub record Sweeper : Type 0 where
  pub cursor : Text
  pub marks : Marks
  pub seen_this_rotation : List Text

-- What one cycle meets: what others do before its tick, the scan's fault, and for each job what others do before it is examined,
-- what the lease store answers of it, and how the requeue and the failure of it go.
pub record Cycle : Type 0 where
  pub waiting : Database → Database
  pub scanning : Fault
  pub before : Text → Database → Database
  pub leased : Text → ℤ → Result Bool
  pub requeueing : Text → Turn
  pub failing : Text → Visit

-- The marks, the tables and the clean-up asked for so far, newest first.
abbrev pub Swept : Type 0
Swept = Marks × Database × List Cleanup

-- What the rest of the world sees of it.
abbrev pub effects : Swept → Database × List Cleanup
effects (marks, db, cleanups) = (db, cleanups)

abbrev pub sweep_batch_size : ℕ
sweep_batch_size = 50

-- `maxRequeues`
abbrev max_requeues : ℤ
max_requeues = pos 3

abbrev pub disposed : VideoJob → List Cleanup → List Cleanup
disposed job cleanups =
    key_cleared job.id
    ∷ (if is_empty job.source_key then cleanups else source_deleted job.source_key ∷ cleanups)

abbrev pub abandoned : VideoJob → Marks → List Cleanup → Result TransitionResult × Database → Swept
abandoned job marks cleanups (err e, db) = (marks, db, cleanups)
abandoned job marks cleanups (ok res, db) =
    (unmark job.id marks, db, if res.applied then disposed job cleanups else cleanups)

abbrev requeued : VideoJob → Marks → List Cleanup → Result Bool × Database → Swept
requeued job marks cleanups (ok true, db) = (unmark job.id marks, db, cleanups)
requeued job marks cleanups (ok false, db) = (marks, db, cleanups)
requeued job marks cleanups (err e, db) = (marks, db, cleanups)

module _ (parse : Text → Result Text) (cycle : Cycle) where
  unfoldable pub abandon_job : VideoJob → ℤ → Swept → Swept
  unfolding unmark
  abandon_job job epoch (marks, db, cleanups) =
      abandoned job marks cleanups (abandon parse (cycle.failing job.id) job.id epoch db)

  abbrev requeue_job : ℤ → Swept → Outcome VideoJob → Swept
  requeue_job epoch x (job, some e) = x
  requeue_job epoch (marks, db, cleanups) (job, none) =
      requeued job marks cleanups (Repository.requeue (cycle.requeueing job.id) job epoch db)

  unfoldable pub recover : VideoJob → ℤ → Swept → Swept
  unfolding abandon_job unmark
  recover job epoch x =
      if is_empty job.source_key
      then abandon_job job epoch x
      else if leb_ℤ max_requeues epoch
      then abandon_job job epoch x
      else requeue_job epoch x (Job.requeue job)

  abbrev pub unleased : VideoJob → Swept → Option ℤ → Swept
  unleased job (marks, db, cleanups) none =
      ((job.id, job.lease_epoch) ∷ unmark job.id marks, db, cleanups)
  unleased job (marks, db, cleanups) (some e) =
      if eq_ℤ e job.lease_epoch
      then recover job job.lease_epoch (marks, db, cleanups)
      else ((job.id, job.lease_epoch) ∷ unmark job.id marks, db, cleanups)

  abbrev pub observed : VideoJob → Swept → Result Bool → Swept
  observed job (marks, db, cleanups) (err e) = (unmark job.id marks, db, cleanups)
  observed job (marks, db, cleanups) (ok true) = (unmark job.id marks, db, cleanups)
  observed job (marks, db, cleanups) (ok false) =
      unleased job (marks, db, cleanups) (mark_of job.id marks)

  -- The body of the loop in `sweep`, less the note that the job was seen.
  unfoldable pub examine : VideoJob → Swept → Swept
  unfolding recover mark_of unmark
  examine job (marks, db, cleanups) =
      observed job (marks, cycle.before job.id db, cleanups) (cycle.leased job.id job.lease_epoch)

  unfoldable pub examine_all : List VideoJob → Swept → Swept
  unfolding examine
  examine_all [] x = x
  examine_all (job ∷ jobs) x = examine_all jobs (examine job x)

abbrev pub ids_of : List VideoJob → List Text
ids_of [] = []
ids_of (job ∷ jobs) = job.id ∷ ids_of jobs

unfoldable pub last_id : VideoJob → List VideoJob → Text
last_id job [] = job.id
last_id job (next ∷ jobs) = last_id next jobs

abbrev cursor_after : List VideoJob → Text
cursor_after [] = []
cursor_after (job ∷ jobs) = last_id job jobs

unfoldable pub advance_cursor : List VideoJob → List Text → Marks → Sweeper
unfolding keep_seen last_id
advance_cursor jobs seen marks =
    if length jobs == sweep_batch_size
    then record { cursor = cursor_after jobs; marks = marks; seen_this_rotation = seen }
    else record { cursor = []; marks = keep_seen seen marks; seen_this_rotation = [] }

abbrev advanced : Sweeper → List VideoJob → Swept → Sweeper × Database × List Cleanup
advanced s jobs (marks, db, cleanups) =
    (advance_cursor jobs (ids_of jobs ++ s.seen_this_rotation) marks, db, cleanups)

abbrev pub swept_jobs :
    (Text → Result Text)
    → Cycle
    → Sweeper
    → Database
    → Result (List VideoJob)
    → Sweeper × Database × List Cleanup
swept_jobs parse cycle s db (err e) = (s, db, [])
swept_jobs parse cycle s db (ok jobs) =
    advanced s jobs (examine_all parse cycle jobs (s.marks, db, []))

unfoldable pub sweep :
    (Text → Result Text) → Cycle → Sweeper → Database → Sweeper × Database × List Cleanup
unfolding find_processing examine_all advance_cursor
sweep parse cycle s db =
    swept_jobs parse cycle s db (find_processing parse cycle.scanning s.cursor sweep_batch_size db)

abbrev pub new_sweeper : Sweeper
new_sweeper = record { cursor = []; marks = []; seen_this_rotation = [] }

abbrev pub next_sweep :
    Sweeper × Database × List Cleanup
    → (Sweeper → Database → Sweeper × Database)
    → Sweeper × Database
next_sweep (s, db, cleanups) go = go s db

-- The loop of `run`, one cycle for each tick.
unfoldable pub run : (Text → Result Text) → List Cycle → Sweeper → Database → Sweeper × Database
unfolding sweep
run parse [] s db = (s, db)
run parse (cycle ∷ cycles) s db =
    next_sweep (sweep parse cycle s (cycle.waiting db)) (run parse cycles)
