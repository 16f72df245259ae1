-- ===== src/Video/System/Ownership.antt =====
-- One run of a job at a time: what a won claim, an applied outcome and a lost answer mean for every
-- later history.
use video_processor.Prelude.{
  ℤ, ltb_ℤ, eq_ℤ_iff, text_eq_iff, text_eq_refl, true, false, ◌≡◌, refl, ◌≢◌, ◌⊎◌, inl, inr, some,
  arith, Option-cases,
}
use video_processor.Errors.{ok, err, sentinel, job_fenced}
use video_processor.Video.Status.{queued, processing, status_eq, status_eq_iff, is_terminal}
use video_processor.Video.Job.{VideoJob}
use video_processor.Video.Store.{
  Database, Turn, DriverError, answers, lost, find_row, Row, find_row-put_row, find_row_id,
}
use video_processor.Video.Repository
use video_processor.Video.Repository.Outcomes.{SameOutcome}
use video_processor.Video.System.{Alone, Reach}
use video_processor.Video.System.Progress.{Ahead, Reach-Follows, Reach-terminal, found-Ahead}

-- What a won claim says of the row, before and after.
claim_won_row :
    (t : Turn) (job : VideoJob) (db : Database) (e : ℤ)
    → (Repository.claim_for_processing t job db).0 ≡ ok (true, e)
    → (r : Row) × (find_row job.id db.rows ≡ some r)
      × (r.status ≡ queued)
      × (r.lease_epoch ≡ e)
      × (find_row job.id (Repository.claim_for_processing t job db).1.rows
          ≡ some (record r { status = processing }))
unfolding Repository.claim_for_processing
claim_won_row t job db e h = elim (Option-cases (find_row job.id db.rows)) [
  | inl f ↦ absurd (ground arith)
  | inr (r, f) ↦ (
    r,
    f,
    ground (arith, status_eq_iff r.status queued),
    ground arith,
    ground (
      arith,
      find_row-put_row job.id (record r { status = processing }) r db.rows,
      find_row_id job.id db.rows r f,
      text_eq_refl job.id,
    ),
  )
]

later_epoch :
    (r s : Row)
    → Ahead r s
    → r.status ≡ processing
    → s.status ≡ queued
    → ltb_ℤ r.lease_epoch s.lease_epoch ≡ true
later_epoch r s h p q = ground arith

-- Each epoch of a job is won by one claim: if a claim is won, and after any history of other calls
-- a second claim of the same job is won, the second is at a strictly later epoch.
pub claim_epochs_rise :
    (t u : Turn) (job again : VideoJob) (db later : Database) (e f : ℤ)
    → (Repository.claim_for_processing t job db).0 ≡ ok (true, e)
    → Reach (Repository.claim_for_processing t job db).1 later
    → again.id ≡ job.id
    → (Repository.claim_for_processing u again later).0 ≡ ok (true, f)
    → ltb_ℤ e f ≡ true
claim_epochs_rise t u job again db later e f won h same wins =
    let (r, found, was, at, now) = claim_won_row t job db e won in
    let (s, found', was', at', _) = claim_won_row u again later f wins in
    let held : Row = record r { status = processing } in
    let ahead =
      found-Ahead held s (find_row job.id later.rows) (rw same at found')
        (Reach-Follows job.id held h now) in
    rw (at, at') at (later_epoch held s ahead refl was')

-- The outcome of a run that a requeue has superseded.
superseded_row :
    (t : Turn) (job : VideoJob) (epoch : ℤ) (db : Database) (r : Row)
    → Alone t
    → t.fault ≡ answers
    → find_row job.id db.rows ≡ some r
    → ltb_ℤ epoch r.lease_epoch ≡ true
    → is_terminal job.status ≡ true
    → Repository.update t job epoch db ≡ (err (sentinel job_fenced), db)
unfolding Repository.update is_terminal status_eq
superseded_row t job epoch db r a f e b d = ground (arith, a db, eq_ℤ_iff r.lease_epoch epoch)

epoch_still-Ahead :
    (epoch : ℤ) (r s : Row)
    → Ahead r s
    → ltb_ℤ epoch r.lease_epoch ≡ true
    → ltb_ℤ epoch s.lease_epoch ≡ true
epoch_still-Ahead epoch r s h b = ground arith

-- A requeue fences the run that it supersedes, for good: once the row's epoch is past the one that
-- a worker holds, then after any further history the worker's completion or failure, if its calls
-- are answered, is refused as fenced and the tables stay as they are.
pub superseded_update :
    (t : Turn) (job : VideoJob) (epoch : ℤ) (db later : Database) (r s : Row)
    → Alone t
    → t.fault ≡ answers
    → find_row job.id db.rows ≡ some r
    → ltb_ℤ epoch r.lease_epoch ≡ true
    → is_terminal job.status ≡ true
    → Reach db later
    → find_row job.id later.rows ≡ some s
    → Repository.update t job epoch later ≡ (err (sentinel job_fenced), later)
superseded_update t job epoch db later r s a f e b d h e' =
    superseded_row t job epoch later s a f e'
      (epoch_still-Ahead epoch r s
        (found-Ahead r s (find_row job.id later.rows) e' (Reach-Follows job.id r h e)) b)
      d

-- What an applied outcome says of the row, before and after.
applied_row :
    (t : Turn) (job : VideoJob) (epoch : ℤ) (db : Database) (r : Row)
    → find_row job.id db.rows ≡ some r
    → r.status ≡ processing
    → r.lease_epoch ≡ epoch
    → is_terminal job.status ≡ true
    → (t.fault ≡ answers) ⊎ ((x : DriverError) × (t.fault ≡ lost x))
    → find_row job.id (Repository.update t job epoch db).1.rows
      ≡ some (Repository.outcome_row job r)
unfolding Repository.update is_terminal status_eq
applied_row t job epoch db r e p n d f = ground (
  arith,
  find_row-put_row job.id (Repository.outcome_row job r) r db.rows,
  find_row_id job.id db.rows r e,
  text_eq_refl job.id,
  eq_ℤ_iff r.lease_epoch epoch,
)

abbrev pub OtherOutcome : VideoJob → VideoJob → Type 0
OtherOutcome job again =
    (again.status ≢ job.status)
    ⊎ (again.frame_count ≢ job.frame_count)
    ⊎ (again.error_reason ≢ job.error_reason)
    ⊎ (again.storage_key ≢ job.storage_key)

-- The terminal row as a later actor at the same epoch finds it.
recorded_row :
    (u : Turn) (job again : VideoJob) (epoch : ℤ) (db : Database) (r : Row)
    → Alone u
    → u.fault ≡ answers
    → find_row again.id db.rows ≡ some (Repository.outcome_row job r)
    → r.lease_epoch ≡ epoch
    → is_terminal job.status ≡ true
    → is_terminal again.status ≡ true
    → (SameOutcome job again → Repository.update u again epoch db ≡ (ok false, db))
      × (OtherOutcome job again
          → Repository.update u again epoch db ≡ (err (sentinel job_fenced), db))
unfolding Repository.update is_terminal
recorded_row u job again epoch db r a f e n d d' = (
  λ same. ground (
    arith,
    a db,
    eq_ℤ_iff r.lease_epoch epoch,
    status_eq_iff job.status again.status,
    status_eq_iff job.status processing,
    eq_ℤ_iff job.frame_count again.frame_count,
    text_eq_iff job.error_reason again.error_reason,
    text_eq_iff job.storage_key again.storage_key,
  ),
  λ other. ground (
    arith,
    a db,
    eq_ℤ_iff r.lease_epoch epoch,
    status_eq_iff job.status again.status,
    status_eq_iff job.status processing,
    eq_ℤ_iff job.frame_count again.frame_count,
    text_eq_iff job.error_reason again.error_reason,
    text_eq_iff job.storage_key again.storage_key,
  ),
)

-- An outcome that has been applied to a processing row at its epoch, its answer lost or not, stands
-- in every later history. Of the calls that are answered, a retry with the same outcome at the same
-- epoch succeeds, reports that it applied nothing, and writes nothing; any other outcome at that
-- epoch is refused as fenced, and writes nothing.
pub recorded_outcome :
    (t u : Turn) (job again : VideoJob) (epoch : ℤ) (db later : Database) (r : Row)
    → find_row job.id db.rows ≡ some r
    → r.status ≡ processing
    → r.lease_epoch ≡ epoch
    → is_terminal job.status ≡ true
    → (t.fault ≡ answers) ⊎ ((x : DriverError) × (t.fault ≡ lost x))
    → Reach (Repository.update t job epoch db).1 later
    → Alone u
    → u.fault ≡ answers
    → again.id ≡ job.id
    → is_terminal again.status ≡ true
    → (SameOutcome job again → Repository.update u again epoch later ≡ (ok false, later))
      × (OtherOutcome job again
          → Repository.update u again epoch later ≡ (err (sentinel job_fenced), later))
recorded_outcome t u job again epoch db later r e p n d f h a g same d' =
    let kept =
      Reach-terminal job.id (Repository.outcome_row job r) h
        (applied_row t job epoch db r e p n d f) d in
    recorded_row u job again epoch later r a g (rw same kept) n d d'
