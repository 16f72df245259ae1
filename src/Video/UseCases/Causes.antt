-- ===== src/Video/UseCases/Causes.antt =====
-- Which sentinels the errors of the use cases carry.
use video_processor.Prelude.{
  ℕ, ℤ, Text, false, ◌≡◌, refl, inl, inr, none, some, arith, Option-cases,
}
use video_processor.Errors.{
  Outcome, Error, errors_is, Result, Result-cases, ok, err, job_requeued_for_retry,
  job_claim_outcome_unknown,
}
use video_processor.Video.Status.{JobStatus}
use video_processor.Video.Job
use video_processor.Video.Job.{VideoJob, restore_video_job}
use video_processor.Video.Keys.{new_user_id, new_storage_key}
use video_processor.Video.Filename.{new_original_filename}
use video_processor.Video.Idgen.{IsParser}
use video_processor.Video.Store.{
  Row, Database, Turn, Fault, find_row, mark_unavailable, DriverError,
}
use video_processor.Video.Repository
use video_processor.Video.Exec.{Visit}
use video_processor.Video.UseCases.{
  start_processing, fail_job, retry_video_job, classify_refused_transition,
  classify_refused_requeue, record_moved, failed_as, TerminalOutcome,
}

-- Neither of the two sentinels that ProcessVideoJob adds.
pub record IsPlain (e : Error) : Type 0 where
  pub not_requeued : errors_is e job_requeued_for_retry ≡ false
  pub not_unknown : errors_is e job_claim_outcome_unknown ≡ false

driver-IsPlain : (d : DriverError) → IsPlain (mark_unavailable d)
unfolding mark_unavailable errors_is
driver-IsPlain d = ground arith

filename-IsPlain : (s : Text) (e : Error) → new_original_filename s ≡ err e → IsPlain e
unfolding new_original_filename errors_is
filename-IsPlain s e h = ground arith

restore-IsPlain :
    (i user filename source hash storage reason : Text) (frames epoch : ℤ) (status : JobStatus)
    (created : ℕ) (e : Error)
    → restore_video_job i user filename source hash storage frames reason status created epoch
      ≡ err e
    → IsPlain e
unfolding restore_video_job errors_is
restore-IsPlain i user filename source hash storage reason frames epoch status created e h =
    ground arith

filename_same : (s k : Text) → new_original_filename s ≡ ok k → k ≡ s
unfolding new_original_filename
filename_same s k h = ground arith

scan-IsPlain :
    (parse : Text → Result Text) (r : Row) (e : Error)
    → IsParser parse
    → Repository.scan_job_row parse r ≡ err e
    → IsPlain e
unfolding Repository.scan_job_row new_user_id new_storage_key errors_is
scan-IsPlain parse r e p h = elim (Result-cases (parse r.id)) [
  | inr (x, f) ↦ ground (arith, p.refuses r.id x)
  | inl (i, f) ↦ elim (Result-cases (new_original_filename r.original_filename)) [
    | inr (x, g) ↦ ground (arith, filename-IsPlain r.original_filename x)
    | inl (k, g) ↦ ground (
      arith,
      restore-IsPlain i r.user_id k r.source_key r.content_hash r.storage_key r.error_reason
          r.frame_count r.lease_epoch r.status r.created_at e,
    )
  ]
]

find-IsPlain :
    (parse : Text → Result Text) (fault : Fault) (i : Text) (db : Database) (e : Error)
    → IsParser parse
    → Repository.find_by_id parse fault i db ≡ err e
    → IsPlain e
unfolding Repository.find_by_id errors_is mark_unavailable
find-IsPlain parse fault i db e p h = elim (Option-cases (find_row i db.rows)) [
  | inl f ↦ ground arith
  | inr (r, f) ↦ ground (arith, scan-IsPlain parse r e p)
]

claim-IsPlain :
    (t : Turn) (job : VideoJob) (db : Database) (e : Error)
    → (Repository.claim_for_processing t job db).0 ≡ err e
    → IsPlain e
unfolding Repository.claim_for_processing errors_is mark_unavailable
claim-IsPlain t job db e h = ground arith

requeue-IsPlain :
    (t : Turn) (job : VideoJob) (epoch : ℤ) (db : Database) (e : Error)
    → (Repository.requeue t job epoch db).0 ≡ err e
    → IsPlain e
unfolding Repository.requeue errors_is mark_unavailable
requeue-IsPlain t job epoch db e h = ground arith

update-IsPlain :
    (t : Turn) (job : VideoJob) (epoch : ℤ) (db : Database) (e : Error)
    → (Repository.update t job epoch db).0 ≡ err e
    → IsPlain e
unfolding Repository.update errors_is mark_unavailable
update-IsPlain t job epoch db e h = ground arith

start-moved-IsPlain :
    (job : VideoJob) (e : Error) → (Job.start_processing job).1 ≡ some e → IsPlain e
unfolding Job.start_processing errors_is
start-moved-IsPlain job e h = ground arith

pub start-IsPlain :
    (parse : Text → Result Text) (v : Visit) (job_id : Text) (db : Database) (e : Error)
    → IsParser parse
    → (start_processing parse v job_id db).0 ≡ err e
    → IsPlain e
unfolding start_processing errors_is
start-IsPlain parse v job_id db e p h = elim (Result-cases (parse job_id)) [
  | inr (x, f) ↦ ground (arith, p.refuses job_id x)
  | inl (i, f) ↦ elim (Result-cases (Repository.find_by_id parse v.reading i (v.before db))) [
    | inr (x, g) ↦ ground (arith, find-IsPlain parse v.reading i (v.before db) x p)
    | inl (job, g) ↦ ground (
      arith,
      start-moved-IsPlain job e,
      claim-IsPlain v.writing (Job.start_processing job).0 (v.between (v.before db)) e,
    )
  ]
]

fail-moved-IsPlain :
    (job : VideoJob) (reason : Text) (e : Error) → (Job.fail reason job).1 ≡ some e → IsPlain e
unfolding Job.fail errors_is
fail-moved-IsPlain job reason e h = ground arith

classified-IsPlain :
    (job : VideoJob) (epoch : ℤ) (want : TerminalOutcome) (refusal e : Error)
    → IsPlain refusal
    → classify_refused_transition job epoch want refusal ≡ err e
    → IsPlain e
unfolding classify_refused_transition errors_is
classified-IsPlain job epoch want refusal e p h = ground arith

record-moved-IsPlain :
    (v : Visit) (epoch : ℤ) (want : TerminalOutcome) (moved : Outcome VideoJob) (db : Database)
    (e : Error)
    → ((x : Error) → moved.1 ≡ some x → IsPlain x)
    → (record_moved v epoch want moved db).0 ≡ err e
    → IsPlain e
record-moved-IsPlain v epoch want (job, none) db e p h =
    ground (arith, update-IsPlain v.writing job epoch (v.between db) e)
record-moved-IsPlain v epoch want (job, some x) db e p h =
    classified-IsPlain job epoch want x e (p x refl) h

pub fail-IsPlain :
    (parse : Text → Result Text) (v : Visit) (job_id reason : Text) (epoch : ℤ) (db : Database)
    (e : Error)
    → IsParser parse
    → (fail_job parse v job_id reason epoch db).0 ≡ err e
    → IsPlain e
unfolding fail_job errors_is
fail-IsPlain parse v job_id reason epoch db e p h = elim (Result-cases (parse job_id)) [
  | inr (x, f) ↦ ground (arith, p.refuses job_id x)
  | inl (i, f) ↦ elim (Result-cases (Repository.find_by_id parse v.reading i (v.before db))) [
    | inr (x, g) ↦ ground (arith, find-IsPlain parse v.reading i (v.before db) x p)
    | inl (job, g) ↦
        record-moved-IsPlain v epoch (failed_as reason) (Job.fail reason job) (v.before db) e
          (fail-moved-IsPlain job reason) (rw g at (rw f at h))
  ]
]

requeue-moved-IsPlain : (job : VideoJob) (e : Error) → (Job.requeue job).1 ≡ some e → IsPlain e
unfolding Job.requeue errors_is
requeue-moved-IsPlain job e h = ground arith

pub retry-IsPlain :
    (parse : Text → Result Text) (v : Visit) (job_id : Text) (epoch : ℤ) (db : Database) (e : Error)
    → IsParser parse
    → (retry_video_job parse v job_id epoch db).0 ≡ err e
    → IsPlain e
unfolding retry_video_job classify_refused_requeue errors_is
retry-IsPlain parse v job_id epoch db e p h = elim (Result-cases (parse job_id)) [
  | inr (x, f) ↦ ground (arith, p.refuses job_id x)
  | inl (i, f) ↦ elim (Result-cases (Repository.find_by_id parse v.reading i (v.before db))) [
    | inr (x, g) ↦ ground (arith, find-IsPlain parse v.reading i (v.before db) x p)
    | inl (job, g) ↦ elim (Option-cases (Job.requeue job).1) [
      | inr (x, m) ↦ ground (arith, requeue-moved-IsPlain job x)
      | inl m ↦
          ground
            (arith, requeue-IsPlain v.writing (Job.requeue job).0 epoch (v.between (v.before db)) e)
    ]
  ]
]
