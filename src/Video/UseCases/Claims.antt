-- ===== src/Video/UseCases/Claims.antt =====
-- RetryVideoJob: the tables after a success.
use video_processor.Prelude.{
  ℤ, text_eq_refl, Text, true, false, ◌≡◌, refl, sym, ◌∙◌, inl, inr, none, some, List, [], ◌∷◌,
  arith, subst,
}
use video_processor.Errors.{Outcome, Result, Result-cases, ok}
use video_processor.Video.Status.{queued}
use video_processor.Video.Job
use video_processor.Video.Job.{VideoJob}
use video_processor.Video.Idgen.{IsParser}
use video_processor.Video.Store.{
  Row, Database, Turn, OutboxEvent, payload_job, queued_event, find_row, find_row-put_row,
  find_row_id,
}
use video_processor.Video.Repository
use video_processor.Video.Repository.Reloading.{find_by_id_canonical}
use video_processor.Video.Repository.Requeues.{requeue_ok}
use video_processor.Video.Exec.{Visit}
use video_processor.Video.UseCases.{
  TransitionResult, requeue_moved, retry_video_job, classify_refused_requeue,
}

-- The job waits in `queued`, and the newest event dispatches it.
abbrev pub NewestDispatches : Text → List OutboxEvent → Type 0
NewestDispatches i [] = ⊥
NewestDispatches i (e ∷ es) = (e.event_type ≡ queued_event) × (payload_job e.payload ≡ i)

abbrev pub Dispatched : Text → Database → Type 0
Dispatched i db =
    (r : Row) × (find_row i db.rows ≡ some r) × (r.status ≡ queued) × NewestDispatches i db.outbox

requeued-Dispatched :
    (t : Turn) (job : VideoJob) (epoch : ℤ) (db : Database)
    → (Repository.requeue t job epoch db).0 ≡ ok true
    → Dispatched job.id (Repository.requeue t job epoch db).1
requeued-Dispatched t job epoch db h =
    let (r, later, e, _, _, _, run) = requeue_ok t job epoch db h in
    let moved : Row = record r { status = queued; lease_epoch = later } in
    rw run (
      moved,
      ground (
        arith,
        find_row-put_row job.id moved r db.rows,
        find_row_id job.id db.rows r e,
        text_eq_refl job.id,
      ),
      refl,
      (refl, refl),
    )

requeue-id : (job : VideoJob) → (Job.requeue job).0.id ≡ job.id
unfolding Job.requeue
requeue-id job = ground arith

moved-Dispatched :
    (v : Visit) (epoch : ℤ) (i : Text) (job : VideoJob) (db : Database) (res : TransitionResult)
    → job.id ≡ i
    → (requeue_moved v epoch (job, none) db).0 ≡ ok res
    → Dispatched i (requeue_moved v epoch (job, none) db).1
moved-Dispatched v epoch i job db res named h =
    elim (Result-cases (Repository.requeue v.writing job epoch (v.between db)).0) [
      | inr (e, f) ↦ absurd (ground arith)
      | inl (false, f) ↦ absurd (ground arith)
      | inl (true, f) ↦
          let same : (requeue_moved v epoch (job, none) db).1
              ≡ (Repository.requeue v.writing job epoch (v.between db)).1 =
            ground arith in
          subst (Dispatched i) (sym same) (
            subst (λ k. Dispatched k (Repository.requeue v.writing job epoch (v.between db)).1)
              named (requeued-Dispatched v.writing job epoch (v.between db) f))
    ]

retry_moved :
    (v : Visit) (epoch : ℤ) (i : Text) (job : VideoJob) (db : Database) (res : TransitionResult)
    (moved : Outcome VideoJob)
    → moved.0.id ≡ i
    → (requeue_moved v epoch moved db).0 ≡ ok res
    → Dispatched i (requeue_moved v epoch moved db).1
unfolding classify_refused_requeue
retry_moved v epoch i job db res (k, none) named h = moved-Dispatched v epoch i k db res named h
retry_moved v epoch i job db res (k, some e) named h = absurd (ground arith)

-- With a parser that the use cases can rely on: a RetryVideoJob that succeeds leaves the job
-- queued, and the newest event of the outbox dispatches it again.
pub retry_video_job-Dispatched :
    (parse : Text → Result Text) (v : Visit) (job_id i : Text) (epoch : ℤ) (db : Database)
    (res : TransitionResult)
    → IsParser parse
    → parse job_id ≡ ok i
    → (retry_video_job parse v job_id epoch db).0 ≡ ok res
    → Dispatched i (retry_video_job parse v job_id epoch db).1
unfolding retry_video_job
retry_video_job-Dispatched parse v job_id i epoch db res c p h =
    elim (Result-cases (Repository.find_by_id parse v.reading i (v.before db))) [
      | inr (e, f) ↦ absurd (ground arith)
      | inl (job, f) ↦
          let (found, named, _) =
            find_by_id_canonical parse v.reading job_id i (v.before db) job c.canonical p f in
          rw p (
            rw f (
              retry_moved v epoch i job (v.before db) res (Job.requeue job) (requeue-id job ∙ named)
                (rw f at (rw p at h))))
    ]
