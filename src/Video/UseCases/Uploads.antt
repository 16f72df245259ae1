-- ===== src/Video/UseCases/Uploads.antt =====
-- EnqueueVideoJob: what its success means for an upload.
use video_processor.Prelude.{
  text_eq_refl, Text, ◌≡◌, refl, sym, ◌∙◌, inl, inr, none, some, arith, subst,
}
use video_processor.Errors.{Outcome, Result, Result-cases, ok}
use video_processor.Video.Status.{queued}
use video_processor.Video.Job
use video_processor.Video.Job.{VideoJob}
use video_processor.Video.Idgen.{IsParser}
use video_processor.Video.Store.{Row, Database, Turn, find_row, find_row-put_row, find_row_id}
use video_processor.Video.Repository
use video_processor.Video.Repository.Reloading.{find_by_id_canonical}
use video_processor.Video.Exec.{Visit}
use video_processor.Video.UseCases.{TransitionResult, enqueue_moved, enqueue_video_job}
use video_processor.Video.UseCases.Claims.{NewestDispatches, Dispatched}

enqueued_row :
    (t : Turn) (job : VideoJob) (db : Database) (r : Row)
    → find_row job.id db.rows ≡ some r
    → (Repository.enqueue t job db).0 ≡ ok tt
    → find_row job.id (Repository.enqueue t job db).1.rows ≡ some (Repository.outcome_row job r)
unfolding Repository.enqueue
enqueued_row t job db r e h = ground (
  arith,
  find_row-put_row job.id (Repository.outcome_row job r) r db.rows,
  find_row_id job.id db.rows r e,
  text_eq_refl job.id,
)

enqueued-NewestDispatches :
    (t : Turn) (job : VideoJob) (db : Database)
    → (Repository.enqueue t job db).0 ≡ ok tt
    → NewestDispatches job.id (Repository.enqueue t job db).1.outbox
unfolding Repository.enqueue
enqueued-NewestDispatches t job db h = ground arith

enqueued-Dispatched :
    (t : Turn) (job : VideoJob) (db : Database) (r : Row)
    → find_row job.id db.rows ≡ some r
    → job.status ≡ queued
    → (Repository.enqueue t job db).0 ≡ ok tt
    → Dispatched job.id (Repository.enqueue t job db).1
enqueued-Dispatched t job db r e q h = (
  Repository.outcome_row job r,
  enqueued_row t job db r e h,
  q,
  enqueued-NewestDispatches t job db h,
)

enqueue-queued : (job : VideoJob) → (Job.enqueue job).1 ≡ none → (Job.enqueue job).0.status ≡ queued
unfolding Job.enqueue
enqueue-queued job h = ground arith

enqueue-id : (job : VideoJob) → (Job.enqueue job).0.id ≡ job.id
unfolding Job.enqueue
enqueue-id job = ground arith

moved-enqueued :
    (v : Visit) (i : Text) (moved : Outcome VideoJob) (db : Database) (r : Row)
    (res : TransitionResult)
    → find_row i db.rows ≡ some r
    → moved.0.id ≡ i
    → (moved.1 ≡ none → moved.0.status ≡ queued)
    → v.between db ≡ db
    → (enqueue_moved v moved db).0 ≡ ok res
    → Dispatched i (enqueue_moved v moved db).1
moved-enqueued v i (job, some e) db r res f named q b h = absurd (ground arith)
moved-enqueued v i (job, none) db r res f named q b h =
    elim (Result-cases (Repository.enqueue v.writing job (v.between db)).0) [
      | inr (e, g) ↦ absurd (ground arith)
      | inl (tt, g) ↦
          let same : (enqueue_moved v (job, none) db).1
              ≡ (Repository.enqueue v.writing job (v.between db)).1 =
            ground arith in
          subst (Dispatched i) (sym same) (
            subst (λ k. Dispatched k (Repository.enqueue v.writing job (v.between db)).1) named
              (enqueued-Dispatched v.writing job (v.between db) r (rw (b, named) f) (q refl) g))
    ]

-- With a parser that the use cases can rely on: an EnqueueVideoJob that succeeds leaves the job
-- queued, and the newest event of the outbox dispatches it, if nobody else writes between its load
-- and its write.
pub enqueue_video_job-Dispatched :
    (parse : Text → Result Text) (v : Visit) (job_id i : Text) (db : Database)
    (res : TransitionResult)
    → IsParser parse
    → parse job_id ≡ ok i
    → v.between (v.before db) ≡ v.before db
    → (enqueue_video_job parse v job_id db).0 ≡ ok res
    → Dispatched i (enqueue_video_job parse v job_id db).1
unfolding enqueue_video_job
enqueue_video_job-Dispatched parse v job_id i db res c p b h =
    elim (Result-cases (Repository.find_by_id parse v.reading i (v.before db))) [
      | inr (e, f) ↦ absurd (ground arith)
      | inl (job, f) ↦
          let (found, named, _) =
            find_by_id_canonical parse v.reading job_id i (v.before db) job c.canonical p f in
          rw p (
            rw f (
              moved-enqueued v i (Job.enqueue job) (v.before db) job res found
                (enqueue-id job ∙ named) (enqueue-queued job) b (rw f at (rw p at h))))
    ]
