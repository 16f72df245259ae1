-- ===== src/Video/UseCases/Outcomes.antt =====
-- CompleteJob and FailJob: the row after a success.
use video_processor.Prelude.{
  ℤ, eq_ℤ_iff, text_eq_iff, Text, ◌≡◌, refl, inl, inr, none, some, [], ◌∷◌, arith, sym, ap, ◌∙◌,
}
use video_processor.Errors.{Outcome, Error, Result, Result-cases, ok}
use video_processor.Video.Status.{status_eq_iff}
use video_processor.Video.Job
use video_processor.Video.Job.{VideoJob}
use video_processor.Video.Keys.{new_storage_key}
use video_processor.Video.Store.{Row, Database, find_row}
use video_processor.Video.Repository
use video_processor.Video.Repository.Reloading.{IsCanonical, find_by_id_canonical}
use video_processor.Video.Repository.Outcomes.{update_ok_row}
use video_processor.Video.Exec.{Visit}
use video_processor.Video.UseCases.{
  TransitionResult, TerminalOutcome, classify_refused_transition, record_moved, completed_as,
  failed_as, complete_job, fail_job,
}
use video_processor.Video.Job.Consistency.{IsConsistent}

-- The row of a job carries an outcome at an epoch.
pub record Carries (o : TerminalOutcome) (epoch : ℤ) (r : Row) : Type 0 where
  pub has_status : r.status ≡ o.status
  pub has_key : r.storage_key ≡ o.storage_key
  pub has_frames : r.frame_count ≡ o.frame_count
  pub has_reason : r.error_reason ≡ o.error_reason
  pub has_epoch : r.lease_epoch ≡ epoch

abbrev pub Carried : Text → TerminalOutcome → ℤ → Database → Type 0
Carried i o epoch db = (r : Row) × (find_row i db.rows ≡ some r) × Carries o epoch r

classified_transition :
    (job : VideoJob) (epoch : ℤ) (want : TerminalOutcome) (refusal : Error) (res : TransitionResult)
    → classify_refused_transition job epoch want refusal ≡ ok res
    → Carries want epoch job
unfolding classify_refused_transition
classified_transition job epoch want refusal res h = ground (
  arith,
  eq_ℤ_iff job.lease_epoch epoch,
  status_eq_iff job.status want.status,
  eq_ℤ_iff job.frame_count want.frame_count,
  text_eq_iff job.error_reason want.error_reason,
  text_eq_iff job.storage_key want.storage_key,
)

-- The part that the two use cases share, from the aggregate's answer on.
module _ (v : Visit) (epoch : ℤ) (want : TerminalOutcome) (i : Text) where
  refused_moved :
      (job : VideoJob) (refusal : Error) (db : Database) (res : TransitionResult)
      → find_row i db.rows ≡ some job
      → (record_moved v epoch want (job, some refusal) db).0 ≡ ok res
      → Carried i want epoch (record_moved v epoch want (job, some refusal) db).1
  refused_moved job refusal db res e h =
      (job, e, classified_transition job epoch want refusal res h)

  written_moved :
      (job : VideoJob) (old : ℤ) (db : Database) (res : TransitionResult)
      → job.id ≡ i
      → Carries want old job
      → (record_moved v epoch want (job, none) db).0 ≡ ok res
      → Carried i want epoch (record_moved v epoch want (job, none) db).1
  written_moved job old db res named c h =
      elim (Result-cases (Repository.update v.writing job epoch (v.between db)).0) [
        | inr (e, f) ↦ absurd (ground arith)
        | inl (b, f) ↦
            let (r, found, recs) = update_ok_row v.writing job epoch (v.between db) b f in
            (r, ground arith, ground arith)
      ]

  moved_row :
      (moved : Outcome VideoJob) (job : VideoJob) (db : Database) (res : TransitionResult)
      → find_row i db.rows ≡ some job
      → moved.0.id ≡ i
      → (moved.1 ≡ none → Carries want job.lease_epoch moved.0)
      → ((e : Error) → moved.1 ≡ some e → moved.0 ≡ job)
      → (record_moved v epoch want moved db).0 ≡ ok res
      → Carried i want epoch (record_moved v epoch want moved db).1
  moved_row (k, none) job db res e named c u h =
      written_moved k job.lease_epoch db res named (c refl) h
  moved_row (k, some x) job db res e named c u h =
      refused_moved k x db res (e ∙ ap some (sym (u x refl))) h

moved_complete :
    (job : VideoJob) (key : Text) (frames : ℤ)
    → IsConsistent job
    → (Job.complete key frames job).1 ≡ none
    → Carries (completed_as key frames) job.lease_epoch (Job.complete key frames job).0
unfolding Job.complete
moved_complete job key frames c h = ground arith

moved_fail :
    (job : VideoJob) (reason : Text)
    → IsConsistent job
    → (Job.fail reason job).1 ≡ none
    → Carries (failed_as reason) job.lease_epoch (Job.fail reason job).0
unfolding Job.fail
moved_fail job reason c h = ground arith

complete-id :
    (job : VideoJob) (key : Text) (frames : ℤ) → (Job.complete key frames job).0.id ≡ job.id
unfolding Job.complete
complete-id job key frames = ground arith

fail-id : (job : VideoJob) (reason : Text) → (Job.fail reason job).0.id ≡ job.id
unfolding Job.fail
fail-id job reason = ground arith

complete_refused :
    (job : VideoJob) (key : Text) (frames : ℤ) (e : Error)
    → (Job.complete key frames job).1 ≡ some e
    → (Job.complete key frames job).0 ≡ job
unfolding Job.complete
complete_refused job key frames e h = ground arith

fail_refused :
    (job : VideoJob) (reason : Text) (e : Error)
    → (Job.fail reason job).1 ≡ some e
    → (Job.fail reason job).0 ≡ job
unfolding Job.fail
fail_refused job reason e h = ground arith

fail_job_loaded :
    (parse : Text → Result Text) (v : Visit) (job_id i reason : Text) (epoch : ℤ) (db : Database)
    (res : TransitionResult)
    → parse job_id ≡ ok i
    → (fail_job parse v job_id reason epoch db).0 ≡ ok res
    → (job : VideoJob) × (Repository.find_by_id parse v.reading i (v.before db) ≡ ok job)
      × (fail_job parse v job_id reason epoch db
          ≡ record_moved v epoch (failed_as reason) (Job.fail reason job) (v.before db))
unfolding fail_job
fail_job_loaded parse v job_id i reason epoch db res p h =
    elim (Result-cases (Repository.find_by_id parse v.reading i (v.before db))) [
      | inr (e, f) ↦ absurd (ground arith)
      | inl (job, f) ↦ (job, f, rw p (rw f))
    ]

-- With a parser whose answers are canonical: a FailJob that succeeds, whether or not its write was
-- the one that applied, leaves the job's row failed with exactly that reason, with no result, at
-- the caller's epoch; whatever other clients do before its calls.
pub fail_job_row :
    (parse : Text → Result Text) (v : Visit) (job_id i reason : Text) (epoch : ℤ) (db : Database)
    (res : TransitionResult)
    → IsCanonical parse
    → parse job_id ≡ ok i
    → (fail_job parse v job_id reason epoch db).0 ≡ ok res
    → Carried i (failed_as reason) epoch (fail_job parse v job_id reason epoch db).1
fail_job_row parse v job_id i reason epoch db res c p h =
    let (job, f, run) = fail_job_loaded parse v job_id i reason epoch db res p h in
    let (found, named, rules) =
      find_by_id_canonical parse v.reading job_id i (v.before db) job c p f in
    rw run (
      moved_row v epoch (failed_as reason) i (Job.fail reason job) job (v.before db) res found
        (fail-id job reason ∙ named) (moved_fail job reason rules) (fail_refused job reason)
        (rw run at h))

complete_job_loaded :
    (parse : Text → Result Text) (v : Visit) (job_id i key : Text) (frames epoch : ℤ)
    (db : Database) (res : TransitionResult)
    → parse job_id ≡ ok i
    → (complete_job parse v job_id key frames epoch db).0 ≡ ok res
    → (job : VideoJob) × (Repository.find_by_id parse v.reading i (v.before db) ≡ ok job)
      × (complete_job parse v job_id key frames epoch db
          ≡ record_moved v epoch
              (completed_as key frames)
              (Job.complete key frames job)
              (v.before db))
unfolding complete_job new_storage_key
complete_job_loaded parse v job_id i [] frames epoch db res p h = absurd (ground arith)
complete_job_loaded parse v job_id i (c ∷ key) frames epoch db res p h =
    elim (Result-cases (Repository.find_by_id parse v.reading i (v.before db))) [
      | inr (e, f) ↦ absurd (ground arith)
      | inl (job, f) ↦ (job, f, rw p (rw f))
    ]

-- With a parser whose answers are canonical: a CompleteJob that succeeds, whether or not its write
-- was the one that applied, leaves the job's row completed with exactly that result key and frame
-- count, with no failure reason, at the caller's epoch; whatever other clients do before its calls.
pub complete_job_row :
    (parse : Text → Result Text) (v : Visit) (job_id i key : Text) (frames epoch : ℤ)
    (db : Database) (res : TransitionResult)
    → IsCanonical parse
    → parse job_id ≡ ok i
    → (complete_job parse v job_id key frames epoch db).0 ≡ ok res
    → Carried i (completed_as key frames) epoch (complete_job parse v job_id key frames epoch db).1
complete_job_row parse v job_id i key frames epoch db res c p h =
    let (job, f, run) = complete_job_loaded parse v job_id i key frames epoch db res p h in
    let (found, named, rules) =
      find_by_id_canonical parse v.reading job_id i (v.before db) job c p f in
    rw run (
      moved_row v epoch (completed_as key frames) i (Job.complete key frames job) job (v.before db)
        res found (complete-id job key frames ∙ named) (moved_complete job key frames rules)
        (complete_refused job key frames) (rw run at h))
