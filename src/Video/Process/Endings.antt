-- ===== src/Video/Process/Endings.antt =====
-- What the end of a run says of the job's row.
use video_processor.Prelude.{
  ℤ, leb_ℤ, Text, Bool, true, false, if◌then◌else◌, ◌≡◌, refl, Option, none, some, List, arith,
}
use video_processor.Errors.{
  Error, errors_is, Result, ok, err, job_requeued_for_retry, source_not_found,
}
use video_processor.Video.Status.{is_terminal}
use video_processor.Video.Idgen.{IsParser}
use video_processor.Video.Store.{Row, Database, find_row}
use video_processor.Video.Exec.{Visit}
use video_processor.Video.UseCases.{
  TransitionResult, start_processing, fail_job, retry_video_job, failed_as,
}
use video_processor.Video.UseCases.Causes.{IsPlain, start-IsPlain, fail-IsPlain, retry-IsPlain}
use video_processor.Video.UseCases.Claims.{Dispatched, retry_video_job-Dispatched}
use video_processor.Video.UseCases.Outcomes.{Carried, fail_job_row}
use video_processor.Video.Process.{
  Run, Ended, Extraction, extracted, unextracted, failed_with, fail_with, retried, retry_or_fail,
  stored, worked, fetched, located, claimed_run, process_video_job, or_fallback, max_job_requeues,
  fetch_failure_reason, store_failure_reason, claim_error,
}
use video_processor.Video.LocalPath.{local_source_path}

-- The row of the job is completed or failed.
abbrev pub Terminal : Text → Database → Type 0
Terminal i db = (r : Row) × (find_row i db.rows ≡ some r) × (is_terminal r.status ≡ true)

Carried-Terminal :
    (i reason : Text) (epoch : ℤ) (db : Database)
    → Carried i (failed_as reason) epoch db
    → Terminal i db
unfolding is_terminal
Carried-Terminal i reason epoch db (r, e, c) = (r, e, ground arith)

-- An end with the retry sentinel has dispatched the job again, and an end with no error is a
-- recorded failure or a result that is still to be recorded. Such a result names the job.
abbrev pub Honest : Text → Text → Ended → Type 0
Honest job_id i ((result, some e), db) = errors_is e job_requeued_for_retry ≡ true → Dispatched i db
Honest job_id i ((result, none), db) =
    (result.success ≡ false → Terminal i db) × (result.success ≡ true → result.job_id ≡ job_id)

plain-Dispatched :
    (i : Text) (e : Error) (db : Database)
    → IsPlain e
    → errors_is e job_requeued_for_retry ≡ true
    → Dispatched i db
plain-Dispatched i e db p h = absurd (ground arith)

failed-Honest :
    (job_id i reason : Text) (epoch : ℤ) (cause : Error) (r : Result TransitionResult × Database)
    → ((e : Error) → r.0 ≡ err e → IsPlain e)
    → ((res : TransitionResult) → r.0 ≡ ok res → Terminal i r.1)
    → Honest job_id i (failed_with job_id epoch cause reason r)
failed-Honest job_id i reason epoch cause (err e, db) plain done =
    plain-Dispatched i e db (plain e refl)
failed-Honest job_id i reason epoch cause (ok res, db) plain done =
    (λ h. done res refl, λ h. absurd (ground arith))

retried-Honest :
    (job_id i : Text) (epoch : ℤ) (cause : Error) (r : Result TransitionResult × Database)
    → ((e : Error) → r.0 ≡ err e → IsPlain e)
    → ((res : TransitionResult) → r.0 ≡ ok res → Dispatched i r.1)
    → Honest job_id i (retried job_id epoch cause r)
retried-Honest job_id i epoch cause (err e, db) plain done = plain-Dispatched i e db (plain e refl)
retried-Honest job_id i epoch cause (ok res, db) plain done = λ h. done res refl

-- The sentinel that an unknown claim adds is another one.
claim_error_retry :
    (e : Error)
    → errors_is (claim_error e) job_requeued_for_retry ≡ true
    → errors_is e job_requeued_for_retry ≡ true
unfolding errors_is
claim_error_retry e h = ground arith

if-Honest :
    (job_id i : Text) (b : Bool) (x y : Ended)
    → Honest job_id i x
    → Honest job_id i y
    → Honest job_id i (if b then x else y)
if-Honest job_id i true x y h k = h
if-Honest job_id i false x y h k = k

module _ (parse : Text → Result Text) (c : IsParser parse) (job_id i : Text)
    (p : parse job_id ≡ ok i) where
  fail_with-Honest :
      (v : Visit) (epoch : ℤ) (cause : Error) (reason : Text) (db : Database)
      → Honest job_id i (fail_with parse v job_id epoch cause reason db)
  unfolding fail_with
  fail_with-Honest v epoch cause reason db =
      failed-Honest job_id i (or_fallback reason) epoch cause
        (fail_job parse v job_id (or_fallback reason) epoch db)
        (λ e h. fail-IsPlain parse v job_id (or_fallback reason) epoch db e c h)
        (λ res h.
          Carried-Terminal i (or_fallback reason) epoch
            (fail_job parse v job_id (or_fallback reason) epoch db).1
            (fail_job_row parse v job_id i (or_fallback reason) epoch db res c.canonical p h))

  retry_or_fail-Honest :
      (v : Visit) (epoch : ℤ) (cause : Error) (reason : Text) (db : Database)
      → Honest job_id i (retry_or_fail parse v job_id epoch cause reason db)
  unfolding retry_or_fail
  retry_or_fail-Honest v epoch cause reason db =
      if-Honest job_id i (leb_ℤ max_job_requeues epoch)
        (fail_with parse v job_id epoch cause reason db)
        (retried job_id epoch cause (retry_video_job parse v job_id epoch db))
        (fail_with-Honest v epoch cause reason db)
        (retried-Honest job_id i epoch cause (retry_video_job parse v job_id epoch db)
          (λ e h. retry-IsPlain parse v job_id epoch db e c h)
          (λ res h. retry_video_job-Dispatched parse v job_id i epoch db res c p h))

  module _ (run : Run) where
    stored-Honest :
        (epoch frames : ℤ) (names : List Text) (o : Option Error) (db : Database)
        → Honest job_id i (stored parse run job_id i epoch frames names o db)
    stored-Honest epoch frames names (some e) db =
        retry_or_fail-Honest run.recording epoch e store_failure_reason db
    stored-Honest epoch frames names none db = (λ h. absurd (ground arith), λ h. refl)

    worked-Honest :
        (epoch : ℤ) (x : Extraction) (db : Database)
        → Honest job_id i (worked parse run job_id i epoch x db)
    worked-Honest epoch (unextracted e text) db = fail_with-Honest run.recording epoch e text db
    worked-Honest epoch (extracted frames names) db =
        stored-Honest epoch frames names run.storing db

    fetched-Honest :
        (epoch : ℤ) (o : Option Error) (db : Database)
        → Honest job_id i (fetched parse run job_id i epoch o db)
    fetched-Honest epoch none db = worked-Honest epoch run.extraction db
    fetched-Honest epoch (some e) db =
        if-Honest job_id i (errors_is e source_not_found)
          (fail_with parse run.recording job_id epoch e fetch_failure_reason db)
          (retry_or_fail parse run.recording job_id epoch e fetch_failure_reason db)
          (fail_with-Honest run.recording epoch e fetch_failure_reason db)
          (retry_or_fail-Honest run.recording epoch e fetch_failure_reason db)

    located-Honest :
        (epoch : ℤ) (o : Option Text) (db : Database)
        → Honest job_id i (located parse run job_id i epoch o db)
    located-Honest epoch none db = fail_with-Honest run.recording epoch _ fetch_failure_reason db
    located-Honest epoch (some path) db = fetched-Honest epoch run.fetching db

    claimed-Honest :
        (r : Result TransitionResult × Database)
        → ((e : Error) → r.0 ≡ err e → IsPlain e)
        → Honest job_id i (claimed_run parse run job_id i r)
    claimed-Honest (err e, db) plain =
        λ h. plain-Dispatched i e db (plain e refl) (claim_error_retry e h)
    claimed-Honest (ok claim, db) plain = located-Honest claim.lease_epoch (local_source_path i) db

  -- However a run of a job whose id parses ends: an error that is the retry sentinel leaves the job
  -- queued and dispatched by the newest event; an end with no error and no success leaves the row
  -- completed or failed; and a success names the job that was asked for. The parser is one that the
  -- use cases can rely on.
  pub process_video_job-Honest :
      (run : Run) (db : Database) → Honest job_id i (process_video_job parse run job_id db)
  unfolding process_video_job
  process_video_job-Honest run db = rw p (
      claimed-Honest run (start_processing parse run.claiming job_id db)
        (λ e h. start-IsPlain parse run.claiming job_id db e c h))
