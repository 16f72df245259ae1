-- ===== src/Video/Process.antt =====
-- internal/video/application/process_video_job.go: one run of a job, from its claim to the write
-- that records a failure or a retry. The lease that the run holds beside it is Video/Lease.antt.
pub mod Endings
use video_processor.Prelude.{
  ℕ, ℤ, pos, leb_ℤ, Text, codes, is_empty, Bool, true, false, if◌then◌else◌, Option, none, some,
  List, [],
}
use video_processor.Errors.{
  Error, sentinel, plain, joined, errors_is, Result, ok, err, repository_unavailable,
  job_claim_outcome_unknown, job_requeued_for_retry, source_not_found,
}
use video_processor.Video.Keys.{result_storage_key}
use video_processor.Video.Store.{Database}
use video_processor.Video.Exec.{Visit}
use video_processor.Video.LocalPath.{local_source_path}
use video_processor.Video.UseCases.{TransitionResult, start_processing, fail_job, retry_video_job}

-- What `ExtractFrames` returns: the frame count and the image names, or an error and its text.
pub data Extraction : Type 0 where
  extracted : ℤ → List Text → Extraction
  unextracted : Error → Text → Extraction

-- What the ports answer in one run, and the surroundings of its two use cases.
pub record Run : Type 0 where
  pub claiming : Visit
  pub fetching : Option Error
  pub extraction : Extraction
  pub storing : Option Error
  pub recording : Visit

pub record Processed : Type 0 where
  pub job_id : Text
  pub success : Bool
  pub frame_count : ℤ
  pub image_names : List Text
  pub storage_key : Text
  pub failure_reason : Text
  pub lease_epoch : ℤ
  pub applied : Bool
  pub extraction_error : Option Error

-- The method returns its result beside its error, and callers read both.
abbrev pub Ended : Type 0
Ended = (Processed × Option Error) × Database

abbrev blank : Processed
blank = record {
  job_id = [];
  success = false;
  frame_count = pos 0;
  image_names = [];
  storage_key = [];
  failure_reason = [];
  lease_epoch = pos 0;
  applied = false;
  extraction_error = none;
}

abbrev pub fallback_failure_reason : Text
fallback_failure_reason = codes "video processing failed"

abbrev pub store_failure_reason : Text
store_failure_reason = codes "failed to store the extracted result"

abbrev pub fetch_failure_reason : Text
fetch_failure_reason = codes "failed to retrieve the uploaded video"

-- `domain.MaxJobRequeues`
abbrev pub max_job_requeues : ℤ
max_job_requeues = pos 3

abbrev pub or_fallback : Text → Text
or_fallback reason = if is_empty reason then fallback_failure_reason else reason

abbrev pub failed_with : Text → ℤ → Error → Text → Result TransitionResult × Database → Ended
failed_with job_id epoch cause reason (err e, db) =
    ((record blank { job_id = job_id; lease_epoch = epoch }, some e), db)
failed_with job_id epoch cause reason (ok res, db) = (
  (
    record blank {
      job_id = job_id;
      failure_reason = reason;
      extraction_error = some cause;
      lease_epoch = epoch;
      applied = res.applied;
    },
    none,
  ),
  db,
)

unfoldable pub fail_with : (Text → Result Text) → Visit → Text → ℤ → Error → Text → Database → Ended
fail_with parse v job_id epoch cause reason db =
    failed_with job_id epoch cause (or_fallback reason)
      (fail_job parse v job_id (or_fallback reason) epoch db)

abbrev pub retried : Text → ℤ → Error → Result TransitionResult × Database → Ended
retried job_id epoch cause (err e, db) =
    ((record blank { job_id = job_id; lease_epoch = epoch }, some e), db)
retried job_id epoch cause (ok res, db) = (
  (
    record blank { job_id = job_id; lease_epoch = epoch; applied = res.applied },
    some (joined (sentinel job_requeued_for_retry) cause),
  ),
  db,
)

unfoldable pub retry_or_fail :
    (Text → Result Text) → Visit → Text → ℤ → Error → Text → Database → Ended
retry_or_fail parse v job_id epoch cause reason db =
    if leb_ℤ max_job_requeues epoch
    then fail_with parse v job_id epoch cause reason db
    else retried job_id epoch cause (retry_video_job parse v job_id epoch db)

module _ (parse : Text → Result Text) (run : Run) (job_id id : Text) where
  abbrev pub stored : ℤ → ℤ → List Text → Option Error → Database → Ended
  stored epoch frames names (some e) db =
      retry_or_fail parse run.recording job_id epoch e store_failure_reason db
  stored epoch frames names none db = (
    (
      record blank {
        job_id = job_id;
        success = true;
        frame_count = frames;
        image_names = names;
        storage_key = result_storage_key id;
        lease_epoch = epoch;
      },
      none,
    ),
    db,
  )

  abbrev pub worked : ℤ → Extraction → Database → Ended
  worked epoch (unextracted e text) db = fail_with parse run.recording job_id epoch e text db
  worked epoch (extracted frames names) db = stored epoch frames names run.storing db

  abbrev pub fetched : ℤ → Option Error → Database → Ended
  fetched epoch (some e) db =
      if errors_is e source_not_found
      then fail_with parse run.recording job_id epoch e fetch_failure_reason db
      else retry_or_fail parse run.recording job_id epoch e fetch_failure_reason db
  fetched epoch none db = worked epoch run.extraction db

  abbrev pub located : ℤ → Option Text → Database → Ended
  located epoch none db =
      fail_with parse run.recording job_id epoch (plain (codes "escapes temp/"))
        fetch_failure_reason db
  located epoch (some path) db = fetched epoch run.fetching db

abbrev pub claim_error : Error → Error
claim_error e =
    if errors_is e repository_unavailable then joined (sentinel job_claim_outcome_unknown) e else e

abbrev pub claimed_run :
    (Text → Result Text) → Run → Text → Text → Result TransitionResult × Database → Ended
claimed_run parse run job_id id (err e, db) = ((blank, some (claim_error e)), db)
claimed_run parse run job_id id (ok claim, db) =
    located parse run job_id id claim.lease_epoch (local_source_path id) db

abbrev pub parsed_run : (Text → Result Text) → Run → Text → Database → Result Text → Ended
parsed_run parse run job_id db (err e) = ((blank, some e), db)
parsed_run parse run job_id db (ok id) =
    claimed_run parse run job_id id (start_processing parse run.claiming job_id db)

unfoldable pub process_video_job : (Text → Result Text) → Run → Text → Database → Ended
process_video_job parse run job_id db = parsed_run parse run job_id db (parse job_id)
