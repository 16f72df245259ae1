-- ===== src/Video/UseCases.antt =====
-- internal/video/application: the use cases that move a job, each a load of the row, a call of the
-- aggregate's method, and a conditional write. `parse` is the VideoJobIDParser.
pub mod Causes
pub mod Uploads
pub mod Claims
pub mod Outcomes
use video_processor.Prelude.{
  ℕ, ℤ, pos, eq_ℤ, ltb_ℤ, Text, codes, is_empty, text_eq, Bool, true, false, not, ◌&&◌, ◌||◌,
  if◌then◌else◌, Option, none, some, [],
}
use video_processor.Errors.{
  Error, sentinel, errors_is, Result, ok, err, Outcome, job_claim_lost, job_fenced,
  source_key_required_to_enqueue,
}
use video_processor.Video.Status.{JobStatus, pending, completed, failed, status_eq, is_terminal}
use video_processor.Video.Job
use video_processor.Video.Job.{VideoJob, new_video_job}
use video_processor.Video.Keys.{new_user_id, new_storage_key}
use video_processor.Video.Filename.{new_original_filename}
use video_processor.Video.Store.{Database, Fault, Turn}
use video_processor.Video.Repository
use video_processor.Video.Exec.{Exec, ◌>>=◌, ◌>>◌, pure, raise, lift, others, find, Visit}

pub record TransitionResult : Type 0 where
  pub job_id : Text
  pub status : JobStatus
  pub lease_epoch : ℤ
  pub applied : Bool

abbrev transition : VideoJob → ℤ → Bool → TransitionResult
transition job epoch applied = record {
  job_id = job.id;
  status = job.status;
  lease_epoch = epoch;
  applied = applied;
}

-- The load with which each use case begins.
abbrev load : (Text → Result Text) → Visit → Text → Exec VideoJob
load parse v job_id = do id ← lift (parse job_id); others v.before; find parse v.reading id

-- create_video_job.go; the result is the created job with the row's own timestamp. The reload is the
-- visit's reading.
abbrev optional_key : Text → Result Text
optional_key value = if is_empty value then ok [] else new_storage_key value

unfoldable pub create_video_job :
    (Text → Result Text)
    → Visit
    → (generated user filename source hash : Text) → Exec (VideoJob × ℕ)
create_video_job parse v generated user filename source hash = do
  owner ← lift (new_user_id user)
  name ← lift (new_original_filename filename)
  key ← lift (optional_key source)
  job ← lift (new_video_job (some generated) owner name key hash)
  Repository.create v.writing job
  others v.between
  persisted ← find parse v.reading job.id
  pure (job, persisted.created_at)

-- enqueue_video_job.go
abbrev pub enqueue_moved : Visit → Outcome VideoJob → Exec TransitionResult
enqueue_moved v (job, some e) = raise e
enqueue_moved v (job, none) = do
  others v.between
  Repository.enqueue v.writing job
  pure (transition job job.lease_epoch true)

unfoldable pub enqueue_video_job : (Text → Result Text) → Visit → Text → Exec TransitionResult
enqueue_video_job parse v job_id = do job ← load parse v job_id; enqueue_moved v (Job.enqueue job)

-- start_processing.go
abbrev claimed_as : VideoJob → Bool × ℤ → Exec TransitionResult
claimed_as job (false, epoch) = raise (sentinel job_claim_lost)
claimed_as job (true, epoch) = pure (transition job epoch true)

abbrev claim_moved : Visit → Outcome VideoJob → Exec TransitionResult
claim_moved v (job, some e) =
    raise (if status_eq job.status pending then e else sentinel job_claim_lost)
claim_moved v (job, none) = do
  others v.between
  claim ← Repository.claim_for_processing v.writing job
  claimed_as job claim

unfoldable pub start_processing : (Text → Result Text) → Visit → Text → Exec TransitionResult
start_processing parse v job_id = do
  job ← load parse v job_id
  claim_moved v (Job.start_processing job)

-- terminal_write.go
pub record TerminalOutcome : Type 0 where
  pub status : JobStatus
  pub storage_key : Text
  pub frame_count : ℤ
  pub error_reason : Text

abbrev matches : TerminalOutcome → VideoJob → Bool
matches o job =
    status_eq job.status o.status
    && (text_eq job.storage_key o.storage_key
        && (eq_ℤ job.frame_count o.frame_count && text_eq job.error_reason o.error_reason))

unfoldable pub classify_refused_transition :
    VideoJob → ℤ → TerminalOutcome → Error → Result TransitionResult
unfolding status_eq is_terminal
classify_refused_transition job epoch want refusal =
    if status_eq job.status pending
    then err refusal
    else if ltb_ℤ epoch job.lease_epoch
    then err (sentinel job_fenced)
    else if eq_ℤ job.lease_epoch epoch && is_terminal job.status
    then if matches want job then ok (transition job epoch false) else err (sentinel job_fenced)
    else err refusal

abbrev pub record_moved : Visit → ℤ → TerminalOutcome → Outcome VideoJob → Exec TransitionResult
record_moved v epoch want (job, some e) = lift (classify_refused_transition job epoch want e)
record_moved v epoch want (job, none) = do
  others v.between
  applied ← Repository.update v.writing job epoch
  pure (transition job epoch applied)

-- complete_job.go
abbrev pub completed_as : Text → ℤ → TerminalOutcome
completed_as key frames = record {
  status = completed;
  storage_key = key;
  frame_count = frames;
  error_reason = [];
}

unfoldable pub complete_job :
    (Text → Result Text) → Visit → Text → Text → ℤ → ℤ → Exec TransitionResult
complete_job parse v job_id key frames epoch = do
  id ← lift (parse job_id)
  storage_key ← lift (new_storage_key key)
  others v.before
  job ← find parse v.reading id
  record_moved v epoch (completed_as storage_key frames) (Job.complete storage_key frames job)

-- fail_job.go
abbrev pub failed_as : Text → TerminalOutcome
failed_as reason = record {
  status = failed;
  storage_key = [];
  frame_count = pos 0;
  error_reason = reason;
}

unfoldable pub fail_job : (Text → Result Text) → Visit → Text → Text → ℤ → Exec TransitionResult
fail_job parse v job_id reason epoch = do
  job ← load parse v job_id
  record_moved v epoch (failed_as reason) (Job.fail reason job)

abbrev pub abandoned_failure_reason : Text
abandoned_failure_reason = codes "video processing was interrupted and could not be recovered"

unfoldable pub abandon : (Text → Result Text) → Visit → Text → ℤ → Exec TransitionResult
unfolding fail_job
abandon parse v job_id epoch = fail_job parse v job_id abandoned_failure_reason epoch

-- retry_video_job.go
unfoldable pub classify_refused_requeue : VideoJob → Error → Result TransitionResult
unfolding status_eq errors_is
classify_refused_requeue job refusal =
    if status_eq job.status pending || errors_is refusal source_key_required_to_enqueue
    then err refusal
    else err (sentinel job_fenced)

abbrev requeued_as : VideoJob → ℤ → Bool → Exec TransitionResult
requeued_as job epoch false = raise (sentinel job_fenced)
requeued_as job epoch true = pure (transition job epoch true)

abbrev pub requeue_moved : Visit → ℤ → Outcome VideoJob → Exec TransitionResult
requeue_moved v epoch (job, some e) = lift (classify_refused_requeue job e)
requeue_moved v epoch (job, none) = do
  others v.between
  requeued ← Repository.requeue v.writing job epoch
  requeued_as job epoch requeued

unfoldable pub retry_video_job : (Text → Result Text) → Visit → Text → ℤ → Exec TransitionResult
retry_video_job parse v job_id epoch = do
  job ← load parse v job_id
  requeue_moved v epoch (Job.requeue job)
