-- ===== src/Video/Job/Consistency.antt =====
-- The cross-field rules of the aggregate, across its constructors and methods.
use video_processor.Prelude.{ℕ, ℤ, Text, pos, is_negative, true, false, ◌≡◌, ◌≢◌, [], arith}
use video_processor.Errors.{Result, ok}
use video_processor.Video.Status.{JobStatus, pending, status_eq, completed, failed, is_valid}
use video_processor.Video.Job.{VideoJob, restore_video_job, Call, enqueues, call}

pub record IsConsistent (j : VideoJob) : Type 0 where
  pub has_id : j.id ≢ []
  pub has_owner : j.user_id ≢ []
  pub has_filename : j.original_filename ≢ []
  pub known_status : is_valid j.status ≡ true
  pub counts_frames : is_negative j.frame_count ≡ false
  pub frames_of_completed : j.frame_count ≢ pos 0 → j.status ≡ completed
  pub reason_of_failed : j.error_reason ≢ [] → j.status ≡ failed
  pub failed_reason : j.status ≡ failed → j.error_reason ≢ []
  pub key_of_completed : j.storage_key ≢ [] → j.status ≡ completed
  pub completed_key : j.status ≡ completed → j.storage_key ≢ []

-- `RestoreVideoJob` called with the fields of a job.
abbrev pub reload : VideoJob → Result VideoJob
reload j =
    restore_video_job j.id j.user_id j.original_filename j.source_key j.content_hash j.storage_key
      j.frame_count j.error_reason j.status j.created_at j.lease_epoch

pub reload-IsConsistent : (j : VideoJob) → IsConsistent j → reload j ≡ ok j
unfolding restore_video_job
reload-IsConsistent j c = ground arith

-- Whatever `RestoreVideoJob` accepts keeps the rules.
pub restore-IsConsistent :
    (i user filename source hash storage reason : Text) (frames epoch : ℤ) (status : JobStatus)
    (created : ℕ) (k : VideoJob)
    → restore_video_job i user filename source hash storage frames reason status created epoch
      ≡ ok k
    → IsConsistent k
unfolding restore_video_job status_eq is_valid
restore-IsConsistent i user filename source hash storage reason frames epoch pending created k h =
    ground arith
restore-IsConsistent i user filename source hash storage reason frames epoch _ created k h =
    ground arith

pub call-IsConsistent : (c : Call) (j : VideoJob) → IsConsistent j → IsConsistent (call c j).0
unfolding call is_valid
call-IsConsistent enqueues j h = ground arith
call-IsConsistent _ j h = ground arith
