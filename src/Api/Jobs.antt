-- ===== src/Api/Jobs.antt =====
-- The job routes of cmd/video-api/video.go, with get_job_status.go of internal/video/application.
use video_processor.Prelude.{ℕ, ℤ, Text, text_eq, if◌then◌else◌, Option, none, some, []}
use video_processor.Errors.{
  sentinel, errors_is, Result, ok, err, ◌>>=◌, invalid_original_filename, invalid_video_job_id,
  video_job_not_found,
}
use video_processor.Video.Status.{JobStatus}
use video_processor.Video.Job.{VideoJob}
use video_processor.Video.Keys.{new_user_id}
use video_processor.Video.Store.{Database, Fault}
use video_processor.Video.Repository
use video_processor.Video.Exec.{Visit}
use video_processor.Video.UseCases.{create_video_job}

pub record JobView : Type 0 where
  pub job_id : Text
  pub status : JobStatus
  pub frame_count : ℤ
  pub error_reason : Text
  pub storage_key : Text

abbrev shown_as : VideoJob → JobView
shown_as job = record {
  job_id = job.id;
  status = job.status;
  frame_count = job.frame_count;
  error_reason = job.error_reason;
  storage_key = job.storage_key;
}

-- The same error for a job that is not there and for one of another user.
unfoldable pub get_job_status :
    (Text → Result Text) → Fault → (user job_id : Text) → Database → Result JobView
unfolding text_eq
get_job_status parse fault user job_id db = do
  id ← parse job_id
  caller ← new_user_id user
  job ← Repository.find_by_id parse fault id db
  if text_eq job.user_id caller then ok (shown_as job) else err (sentinel video_job_not_found)

-- `error_reply` has the status code.
pub data JobReply : Type 0 where
  error_reply : ℕ → JobReply
  showing : JobView → JobReply
  created : VideoJob → ℕ → JobReply

abbrev status_reply : Result JobView → JobReply
status_reply (ok view) = showing view
status_reply (err e) =
    if errors_is e invalid_video_job_id
    then error_reply 400
    else if errors_is e video_job_not_found
    then error_reply 404
    else error_reply 500

unfoldable pub handle_get_video_job_status :
    (Text → Result Text) → Fault → Option Text → Text → Database → JobReply
unfolding errors_is
handle_get_video_job_status parse fault none job_id db = error_reply 401
handle_get_video_job_status parse fault (some user) job_id db =
    status_reply (get_job_status parse fault user job_id db)

abbrev creation_reply : Result (VideoJob × ℕ) × Database → JobReply × Database
creation_reply (ok (job, created_at), db) = (created job created_at, db)
creation_reply (err e, db) =
    (if errors_is e invalid_original_filename then error_reply 400 else error_reply 500, db)

-- A job from a filename alone; `body` is the bound JSON body.
abbrev create_from :
    (Text → Result Text) → Visit → Text → Text → Option Text → Database → JobReply × Database
create_from parse v generated user none db = (error_reply 400, db)
create_from parse v generated user (some filename) db =
    creation_reply (create_video_job parse v generated user filename [] [] db)

unfoldable pub handle_create_video_job :
    (Text → Result Text)
    → Visit
    → (generated : Text) → (user body : Option Text) → Database
    → JobReply × Database
unfolding errors_is
handle_create_video_job parse v generated none body db = (error_reply 401, db)
handle_create_video_job parse v generated (some user) body db =
    create_from parse v generated user body db
