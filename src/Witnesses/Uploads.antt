-- ===== src/Witnesses/Uploads.antt =====
-- The theorem on the enqueue of an upload, at a job that has just been created.
use video_processor.Prelude.{pos, text_eq, true, ◌≡◌, refl}
use video_processor.Errors.{ok}
use video_processor.Video.Job
use video_processor.Video.Job.{restore_video_job}
use video_processor.Video.Idgen.{parse_video_job_id}
use video_processor.Video.Keys.{new_storage_key, new_user_id}
use video_processor.Video.Filename.{new_original_filename, supported_video_extension, to_lower, ext}
use video_processor.Video.Store.{find_row}
use video_processor.Video.Repository
use video_processor.Video.UseCases.{TransitionResult, enqueue_video_job}
use video_processor.Video.UseCases.Claims.{Dispatched}
use video_processor.Video.UseCases.Uploads.{enqueue_video_job-Dispatched}
use video_processor.Witnesses.World.{
  job_id, parse, parsed, parse-IsParser, uploaded, dispatched, quiet_visit, tables,
}

abbrev enqueued : TransitionResult
enqueued = record {
  job_id = job_id;
  status = dispatched.status;
  lease_epoch = pos 0;
  applied = true;
}

upload_done : (enqueue_video_job parse quiet_visit job_id (tables uploaded)).0 ≡ ok enqueued
unfolding enqueue_video_job parse_video_job_id text_eq new_storage_key Repository.find_by_id
    find_row new_user_id new_original_filename supported_video_extension to_lower ext
    restore_video_job Job.enqueue Repository.enqueue
upload_done = refl

enqueue_video_job-Dispatched_example :
    Dispatched job_id (enqueue_video_job parse quiet_visit job_id (tables uploaded)).1
enqueue_video_job-Dispatched_example =
    enqueue_video_job-Dispatched parse quiet_visit job_id job_id (tables uploaded) enqueued
      parse-IsParser parsed refl upload_done
