-- ===== src/Witnesses/Requests.antt =====
-- The theorems on the video API: a download of a finished job, the wait of a duplicate, an upload.
use video_processor.Prelude.{
  length, List, ℕ, ◌*◌, ◌≤◌, ◌≡◌, ◌≢◌, refl, ◌⊎◌, Text, codes, text_eq, true, false, Option, none,
  some, [], ◌∷◌, arith,
}
use video_processor.Errors.{Error, Result, ok}
use video_processor.Redis.{Key, heard, unheard, current}
use video_processor.Video.Status.{is_valid, status_eq}
use video_processor.Video.Job
use video_processor.Worker.Sweeper.{text_less, scan_rows}
use video_processor.Api.Listings.{
  JobItem, insert_newest, user_rows, find_by_user_id, items_of, list_user_jobs,
}
use video_processor.Api.Pages.{pages, room}
use video_processor.Api.Complete.{owned, NewestFirst, pages-NewestFirst}
use mathlib.Core.List.{Perm}
use video_processor.Video.Job.{VideoJob, new_video_job, restore_video_job}
use video_processor.Video.Idgen.{parse_video_job_id}
use video_processor.Video.Keys.{new_storage_key, new_user_id, new_idempotency_key, new_video_job_id}
use video_processor.Video.Filename.{new_original_filename, supported_video_extension, to_lower, ext}
use video_processor.Video.LocalPath.{split_path}
use video_processor.Video.Idempotency.{reserve, finalize}
use video_processor.Video.Store.{Row, Database, answers, find_row}
use video_processor.Video.Repository
use video_processor.Video.UseCases.{create_video_job, enqueue_video_job}
use video_processor.Api.Download.{ResultStorage, artifact_not_found, granted, handle_download}
use video_processor.Api.Parts.{video_file_part, is_valid_video_file, base, source_storage_key}
use video_processor.Api.Reservation.{Poll, lookup_retry_interval, wait_rounds, wait_for_finalized}
use video_processor.Api.Upload.{Upload, World, handle_video_upload}
use video_processor.Api.Entitlement.{Entitled, Signed, handle_download-Entitled}
use video_processor.Api.Waiting.{wait_ends}
use video_processor.Api.Sources.{Accepted, handle_video_upload-Accepted}
use video_processor.Witnesses.World.{
  job_id, parse, parse-IsParser, finished, result_key, quiet_visit, tables,
}

abbrev storage : ResultStorage
storage = record {
  stat = λ key. ok tt;
  presign_get = λ key ttl name. ok (codes "https://storage/", 300);
}

handle_download-Entitled_example :
    (handle_download parse answers storage (some (codes "user-1")) result_key (tables finished)
      ≡ some artifact_not_found)
    ⊎ ((url : Text) × (expires_at : ℕ) × (handle_download parse answers storage
            (some (codes "user-1"))
            result_key
            (tables finished)
          ≡ some (granted url expires_at))
        × Entitled (codes "user-1") result_key (tables finished)
        × Signed storage result_key url expires_at)
handle_download-Entitled_example =
    handle_download-Entitled parse answers storage (codes "user-1") result_key (tables finished)
      parse-IsParser.canonical

-- The other request keeps its reservation, so that every round finds nothing.
abbrev poll : ℕ → Poll
poll i = record { meanwhile = λ s. s; fate = heard; now = 0; elapsed = i * 100; cancelled = false }

paced : (i : ℕ) → i * lookup_retry_interval ≤ (poll i).elapsed
paced i = omega arith

wait_ends_example :
    (r : Option Text × Key Text) × (wait_for_finalized wait_rounds poll 0 none ≡ some r)
wait_ends_example = wait_ends poll paced none

abbrev request : Upload
request = record {
  parts = (codes "video", codes "a.mp4") ∷ [];
  ends = none;
  user = some (codes "user-1");
  upload_id = codes "u1";
  generated = job_id;
  token = codes "t1";
  content_hash = codes "c0ffee";
  putting = heard;
  deleting = heard;
  reserving = heard;
  reserved_at = 0;
  polls = poll;
  waiting = λ db. db;
  showing = answers;
  creating = quiet_visit;
  enqueueing = quiet_visit;
  clearing = heard;
  cleared_at = 0;
  finalizing = heard;
  finalized_at = 0;
}

abbrev empty_world : World
empty_world = record {
  db = record { rows = []; outbox = []; clock = 0 };
  key = none;
  objects = λ k. false;
}

abbrev source : Text
source = source_storage_key (codes "u1") (base (codes "a.mp4"))

part_read : video_file_part none ((codes "video", codes "a.mp4") ∷ []) ≡ ok (codes "a.mp4")
unfolding video_file_part text_eq
part_read = refl

source_kept : (handle_video_upload parse request empty_world).1.objects source ≡ true
unfolding handle_video_upload video_file_part is_valid_video_file base source_storage_key split_path
    text_eq new_idempotency_key reserve current create_video_job new_user_id new_original_filename
    supported_video_extension to_lower ext new_storage_key new_video_job restore_video_job
    Repository.create find_row Repository.find_by_id parse_video_job_id enqueue_video_job
    Job.enqueue Repository.enqueue finalize new_video_job_id
source_kept = refl

put_heard : (e : Error) → heard ≢ unheard e
put_heard e = ground arith

handle_video_upload-Accepted_example :
    Accepted parse
      (handle_video_upload parse request empty_world).0
      (handle_video_upload parse request empty_world).1.db
handle_video_upload-Accepted_example =
    handle_video_upload-Accepted parse request parse-IsParser (λ db. refl) empty_world
      (codes "a.mp4") part_read refl put_heard refl source_kept

-- Two finished jobs of one user, a page each, and a job of another user between them.
abbrev second_job : VideoJob
second_job = record finished { id = codes "1a2b"; created_at = 5 }

abbrev foreign_job : VideoJob
foreign_job = record finished { id = codes "3c4d"; user_id = codes "user-2" }

abbrev all_jobs : Database
all_jobs = record { rows = finished ∷ foreign_job ∷ second_job ∷ []; outbox = []; clock = 9 }

-- A parser that takes every id that is not empty.
abbrev any_id : Text → Result Text
any_id = new_video_job_id

abbrev shown : VideoJob → JobItem
shown job = record {
  job_id = job.id;
  original_filename = job.original_filename;
  status = job.status;
}

both_fit : length (owned (codes "user-1") all_jobs.rows) ≤ room 1 2
unfolding owned room text_eq
both_fit = omega arith

two_pages :
    pages any_id answers (codes "user-1") 1 2 0 all_jobs
    ≡ ok (shown second_job ∷ shown finished ∷ [])
unfolding pages list_user_jobs find_by_user_id user_rows insert_newest items_of scan_rows
    Repository.scan_job_row text_less text_eq new_user_id new_video_job_id new_storage_key
    new_original_filename supported_video_extension to_lower ext restore_video_job is_valid
    status_eq
two_pages = refl

pages-NewestFirst_example :
    (rows : List Row) × (jobs : List VideoJob) × Perm rows (owned (codes "user-1") all_jobs.rows)
    × NewestFirst rows
    × (scan_rows any_id rows ≡ ok jobs)
    × (items_of jobs ≡ shown second_job ∷ shown finished ∷ [])
pages-NewestFirst_example =
    pages-NewestFirst any_id answers (codes "user-1") 1 2 all_jobs
      (shown second_job ∷ shown finished ∷ []) both_fit two_pages
