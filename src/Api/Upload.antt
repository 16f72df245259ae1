-- ===== src/Api/Upload.antt =====
-- POST /upload of cmd/video-api/video.go.
use video_processor.Prelude.{
  ℕ, Text, text_eq, Bool, true, false, not, if◌then◌else◌, Option, none, some, List,
}
use video_processor.Errors.{Error, Result, ok, err}
use video_processor.Redis.{Key, Fate, settled}
use video_processor.Video.Status.{JobStatus, queued}
use video_processor.Video.Job.{VideoJob}
use video_processor.Video.Keys.{new_idempotency_key, new_video_job_id}
use video_processor.Video.Idempotency.{reserve, finalize, clear}
use video_processor.Video.Store.{Database, Fault}
use video_processor.Video.Exec.{Visit}
use video_processor.Video.UseCases.{TransitionResult, create_video_job, enqueue_video_job}
use video_processor.Api.Parts.{video_file_part, is_valid_video_file, base, source_storage_key}
use video_processor.Api.Reservation.{Poll, Waited, wait_rounds, wait_for_finalized}
use video_processor.Api.Jobs.{JobView, get_job_status}

-- One request: its body, its caller, the identifiers and the token minted for it, the digest of the
-- bytes, and how each call of it fares.
pub record Upload : Type 0 where
  pub parts : List (Text × Text)
  pub ends : Option Error
  pub user : Option Text
  pub upload_id : Text
  pub generated : Text
  pub token : Text
  pub content_hash : Text
  pub putting : Fate
  pub deleting : Fate
  pub reserving : Fate
  pub reserved_at : ℕ
  pub polls : ℕ → Poll
  pub waiting : Database → Database
  pub showing : Fault
  pub creating : Visit
  pub enqueueing : Visit
  pub clearing : Fate
  pub cleared_at : ℕ
  pub finalizing : Fate
  pub finalized_at : ℕ

-- What the handler writes: the tables, the Redis key of this user and these bytes, and the bucket.
pub record World : Type 0 where
  pub db : Database
  pub key : Key Text
  pub objects : Text → Bool

pub data UploadReply : Type 0 where
  error_reply : ℕ → UploadReply
  accepted : (job_id : Text) → (status : JobStatus) → UploadReply

abbrev pub set_object : Text → Bool → (Text → Bool) → Text → Bool
set_object key present objects k = if text_eq k key then present else objects k

-- The reply, `enqueued`, and the world, at the end of the handler's body.
abbrev pub Ran : Type 0
Ran = Option UploadReply × (Bool × World)

abbrev pub clear_reservation : Upload → Option Text → World → World
clear_reservation u none w = w
clear_reservation u (some token) w = record w {
  key = (clear u.clearing u.cleared_at token w.key).1;
}

abbrev finalize_as : Upload → Text → World → Result Text → World
finalize_as u token w (err e) = w
finalize_as u token w (ok id) = record w {
  key = (finalize u.finalizing u.finalized_at token id w.key).1;
}

abbrev pub finalize_reservation : Upload → Option Text → Text → World → World
finalize_reservation u none job_id w = w
finalize_reservation u (some token) job_id w = finalize_as u token w (new_video_job_id job_id)

abbrev pub after_enqueue :
    Upload → Option Text → Text → World → Result TransitionResult × Database → Ran
after_enqueue u token job_id w (err e, db) =
    (some (error_reply 500), (false, clear_reservation u token (record w { db = db })))
after_enqueue u token job_id w (ok moved, db) = (
  some (accepted job_id queued),
  (true, finalize_reservation u token job_id (record w { db = db })),
)

abbrev pub after_create :
    (Text → Result Text) → Upload → Option Text → World → Result (VideoJob × ℕ) × Database → Ran
after_create parse u token w (err e, db) =
    (some (error_reply 500), (false, clear_reservation u token (record w { db = db })))
after_create parse u token w (ok (job, created_at), db) =
    after_enqueue u token job.id w (enqueue_video_job parse u.enqueueing job.id db)

-- With the token of its reservation, or with none when the reservation failed open.
abbrev pub proceed :
    (Text → Result Text) → Upload → (user filename source : Text) → World → Option Text → Ran
proceed parse u user filename source w token =
    after_create parse u token w
      (create_video_job parse u.creating u.generated user filename source u.content_hash w.db)

abbrev existing_job : World → Result JobView → Ran
existing_job w (err e) = (some (error_reply 500), (false, w))
existing_job w (ok view) = (some (accepted view.job_id view.status), (false, w))

abbrev pub duplicate : (Text → Result Text) → Upload → Text → World → Waited → Ran
duplicate parse u user w none = (none, (false, w))
duplicate parse u user w (some (none, s)) = (some (error_reply 409), (false, record w { key = s }))
duplicate parse u user w (some (some job_id, s)) =
    let later = record w { key = s; db = u.waiting w.db } in
    existing_job later (get_job_status parse u.showing user job_id later.db)

abbrev pub after_reserve :
    (Text → Result Text)
    → Upload
    → (user filename source : Text) → World
    → Result (Text × Bool) × Key Text
    → Ran
after_reserve parse u user filename source w (err e, s) =
    proceed parse u user filename source (record w { key = s }) none
after_reserve parse u user filename source w (ok (token, true), s) =
    proceed parse u user filename source (record w { key = s }) (some token)
after_reserve parse u user filename source w (ok (token, false), s) =
    duplicate parse u user (record w { key = s }) (wait_for_finalized wait_rounds u.polls 0 s)

abbrev pub with_object :
    (Text → Result Text) → Upload → (user filename source : Text) → World → Result Text → Ran
with_object parse u user filename source w (err e) = (some (error_reply 500), (false, w))
with_object parse u user filename source w (ok key) =
    after_reserve parse u user filename source w (reserve u.reserving u.reserved_at u.token w.key)

-- The deferred delete.
abbrev pub cleaned : Upload → Text → Ran → Option UploadReply × World
cleaned u source (reply, (true, w)) = (reply, w)
cleaned u source (reply, (false, w)) = (
  reply,
  record w { objects = (settled u.deleting (tt, set_object source false w.objects) w.objects).1 },
)

abbrev pub after_put :
    (Text → Result Text)
    → Upload
    → (user filename source : Text) → World
    → Result (Unit {0}) × (Text → Bool)
    → Option UploadReply × World
after_put parse u user filename source w (err e, objects) =
    (some (error_reply 500), record w { objects = objects })
after_put parse u user filename source w (ok tt, objects) = cleaned u source (
    with_object parse u user filename source (record w { objects = objects })
      (new_idempotency_key user u.content_hash))

abbrev pub owned_upload :
    (Text → Result Text) → Upload → Text → World → Option Text → Option UploadReply × World
owned_upload parse u filename w none = (some (error_reply 401), w)
owned_upload parse u filename w (some user) =
    let source = source_storage_key u.upload_id filename in
    after_put parse u user filename source w
      (settled u.putting (tt, set_object source true w.objects) w.objects)

abbrev pub named_upload :
    (Text → Result Text) → Upload → World → Result Text → Option UploadReply × World
named_upload parse u w (err e) = (some (error_reply 400), w)
named_upload parse u w (ok filename) =
    if not (is_valid_video_file filename)
    then (some (error_reply 400), w)
    else owned_upload parse u (base filename) w u.user

-- A reply `none` is a wait that did not end within its rounds.
unfoldable pub handle_video_upload :
    (Text → Result Text) → Upload → World → Option UploadReply × World
unfolding text_eq
handle_video_upload parse u w = named_upload parse u w (video_file_part u.ends u.parts)
