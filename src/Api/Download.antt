-- ===== src/Api/Download.antt =====
-- GET /download/:filename of cmd/video-api/video.go.
use video_processor.Prelude.{ℕ, Text, text_eq, not, ◌||◌, if◌then◌else◌, Option, none, some}
use video_processor.Errors.{Result, ok, err}
use video_processor.Video.Status.{completed, status_eq}
use video_processor.Video.Job.{VideoJob}
use video_processor.Video.Keys.{new_storage_key, video_job_id_from_storage_key}
use video_processor.Video.Store.{Database, Fault}
use video_processor.Video.Repository

-- What the handler asks of domain.ResultStorage: whether an object is there, and a URL for it, with
-- its expiry, that is good for some seconds and names the file.
pub record ResultStorage : Type 0 where
  pub stat : Text → Result (Unit {0})
  pub presign_get : Text → ℕ → Text → Result (Text × ℕ)

abbrev pub download_url_ttl : ℕ
download_url_ttl = 300

pub data DownloadReply : Type 0 where
  internal_error : DownloadReply
  artifact_not_found : DownloadReply
  granted : (url : Text) → (expires_at : ℕ) → DownloadReply

abbrev signed_reply : Result (Text × ℕ) → DownloadReply
signed_reply (err e) = artifact_not_found
signed_reply (ok (url, expires_at)) = granted url expires_at

abbrev stored_result : ResultStorage → Text → Result (Unit {0}) → DownloadReply
stored_result results key (err e) = artifact_not_found
stored_result results key (ok tt) = signed_reply (results.presign_get key download_url_ttl key)

abbrev pub for_job : ResultStorage → Text → Text → Result VideoJob → DownloadReply
for_job results user key (err e) = artifact_not_found
for_job results user key (ok job) =
    if not (text_eq job.user_id user)
      || (not (status_eq job.status completed) || not (text_eq job.storage_key key))
    then artifact_not_found
    else stored_result results key (results.stat key)

-- `none` is a panic in the parse of the key.
abbrev pub for_id :
    (Text → Result Text)
    → Fault
    → ResultStorage
    → (user key : Text) → Database
    → Option (Result Text)
    → Option DownloadReply
for_id parse fault results user key db none = none
for_id parse fault results user key db (some (err e)) = some artifact_not_found
for_id parse fault results user key db (some (ok id)) =
    some (for_job results user key (Repository.find_by_id parse fault id db))

abbrev pub for_key :
    (Text → Result Text)
    → Fault
    → ResultStorage
    → Text
    → Database
    → Result Text
    → Option DownloadReply
for_key parse fault results user db (err e) = some artifact_not_found
for_key parse fault results user db (ok key) =
    for_id parse fault results user key db (video_job_id_from_storage_key key (some parse))

unfoldable pub handle_download :
    (Text → Result Text)
    → Fault
    → ResultStorage
    → (user : Option Text) → (filename : Text) → Database
    → Option DownloadReply
unfolding text_eq status_eq
handle_download parse fault results none filename db = some internal_error
handle_download parse fault results (some user) filename db =
    for_key parse fault results user db (new_storage_key filename)
