-- ===== src/Api/Listings.antt =====
-- The listings of cmd/video-api/video.go, with list_user_jobs.go and list_user_results.go of
-- internal/video/application and the two queries under them. `strconv.Atoi` is the parameter `atoi`.
use video_processor.Prelude.{
  ℕ, ℤ, pos, negsuc, ltb, ltb_ℤ, is_negative, ◌==◌, Text, is_empty, text_eq, Bool, ◌&&◌, ◌||◌,
  if◌then◌else◌, Option, none, some, List, [], ◌∷◌, take, drop,
}
use video_processor.Errors.{
  errors_is, Result, ok, err, ◌>>=◌, ◌>>◌, refuse_if, limit_out_of_range, offset_negative,
}
use video_processor.Video.Status.{JobStatus, completed, status_eq}
use video_processor.Video.Job.{VideoJob}
use video_processor.Video.Keys.{new_user_id}
use video_processor.Video.Store.{Row, Database, Fault}
use video_processor.Worker.Sweeper.{text_less, scan_rows, scanned}
use video_processor.Api.Download.{ResultStorage}

-- `ORDER BY created_at DESC, id ASC`
abbrev pub is_newer : Row → Row → Bool
is_newer r s =
    ltb s.created_at r.created_at || (r.created_at == s.created_at && text_less r.id s.id)

unfoldable pub insert_newest : Row → List Row → List Row
insert_newest r [] = r ∷ []
insert_newest r (s ∷ rows) = if is_newer r s then r ∷ s ∷ rows else s ∷ insert_newest r rows

unfoldable pub user_rows : Text → List Row → List Row
user_rows user [] = []
user_rows user (r ∷ rows) =
    let rest = user_rows user rows in if text_eq r.user_id user then insert_newest r rest else rest

unfoldable pub completed_rows : Text → List Row → List Row
completed_rows user [] = []
completed_rows user (r ∷ rows) =
    let rest = completed_rows user rows in
    if text_eq r.user_id user && status_eq r.status completed then insert_newest r rest else rest

-- `OFFSET .. LIMIT ..`, of numbers that are not negative.
unfoldable pub find_by_user_id :
    (Text → Result Text) → Fault → Text → (offset limit : ℕ) → Database → Result (List VideoJob)
find_by_user_id parse f user offset limit db =
    scanned f (scan_rows parse (take limit (drop offset (user_rows user db.rows))))

unfoldable pub find_completed_by_user_id :
    (Text → Result Text) → Fault → Text → Database → Result (List VideoJob)
find_completed_by_user_id parse f user db =
    scanned f (scan_rows parse (completed_rows user db.rows))

pub record JobItem : Type 0 where
  pub job_id : Text
  pub original_filename : Text
  pub status : JobStatus

unfoldable pub items_of : List VideoJob → List JobItem
items_of [] = []
items_of (job ∷ jobs) =
    record { job_id = job.id; original_filename = job.original_filename; status = job.status }
    ∷ items_of jobs

abbrev pub max_limit : ℕ
max_limit = 100

-- The numbers after the two guards of the use case.
abbrev size_of : ℤ → ℕ
size_of (pos n) = n
size_of (negsuc n) = 0

unfoldable pub list_user_jobs :
    (Text → Result Text)
    → Fault
    → (user : Text) → (offset limit : ℤ) → Database
    → Result (List JobItem)
list_user_jobs parse f user offset limit db = do
  refuse_if (ltb_ℤ limit (pos 1) || ltb_ℤ (pos max_limit) limit) limit_out_of_range
  refuse_if (is_negative offset) offset_negative
  owner ← new_user_id user
  jobs ← find_by_user_id parse f owner (size_of offset) (size_of limit) db
  ok (items_of jobs)

-- A `Stat` that fails leaves its job out. The calls run at once, and the answers keep the order of
-- the jobs; the size and the time of an object are left out.
unfoldable pub stated : ResultStorage → List VideoJob → List Text
stated results [] = []
stated results (job ∷ jobs) =
    let rest = stated results jobs in
    elim (results.stat job.storage_key) [ ok found ↦ job.storage_key ∷ rest | err e ↦ rest ]

unfoldable pub list_user_results :
    (Text → Result Text) → Fault → ResultStorage → Text → Database → Result (List Text)
list_user_results parse f results user db = do
  owner ← new_user_id user
  jobs ← find_completed_by_user_id parse f owner db
  ok (stated results jobs)

-- An absent parameter is the empty text.
abbrev pub parse_query_int : (Text → Option ℤ) → Text → ℤ → Option ℤ
parse_query_int atoi raw fallback = if is_empty raw then some fallback else atoi raw

pub data ListReply : Type 0 where
  list_error : ℕ → ListReply
  job_list : List JobItem → ListReply
  file_list : List Text → ListReply

abbrev job_list_reply : Result (List JobItem) → ListReply
job_list_reply (ok items) = job_list items
job_list_reply (err e) =
    if errors_is e limit_out_of_range || errors_is e offset_negative
    then list_error 400
    else list_error 500

abbrev list_page :
    (Text → Result Text) → Fault → Text → (offset limit : Option ℤ) → Database → ListReply
list_page parse f user none limit db = list_error 400
list_page parse f user (some offset) none db = list_error 400
list_page parse f user (some offset) (some limit) db =
    job_list_reply (list_user_jobs parse f user offset limit db)

unfoldable pub handle_list_video_jobs :
    (Text → Result Text)
    → Fault
    → (Text → Option ℤ)
    → (user : Option Text) → (offset limit : Text) → Database
    → ListReply
handle_list_video_jobs parse f atoi none offset limit db = list_error 401
handle_list_video_jobs parse f atoi (some user) offset limit db =
    list_page parse f user (parse_query_int atoi offset (pos 0))
      (parse_query_int atoi limit (pos 20)) db

abbrev file_list_reply : Result (List Text) → ListReply
file_list_reply (ok keys) = file_list keys
file_list_reply (err e) = list_error 500

unfoldable pub handle_status :
    (Text → Result Text) → Fault → ResultStorage → Option Text → Database → ListReply
handle_status parse f results none db = list_error 500
handle_status parse f results (some user) db =
    file_list_reply (list_user_results parse f results user db)
