-- ===== src/Video/Repository/Reloading.antt =====
-- What a load tells of the row, and which rows load.
use video_processor.Prelude.{Text, ◌≡◌, some, arith, ◌⊎◌, Option-cases, inl, inr}
use video_processor.Errors.{Error, Result, Result-cases, ok, err}
use video_processor.Video.Job.{VideoJob, restore_video_job}
use video_processor.Video.Job.Consistency.{IsConsistent, reload-IsConsistent, restore-IsConsistent}
use video_processor.Video.Filename.{new_original_filename}
use video_processor.Video.Keys.{new_user_id, new_storage_key}
use video_processor.Video.Store.{Row, Database, Fault, find_row, find_row_id}
use video_processor.Video.Repository.{scan_job_row, find_by_id, optional_key}

-- A parser that answers with a canonical form, which it takes for itself, as `uuid.Parse` and
-- `String` do.
abbrev pub IsCanonical : (Text → Result Text) → Type 0
IsCanonical parse = (s id : Text) → parse s ≡ ok id → parse id ≡ ok id

restored :
    (i user filename source hash storage reason : Text) (r job : VideoJob)
    → restore_video_job i user filename source hash storage r.frame_count reason r.status
        r.created_at r.lease_epoch
      ≡ ok job
    → job ≡ record {
      id = i;
      user_id = user;
      original_filename = filename;
      source_key = source;
      content_hash = hash;
      storage_key = storage;
      frame_count = r.frame_count;
      error_reason = reason;
      status = r.status;
      created_at = r.created_at;
      lease_epoch = r.lease_epoch;
    }
unfolding restore_video_job
restored i user filename source hash storage reason r job h = ground arith

optional_key_same : (s : Text) → optional_key s ≡ ok s
unfolding new_storage_key
optional_key_same s = ground arith

filename_cases :
    (s : Text)
    → (new_original_filename s ≡ ok s) ⊎ ((e : Error) × (new_original_filename s ≡ err e))
unfolding new_original_filename
filename_cases s = elim (Result-cases (new_original_filename s)) [
  | inl (k, e) ↦ inl (ground arith)
  | inr (e, f) ↦ inr (e, f)
]

-- A loaded job has the row's columns, and the parsed form of its id.
pub scan_job_row_fields :
    (parse : Text → Result Text) (r : Row) (job : VideoJob)
    → scan_job_row parse r ≡ ok job
    → (job ≡ record r { id = job.id }) × (parse r.id ≡ ok job.id)
unfolding scan_job_row new_user_id
scan_job_row_fields parse r job h = elim (Result-cases (parse r.id)) [
  | inr (e, f) ↦ absurd (ground arith)
  | inl (i, f) ↦ ground (
    arith,
    filename_cases r.original_filename,
    optional_key_same r.source_key,
    optional_key_same r.storage_key,
    restored i r.user_id r.original_filename r.source_key r.content_hash r.storage_key
        r.error_reason r job,
  )
]

-- A row that keeps the aggregate's rules, with a supported filename and a canonical id, loads as it
-- stands.
pub scan_job_row-IsConsistent :
    (parse : Text → Result Text) (r : Row)
    → IsConsistent r
    → parse r.id ≡ ok r.id
    → new_original_filename r.original_filename ≡ ok r.original_filename
    → scan_job_row parse r ≡ ok r
unfolding scan_job_row new_user_id
scan_job_row-IsConsistent parse r c p f = ground (
  arith,
  optional_key_same r.source_key,
  optional_key_same r.storage_key,
  reload-IsConsistent r c,
)

pub scan_job_row_rules :
    (parse : Text → Result Text) (r : Row) (job : VideoJob)
    → scan_job_row parse r ≡ ok job
    → IsConsistent job
unfolding scan_job_row new_user_id
scan_job_row_rules parse r job h = elim (Result-cases (parse r.id)) [
  | inr (e, f) ↦ absurd (ground arith)
  | inl (i, f) ↦
      restore-IsConsistent i r.user_id r.original_filename r.source_key r.content_hash r.storage_key
        r.error_reason r.frame_count r.lease_epoch r.status r.created_at job
        (ground (
          arith,
          filename_cases r.original_filename,
          optional_key_same r.source_key,
          optional_key_same r.storage_key,
        ))
]

loaded_row :
    (parse : Text → Result Text) (fault : Fault) (i : Text) (db : Database) (job : VideoJob)
    → find_by_id parse fault i db ≡ ok job
    → (r : Row) × (find_row i db.rows ≡ some r) × (scan_job_row parse r ≡ ok job)
unfolding find_by_id
loaded_row parse fault i db job h = elim (Option-cases (find_row i db.rows)) [
  | inl e ↦ absurd (ground arith)
  | inr (r, e) ↦ (r, e, ground arith)
]

-- With canonical ids, a load by a parsed id answers the row itself, which keeps the rules.
pub find_by_id_canonical :
    (parse : Text → Result Text) (fault : Fault) (s i : Text) (db : Database) (job : VideoJob)
    → IsCanonical parse
    → parse s ≡ ok i
    → find_by_id parse fault i db ≡ ok job
    → (find_row i db.rows ≡ some job) × (job.id ≡ i) × IsConsistent job
find_by_id_canonical parse fault s i db job c p h =
    let (r, e, loaded) = loaded_row parse fault i db job h in
    let (same, parsed) = scan_job_row_fields parse r job loaded in
    let named = find_row_id i db.rows r e in
    let fixed = c s i p in (ground arith, ground arith, scan_job_row_rules parse r job loaded)
