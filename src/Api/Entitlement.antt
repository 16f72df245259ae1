-- ===== src/Api/Entitlement.antt =====
-- Who gets a download URL.
use video_processor.Prelude.{
  ℕ, ◌≡◌, refl, sym, subst, ap, ◌∙◌, ◌⊎◌, inl, inr, ◌≢◌, Text, text_eq_iff, Option, some, arith,
  Option-cases,
}
use video_processor.Errors.{Result, Result-cases, ok, err}
use video_processor.Video.Status.{completed, status_eq_iff}
use video_processor.Video.Job.{VideoJob}
use video_processor.Video.Keys.{new_storage_key, video_job_id_from_storage_key}
use video_processor.Video.Keys.Roundtrip.{id_from_key_returns, result_storage_key-id_from_key}
use video_processor.Video.Store.{Row, Database, Fault, find_row}
use video_processor.Video.Repository
use video_processor.Video.Repository.Reloading.{IsCanonical, find_by_id_canonical}
use video_processor.Api.Download.{
  ResultStorage, download_url_ttl, DownloadReply, artifact_not_found, internal_error, granted,
  for_job, for_id, for_key, handle_download,
}

-- A row that entitles a user to the artifact under a key.
pub record Entitles (user key : Text) (r : Row) : Type 0 where
  pub is_owned : r.user_id ≡ user
  pub is_completed : r.status ≡ completed
  pub names_key : r.storage_key ≡ key

abbrev pub Entitled : Text → Text → Database → Type 0
Entitled user key db = (r : Row) × (find_row r.id db.rows ≡ some r) × Entitles user key r

-- A URL for the artifact, signed for its key after the object was found.
abbrev pub Signed : ResultStorage → Text → Text → ℕ → Type 0
Signed results key url expires_at =
    (results.stat key ≡ ok tt)
    × (results.presign_get key download_url_ttl key ≡ ok (url, expires_at))

module _ (results : ResultStorage) (user key : Text) where
  granted_job :
      (job : VideoJob) (url : Text) (expires_at : ℕ)
      → for_job results user key (ok job) ≡ granted url expires_at
      → Entitles user key job × Signed results key url expires_at
  granted_job job url expires_at h = (
    record {
      is_owned = ground (arith, text_eq_iff job.user_id user);
      is_completed = ground (arith, status_eq_iff job.status completed);
      names_key = ground (arith, text_eq_iff job.storage_key key);
    },
    (ground arith, ground arith),
  )

  for_job-internal_error : (r : Result VideoJob) → for_job results user key r ≢ internal_error
  for_job-internal_error (ok job) = ground arith
  for_job-internal_error (err e) = ground arith

reply_cases :
    (reply : DownloadReply)
    → reply ≢ internal_error
    → (reply ≡ artifact_not_found)
      ⊎ ((url : Text) × (expires_at : ℕ) × (reply ≡ granted url expires_at))
reply_cases internal_error h = absurd (h refl)
reply_cases artifact_not_found h = inl refl
reply_cases (granted url expires_at) h = inr (url, expires_at, refl)

module _ (parse : Text → Result Text) (fault : Fault) (results : ResultStorage) (user : Text) where
  abbrev pub Answered : Text → Database → Option DownloadReply → Type 0
  Answered key db reply =
      (reply ≡ some artifact_not_found)
      ⊎ ((url : Text) × (expires_at : ℕ) × (reply ≡ some (granted url expires_at))
          × Entitled user key db
          × Signed results key url expires_at)

  for_job-Answered :
      (key s i : Text) (db : Database)
      → IsCanonical parse
      → parse s ≡ ok i
      → Answered key db (some (for_job results user key (Repository.find_by_id parse fault i db)))
  for_job-Answered key s i db c p = elim (Result-cases (Repository.find_by_id parse fault i db)) [
    | inr (e, f) ↦ inl (rw f refl)
    | inl (job, f) ↦
        let (found, named, rules) = find_by_id_canonical parse fault s i db job c p f in
        elim (reply_cases (for_job results user key (ok job))
          (for_job-internal_error results user key (ok job))) [
            | inl e ↦ inl (rw (f, e) refl)
            | inr (url, expires_at, e) ↦
                let (entitled, signed) = granted_job results user key job url expires_at e in
                inr (
                  url,
                  expires_at,
                  rw (f, e) refl,
                  (job, subst (λ k. find_row k db.rows ≡ some job) (sym named) found, entitled),
                  signed,
                )
          ]
  ]

  for_id-Answered :
      (key : Text) (db : Database)
      → IsCanonical parse
      → Answered key db
          (for_id parse fault results user key db (video_job_id_from_storage_key key (some parse)))
  for_id-Answered key db c = elim (Option-cases (video_job_id_from_storage_key key (some parse))) [
    | inl e ↦ absurd (id_from_key_returns key (some parse) e)
    | inr (r, e) ↦ elim (Result-cases r) [
      | inr (x, f) ↦ inl (rw (e, f) refl)
      | inl (i, f) ↦
          let (s, _, p) = result_storage_key-id_from_key key i parse (e ∙ ap some f) in
          rw (e, f) (for_job-Answered key s i db c p)
    ]
  ]

  for_key-Answered :
      (filename : Text) (db : Database)
      → IsCanonical parse
      → (named : Result Text) → ((key : Text) → named ≡ ok key → key ≡ filename)
      → Answered filename db (for_key parse fault results user db named)
  for_key-Answered filename db c (err e) h = inl refl
  for_key-Answered filename db c (ok key) h =
      subst (λ k. Answered k db (for_key parse fault results user db (ok key))) (h key refl)
        (for_id-Answered key db c)

  -- With a parser whose answers are canonical: whatever an authenticated caller asks for, and
  -- however the calls fare, the handler returns, without a panic, one of two replies. Either it is
  -- the one not-found reply, or it is a URL that the storage signed for exactly the requested key,
  -- whose object it has found, and a row of the caller is completed and has exactly that key.
  pub handle_download-Entitled :
      (filename : Text) (db : Database)
      → IsCanonical parse
      → (handle_download parse fault results (some user) filename db ≡ some artifact_not_found)
        ⊎ ((url : Text) × (expires_at : ℕ) × (handle_download parse fault results
                (some user)
                filename
                db
              ≡ some (granted url expires_at))
            × Entitled user filename db
            × Signed results filename url expires_at)
  unfolding handle_download new_storage_key
  handle_download-Entitled filename db c =
      for_key-Answered filename db c (new_storage_key filename) (λ key h. ground arith)
