-- ===== src/Video/Cache/Reading.antt =====
-- What a lookup through the cache answers.
use video_processor.Prelude.{
  Text, text_eq, text_eq_iff, Bool-cases, ◌≡◌, refl, sym, ◌∙◌, ◌⊎◌, Option, none, some, arith, inl,
  inr,
}
use video_processor.Errors.{Result, ok, err}
use video_processor.Redis.{current, Fate, heard, unreached, unheard}
use video_processor.Video.Job.{VideoJob}
use video_processor.Video.Job.Consistency.{IsConsistent}
use video_processor.Video.Store.{Fault, Database}
use video_processor.Video.Repository
use video_processor.Video.Repository.Reloading.{scan_job_row_rules}
use video_processor.Video.Cache.{
  CachedJobRecord, Cache, Stored, entry, malformed, other_type, Lookup, to_video_job, read_cache,
  find_by_id, reconstructed, got, got_as, found, repopulated,
}

-- The two decoders do the same with the same columns.
pub to_video_job-scan_job_row :
    (parse : Text → Result Text) (r : CachedJobRecord)
    → to_video_job parse r ≡ Repository.scan_job_row parse r
unfolding to_video_job Repository.scan_job_row
to_video_job-scan_job_row parse r = refl

-- A hit is a job that an entry of the key stores.
abbrev pub IsHit : (Text → Result Text) → Lookup → Text → Cache → VideoJob → Type 0
IsHit parse l i c job =
    (rec : CachedJobRecord) × (current l.now (c i) ≡ some (entry rec))
    × (rec.id ≡ i)
    × (to_video_job parse rec ≡ ok job)

reconstructed_hit :
    (parse : Text → Result Text) (l : Lookup) (i : Text) (c : Cache) (rec : CachedJobRecord)
    (m : Result VideoJob) (job : VideoJob)
    → (reconstructed l i rec c m).0 ≡ some job
    → m ≡ ok job
reconstructed_hit parse l i c rec m job h = ground arith

entry_hit :
    (parse : Text → Result Text) (l : Lookup) (i : Text) (c : Cache) (rec : CachedJobRecord)
    (job : VideoJob)
    → (got parse l i c (some (entry rec))).0 ≡ some job
    → (rec.id ≡ i) × (to_video_job parse rec ≡ ok job)
entry_hit parse l i c rec job h = elim (Bool-cases (text_eq rec.id i)) [
  | inr f ↦ absurd (ground arith)
  | inl e ↦ (
    (text_eq_iff rec.id i).0 e,
    reconstructed_hit parse l i c rec (to_video_job parse rec) job (rw e at h),
  )
]

got_hit :
    (parse : Text → Result Text) (l : Lookup) (i : Text) (c : Cache) (f : Fate) (v : Option Stored)
    (job : VideoJob)
    → (got_as parse l f i c v).0 ≡ some job
    → (rec : CachedJobRecord) × (v ≡ some (entry rec))
      × (rec.id ≡ i)
      × (to_video_job parse rec ≡ ok job)
got_hit parse l i c heard none job h = absurd (ground arith)
got_hit parse l i c heard (some other_type) job h = absurd (ground arith)
got_hit parse l i c heard (some (malformed raw)) job h = absurd (ground arith)
got_hit parse l i c heard (some (entry rec)) job h =
    let (named, same) = entry_hit parse l i c rec job h in (rec, refl, named, same)
got_hit parse l i c (unreached e) v job h = absurd (ground arith)
got_hit parse l i c (unheard e) v job h = absurd (ground arith)

read-IsHit :
    (parse : Text → Result Text) (l : Lookup) (i : Text) (c : Cache) (job : VideoJob)
    → (read_cache parse l i c).0 ≡ some job
    → IsHit parse l i c job
unfolding read_cache
read-IsHit parse l i c job h = got_hit parse l i c l.getting (current l.now (c i)) job h

pub repopulated_answer : (l : Lookup) (c : Cache) (m : Result VideoJob) → (repopulated l c m).0 ≡ m
repopulated_answer l c (ok job) = refl
repopulated_answer l c (err e) = refl

found_answer :
    (parse : Text → Result Text) (l : Lookup) (f : Fault) (i : Text) (db : Database)
    (m : Option VideoJob × Cache)
    → ((found parse l f i db m).0 ≡ Repository.find_by_id parse f i db)
      ⊎ ((job : VideoJob) × ((found parse l f i db m).0 ≡ ok job) × (m.0 ≡ some job))
found_answer parse l f i db (some job, c) = inr (job, refl, refl)
found_answer parse l f i db (none, c) =
    inl (repopulated_answer l c (Repository.find_by_id parse f i db))

-- A lookup answers a stored job that keeps the aggregate's rules, or what the wrapped repository
-- answers: no failure of Redis, and no value of the key, makes it fail.
pub find_by_id_answers :
    (parse : Text → Result Text) (l : Lookup) (f : Fault) (i : Text) (db : Database) (c : Cache)
    → ((find_by_id parse l f i db c).0 ≡ Repository.find_by_id parse f i db)
      ⊎ ((job : VideoJob) × ((find_by_id parse l f i db c).0 ≡ ok job)
          × IsHit parse l i c job
          × IsConsistent job)
unfolding find_by_id
find_by_id_answers parse l f i db c = elim (found_answer parse l f i db (read_cache parse l i c)) [
  | inl e ↦ inl e
  | inr (job, e, h) ↦
      let (rec, at, named, same) = read-IsHit parse l i c job h in
      inr (
        job,
        e,
        (rec, at, named, same),
        scan_job_row_rules parse rec job (sym (to_video_job-scan_job_row parse rec) ∙ same),
      )
]
