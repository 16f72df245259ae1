-- ===== src/Video/Cache/Outcomes.antt =====
-- What a lookup answers after a terminal write through the cache.
use video_processor.Prelude.{
  ℕ, ◌+◌, ◌<◌, ltb, ℤ, Text, text_eq_refl, Bool, true, false, ◌≡◌, refl, ◌∙◌, none, some, arith,
}
use video_processor.Errors.{Error, Result, ok, err, errors_is, job_fenced}
use video_processor.Redis.{Key, current, Fate, heard, unreached, unheard, set_for}
use video_processor.Video.Job.{VideoJob}
use video_processor.Video.Job.Consistency.{IsConsistent}
use video_processor.Video.Filename.{new_original_filename}
use video_processor.Video.Store.{Fault, Database, Turn}
use video_processor.Video.Repository
use video_processor.Video.Repository.Reloading.{scan_job_row-IsConsistent}
use video_processor.Video.Cache.{Cache, Stored, entry, entry_ttl, Lookup, find_by_id, read_cache}
use video_processor.Video.Cache.Reading.{to_video_job-scan_job_row, repopulated_answer}
use video_processor.Video.Cache.Writes.{
  Following, update, after_update, write_through, invalidate_after_ambiguous_write, delete,
  or_deleted, write_through_if_current, verdict, carried, ScriptVerdict, published, kept,
  script_error,
}

fresh_at : (now expires : ℕ) → now < expires → ltb now expires ≡ true
fresh_at now expires h = ground arith

deleted :
    (w : Following) (i : Text) (c : Cache)
    → w.deleting ≡ heard
    → invalidate_after_ambiguous_write w i c i ≡ none
unfolding invalidate_after_ambiguous_write delete
deleted w i c h = rw h (rw (text_eq_refl i) refl)

err_inj : (e f : Error) → ◌≡◌ {A = Result Bool} (err f) (err e) → f ≡ e
err_inj e f h = ground arith

after_failure :
    (parse : Text → Result Text) (w : Following) (job : VideoJob) (c : Cache) (e : Error)
    (m : Result Bool × Database)
    → (after_update parse w job c m).0 ≡ err e
    → errors_is e job_fenced ≡ false
    → (after_update parse w job c m).2 ≡ invalidate_after_ambiguous_write w job.id c
after_failure parse w job c e (ok true, db) h n = absurd (ground arith)
after_failure parse w job c e (ok false, db) h n = absurd (ground arith)
after_failure parse w job c e (err f, db) h n = rw (err_inj e f h) (rw n refl)

after_success :
    (parse : Text → Result Text) (w : Following) (job : VideoJob) (c : Cache)
    (m : Result Bool × Database)
    → (after_update parse w job c m).0 ≡ ok true
    → (after_update parse w job c m).2 ≡ write_through parse w job c
after_success parse w job c (ok true, db) h = refl
after_success parse w job c (ok false, db) h = absurd (ground arith)
after_success parse w job c (err f, db) h = absurd (ground arith)

missed :
    (parse : Text → Result Text) (l : Lookup) (f : Fault) (i : Text) (db : Database) (c : Cache)
    → l.getting ≡ heard
    → c i ≡ none
    → (find_by_id parse l f i db c).0 ≡ Repository.find_by_id parse f i db
unfolding find_by_id read_cache current
missed parse l f i db c h k = rw h (
    rw k (repopulated_answer (record l { getting = heard }) c (Repository.find_by_id parse f i db)))

-- After a terminal write that failed with an error other than a fence, so that its outcome is not
-- known, the next lookup asks the wrapped repository, where the deletion of the key and the read of
-- it are answered and no other client sets the key in between.
pub update-failed :
    (parse : Text → Result Text) (t : Turn) (w : Following) (l : Lookup) (f : Fault)
    (job : VideoJob) (epoch : ℤ) (db later : Database) (c : Cache) (e : Error)
    → (update parse t w job epoch db c).0 ≡ err e
    → errors_is e job_fenced ≡ false
    → w.deleting ≡ heard
    → l.getting ≡ heard
    → (find_by_id parse l f job.id later (update parse t w job epoch db c).2).0
      ≡ Repository.find_by_id parse f job.id later
unfolding update
update-failed parse t w l f job epoch db later c e h n d g =
    rw (after_failure parse w job c e (Repository.update t job epoch db) h n) (
      missed parse l f job.id later (invalidate_after_ambiguous_write w job.id c) g
        (deleted w job.id c d))

-- A key that was set answers the job.
answers_entry :
    (parse : Text → Result Text) (l : Lookup) (f : Fault) (job : VideoJob) (db : Database)
    (c : Cache) (expires : ℕ)
    → IsConsistent job
    → parse job.id ≡ ok job.id
    → new_original_filename job.original_filename ≡ ok job.original_filename
    → l.getting ≡ heard
    → l.now < expires
    → c job.id ≡ some (record { value = entry job; expires = expires })
    → (find_by_id parse l f job.id db c).0 ≡ ok job
unfolding find_by_id read_cache current
answers_entry parse l f job db c expires r p n h before k =
    let loads = to_video_job-scan_job_row parse job ∙ scan_job_row-IsConsistent parse job r p n in
    let fresh = fresh_at l.now expires before in
    rw h (rw k (rw fresh (rw (text_eq_refl job.id) (rw loads refl))))

publishes :
    (now : ℕ) (rec : VideoJob) (k : Key Stored) (v : ScriptVerdict)
    → (carried now rec k v).0 ≡ ok true
    → (carried now rec k v).1 ≡ set_for now entry_ttl (entry rec)
publishes now rec k published h = refl
publishes now rec k kept h = absurd (ground arith)
publishes now rec k (script_error m) h = absurd (ground arith)

set_by_script :
    (w : Following) (i : Text) (c : Cache) (m : Result Bool × Key Stored)
    → m.0 ≡ ok true
    → or_deleted w i c m i ≡ m.1
set_by_script w i c (ok b, k) h = rw (text_eq_refl i) refl
set_by_script w i c (err e, k) h = absurd (ground arith)

published_at :
    (parse : Text → Result Text) (w : Following) (job : VideoJob) (c : Cache)
    → parse job.id ≡ ok job.id
    → (write_through_if_current w.scripting w.now job (w.meanwhile c job.id)).0 ≡ ok true
    → write_through parse w job c job.id
      ≡ (write_through_if_current w.scripting w.now job (w.meanwhile c job.id)).1
unfolding write_through
published_at parse w job c p y = rw p (
    set_by_script w job.id (w.meanwhile c)
      (write_through_if_current w.scripting w.now job (w.meanwhile c job.id)) y)

script_published :
    (now : ℕ) (job : VideoJob) (k : Key Stored) (f : Fate)
    → (write_through_if_current f now job k).0 ≡ ok true
    → (write_through_if_current f now job k).1 ≡ set_for now entry_ttl (entry job)
unfolding write_through_if_current
script_published now job k heard h = publishes now job k (verdict job (current now k)) h
script_published now job k (unreached e) h = absurd (ground arith)
script_published now job k (unheard e) h = absurd (ground arith)

-- A job that a terminal write stored, and that the script published, is what a lookup in the next
-- 300 seconds answers, whatever the tables hold by then, where the job keeps the aggregate's rules,
-- its filename is supported and its id parses to itself, Redis answers the read, and no other
-- client changes the key in between.
pub update-published :
    (parse : Text → Result Text) (t : Turn) (w : Following) (l : Lookup) (f : Fault)
    (job : VideoJob) (epoch : ℤ) (db later : Database) (c : Cache)
    → IsConsistent job
    → parse job.id ≡ ok job.id
    → new_original_filename job.original_filename ≡ ok job.original_filename
    → (update parse t w job epoch db c).0 ≡ ok true
    → (write_through_if_current w.scripting w.now job (w.meanwhile c job.id)).0 ≡ ok true
    → l.getting ≡ heard
    → l.now < w.now + entry_ttl
    → (find_by_id parse l f job.id later (update parse t w job epoch db c).2).0 ≡ ok job
unfolding update
update-published parse t w l f job epoch db later c r p n h y g before =
    rw (after_success parse w job c (Repository.update t job epoch db) h) (
      answers_entry parse l f job later (write_through parse w job c) (w.now + entry_ttl) r p n g
        before
        (published_at parse w job c p y
          ∙ script_published w.now job (w.meanwhile c job.id) w.scripting y))
