-- ===== src/Worker/Dispatch/Verdicts.antt =====
-- What a verdict on a delivery says of the job's row.
use video_processor.Prelude.{
  ℕ, zero, suc, ℤ, Text, Bool, true, false, Bool-cases, if◌then◌else◌, ◌≡◌, refl, ◌≢◌, ◌⊎◌, inl,
  inr, Option, none, some, List, [], ◌∷◌, arith,
}
use video_processor.Errors.{
  Error, errors_is, Result, ok, err, job_fenced, job_requeued_for_retry, job_claim_lost,
  job_claim_outcome_unknown, video_job_not_found,
}
use video_processor.Video.Status.{is_terminal}
use video_processor.Video.Idgen.{IsParser}
use video_processor.Video.Keys.{new_storage_key}
use video_processor.Video.Store.{Database}
use video_processor.Video.Exec.{Visit}
use video_processor.Video.UseCases.{TransitionResult, complete_job, completed_as}
use video_processor.Video.UseCases.Claims.{Dispatched}
use video_processor.Video.UseCases.Outcomes.{Carried, complete_job_row}
use video_processor.Video.Process.{Run, Processed, Ended, process_video_job}
use video_processor.Video.Process.Endings.{Terminal, Honest, process_video_job-Honest}
use video_processor.Worker.Dispatch.{
  ack, reject, requeue, Message, Cleanup, lease_released, source_deleted, key_cleared, Verdict,
  released, last_answer, next_answer, complete_attempt, complete_with_retry, on_error, on_failure,
  on_completion, on_ended, on_source, handle, quiet, acknowledged,
}

abbrev pub deletes_source : List Cleanup → Bool
deletes_source [] = false
deletes_source (source_deleted key ∷ rest) = true
deletes_source (lease_released id epoch ∷ rest) = deletes_source rest
deletes_source (key_cleared job ∷ rest) = deletes_source rest

-- An acknowledged delivery has its job's row terminal or dispatched again; the source is deleted
-- only when the row is terminal; and there is no clean-up at all without an acknowledgement.
pub record Sound (i : Text) (v : Verdict) (db : Database) : Type 0 where
  pub acknowledged_done : v.disposition ≡ ack → Terminal i db ⊎ Dispatched i db
  pub deleted_done : deletes_source v.cleanups ≡ true → Terminal i db
  pub quiet_otherwise : v.disposition ≢ ack → v.cleanups ≡ []

Carried-Terminal :
    (i key : Text) (frames epoch : ℤ) (db : Database)
    → Carried i (completed_as key frames) epoch db
    → Terminal i db
unfolding is_terminal
Carried-Terminal i key frames epoch db (r, e, c) = (r, e, ground arith)

reject-Sound : (i : Text) (db : Database) → Sound i (quiet reject) db
reject-Sound i db = ground arith

requeue-Sound : (i : Text) (db : Database) → Sound i (quiet requeue) db
requeue-Sound i db = ground arith

ladder :
    (i : Text) (db : Database) (lost unknown missing fenced again : Bool) (v : Verdict)
    → (again ≡ true → Sound i v db)
    → Sound i
        (if lost
          then quiet reject
          else if unknown
          then quiet requeue
          else if missing
          then quiet reject
          else if fenced
          then quiet reject
          else if again
          then v
          else quiet reject)
        db
ladder i db true unknown missing fenced again v h = reject-Sound i db
ladder i db false true missing fenced again v h = requeue-Sound i db
ladder i db false false true fenced again v h = reject-Sound i db
ladder i db false false false true again v h = reject-Sound i db
ladder i db false false false false true v h = h refl
ladder i db false false false false false v h = reject-Sound i db

if-Sound :
    (i : Text) (b : Bool) (x y : Verdict × Database)
    → (b ≡ true → Sound i x.0 x.1)
    → (b ≡ false → Sound i y.0 y.1)
    → Sound i (if b then x else y).0 (if b then x else y).1
if-Sound i true x y h k = h refl
if-Sound i false x y h k = k refl

nothing_deleted :
    (p : Result Text) (epoch : ℤ) (applied : Bool)
    → deletes_source (if applied then released p epoch [] else []) ≢ true
nothing_deleted (ok id) epoch true h = absurd (ground arith)
nothing_deleted (err e) epoch true h = absurd (ground arith)
nothing_deleted p epoch false h = absurd (ground arith)

module _ (parse : Text → Result Text) (c : IsParser parse) (visits : ℕ → Visit) (m : Message)
    (i : Text) (p : parse m.job_id ≡ ok i) where
  abbrev attempt_at : Processed → ℕ → Database → Result TransitionResult × Database
  attempt_at result n db =
      complete_job parse (visits n) result.job_id result.storage_key result.frame_count
        result.lease_epoch db

  attempt-Terminal :
      (result : Processed)
      → result.job_id ≡ m.job_id
      → (n : ℕ) (db : Database) (res : TransitionResult) → (attempt_at result n db).0 ≡ ok res
      → Terminal i (attempt_at result n db).1
  attempt-Terminal result named n db res h =
      Carried-Terminal i result.storage_key result.frame_count result.lease_epoch
        (attempt_at result n db).1
        (complete_job_row parse (visits n) result.job_id i result.storage_key result.frame_count
          result.lease_epoch db res c.canonical (rw named p) h)

  last-Terminal :
      (r : Result TransitionResult × Database)
      → ((res : TransitionResult) → r.0 ≡ ok res → Terminal i r.1)
      → (last_answer r).0 ≡ none
      → Terminal i (last_answer r).1
  last-Terminal (ok res, db) done h = done res refl
  last-Terminal (err e, db) done h = absurd (ground arith)

  next-Terminal :
      (r : Result TransitionResult × Database) (again : Database → Option Error × Database)
      → ((res : TransitionResult) → r.0 ≡ ok res → Terminal i r.1)
      → ((db : Database) → (again db).0 ≡ none → Terminal i (again db).1)
      → (next_answer r again).0 ≡ none
      → Terminal i (next_answer r again).1
  next-Terminal (ok res, db) again done later h = done res refl
  next-Terminal (err e, db) again done later h = elim (Bool-cases (errors_is e job_fenced)) [
    | inl fenced ↦ absurd (ground arith)
    | inr other ↦ rw other (later db (rw other at h))
  ]

  complete_attempt-Terminal :
      (result : Processed)
      → result.job_id ≡ m.job_id
      → (left n : ℕ) (db : Database) → (complete_attempt parse visits result left n db).0 ≡ none
      → Terminal i (complete_attempt parse visits result left n db).1
  unfolding complete_attempt
  complete_attempt-Terminal result named zero n db h =
      last-Terminal (attempt_at result n db) (attempt-Terminal result named n db) h
  complete_attempt-Terminal result named (suc left) n db h =
      next-Terminal (attempt_at result n db) (complete_attempt parse visits result left (suc n))
        (attempt-Terminal result named n db)
        (λ later e. complete_attempt-Terminal result named left (suc n) later e) h

  complete_with_retry-Terminal :
      (result : Processed) (db : Database)
      → result.job_id ≡ m.job_id
      → (complete_with_retry parse visits result db).0 ≡ none
      → Terminal i (complete_with_retry parse visits result db).1
  unfolding complete_with_retry
  complete_with_retry-Terminal result db named h = complete_attempt-Terminal result named 3 1 db h

  retried-Sound :
      (result : Processed) (db : Database)
      → Dispatched i db
      → Sound i
          (acknowledged
            (if result.applied then released (parse m.job_id) result.lease_epoch [] else []))
          db
  retried-Sound result db h = record {
    acknowledged_done = λ t. inr h;
    deleted_done =
        λ t. absurd (nothing_deleted (parse m.job_id) result.lease_epoch result.applied t);
    quiet_otherwise = λ t. absurd (t refl);
  }

  on_error-Sound :
      (result : Processed) (e : Error) (db : Database)
      → (errors_is e job_requeued_for_retry ≡ true → Dispatched i db)
      → Sound i (on_error parse visits m result e) db
  on_error-Sound result e db h =
      ladder i db (errors_is e job_claim_lost) (errors_is e job_claim_outcome_unknown)
        (errors_is e video_job_not_found) (errors_is e job_fenced)
        (errors_is e job_requeued_for_retry)
        (acknowledged
          (if result.applied then released (parse m.job_id) result.lease_epoch [] else []))
        (λ t. retried-Sound result db (h t))

  on_failure-Sound :
      (result : Processed) (db : Database)
      → Terminal i db
      → Sound i (on_failure parse visits m result) db
  on_failure-Sound result db h = record {
    acknowledged_done = λ t. inl h;
    deleted_done = λ t. h;
    quiet_otherwise = λ t. absurd (t refl);
  }

  on_completion-Sound :
      (result : Processed) (r : Option Error × Database)
      → (r.0 ≡ none → Terminal i r.1)
      → Sound i (on_completion parse visits m result r).0 (on_completion parse visits m result r).1
  on_completion-Sound result (some e, db) h = reject-Sound i db
  on_completion-Sound result (none, db) h = record {
    acknowledged_done = λ t. inl (h refl);
    deleted_done = λ t. h refl;
    quiet_otherwise = λ t. absurd (t refl);
  }

  on_ended-Sound :
      (x : Ended)
      → Honest m.job_id i x
      → Sound i (on_ended parse visits m x).0 (on_ended parse visits m x).1
  on_ended-Sound ((result, some e), db) h = on_error-Sound result e db h
  on_ended-Sound ((result, none), db) h =
      if-Sound i result.success
        (on_completion parse visits m result (complete_with_retry parse visits result db))
        (on_failure parse visits m result, db)
        (λ t.
          on_completion-Sound result (complete_with_retry parse visits result db)
            (complete_with_retry-Terminal result db (h.1 t)))
        (λ f. on_failure-Sound result db (h.0 f))

  on_source-Sound :
      (run : Run) (r : Result Text) (db : Database)
      → Sound i (on_source parse visits m run r db).0 (on_source parse visits m run r db).1
  on_source-Sound run (err e) db = reject-Sound i db
  on_source-Sound run (ok key) db =
      on_ended-Sound (process_video_job parse run m.job_id db)
        (process_video_job-Honest parse c m.job_id i p run db)

  -- However one delivery of a message goes, if the id in it parses, its verdict is sound: an
  -- acknowledgement leaves the row of the message's job terminal or dispatched again by the newest
  -- event, the uploaded source is deleted only when that row is terminal, and without an
  -- acknowledgement there is no clean-up. The parser is one that the use cases can rely on.
  pub handle-Sound :
      (run : Run) (db : Database)
      → Sound i (handle parse run visits (some m) db).0 (handle parse run visits (some m) db).1
  unfolding handle
  handle-Sound run db = on_source-Sound run (new_storage_key m.source_key) db
