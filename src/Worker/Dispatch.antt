-- ===== src/Worker/Dispatch.antt =====
-- `handle` of cmd/worker/main.go and what it calls: the verdict on one delivery, with the clean-up
-- that it asks for. The clean-up calls are best effort, so a list of them stands for their effects.
pub mod Verdicts
use video_processor.Prelude.{
  ℕ, zero, suc, ◌+◌, ℤ, Text, Bool, true, false, if◌then◌else◌, Option, none, some, List, [], ◌∷◌,
}
use video_processor.Errors.{
  Error, errors_is, Result, ok, err, job_claim_lost, job_claim_outcome_unknown, video_job_not_found,
  job_fenced, job_requeued_for_retry,
}
use video_processor.Video.Keys.{new_storage_key}
use video_processor.Video.Store.{Database}
use video_processor.Video.Exec.{Visit}
use video_processor.Video.UseCases.{TransitionResult, complete_job}
use video_processor.Video.Process.{Run, Processed, Ended, process_video_job}

pub data Disposition : Type 0 where
  ack reject requeue : Disposition

-- `JobQueuedMessage`, as far as `handle` reads it.
pub record Message : Type 0 where
  pub job_id : Text
  pub source_key : Text

pub data Cleanup : Type 0 where
  lease_released : Text → ℤ → Cleanup
  source_deleted : Text → Cleanup
  key_cleared : Text → Cleanup

pub record Verdict : Type 0 where
  pub disposition : Disposition
  pub cleanups : List Cleanup

abbrev pub terminal_write_attempts : ℕ
terminal_write_attempts = 4

-- `releaseLease` does nothing for an id that does not parse.
abbrev pub released : Result Text → ℤ → List Cleanup → List Cleanup
released (err e) epoch rest = rest
released (ok id) epoch rest = lease_released id epoch ∷ rest

-- The last attempt reports its failure; an earlier one stops at a success or a fence.
abbrev pub last_answer : Result TransitionResult × Database → Option Error × Database
last_answer (ok r, db) = (none, db)
last_answer (err e, db) = (some e, db)

abbrev pub next_answer :
    Result TransitionResult × Database
    → (Database → Option Error × Database)
    → Option Error × Database
next_answer (ok r, db) again = (none, db)
next_answer (err e, db) again = if errors_is e job_fenced then (some e, db) else again db

-- The loop of `completeWithRetry`: `left` attempts remain after this one, which is number `attempt`
-- and has its own surroundings. The pause between two attempts is in the surroundings of the next.
module _ (parse : Text → Result Text) (visits : ℕ → Visit) (result : Processed) where
  unfoldable pub complete_attempt : ℕ → ℕ → Database → Option Error × Database
  complete_attempt zero attempt db = last_answer (
      complete_job parse (visits attempt) result.job_id result.storage_key result.frame_count
        result.lease_epoch db)
  complete_attempt (suc left) attempt db =
      next_answer
        (complete_job parse (visits attempt) result.job_id result.storage_key result.frame_count
          result.lease_epoch db)
        (complete_attempt left (suc attempt))

  unfoldable pub complete_with_retry : Database → Option Error × Database
  complete_with_retry db = complete_attempt 3 1 db

abbrev pub quiet : Disposition → Verdict
quiet d = record { disposition = d; cleanups = [] }

abbrev pub acknowledged : List Cleanup → Verdict
acknowledged cleanups = record { disposition = ack; cleanups = cleanups }

module _ (parse : Text → Result Text) (visits : ℕ → Visit) (m : Message) where
  -- The cases of the switch with an error.
  abbrev pub on_error : Processed → Error → Verdict
  on_error result e =
      if errors_is e job_claim_lost
      then quiet reject
      else if errors_is e job_claim_outcome_unknown
      then quiet requeue
      else if errors_is e video_job_not_found
      then quiet reject
      else if errors_is e job_fenced
      then quiet reject
      else if errors_is e job_requeued_for_retry
      then acknowledged
          (if result.applied then released (parse m.job_id) result.lease_epoch [] else [])
      else quiet reject

  abbrev pub on_failure : Processed → Verdict
  on_failure result = acknowledged (
      if result.applied
      then released (parse m.job_id) result.lease_epoch
          (source_deleted m.source_key ∷ key_cleared m.job_id ∷ [])
      else [])

  -- A fence and any other failure of the completion are logged apart and answered alike.
  abbrev pub on_completion : Processed → Option Error × Database → Verdict × Database
  on_completion result (some e, db) = (quiet reject, db)
  on_completion result (none, db) = (
    acknowledged (released (parse m.job_id) result.lease_epoch (source_deleted m.source_key ∷ [])),
    db,
  )

  abbrev pub on_ended : Ended → Verdict × Database
  on_ended ((result, some e), db) = (on_error result e, db)
  on_ended ((result, none), db) =
      if result.success
      then on_completion result (complete_with_retry parse visits result db)
      else (on_failure result, db)

  abbrev pub on_source : Run → Result Text → Database → Verdict × Database
  on_source run (err e) db = (quiet reject, db)
  on_source run (ok key) db = on_ended (process_video_job parse run m.job_id db)

-- `none` is a body that does not decode.
unfoldable pub handle :
    (Text → Result Text) → Run → (ℕ → Visit) → Option Message → Database → Verdict × Database
unfolding new_storage_key
handle parse run visits none db = (quiet reject, db)
handle parse run visits (some m) db = on_source parse visits m run (new_storage_key m.source_key) db
