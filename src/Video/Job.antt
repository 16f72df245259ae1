-- ===== src/Video/Job.antt =====
-- internal/video/domain/video_job.go: the VideoJob aggregate. Identifiers, names and keys are the
-- strings that their structs wrap, and "unset" is the empty string; a timestamp is a number, whose
-- zero is Go's zero time. A method returns the changed job and the error.
pub mod Consistency
pub mod Lifecycle
use video_processor.Prelude.{
  ℕ, ℤ, pos, eq_ℤ, is_negative, succ_int64, Text, is_empty, Bool, true, false, not, ◌&&◌, bool_eq,
  if◌then◌else◌, Option, none, some, List, [], ◌∷◌,
}
use video_processor.Errors.{
  Sentinel, sentinel, Result, ok, err, video_job_id_generator_required, ◌>>◌, ◌>>=◌, refuse_if,
  Outcome, video_job_id_required, video_job_user_id_required, original_filename_required,
  invalid_job_status, frame_count_negative, frame_count_requires_completed_status,
  error_reason_requires_failed_status, storage_key_requires_completed_status,
  invalid_status_transition, failure_reason_required, source_key_required_to_enqueue,
}
use video_processor.Video.Status.{
  JobStatus, pending, queued, processing, completed, failed, status_eq, can_transition_to, is_valid,
}

pub record VideoJob : Type 0 where
  pub id : Text
  pub user_id : Text
  pub original_filename : Text
  pub source_key : Text
  pub content_hash : Text
  pub storage_key : Text
  pub frame_count : ℤ  -- int
  pub error_reason : Text
  pub status : JobStatus
  pub created_at : ℕ
  pub lease_epoch : ℤ  -- int64

unfoldable pub restore_video_job :
    Text → Text → Text → Text → Text → Text → ℤ → Text → JobStatus → ℕ → ℤ → Result VideoJob
unfolding is_valid status_eq
restore_video_job i user filename source hash storage frames reason status created epoch = do
  refuse_if (is_empty i) video_job_id_required
  refuse_if (is_empty user) video_job_user_id_required
  refuse_if (is_empty filename) original_filename_required
  refuse_if (not (is_valid status)) invalid_job_status
  refuse_if (is_negative frames) frame_count_negative
  refuse_if (not (eq_ℤ frames (pos 0)) && not (status_eq status completed))
      frame_count_requires_completed_status
  refuse_if (bool_eq (is_empty reason) (status_eq status failed))
      error_reason_requires_failed_status
  refuse_if (bool_eq (is_empty storage) (status_eq status completed))
      storage_key_requires_completed_status
  ok (record {
    id = i;
    user_id = user;
    original_filename = filename;
    source_key = source;
    content_hash = hash;
    storage_key = storage;
    frame_count = frames;
    error_reason = reason;
    status = status;
    created_at = created;
    lease_epoch = epoch;
  })

-- The generator is what its one call here answers; `none` is a nil generator.
unfoldable pub new_video_job : Option Text → Text → Text → Text → Text → Result VideoJob
unfolding restore_video_job
new_video_job none user filename source hash = err (sentinel video_job_id_generator_required)
new_video_job (some generated) user filename source hash =
    restore_video_job generated user filename source hash [] (pos 0) [] pending 0 (pos 0)

-- On a refusal the job is left as it was.
unfoldable pub transition_to : JobStatus → VideoJob → Outcome VideoJob
unfolding can_transition_to
transition_to next j =
    if can_transition_to j.status next
    then (record j { status = next }, none)
    else (j, some (sentinel invalid_status_transition))

unfoldable pub enqueue : VideoJob → Outcome VideoJob
unfolding transition_to
enqueue j =
    if is_empty j.source_key
    then (j, some (sentinel source_key_required_to_enqueue))
    else transition_to queued j

unfoldable pub start_processing : VideoJob → Outcome VideoJob
unfolding transition_to
start_processing j = transition_to processing j

-- What a method does after `if err := j.transitionTo(next); err != nil { return err }`.
abbrev then_set : Outcome VideoJob → (VideoJob → VideoJob) → Outcome VideoJob
then_set (j, none) f = (f j, none)
then_set (j, some e) f = (j, some e)

unfoldable pub requeue : VideoJob → Outcome VideoJob
unfolding transition_to status_eq succ_int64
requeue j =
    if not (status_eq j.status processing)
    then (j, some (sentinel invalid_status_transition))
    else if is_empty j.source_key
    then (j, some (sentinel source_key_required_to_enqueue))
    else then_set (transition_to queued j)
        (λ k. record k { lease_epoch = succ_int64 k.lease_epoch })

unfoldable pub complete : Text → ℤ → VideoJob → Outcome VideoJob
unfolding transition_to
complete key frames j =
    if is_empty key
    then (j, some (sentinel storage_key_requires_completed_status))
    else if is_negative frames
    then (j, some (sentinel frame_count_negative))
    else then_set (transition_to completed j)
        (λ k. record k { storage_key = key; frame_count = frames })

unfoldable pub fail : Text → VideoJob → Outcome VideoJob
unfolding transition_to
fail reason j =
    if is_empty reason
    then (j, some (sentinel failure_reason_required))
    else then_set (transition_to failed j) (λ k. record k { error_reason = reason })

-- A call of one of the five transition methods.
pub data Call : Type 0 where
  enqueues : Call
  starts : Call
  requeues : Call
  completes : Text → ℤ → Call
  fails : Text → Call

unfoldable pub call : Call → VideoJob → Outcome VideoJob
unfolding enqueue start_processing requeue complete fail
call enqueues j = enqueue j
call starts j = start_processing j
call requeues j = requeue j
call (completes key frames) j = complete key frames j
call (fails reason) j = fail reason j

-- A caller that goes on after each call, whether it failed or not.
unfoldable pub calls : VideoJob → List Call → VideoJob
calls j [] = j
calls j (c ∷ cs) = calls (call c j).0 cs
