-- ===== src/Notification/Notifier/Announcing.antt =====
-- The terminal events that the Video context writes, as the notifier reads them.
use video_processor.Prelude.{
  ℕ, ◌≤◌, max_int64, ℤ, pos, true, Text, text_eq, ◌≡◌, refl, ◌≢◌, some, [], ◌∷◌, zero, suc, negsuc,
  arith,
}
use video_processor.Errors.{ok}
use video_processor.Video.Status.{JobStatus, completed, failed}
use video_processor.Video.Job.{VideoJob}
use video_processor.Video.Job.Consistency.{IsConsistent}
use video_processor.Video.Store.{
  EventType, event_type_text, completed_event, failed_event, completed_payload, failed_payload,
}
use video_processor.Video.Repository.{terminal_event_type, terminal_payload}
use video_processor.Json.{
  Json, IsJson, is_kept, is_utf8, utf8_from, last_instant, filled, fold_name, matches_tag,
}
use video_processor.Video.Payloads.{members, marshal_payload}
use video_processor.Notification.Channels
use video_processor.Notification.Channels.{completed_type, failed_type}
use video_processor.Notification.Delivering.{TerminalEvent}
use video_processor.Notification.Notifier.{
  set_completed, set_failed, parse_job_completed, parse_job_failed, new_job_id, new_completed_event,
  new_failed_event, new_terminal_event, decode_event,
}

-- The terminal event that says what a job's fields say.
abbrev pub announcement : Text → VideoJob → ℕ → TerminalEvent
announcement event_type job now = record {
  user_id = job.user_id;
  event_type = event_type;
  job_id = job.id;
  occurred_at = now;
  frame_count = job.frame_count;
  storage_key = job.storage_key;
  reason = job.error_reason;
}

blank_text : (t : Text) → (t ≢ [] → ⊥) → t ≡ []
blank_text [] h = refl
blank_text (x ∷ t) h = absurd (h (ground arith))

no_frames : (f : ℤ) → (f ≢ pos 0 → ⊥) → f ≡ pos 0
no_frames (pos zero) h = refl
no_frames (pos (suc n)) h = absurd (h (ground arith))
no_frames (negsuc n) h = absurd (h (ground arith))

-- What a consistent job leaves blank.
blank_fields :
    (job : VideoJob)
    → IsConsistent job
    → (job.status ≡ completed → job.error_reason ≡ [])
      × (job.status ≡ failed → (job.storage_key ≡ []) × (job.frame_count ≡ pos 0))
blank_fields job c = (
  λ s. blank_text job.error_reason (λ n. ground (arith, c.reason_of_failed n)),
  λ s. (
    blank_text job.storage_key (λ n. ground (arith, c.key_of_completed n)),
    no_frames job.frame_count (λ n. ground (arith, c.frames_of_completed n)),
  ),
)

-- What a job needs for its event to be written as it is: its texts are UTF-8, which PostgreSQL asks
-- of a text column, and its frame count is a Go int.
pub record IsWritable (job : VideoJob) : Type 0 where
  pub id_utf8 : is_utf8 job.id ≡ true
  pub user_utf8 : is_utf8 job.user_id ≡ true
  pub key_utf8 : is_utf8 job.storage_key ≡ true
  pub reason_utf8 : is_utf8 job.error_reason ≡ true
  pub frames : (n : ℕ) × (job.frame_count ≡ pos n) × (n ≤ max_int64)

module _ (j : Json) (c : IsJson j) (now : ℕ) (after_zero : 1 ≤ now)
    (in_time : now ≤ last_instant) where
  completion-is_kept :
      (job : VideoJob)
      → IsWritable job
      → is_kept
          (members j (completed_payload job.id job.user_id job.frame_count job.storage_key now))
        ≡ true
  unfolding is_kept members utf8_from
  completion-is_kept job w = ground (arith, c.times_kept now, w.id_utf8, w.user_utf8, w.key_utf8)

  failure-is_kept :
      (job : VideoJob)
      → IsWritable job
      → is_kept (members j (failed_payload job.id job.user_id job.error_reason now)) ≡ true
  unfolding is_kept members utf8_from
  failure-is_kept job w = ground (arith, c.times_kept now, w.id_utf8, w.user_utf8, w.reason_utf8)

  completion_read :
      (job : VideoJob)
      → IsWritable job
      → parse_job_completed j (
          marshal_payload j
            (completed_payload job.id job.user_id job.frame_count job.storage_key now))
        ≡ ok (record {
          type = completed_type;
          job_id = job.id;
          user_id = job.user_id;
          frame_count = job.frame_count;
          storage_key = job.storage_key;
          occurred_at = some now;
        })
  unfolding parse_job_completed marshal_payload filled set_completed matches_tag members fold_name
      text_eq
  completion_read job w =
      rw
        (c.reads_back
          (members j (completed_payload job.id job.user_id job.frame_count job.storage_key now))
          (completion-is_kept job w))
        (ground (arith, w.frames, c.times_read now in_time))

  failure_read :
      (job : VideoJob)
      → IsWritable job
      → parse_job_failed j
          (marshal_payload j (failed_payload job.id job.user_id job.error_reason now))
        ≡ ok (record {
          type = failed_type;
          job_id = job.id;
          user_id = job.user_id;
          error_reason = job.error_reason;
          occurred_at = some now;
        })
  unfolding parse_job_failed marshal_payload filled set_failed matches_tag members fold_name text_eq
  failure_read job w =
      rw
        (c.reads_back (members j (failed_payload job.id job.user_id job.error_reason now))
          (failure-is_kept job w))
        (ground (arith, c.times_read now in_time))

  announced_completion :
      (job : VideoJob)
      → IsWritable job
      → IsConsistent job
      → job.status ≡ completed
      → decode_event j completed_type (
          marshal_payload j
            (completed_payload job.id job.user_id job.frame_count job.storage_key now))
        ≡ ok (announcement completed_type job now)
  unfolding decode_event new_job_id Channels.new_user_id new_completed_event new_terminal_event
      text_eq
  announced_completion job w k s = rw (completion_read job w) (ground (arith, blank_fields job k))

  announced_failure :
      (job : VideoJob)
      → IsWritable job
      → IsConsistent job
      → job.status ≡ failed
      → decode_event j failed_type
          (marshal_payload j (failed_payload job.id job.user_id job.error_reason now))
        ≡ ok (announcement failed_type job now)
  unfolding decode_event new_job_id Channels.new_user_id new_failed_event new_terminal_event text_eq
  announced_failure job w k s = rw (failure_read job w) (ground (arith, blank_fields job k))

  announced :
      (status : JobStatus) (type : EventType) (job : VideoJob)
      → IsWritable job
      → IsConsistent job
      → job.status ≡ status
      → terminal_event_type status ≡ ok type
      → decode_event j (event_type_text type) (marshal_payload j (terminal_payload type job now))
        ≡ ok (announcement (event_type_text type) job now)
  unfolding terminal_event_type
  announced completed completed_event job w k s t = announced_completion job w k s
  announced failed failed_event job w k s t = announced_failure job w k s
  announced _ _ job w k s t = absurd (ground arith)

  -- The payload that the Video repository writes when a job that keeps the aggregate's rules has ended
  -- is taken by the notifier, under the routing key of its event type, as the event that says exactly
  -- what the job says: its id, its owner, its frames and result key, and its failure reason. Of JSON
  -- it supposes that an object whose texts are UTF-8 is read back as it was written, and a time up
  -- to the year 9999 too; of the job, that its texts are UTF-8 and that its frame count is an int64.
  pub decode_event-terminal_payload :
      (type : EventType) (job : VideoJob)
      → IsWritable job
      → IsConsistent job
      → terminal_event_type job.status ≡ ok type
      → decode_event j (event_type_text type) (marshal_payload j (terminal_payload type job now))
        ≡ ok (announcement (event_type_text type) job now)
  decode_event-terminal_payload type job w k t = announced job.status type job w k refl t
