-- ===== src/Notification/Notifier.antt =====
-- cmd/notifier/main.go: what becomes of a message on the terminal events' queue, with
-- terminal_events.go of internal/notification/infrastructure/messaging and terminal_event.go of
-- internal/notification/domain. A Go time is `none` when it is the zero time.
pub mod Announcing
use video_processor.Prelude.{
  ℕ, ℤ, pos, is_negative, Text, codes, is_empty, text_eq, Bool, not, if◌then◌else◌, Option, none,
  some, List, [],
}
use video_processor.Errors.{
  Error, plain, sentinel, Result, ok, err, ◌>>=◌, ◌>>◌, refuse_if, invalid_job_id,
  terminal_event_job_id_required, terminal_event_user_id_required,
  terminal_event_occurred_at_required, terminal_event_storage_key_required,
  terminal_event_frame_count_invalid,
}
use video_processor.Json.{JsonValue, Object, Json, matches_tag, as_string, as_int, as_time, filled}
use video_processor.Notification.Budget.{DeliveryConfig}
use video_processor.Notification.Channels
use video_processor.Notification.Channels.{completed_type, failed_type}
use video_processor.Notification.Delivering.{
  TerminalEvent, Preference, DeliveryDisposition, handled, deferred, Surroundings, DeliveryRecords,
  execute,
}

pub record JobCompletedMessage : Type 0 where
  pub type : Text
  pub job_id : Text
  pub user_id : Text
  pub frame_count : ℤ
  pub storage_key : Text
  pub occurred_at : Option ℕ

pub record JobFailedMessage : Type 0 where
  pub type : Text
  pub job_id : Text
  pub user_id : Text
  pub error_reason : Text
  pub occurred_at : Option ℕ

abbrev blank_completed : JobCompletedMessage
blank_completed = record {
  type = [];
  job_id = [];
  user_id = [];
  frame_count = pos 0;
  storage_key = [];
  occurred_at = none;
}

abbrev blank_failed : JobFailedMessage
blank_failed = record {
  type = [];
  job_id = [];
  user_id = [];
  error_reason = [];
  occurred_at = none;
}

-- What one member of the object does to the struct, by the tags of its fields. A member that no tag
-- names is skipped.
unfoldable pub set_completed :
    Json → JobCompletedMessage → Text → JsonValue → Result JobCompletedMessage
set_completed j m name v =
    if matches_tag (codes "type") name
    then (as_string m.type v >>= λ t. ok (record m { type = t }))
    else if matches_tag (codes "job_id") name
    then (as_string m.job_id v >>= λ t. ok (record m { job_id = t }))
    else if matches_tag (codes "user_id") name
    then (as_string m.user_id v >>= λ t. ok (record m { user_id = t }))
    else if matches_tag (codes "frame_count") name
    then (as_int m.frame_count v >>= λ n. ok (record m { frame_count = n }))
    else if matches_tag (codes "storage_key") name
    then (as_string m.storage_key v >>= λ t. ok (record m { storage_key = t }))
    else if matches_tag (codes "occurred_at") name
    then (as_time j m.occurred_at v >>= λ n. ok (record m { occurred_at = n }))
    else ok m

unfoldable pub set_failed : Json → JobFailedMessage → Text → JsonValue → Result JobFailedMessage
set_failed j m name v =
    if matches_tag (codes "type") name
    then (as_string m.type v >>= λ t. ok (record m { type = t }))
    else if matches_tag (codes "job_id") name
    then (as_string m.job_id v >>= λ t. ok (record m { job_id = t }))
    else if matches_tag (codes "user_id") name
    then (as_string m.user_id v >>= λ t. ok (record m { user_id = t }))
    else if matches_tag (codes "error_reason") name
    then (as_string m.error_reason v >>= λ t. ok (record m { error_reason = t }))
    else if matches_tag (codes "occurred_at") name
    then (as_time j m.occurred_at v >>= λ n. ok (record m { occurred_at = n }))
    else ok m

abbrev read_body : {M : Type 0} → Option Object → (Object → Result M) → Result M
read_body none read = err (plain (codes "decode message"))
read_body (some o) read = read o

unfoldable pub parse_job_completed : Json → Text → Result JobCompletedMessage
parse_job_completed j body = read_body (j.unmarshal body) (filled (set_completed j) blank_completed)

unfoldable pub parse_job_failed : Json → Text → Result JobFailedMessage
parse_job_failed j body = read_body (j.unmarshal body) (filled (set_failed j) blank_failed)

unfoldable pub new_job_id : Text → Result Text
new_job_id value = if is_empty value then err (sentinel invalid_job_id) else ok value

abbrev event_at : Text → Text → Text → Option ℕ → Result TerminalEvent
event_at type job user none = err (sentinel terminal_event_occurred_at_required)
event_at type job user (some occurred_at) = ok (record {
  user_id = user;
  event_type = type;
  job_id = job;
  occurred_at = occurred_at;
  frame_count = pos 0;
  storage_key = [];
  reason = [];
})

unfoldable pub new_terminal_event : Text → Text → Text → Option ℕ → Result TerminalEvent
new_terminal_event type job user occurred_at = do
  refuse_if (is_empty job) terminal_event_job_id_required
  refuse_if (is_empty user) terminal_event_user_id_required
  event_at type job user occurred_at

unfoldable pub new_completed_event : Text → Text → Option ℕ → ℤ → Text → Result TerminalEvent
unfolding new_terminal_event
new_completed_event job user occurred_at frames key = do
  refuse_if (is_negative frames) terminal_event_frame_count_invalid
  refuse_if (is_empty key) terminal_event_storage_key_required
  event ← new_terminal_event completed_type job user occurred_at
  ok (record event { frame_count = frames; storage_key = key })

unfoldable pub new_failed_event : Text → Text → Option ℕ → Text → Result TerminalEvent
unfolding new_terminal_event
new_failed_event job user occurred_at reason = do
  event ← new_terminal_event failed_type job user occurred_at
  ok (record event { reason = reason })

abbrev pub matches_routing_key : Text → Text → Result (Unit {0})
matches_routing_key event_type payload_type =
    if text_eq payload_type event_type
    then ok tt
    else err (plain (codes "the payload declares another type"))

abbrev pub identifiers : Text → Text → Result (Text × Text)
identifiers raw_job raw_user = do
  job ← new_job_id raw_job
  user ← Channels.new_user_id raw_user
  ok (job, user)

abbrev decode_completed : Text → JobCompletedMessage → Result TerminalEvent
decode_completed event_type m = do
  matches_routing_key event_type m.type
  ids ← identifiers m.job_id m.user_id
  new_completed_event ids.0 ids.1 m.occurred_at m.frame_count m.storage_key

abbrev decode_failed : Text → JobFailedMessage → Result TerminalEvent
decode_failed event_type m = do
  matches_routing_key event_type m.type
  ids ← identifiers m.job_id m.user_id
  new_failed_event ids.0 ids.1 m.occurred_at m.error_reason

unfoldable pub decode_event : Json → Text → Text → Result TerminalEvent
unfolding text_eq new_job_id Channels.new_user_id new_completed_event new_failed_event
decode_event j event_type body =
    if text_eq event_type completed_type
    then parse_job_completed j body >>= decode_completed event_type
    else if text_eq event_type failed_type
    then parse_job_failed j body >>= decode_failed event_type
    else err (plain (codes "unrecognized event type"))

pub data EventDisposition : Type 0 where
  ack reject requeue : EventDisposition

abbrev settled_by :
    DeliveryDisposition × ℕ × DeliveryRecords → EventDisposition × ℕ × DeliveryRecords
settled_by (handled, made, records) = (ack, made, records)
settled_by (deferred e, made, records) = (requeue, made, records)

-- The verdict, how many requests were made, and the records of the event's deliveries.
-- `preferences` is what FindDeliverable answers.
module _ (j : Json) (surroundings : Text → Surroundings) (c : DeliveryConfig)
    (preferences : Text → Text → Result (List (Option Preference))) where
  abbrev on_decoded :
      DeliveryRecords → Result TerminalEvent → EventDisposition × ℕ × DeliveryRecords
  on_decoded records (err e) = (reject, 0, records)
  on_decoded records (ok event) =
      settled_by (execute surroundings c event (preferences event.user_id event.event_type) records)

  unfoldable pub handle : Text → Text → DeliveryRecords → EventDisposition × ℕ × DeliveryRecords
  handle event_type body records = on_decoded records (decode_event j event_type body)
