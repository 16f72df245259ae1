-- ===== src/Video/Payloads.antt =====
-- The payload structs of internal/video/infrastructure/postgres/repository.go, as their tags write
-- them.
use video_processor.Prelude.{ℕ, Text, codes, [], ◌∷◌}
use video_processor.Json.{string_value, number_value, Object, Json}
use video_processor.Video.Store.{
  EventType, created_event, queued_event, completed_event, failed_event, event_type_text, Payload,
  created_payload, queued_payload, completed_payload, failed_payload,
}

abbrev tagged : EventType → Text → Text → Object → Object
tagged type job user o =
    (codes "type", string_value (event_type_text type))
    ∷ (codes "job_id", string_value job)
    ∷ (codes "user_id", string_value user)
    ∷ o

abbrev occurred : Json → ℕ → Object
occurred j now = (codes "occurred_at", string_value (j.format_time now)) ∷ []

unfoldable pub members : Json → Payload → Object
members j (created_payload job user filename now) =
    tagged created_event job user
      ((codes "original_filename", string_value filename) ∷ occurred j now)
members j (queued_payload job user source hash now) = tagged queued_event job user (
    (codes "source_key", string_value source)
    ∷ (codes "content_hash", string_value hash)
    ∷ occurred j now)
members j (completed_payload job user frames key now) = tagged completed_event job user (
    (codes "frame_count", number_value frames)
    ∷ (codes "storage_key", string_value key)
    ∷ occurred j now)
members j (failed_payload job user reason now) =
    tagged failed_event job user ((codes "error_reason", string_value reason) ∷ occurred j now)

-- `json.Marshal` of a payload.
unfoldable pub marshal_payload : Json → Payload → Text
marshal_payload j p = j.marshal (members j p)
