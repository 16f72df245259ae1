-- ===== src/Video/Keys.antt =====
-- The identifiers and keys of internal/video/domain: video_job_id.go, user_id.go, storage_key.go and
-- idempotency_key.go. Each struct wraps one string, which stands for it; its `IsZero` is `is_empty`
-- and its `Equal` is `text_eq`.
pub mod Roundtrip
use video_processor.Prelude.{
  ℕ, ◌+◌, ◌-◌, Text, codes, is_empty, Bool, true, false, not, ◌||◌, if◌then◌else◌, Option, none,
  some, List, [], ◌∷◌, ◌++◌, length, leb, has_prefix, has_suffix, slice, ◌&&◌, ◌==◌,
}
use video_processor.Errors.{
  Result, ok, err, sentinel, invalid_video_job_id, invalid_user_id, invalid_storage_key,
  invalid_idempotency_key,
}

unfoldable pub new_video_job_id : Text → Result Text
new_video_job_id value = if is_empty value then err (sentinel invalid_video_job_id) else ok value

unfoldable pub new_user_id : Text → Result Text
new_user_id value = if is_empty value then err (sentinel invalid_user_id) else ok value

unfoldable pub new_storage_key : Text → Result Text
new_storage_key raw = if is_empty raw then err (sentinel invalid_storage_key) else ok raw

unfoldable pub new_idempotency_key : Text → Text → Result Text
new_idempotency_key user hash =
    if is_empty user || is_empty hash
    then err (sentinel invalid_idempotency_key)
    else ok (codes "idempotency:" ++ (user ++ (codes ":" ++ hash)))

abbrev pub result_key_prefix : Text
result_key_prefix = codes "frames_"

abbrev pub result_key_suffix : Text
result_key_suffix = codes ".zip"

unfoldable pub result_storage_key : Text → Text
result_storage_key id = result_key_prefix ++ id ++ result_key_suffix

-- `s[low:high]`: `none` is the panic of a slice whose bounds are out of range.
unfoldable pub checked_slice : Text → ℕ → ℕ → Option Text
unfolding slice
checked_slice s low high =
    if leb low high && leb high (length s) then some (slice s low high) else none

abbrev parsed_as : Result Text → Result Text
parsed_as (ok id) = ok id
parsed_as (err e) = err (sentinel invalid_storage_key)

abbrev parse_slice : (Text → Result Text) → Option Text → Option (Result Text)
parse_slice parse none = none
parse_slice parse (some id) = some (parsed_as (parse id))

-- `none` is a panic. The high bound is `len(raw) - len(suffix)`, taken after the suffix test.
unfoldable pub video_job_id_from_storage_key :
    Text → Option (Text → Result Text) → Option (Result Text)
unfolding has_prefix has_suffix checked_slice
video_job_id_from_storage_key raw none = some (err (sentinel invalid_storage_key))
video_job_id_from_storage_key raw (some parse) =
    if not (has_prefix result_key_prefix raw) || not (has_suffix result_key_suffix raw)
    then some (err (sentinel invalid_storage_key))
    else parse_slice parse
        (checked_slice raw (length result_key_prefix) (length raw - length result_key_suffix))
