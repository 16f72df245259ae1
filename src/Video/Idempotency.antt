-- ===== src/Video/Idempotency.antt =====
-- internal/video/infrastructure/idempotency/redis_store.go: the five calls on the Redis key of one
-- idempotency key, on the bytes that they store. Times are in seconds.
pub mod Colons
pub mod Reservations
use video_processor.Prelude.{
  ℕ, suc, zero, ◌-◌, ◌==◌, Text, codes, is_empty, text_eq, has_prefix, Bool, true, false,
  if◌then◌else◌, Option, none, some, List, [], ◌∷◌, ◌++◌, length, take, drop,
}
use video_processor.Errors.{Error, Result, ok, err}
use video_processor.Redis.{Key, current, set_for, Fate, settled}
use video_processor.Video.Keys.{new_video_job_id}

abbrev reservation_ttl : ℕ
reservation_ttl = 300

abbrev finalized_ttl : ℕ
finalized_ttl = 86400

abbrev reserved_prefix : Text
reserved_prefix = codes "reserved:"

abbrev pub final_prefix : Text
final_prefix = codes "final:"

abbrev pub reserved_value : Text → Text
reserved_value token = reserved_prefix ++ token

abbrev pub final_value_prefix : Text → Text
final_value_prefix token = final_prefix ++ (token ++ codes ":")

abbrev pub final_value : Text → Text → Text
final_value token job = final_prefix ++ (token ++ (codes ":" ++ job))

-- `SET NX`. The token is the fresh `uuid.NewString()` of this call.
abbrev reserve_if_absent : ℕ → Text → Key Text → Option Text → (Text × Bool) × Key Text
reserve_if_absent now token s none =
    ((token, true), set_for now reservation_ttl (reserved_value token))
reserve_if_absent now token s (some v) = (([], false), s)

unfoldable pub reserve : Fate → ℕ → Text → Key Text → Result (Text × Bool) × Key Text
unfolding current
reserve f now token s = settled f (reserve_if_absent now token s (current now s)) s

abbrev holds : Text → Option Text → Bool
holds value none = false
holds value (some v) = text_eq v value

unfoldable pub finalize : Fate → ℕ → Text → Text → Key Text → Result Bool × Key Text
unfolding current text_eq
finalize f now token job s =
    settled f
      (if holds (reserved_value token) (current now s)
        then (true, set_for now finalized_ttl (final_value token job))
        else (false, s))
      s

-- `strings.SplitN(s, ":", 2)`, when it has two parts.
abbrev onto_first : ℕ → Option (Text × Text) → Option (Text × Text)
onto_first c none = none
onto_first c (some (first, rest)) = some (c ∷ first, rest)

unfoldable pub split_colon : Text → Option (Text × Text)
split_colon [] = none
split_colon (c ∷ s) = if c == 58 then some ([], s) else onto_first c (split_colon s)

abbrev looked_up : Option (Text × Text) → Result (Text × Bool)
looked_up none = ok ([], false)
looked_up (some (token, job)) = elim (new_video_job_id job) [
  | err e ↦ err e
  | ok id ↦ ok (id, true)
]

abbrev lookup_value : Option Text → Result (Text × Bool)
lookup_value none = ok ([], false)
lookup_value (some v) =
    if has_prefix final_prefix v
    then looked_up (split_colon (drop (length final_prefix) v))
    else ok ([], false)

abbrev reply_of : {A : Type 0} → Result (Result A) → Result A
reply_of (ok r) = r
reply_of (err e) = err e

unfoldable pub lookup : Fate → ℕ → Key Text → Result (Text × Bool)
unfolding current has_prefix split_colon new_video_job_id
lookup f now s = reply_of (settled f (lookup_value (current now s), s) s).0

-- `string.sub(s, 1, string.len(p)) == p`
abbrev pub starts_with : Text → Text → Bool
starts_with p s = text_eq (take (length p) s) p

-- `string.sub(s, -string.len(p)) == p`, for a `p` that is not empty.
abbrev pub ends_with : Text → Text → Bool
ends_with p s = text_eq (drop (length s - length p) s) p

abbrev cleared : Text → Key Text → Option Text → Bool × Key Text
cleared token s none = (false, s)
cleared token s (some v) =
    if text_eq v (reserved_value token)
    then (true, none)
    else if starts_with (final_value_prefix token) v
    then (true, none)
    else (false, s)

unfoldable pub clear : Fate → ℕ → Text → Key Text → Result Bool × Key Text
unfolding current text_eq
clear f now token s = settled f (cleared token s (current now s)) s

abbrev cleared_by_job : Text → Key Text → Option Text → Bool × Key Text
cleared_by_job job s none = (false, s)
cleared_by_job job s (some v) =
    if starts_with final_prefix v
    then if ends_with (codes ":" ++ job) v then (true, none) else (false, s)
    else (false, s)

unfoldable pub clear_by_job : Fate → ℕ → Text → Key Text → Result Bool × Key Text
unfolding current text_eq
clear_by_job f now job s = settled f (cleared_by_job job s (current now s)) s
