-- ===== src/Errors.antt =====
-- Errors of the Go code and results that may fail. A sentinel is a package variable
-- (`var ErrX = errors.New(..)`); `fmt.Errorf("...: %w", err)` keeps what `errors.Is` finds, so the
-- model leaves the added text out, and `fmt.Errorf("%w: %w", a, b)` is `joined a b`.
use video_processor.Prelude.{
  ◌≡◌, refl, ◌⊎◌, inl, inr, ℕ, Bool, true, false, ◌||◌, Option, Text, ◌==◌,
}

pub data Sentinel : Type 0 where
  invalid_video_job_id : Sentinel
  invalid_user_id : Sentinel
  invalid_original_filename : Sentinel
  invalid_storage_key : Sentinel
  invalid_idempotency_key : Sentinel
  video_job_id_required : Sentinel
  video_job_user_id_required : Sentinel
  original_filename_required : Sentinel
  invalid_job_status : Sentinel
  frame_count_negative : Sentinel
  frame_count_requires_completed_status : Sentinel
  error_reason_requires_failed_status : Sentinel
  storage_key_requires_completed_status : Sentinel
  invalid_status_transition : Sentinel
  failure_reason_required : Sentinel
  source_key_required_to_enqueue : Sentinel
  video_job_not_found : Sentinel
  job_claim_lost : Sentinel
  job_claim_outcome_unknown : Sentinel
  repository_unavailable : Sentinel
  job_fenced : Sentinel
  job_requeued_for_retry : Sentinel
  source_not_found : Sentinel
  video_job_id_generator_required : Sentinel
  destination_refused : Sentinel
  invalid_destination : Sentinel
  invalid_secret : Sentinel
  secret_required : Sentinel
  invalid_event_type : Sentinel
  invalid_channel : Sentinel
  invalid_notification_user_id : Sentinel
  preference_user_id_required : Sentinel
  preference_event_type_required : Sentinel
  preference_channel_required : Sentinel
  preference_destination_required : Sentinel
  preference_timestamps_required : Sentinel
  invalid_email : Sentinel
  empty_password_hash : Sentinel
  user_already_exists : Sentinel
  user_not_found : Sentinel
  password_mismatch : Sentinel
  invalid_token : Sentinel
  user_id_required : Sentinel
  user_id_generator_required : Sentinel
  authentication_failed : Sentinel
  password_too_short : Sentinel
  invalid_identity_user_id : Sentinel
  key_pair_mismatch : Sentinel
  public_keys_required : Sentinel
  public_key_id_required : Sentinel
  private_key_as_verification_material : Sentinel
  private_key_required : Sentinel
  key_id_required : Sentinel
  invalid_job_id : Sentinel
  terminal_event_job_id_required : Sentinel
  terminal_event_user_id_required : Sentinel
  terminal_event_occurred_at_required : Sentinel
  terminal_event_storage_key_required : Sentinel
  terminal_event_frame_count_invalid : Sentinel
  limit_out_of_range : Sentinel
  offset_negative : Sentinel

abbrev rank : Sentinel → ℕ
rank invalid_video_job_id = 0
rank invalid_user_id = 1
rank invalid_original_filename = 2
rank invalid_storage_key = 3
rank invalid_idempotency_key = 4
rank video_job_id_required = 5
rank video_job_user_id_required = 6
rank original_filename_required = 7
rank invalid_job_status = 8
rank frame_count_negative = 9
rank frame_count_requires_completed_status = 10
rank error_reason_requires_failed_status = 11
rank storage_key_requires_completed_status = 12
rank invalid_status_transition = 13
rank failure_reason_required = 14
rank source_key_required_to_enqueue = 15
rank video_job_not_found = 16
rank job_claim_lost = 17
rank job_claim_outcome_unknown = 18
rank repository_unavailable = 19
rank job_fenced = 20
rank job_requeued_for_retry = 21
rank source_not_found = 22
rank video_job_id_generator_required = 23
rank destination_refused = 24
rank invalid_destination = 25
rank invalid_secret = 26
rank secret_required = 27
rank invalid_event_type = 28
rank invalid_channel = 29
rank invalid_notification_user_id = 30
rank preference_user_id_required = 31
rank preference_event_type_required = 32
rank preference_channel_required = 33
rank preference_destination_required = 34
rank preference_timestamps_required = 35
rank invalid_email = 36
rank empty_password_hash = 37
rank user_already_exists = 38
rank user_not_found = 39
rank password_mismatch = 40
rank invalid_token = 41
rank user_id_required = 42
rank user_id_generator_required = 43
rank authentication_failed = 44
rank password_too_short = 45
rank invalid_identity_user_id = 46
rank key_pair_mismatch = 47
rank public_keys_required = 48
rank public_key_id_required = 49
rank private_key_as_verification_material = 50
rank private_key_required = 51
rank key_id_required = 52
rank invalid_job_id = 53
rank terminal_event_job_id_required = 54
rank terminal_event_user_id_required = 55
rank terminal_event_occurred_at_required = 56
rank terminal_event_storage_key_required = 57
rank terminal_event_frame_count_invalid = 58
rank limit_out_of_range = 59
rank offset_negative = 60

-- `plain m` wraps no sentinel; `m` is what its `Error()` returns.
pub data Error : Type 0 where
  sentinel : Sentinel → Error
  plain : Text → Error
  joined : Error → Error → Error

-- `errors.Is(err, ErrX)`
unfoldable pub errors_is : Error → Sentinel → Bool
errors_is (sentinel t) s = rank t == rank s
errors_is (plain m) s = false
errors_is (joined a b) s = errors_is a s || errors_is b s

pub data Result {ℓ} (A : Type ℓ) : Type ℓ where
  ok : A → Result A
  err : Error → Result A

-- The early return `if err != nil { return err }`, of a call that has a value and of one that has
-- none.
infixl 5 ◌>>=◌
abbrev pub ◌>>=◌ {ℓ κ} :
    {A : Type ℓ} {B : Type κ} (called : Result A) (rest : A → Result B) → Result B
err e >>= rest = err e
ok a >>= rest = rest a

infixl 5 ◌>>◌
abbrev pub ◌>>◌ {κ} : {B : Type κ} (called : Result (Unit {0})) (rest : Result B) → Result B
called >> rest = called >>= λ _. rest

-- `if test { return ErrX }`
abbrev pub refuse_if : Bool → Sentinel → Result (Unit {0})
refuse_if true s = err (sentinel s)
refuse_if false s = ok tt

-- What a method that mutates its receiver and returns an error does to the receiver: the new state
-- and the error, if any.
abbrev pub Outcome : Type 0 → Type 0
Outcome S = S × Option Error

pub Result-cases {ℓ} :
    {A : Type ℓ} (m : Result A) → ((a : A) × (m ≡ ok a)) ⊎ ((e : Error) × (m ≡ err e))
Result-cases (ok a) = inl (a, refl)
Result-cases (err e) = inr (e, refl)
