-- ===== src/Video/Idgen.antt =====
-- internal/video/infrastructure/idgen/idgen.go: the parser of job ids, over the UUID library.
use video_processor.Prelude.{Text, ◌≡◌, Option, none, some, arith, Option-cases, inl, inr}
use video_processor.Errors.{Error, sentinel, Result, ok, err, invalid_video_job_id}
use video_processor.Video.Keys.{new_video_job_id}

-- `uuid` answers the canonical form of a version 4 UUID of the RFC 4122 variant, and `none` for any
-- other text.
abbrev parsed_form : Option Text → Result Text
parsed_form none = err (sentinel invalid_video_job_id)
parsed_form (some form) = new_video_job_id form

unfoldable pub parse_video_job_id : (Text → Option Text) → Text → Result Text
unfolding new_video_job_id
parse_video_job_id uuid value = parsed_form (uuid value)

-- What the use cases need of a VideoJobIDParser: it takes its own answers for what they are, and it
-- refuses with one sentinel.
pub record IsParser (parse : Text → Result Text) : Type 0 where
  pub canonical : (s id : Text) → parse s ≡ ok id → parse id ≡ ok id
  pub refuses : (s : Text) (e : Error) → parse s ≡ err e → e ≡ sentinel invalid_video_job_id

module _ (uuid : Text → Option Text) where
  adapter_canonical :
      ((s form : Text) → uuid s ≡ some form → uuid form ≡ some form)
      → (s id : Text) → parse_video_job_id uuid s ≡ ok id
      → parse_video_job_id uuid id ≡ ok id
  unfolding parse_video_job_id
  adapter_canonical stable s id h = elim (Option-cases (uuid s)) [
    | inl e ↦ absurd (ground arith)
    | inr (form, e) ↦ ground (arith, stable s form)
  ]

  adapter_refuses :
      (s : Text) (e : Error) → parse_video_job_id uuid s ≡ err e → e ≡ sentinel invalid_video_job_id
  unfolding parse_video_job_id
  adapter_refuses s e h = ground arith

  -- The adapter meets what the use cases need, if the canonical form of a UUID is its own.
  pub parse_video_job_id-IsParser :
      ((s form : Text) → uuid s ≡ some form → uuid form ≡ some form)
      → IsParser (parse_video_job_id uuid)
  parse_video_job_id-IsParser stable = record {
    canonical = adapter_canonical stable;
    refuses = adapter_refuses;
  }
