-- ===== src/Witnesses/World.antt =====
-- The data of the examples: a job in each state, the tables that hold it, and calls that go well.
use video_processor.Prelude.{
  pos, Text, codes, text_eq, ◌||◌, if◌then◌else◌, ◌≡◌, refl, Option, none, some, [], ◌∷◌, arith,
}
use video_processor.Errors.{Result, ok}
use video_processor.Video.Status.{pending, queued, processing, completed}
use video_processor.Video.Job.{VideoJob}
use video_processor.Video.Idgen.{parse_video_job_id, IsParser, parse_video_job_id-IsParser}
use video_processor.Video.Store.{
  Row, Database, answers, Turn, created_event, queued_event, created_payload, queued_payload,
}
use video_processor.Video.Exec.{Visit}

abbrev pub job_id : Text
job_id = codes "0d3f"

-- A UUID library that knows one id, in two spellings.
abbrev pub uuid : Text → Option Text
uuid s = if text_eq s job_id || text_eq s (codes "0D3F") then some job_id else none

pub uuid_stable : (s form : Text) → uuid s ≡ some form → uuid form ≡ some form
unfolding text_eq
uuid_stable s form h = ground arith

abbrev pub parse : Text → Result Text
parse = parse_video_job_id uuid

pub parse-IsParser : IsParser parse
parse-IsParser = parse_video_job_id-IsParser uuid uuid_stable

pub parsed : parse job_id ≡ ok job_id
unfolding parse_video_job_id text_eq
parsed = refl

abbrev pub uploaded : VideoJob
uploaded = record {
  id = job_id;
  user_id = codes "user-1";
  original_filename = codes "clip.mp4";
  source_key = codes "upload-1";
  content_hash = codes "c0ffee";
  storage_key = [];
  frame_count = pos 0;
  error_reason = [];
  status = pending;
  created_at = 0;
  lease_epoch = pos 0;
}

abbrev pub result_key : Text
result_key = codes "frames_0d3f.zip"

abbrev pub dispatched : VideoJob
dispatched = record uploaded { status = queued }

abbrev pub running : VideoJob
running = record uploaded { status = processing }

abbrev pub finished : VideoJob
finished = record uploaded { status = completed; storage_key = result_key; frame_count = pos 12 }

abbrev pub calm : Turn
calm = record { fault = answers; minted = codes "event"; meanwhile = λ db. db }

abbrev pub quiet_visit : Visit
quiet_visit = record { before = λ db. db; reading = answers; between = λ db. db; writing = calm }

-- The tables with the row of the job as given, as far as it was announced.
abbrev pub tables : Row → Database
tables r = record {
  rows = r ∷ [];
  outbox =
      record {
        event_id = codes "event";
        event_type = queued_event;
        payload = queued_payload job_id (codes "user-1") (codes "upload-1") (codes "c0ffee") 0;
        occurred_at = 0;
      }
      ∷ record {
        event_id = codes "event";
        event_type = created_event;
        payload = created_payload job_id (codes "user-1") (codes "clip.mp4") 0;
        occurred_at = 0;
      }
      ∷ [];
  clock = 0;
}
