-- ===== src/Witnesses/Runs.antt =====
-- The theorems on one run, its use cases and its verdict, and on the sweeper, at a job that runs to
-- its end, fails, or is tried again.
use video_processor.Prelude.{pos, codes, text_eq, true, false, ◌≡◌, refl, ◌⊎◌, none, some, [], ◌∷◌}
use video_processor.Errors.{plain, ok}
use video_processor.Video.Status.{failed}
use video_processor.Video.Job
use video_processor.Video.Job.{VideoJob, restore_video_job}
use video_processor.Video.Idgen.{parse_video_job_id}
use video_processor.Video.Keys.{new_storage_key, new_user_id}
use video_processor.Video.Filename.{new_original_filename, supported_video_extension, to_lower, ext}
use video_processor.Video.Store.{find_row, answers}
use video_processor.Video.Repository
use video_processor.Video.UseCases.{TransitionResult, complete_job, retry_video_job, completed_as}
use video_processor.Video.UseCases.Claims.{Dispatched, retry_video_job-Dispatched}
use video_processor.Video.UseCases.Outcomes.{Carried, complete_job_row}
use video_processor.Video.Process.{Run, extracted, process_video_job}
use video_processor.Video.Process.Endings.{Terminal, Honest, process_video_job-Honest}
use video_processor.Worker.Consuming.{QueuedDelivery}
use video_processor.Worker.Dispatch.{Message, handle}
use video_processor.Worker.Dispatch.Verdicts.{Sound, handle-Sound}
use video_processor.Worker.Sweeper.{Cycle, Swept, new_sweeper, run, member, examine, examine_all}
use video_processor.Worker.Sweeper.Disposal.{examine-Disposes}
use video_processor.Worker.Sweeper.Marks.{Unleased}
use video_processor.Worker.Sweeper.Confirmation.{LeftAlone, observed_in, takeover_confirmed}
use video_processor.Witnesses.World.{
  job_id, parse, parsed, parse-IsParser, dispatched, running, finished, result_key, calm,
  quiet_visit, tables,
}

abbrev done_run : Run
done_run = record {
  claiming = quiet_visit;
  fetching = none;
  extraction = extracted (pos 12) [];
  storing = none;
  recording = quiet_visit;
}

-- The object store fails at the end.
abbrev stopped_run : Run
stopped_run = record done_run { storing = some (plain (codes "no space")) }

abbrev message : Message
message = record { job_id = job_id; source_key = codes "upload-1" }

process_video_job-Honest_example :
    Honest job_id job_id (process_video_job parse stopped_run job_id (tables dispatched))
process_video_job-Honest_example =
    process_video_job-Honest parse parse-IsParser job_id job_id parsed stopped_run
      (tables dispatched)

handle-Sound_example :
    Sound job_id
      (handle parse done_run (λ n. quiet_visit) (some message) (tables dispatched)).0
      (handle parse done_run (λ n. quiet_visit) (some message) (tables dispatched)).1
handle-Sound_example =
    handle-Sound parse parse-IsParser (λ n. quiet_visit) message job_id parsed done_run
      (tables dispatched)

abbrev delivery : QueuedDelivery
delivery = record { body = some message; run = done_run; visits = λ n. quiet_visit }

abbrev undecodable : QueuedDelivery
undecodable = record { body = none; run = done_run; visits = λ n. quiet_visit }

abbrev applied_at : VideoJob → TransitionResult
applied_at job = record {
  job_id = job_id;
  status = job.status;
  lease_epoch = pos 0;
  applied = true;
}

completion :
    (complete_job parse quiet_visit job_id result_key (pos 12) (pos 0) (tables running)).0
    ≡ ok (applied_at finished)
unfolding complete_job parse_video_job_id text_eq new_storage_key Repository.find_by_id find_row
    new_user_id new_original_filename supported_video_extension to_lower ext restore_video_job
    Job.complete Repository.update
completion = refl

complete_job_row_example :
    Carried job_id
      (completed_as result_key (pos 12))
      (pos 0)
      (complete_job parse quiet_visit job_id result_key (pos 12) (pos 0) (tables running)).1
complete_job_row_example =
    complete_job_row parse quiet_visit job_id job_id result_key (pos 12) (pos 0) (tables running)
      (applied_at finished) parse-IsParser.canonical parsed completion

abbrev broken : VideoJob
broken = record running { status = failed; error_reason = codes "no frames" }

retry :
    (retry_video_job parse quiet_visit job_id (pos 0) (tables running)).0
    ≡ ok (applied_at dispatched)
unfolding retry_video_job parse_video_job_id text_eq new_storage_key Repository.find_by_id find_row
    new_user_id new_original_filename supported_video_extension to_lower ext restore_video_job
    Job.requeue Repository.requeue
retry = refl

retry_video_job-Dispatched_example :
    Dispatched job_id (retry_video_job parse quiet_visit job_id (pos 0) (tables running)).1
retry_video_job-Dispatched_example =
    retry_video_job-Dispatched parse quiet_visit job_id job_id (pos 0) (tables running)
      (applied_at dispatched) parse-IsParser parsed retry

-- A cycle in which no lease is found.
abbrev cycle : Cycle
cycle = record {
  waiting = λ db. db;
  scanning = answers;
  before = λ i db. db;
  leased = λ i epoch. ok false;
  requeueing = λ i. calm;
  failing = λ i. quiet_visit;
}

abbrev first_marks : Swept
first_marks = ((run parse (cycle ∷ []) new_sweeper (tables running)).0.marks, tables running, [])

takeover_confirmed_example :
    LeftAlone parse cycle running first_marks
    ⊎ ((cycle.leased job_id (pos 0) ≡ ok false)
        × Unleased job_id (pos 0) (observed_in parse (cycle ∷ []) new_sweeper (tables running) []))
unfolding member examine_all
takeover_confirmed_example =
    takeover_confirmed parse (cycle ∷ []) (tables running) (tables running) cycle [] running [] refl

-- The job is marked, and has no requeue left.
abbrev exhausted : VideoJob
exhausted = record running { lease_epoch = pos 3 }

abbrev marked_twice : Swept
marked_twice = ((job_id, pos 3) ∷ [], tables exhausted, [])

examine-Disposes_example :
    ((examine parse cycle exhausted marked_twice).2 ≡ [])
    ⊎ Terminal job_id (examine parse cycle exhausted marked_twice).1
examine-Disposes_example =
    examine-Disposes parse parse-IsParser.canonical cycle exhausted parsed marked_twice
