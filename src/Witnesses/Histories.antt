-- ===== src/Witnesses/Histories.antt =====
-- The theorems on histories of the tables, at an upload that is claimed, run and recorded.
use video_processor.Prelude.{pos, ltb_ℤ, text_eq, true, false, ◌≡◌, refl, inl, some}
use video_processor.Errors.{ok, err, sentinel, job_fenced}
use video_processor.Video.Status.{is_terminal}
use video_processor.Video.Job.{VideoJob, new_video_job}
use video_processor.Video.Store.{Database, queued_event, find_row, put_row}
use video_processor.Video.Repository
use video_processor.Video.Repository.Outcomes.{SameOutcome}
use video_processor.Video.System.{
  Alone, creates, enqueues, claims, updates, requeues, Reach, here, next, empty_database, announced,
}
use video_processor.Video.System.Announcements.{Accounted, Reach-Accounted}
use video_processor.Video.System.Ownership.{
  claim_epochs_rise, superseded_update, OtherOutcome, recorded_outcome,
}
use video_processor.Video.System.Finality.{
  History, start, called, creates_job, enqueues_first, claims_job, updates_job, requeues_job,
  terminal_final,
}
use video_processor.Witnesses.World.{job_id, uploaded, dispatched, running, finished, calm}

abbrev after_create : Database
after_create = (Repository.create calm uploaded empty_database).1

abbrev after_enqueue : Database
after_enqueue = (Repository.enqueue calm dispatched after_create).1

abbrev after_claim : Database
after_claim = (Repository.claim_for_processing calm running after_enqueue).1

abbrev after_update : Database
after_update = (Repository.update calm finished (pos 0) after_claim).1

calm-Alone : Alone calm
calm-Alone db = refl

created_row : find_row job_id after_create.rows ≡ some uploaded
unfolding Repository.create find_row text_eq put_row
created_row = refl

made :
    new_video_job
      (some uploaded.id)
      uploaded.user_id
      uploaded.original_filename
      uploaded.source_key
      uploaded.content_hash
    ≡ ok uploaded
unfolding new_video_job
made = refl

whole_life : Reach empty_database after_update
whole_life =
    next
      (next
        (next
          (next here (
            creates calm uploaded.id uploaded.user_id uploaded.original_filename uploaded.source_key
              uploaded.content_hash uploaded made))
          (enqueues calm dispatched uploaded created_row refl refl))
        (claims calm running calm-Alone))
      (updates calm finished (pos 0) calm-Alone)

Reach-Accounted_example : Accounted after_update
Reach-Accounted_example = Reach-Accounted whole_life

-- The run of the first claim is superseded, and a second claim wins.
abbrev after_requeue : Database
after_requeue = (Repository.requeue calm dispatched (pos 0) after_claim).1

abbrev redispatched : VideoJob
redispatched = record dispatched { lease_epoch = pos 1 }

abbrev rerunning : VideoJob
rerunning = record running { lease_epoch = pos 1 }

abbrev after_second_claim : Database
after_second_claim = (Repository.claim_for_processing calm rerunning after_requeue).1

first_claim : (Repository.claim_for_processing calm running after_enqueue).0 ≡ ok (true, pos 0)
unfolding Repository.claim_for_processing Repository.enqueue Repository.create find_row text_eq
    put_row
first_claim = refl

second_claim : (Repository.claim_for_processing calm rerunning after_requeue).0 ≡ ok (true, pos 1)
unfolding Repository.claim_for_processing Repository.requeue Repository.enqueue Repository.create
    find_row text_eq put_row
second_claim = refl

claim_epochs_rise_example : ltb_ℤ (pos 0) (pos 1) ≡ true
claim_epochs_rise_example =
    claim_epochs_rise calm calm running rerunning after_enqueue after_requeue (pos 0) (pos 1)
      first_claim (next here (requeues calm dispatched (pos 0))) refl second_claim

requeued_row : find_row job_id after_requeue.rows ≡ some redispatched
unfolding Repository.claim_for_processing Repository.requeue Repository.enqueue Repository.create
    find_row text_eq put_row
requeued_row = refl

reclaimed_row : find_row job_id after_second_claim.rows ≡ some rerunning
unfolding Repository.claim_for_processing Repository.requeue Repository.enqueue Repository.create
    find_row text_eq put_row
reclaimed_row = refl

completed_terminal : is_terminal finished.status ≡ true
unfolding is_terminal
completed_terminal = refl

superseded_update_example :
    Repository.update calm finished (pos 0) after_second_claim
    ≡ (err (sentinel job_fenced), after_second_claim)
superseded_update_example =
    superseded_update calm finished (pos 0) after_requeue after_second_claim redispatched rerunning
      calm-Alone refl requeued_row refl completed_terminal
      (next here (claims calm rerunning calm-Alone)) reclaimed_row

claimed_row : find_row job_id after_claim.rows ≡ some running
unfolding Repository.claim_for_processing Repository.enqueue Repository.create find_row text_eq
    put_row
claimed_row = refl

recorded_outcome_example :
    (SameOutcome finished finished
      → Repository.update calm finished (pos 0) after_update ≡ (ok false, after_update))
    × (OtherOutcome finished finished
        → Repository.update calm finished (pos 0) after_update
          ≡ (err (sentinel job_fenced), after_update))
recorded_outcome_example =
    recorded_outcome calm calm finished finished (pos 0) after_claim after_update running
      claimed_row refl refl completed_terminal (inl refl) here calm-Alone refl refl
      completed_terminal

finished_row : find_row job_id after_update.rows ≡ some finished
unfolding Repository.update Repository.claim_for_processing Repository.enqueue Repository.create
    find_row text_eq put_row
finished_row = refl

-- A late requeue by a sweeper that saw the job running.
abbrev after_late_requeue : Database
after_late_requeue = (Repository.requeue calm dispatched (pos 0) after_update).1

not_dispatched : announced queued_event job_id after_create.outbox ≡ 0
unfolding announced Repository.create find_row text_eq
not_dispatched = refl

whole-History : History empty_database after_update
whole-History =
    called
      (called
        (called
          (called start (
            creates_job calm uploaded.id uploaded.user_id uploaded.original_filename
              uploaded.source_key uploaded.content_hash uploaded made))
          (enqueues_first calm dispatched uploaded created_row not_dispatched refl))
        (claims_job calm running calm-Alone))
      (updates_job calm finished (pos 0) calm-Alone)

terminal_final_example : find_row job_id after_late_requeue.rows ≡ some finished
terminal_final_example =
    terminal_final job_id finished after_update after_late_requeue whole-History
      (called start (requeues_job calm dispatched (pos 0))) finished_row completed_terminal
