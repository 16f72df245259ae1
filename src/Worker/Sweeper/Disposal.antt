-- ===== src/Worker/Sweeper/Disposal.antt =====
-- What the sweeper may dispose of.
use video_processor.Prelude.{
  ℤ, eq_ℤ, leb_ℤ, pos, Text, is_empty, Bool, true, false, if◌then◌else◌, ◌≡◌, refl, ◌⊎◌, inl, inr,
  Option, none, some, ◌∷◌, arith,
}
use video_processor.Errors.{Result, ok, err, Outcome}
use video_processor.Video.Status.{is_terminal}
use video_processor.Video.Job
use video_processor.Video.Job.{VideoJob}
use video_processor.Video.Store.{Database}
use video_processor.Video.Repository.Reloading.{IsCanonical}
use video_processor.Video.UseCases.{
  TransitionResult, abandon, fail_job, failed_as, abandoned_failure_reason,
}
use video_processor.Video.UseCases.Outcomes.{Carried, fail_job_row}
use video_processor.Video.Process.Endings.{Terminal}
use video_processor.Worker.Sweeper.{
  Cycle, Swept, abandoned, abandon_job, requeue_job, recover, unleased, observed, examine, mark_of,
}

module _ (parse : Text → Result Text) (c : IsCanonical parse) (cycle : Cycle) (job : VideoJob)
    (p : parse job.id ≡ ok job.id) where
  -- No clean-up was asked for, or the job's row is terminal.
  abbrev Disposes : Swept → Swept → Type 0
  Disposes x y = (y.2 ≡ x.2) ⊎ Terminal job.id y.1

  failed-Terminal :
      (epoch : ℤ) (db : Database)
      → Carried job.id (failed_as abandoned_failure_reason) epoch db
      → Terminal job.id db
  unfolding is_terminal
  failed-Terminal epoch db (r, e, k) = (r, e, ground arith)

  abandoned-Disposes :
      (x : Swept) (r : Result TransitionResult × Database)
      → ((res : TransitionResult) → r.0 ≡ ok res → Terminal job.id r.1)
      → Disposes x (abandoned job x.0 x.2 r)
  abandoned-Disposes x (err e, db) t = inl refl
  abandoned-Disposes x (ok res, db) t = inr (t res refl)

  abandon_job-Disposes : (epoch : ℤ) (x : Swept) → Disposes x (abandon_job parse cycle job epoch x)
  unfolding abandon_job abandon
  abandon_job-Disposes epoch (marks, db, cleanups) =
      abandoned-Disposes (marks, db, cleanups)
        (fail_job parse (cycle.failing job.id) job.id abandoned_failure_reason epoch db)
        (λ res h.
          failed-Terminal epoch
            (fail_job parse (cycle.failing job.id) job.id abandoned_failure_reason epoch db).1
            (fail_job_row parse (cycle.failing job.id) job.id job.id abandoned_failure_reason epoch
              db res c p h))

  requeued-Disposes :
      (epoch : ℤ) (x : Swept) (o : Outcome VideoJob) → (requeue_job parse cycle epoch x o).2 ≡ x.2
  requeued-Disposes epoch x o = ground arith

  if-Disposes :
      (x : Swept) (b : Bool) (y z : Swept)
      → Disposes x y
      → Disposes x z
      → Disposes x (if b then y else z)
  if-Disposes x true y z h k = h
  if-Disposes x false y z h k = k

  recover-Disposes : (epoch : ℤ) (x : Swept) → Disposes x (recover parse cycle job epoch x)
  unfolding recover
  recover-Disposes epoch x =
      if-Disposes x (is_empty job.source_key) (abandon_job parse cycle job epoch x)
        (if leb_ℤ (pos 3) epoch
          then abandon_job parse cycle job epoch x
          else requeue_job parse cycle epoch x (Job.requeue job))
        (abandon_job-Disposes epoch x)
        (if-Disposes x (leb_ℤ (pos 3) epoch) (abandon_job parse cycle job epoch x)
          (requeue_job parse cycle epoch x (Job.requeue job)) (abandon_job-Disposes epoch x)
          (inl (requeued-Disposes epoch x (Job.requeue job))))

  unleased-Disposes : (x : Swept) (n : Option ℤ) → Disposes x (unleased parse cycle job x n)
  unleased-Disposes x none = inl refl
  unleased-Disposes x (some e) =
      if-Disposes x (eq_ℤ e job.lease_epoch) (recover parse cycle job job.lease_epoch x)
        ((job.id, job.lease_epoch) ∷ _, x.1, x.2) (recover-Disposes job.lease_epoch x) (inl refl)

  observed-Disposes : (x : Swept) (r : Result Bool) → Disposes x (observed parse cycle job x r)
  observed-Disposes x (err e) = inl refl
  observed-Disposes x (ok true) = inl refl
  observed-Disposes x (ok false) = unleased-Disposes x (mark_of job.id x.0)

  -- With a parser whose answers are canonical, and a job with such an id: examining the job asks
  -- for no clean-up, which would delete its source and clear its idempotency key, unless it leaves
  -- the row of that job completed or failed.
  pub examine-Disposes :
      (x : Swept)
      → ((examine parse cycle job x).2 ≡ x.2) ⊎ Terminal job.id (examine parse cycle job x).1
  unfolding examine
  examine-Disposes (marks, db, cleanups) =
      observed-Disposes (marks, cycle.before job.id db, cleanups)
        (cycle.leased job.id job.lease_epoch)
