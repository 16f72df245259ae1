-- ===== src/Video/Repository/Requeues.antt =====
-- What a requeue that reports success has done.
use video_processor.Prelude.{ℤ, eq_ℤ_iff, true, ◌≡◌, inl, inr, some, arith, Option-cases}
use video_processor.Errors.{ok}
use video_processor.Video.Status.{processing, queued, status_eq_iff}
use video_processor.Video.Job.{VideoJob}
use video_processor.Video.Store.{Row, Database, Turn, queued_event, find_row, put_row}
use video_processor.Video.Repository.{requeue, bigint_succ, queued_payload_of, with_event}

-- A requeue that reports success found the row processing at the caller's epoch; it left the row
-- queued at the next epoch, and one new event in the outbox that dispatches the job again; it
-- changed nothing else.
pub requeue_ok :
    (t : Turn) (job : VideoJob) (epoch : ℤ) (db : Database)
    → (requeue t job epoch db).0 ≡ ok true
    → (r : Row) × (later : ℤ) × (find_row job.id db.rows ≡ some r)
      × (r.status ≡ processing)
      × (r.lease_epoch ≡ epoch)
      × (bigint_succ epoch ≡ some later)
      × (requeue t job epoch db).1
        ≡ with_event t queued_event
            (queued_payload_of job db.clock)
            (put_row (record r { status = queued; lease_epoch = later }) db.rows)
            db
unfolding requeue
requeue_ok t job epoch db h = elim (Option-cases (find_row job.id db.rows)) [
  | inl e ↦ absurd (ground arith)
  | inr (r, e) ↦ elim (Option-cases (bigint_succ r.lease_epoch)) [
    | inl f ↦ absurd (ground arith)
    | inr (later, f) ↦ (
      r,
      later,
      e,
      ground (arith, status_eq_iff r.status processing),
      ground (arith, eq_ℤ_iff r.lease_epoch epoch),
      ground (arith, eq_ℤ_iff r.lease_epoch epoch),
      ground arith,
    )
  ]
]
