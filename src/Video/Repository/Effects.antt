-- ===== src/Video/Repository/Effects.antt =====
-- What each call can do to the tables: a property holds after a call if it holds of the tables that
-- the call leaves on each of its paths.
use video_processor.Prelude.{ℤ, eq_ℤ_iff, ◌≡◌, inl, inr, none, some, ◌∷◌, arith, Option-cases}
use video_processor.Errors.{ok}
use video_processor.Video.Status.{queued, processing, status_eq_iff}
use video_processor.Video.Job.{VideoJob}
use video_processor.Video.Store.{
  Row, Database, Turn, EventType, created_event, queued_event, completed_event, failed_event,
  created_payload, find_row, put_row,
}
use video_processor.Video.Repository.{
  create, enqueue, update, requeue, claim_for_processing, with_event, queued_payload_of,
  terminal_payload, outcome_row, bigint_succ, terminal_event_type,
}

module _ {ℓ} (P : Database → Type ℓ) (t : Turn) (job : VideoJob) (db : Database)
    (stays : P db) where
  pub create_cases :
      (find_row job.id db.rows ≡ none
        → P (
            with_event t created_event
              (created_payload job.id job.user_id job.original_filename db.clock)
              (record job { created_at = db.clock } ∷ db.rows)
              db))
      → P (create t job db).1
  unfolding create
  create_cases inserted = elim (Option-cases (find_row job.id db.rows)) [
    | inl e ↦ ground (arith, inserted e)
    | inr (r, e) ↦ ground arith
  ]

  pub enqueue_cases :
      (r : Row)
      → find_row job.id db.rows ≡ some r
      → P (
          with_event t queued_event
            (queued_payload_of job db.clock)
            (put_row (outcome_row job r) db.rows)
            db)
      → P (enqueue t job db).1
  unfolding enqueue
  enqueue_cases r e written = ground arith

  pub claim_cases :
      P (t.meanwhile db)
      → ((r : Row)
          → find_row job.id db.rows ≡ some r
          → r.status ≡ queued
          → P (record db { rows = put_row (record r { status = processing }) db.rows }))
      → P (claim_for_processing t job db).1
  unfolding claim_for_processing
  claim_cases missed won = elim (Option-cases (find_row job.id db.rows)) [
    | inl e ↦ ground arith
    | inr (r, e) ↦ ground (arith, won r e, status_eq_iff r.status queued)
  ]

  pub requeue_cases :
      (epoch : ℤ)
      → ((r : Row) (later : ℤ)
          → find_row job.id db.rows ≡ some r
          → r.status ≡ processing
          → r.lease_epoch ≡ epoch
          → bigint_succ r.lease_epoch ≡ some later
          → P (
              with_event t queued_event
                (queued_payload_of job db.clock)
                (put_row (record r { status = queued; lease_epoch = later }) db.rows)
                db))
      → P (requeue t job epoch db).1
  unfolding requeue
  requeue_cases epoch moved = elim (Option-cases (find_row job.id db.rows)) [
    | inl e ↦ ground arith
    | inr (r, e) ↦ elim (Option-cases (bigint_succ r.lease_epoch)) [
      | inl f ↦ ground arith
      | inr (later, f) ↦
          ground (
            arith,
            moved r later e,
            eq_ℤ_iff r.lease_epoch epoch,
            status_eq_iff r.status processing,
          )
    ]
  ]

  pub update_cases :
      (epoch : ℤ)
      → P (t.meanwhile db)
      → ((r : Row) (type : EventType)
          → find_row job.id db.rows ≡ some r
          → terminal_event_type job.status ≡ ok type
          → r.status ≡ processing
          → r.lease_epoch ≡ epoch
          → P (
              with_event t type
                (terminal_payload type job db.clock)
                (put_row (outcome_row job r) db.rows)
                db))
      → P (update t job epoch db).1
  unfolding update
  update_cases epoch refused written = elim (Option-cases (find_row job.id db.rows)) [
    | inl e ↦ ground arith
    | inr (r, e) ↦ ground (
      arith,
      written r completed_event e,
      written r failed_event e,
      eq_ℤ_iff r.lease_epoch epoch,
      status_eq_iff r.status processing,
    )
  ]
