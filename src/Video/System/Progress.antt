-- ===== src/Video/System/Progress.antt =====
-- The order in which a row moves: by its epoch, and at one epoch along its statuses.
use video_processor.Prelude.{
  ℕ, ◌≤◌, ℤ, ltb_ℤ, Text, text_eq_iff, true, ◌≡◌, ◌⊎◌, inl, inr, Option, none, some, arith,
  Option-cases,
}
use video_processor.Video.Status.{
  JobStatus, pending, queued, processing, completed, failed, unrecognized, is_terminal,
}
use video_processor.Video.Job.{VideoJob}
use video_processor.Video.Store.{Database, Turn, find_row, Row, find_row-put_row, find_row_id}
use video_processor.Video.Repository
use video_processor.Video.Repository.Effects.{
  create_cases, enqueue_cases, claim_cases, requeue_cases, update_cases,
}
use video_processor.Video.System.{
  Alone, Step, creates, enqueues, claims, updates, requeues, passes, Reach, here, next,
}

abbrev pub stage : JobStatus → ℕ
stage pending = 1
stage queued = 2
stage processing = 3
stage completed = 4
stage failed = 4
stage (unrecognized s) = 0

-- Later in the lexicographic order of epoch and stage, and no different once terminal.
pub record Ahead (r s : Row) : Type 0 where
  pub forward :
      (ltb_ℤ r.lease_epoch s.lease_epoch ≡ true)
      ⊎ ((s.lease_epoch ≡ r.lease_epoch) × (stage r.status ≤ stage s.status))
  pub kept : is_terminal r.status ≡ true → s ≡ r

abbrev pub AheadIn : Row → Option Row → Type 0
AheadIn r none = ⊥
AheadIn r (some s) = Ahead r s

abbrev pub Follows : Text → Row → Database → Type 0
Follows i r db = AheadIn r (find_row i db.rows)

Ahead-refl : (r : Row) → Ahead r r
Ahead-refl r = ground arith

Ahead-trans : (r s t : Row) → Ahead r s → Ahead s t → Ahead r t
Ahead-trans r s t h k = ground arith

module _ (db : Database) (i : Text) (r : Row) (found : find_row i db.rows ≡ some r) where
  stays : Follows i r db
  stays = rw found (Ahead-refl r)

  create-Follows : (t : Turn) (job : VideoJob) → Follows i r (Repository.create t job db).1
  unfolding find_row
  create-Follows t job =
      create_cases (Follows i r) t job db stays
        λ absent. ground (arith, text_eq_iff job.id i, Ahead-refl r)

  enqueue-Follows :
      (t : Turn) (job : VideoJob) (s : Row)
      → find_row job.id db.rows ≡ some s
      → s.status ≡ pending
      → job.status ≡ queued
      → Follows i r (Repository.enqueue t job db).1
  unfolding is_terminal
  enqueue-Follows t job s e p q = enqueue_cases (Follows i r) t job db stays s e (
      ground (
        arith,
        find_row-put_row i (Repository.outcome_row job s) s db.rows,
        find_row_id job.id db.rows s e,
        text_eq_iff s.id i,
        Ahead-refl r,
      ))

  claim-Follows :
      (t : Turn) (job : VideoJob)
      → Alone t
      → Follows i r (Repository.claim_for_processing t job db).1
  unfolding is_terminal
  claim-Follows t job a = claim_cases (Follows i r) t job db stays (rw (a db) stays) λ s e q.
      ground (
        arith,
        find_row-put_row i (record s { status = processing }) s db.rows,
        find_row_id job.id db.rows s e,
        text_eq_iff s.id i,
        Ahead-refl r,
      )

  update-Follows :
      (t : Turn) (job : VideoJob) (epoch : ℤ)
      → Alone t
      → Follows i r (Repository.update t job epoch db).1
  unfolding is_terminal Repository.terminal_event_type
  update-Follows t job epoch a =
      update_cases (Follows i r) t job db stays epoch (rw (a db) stays) λ s type e w p n. ground (
        arith,
        find_row-put_row i (Repository.outcome_row job s) s db.rows,
        find_row_id job.id db.rows s e,
        text_eq_iff s.id i,
        Ahead-refl r,
      )

  requeue-Follows :
      (t : Turn) (job : VideoJob) (epoch : ℤ) → Follows i r (Repository.requeue t job epoch db).1
  unfolding is_terminal
  requeue-Follows t job epoch = requeue_cases (Follows i r) t job db stays epoch λ s later e p n b.
      ground (
        arith,
        find_row-put_row i (record s { status = queued; lease_epoch = later }) s db.rows,
        find_row_id job.id db.rows s e,
        text_eq_iff s.id i,
        Ahead-refl r,
      )

Step-Follows :
    (i : Text) (r : Row) {db later : Database}
    → Step db later
    → find_row i db.rows ≡ some r
    → Follows i r later
Step-Follows i r (creates t id user filename source hash job e) f = create-Follows _ i r f t job
Step-Follows i r (enqueues t job s e p q) f = enqueue-Follows _ i r f t job s e p q
Step-Follows i r (claims t job a) f = claim-Follows _ i r f t job a
Step-Follows i r (updates t job epoch a) f = update-Follows _ i r f t job epoch a
Step-Follows i r (requeues t job epoch) f = requeue-Follows _ i r f t job epoch
Step-Follows i r {db} (passes now) f = stays db i r f

AheadIn-trans : (r s : Row) (o : Option Row) → Ahead r s → AheadIn s o → AheadIn r o
AheadIn-trans r s none h k = k
AheadIn-trans r s (some u) h k = Ahead-trans r s u h k

follow_on :
    (i : Text) (r : Row) {db later : Database} → Follows i r db → Step db later → Follows i r later
follow_on i r {db} {later} h st = elim (Option-cases (find_row i db.rows)) [
  | inl e ↦ absurd (rw e at h)
  | inr (s, e) ↦ AheadIn-trans r s (find_row i later.rows) (rw e at h) (Step-Follows i s st e)
]

-- In every history from tables that hold a row, the job keeps a row, which is no further back in the
-- order of epoch and stage.
pub Reach-Follows :
    (i : Text) (r : Row) {db later : Database}
    → Reach db later
    → find_row i db.rows ≡ some r
    → Follows i r later
Reach-Follows i r {db} here e = stays db i r e
Reach-Follows i r (next h st) e = follow_on i r (Reach-Follows i r h e) st

pub found-Ahead : (r s : Row) (o : Option Row) → o ≡ some s → AheadIn r o → Ahead r s
found-Ahead r s none e h = absurd h
found-Ahead r s (some u) e h = ground arith

kept_row : (r : Row) (o : Option Row) → AheadIn r o → is_terminal r.status ≡ true → o ≡ some r
kept_row r none h e = absurd h
kept_row r (some s) h e = ground arith

-- Where an enqueue meets a pending row, a row that is completed or failed is final: no later history
-- changes any of its columns.
pub Reach-terminal :
    (i : Text) (r : Row) {db later : Database}
    → Reach db later
    → find_row i db.rows ≡ some r
    → is_terminal r.status ≡ true
    → find_row i later.rows ≡ some r
Reach-terminal i r {db} {later} h e d = kept_row r (find_row i later.rows) (Reach-Follows i r h e) d
