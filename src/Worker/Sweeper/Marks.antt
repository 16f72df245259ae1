-- ===== src/Worker/Sweeper/Marks.antt =====
-- The marks of the sweeper, against what the lease store has answered.
use video_processor.Prelude.{
  ℤ, eq_ℤ, eq_ℤ_iff, Text, text_eq, text_eq_iff, Bool, true, false, if◌then◌else◌, ◌≡◌, refl, ◌⊎◌,
  inl, inr, Option, Bool-cases, none, some, List, [], ◌∷◌, ◌++◌, ◌==◌, length, arith,
}
use video_processor.Errors.{Result, ok, err}
use video_processor.Video.Job
use video_processor.Video.Job.{VideoJob}
use video_processor.Video.Store.{Database}
use video_processor.Worker.Sweeper.{
  Marks, mark_of, unmark, member, keep_seen, Sweeper, Cycle, Swept, abandon_job, recover, unleased,
  observed, sweep_batch_size, swept_jobs, examine, examine_all, advance_cursor, sweep,
  find_processing, ids_of,
}

-- What the lease store answered of a job at an epoch.
pub record Observation : Type 0 where
  pub job_id : Text
  pub epoch : ℤ
  pub answer : Result Bool

-- The newest observation of a job.
unfoldable pub last_seen : Text → List Observation → Option Observation
last_seen i [] = none
last_seen i (o ∷ history) = if text_eq o.job_id i then some o else last_seen i history

-- The newest observation of the job found it without the lease of an epoch.
abbrev pub Unleased : Text → ℤ → List Observation → Type 0
Unleased i e history =
    (o : Observation) × (last_seen i history ≡ some o) × (o.epoch ≡ e) × (o.answer ≡ ok false)

-- Each mark stands for such an observation.
abbrev pub Marked : List Observation → Marks → Type 0
Marked history marks = (i : Text) (e : ℤ) → mark_of i marks ≡ some e → Unleased i e history

mark_of-unmark :
    (i k : Text) (marks : Marks)
    → mark_of i (unmark k marks) ≡ (if text_eq k i then none else mark_of i marks)
unfolding mark_of unmark
mark_of-unmark i k [] = ground arith
mark_of-unmark i k ((j, e) ∷ marks) =
    ground (arith, text_eq_iff j k, text_eq_iff j i, text_eq_iff k i, mark_of-unmark i k marks)

mark_of-keep_seen :
    (i : Text) (seen : List Text) (marks : Marks)
    → mark_of i (keep_seen seen marks) ≡ (if member i seen then mark_of i marks else none)
unfolding mark_of keep_seen
mark_of-keep_seen i seen [] = ground arith
mark_of-keep_seen i seen ((j, d) ∷ marks) =
    ground (arith, text_eq_iff j i, mark_of-keep_seen i seen marks)

unmarked-Marked :
    (history : List Observation) (marks : Marks) (o : Observation)
    → Marked history marks
    → Marked (o ∷ history) (unmark o.job_id marks)
unfolding last_seen
unmarked-Marked history marks o m i e h = elim (Bool-cases (text_eq o.job_id i)) [
  | inl t ↦ absurd (ground (arith, mark_of-unmark i o.job_id marks))
  | inr f ↦ rw f (m i e (ground (arith, mark_of-unmark i o.job_id marks)))
]

added-Marked :
    (history : List Observation) (marks : Marks) (o : Observation)
    → o.answer ≡ ok false
    → Marked history marks
    → Marked (o ∷ history) ((o.job_id, o.epoch) ∷ unmark o.job_id marks)
unfolding last_seen mark_of
added-Marked history marks o a m i e h = elim (Bool-cases (text_eq o.job_id i)) [
  | inl t ↦ rw t (o, refl, ground arith, a)
  | inr f ↦ rw f (m i e (ground (arith, mark_of-unmark i o.job_id marks)))
]

same-Marked :
    (history : List Observation) (marks : Marks) (o : Observation)
    → o.answer ≡ ok false
    → mark_of o.job_id marks ≡ some o.epoch
    → Marked history marks
    → Marked (o ∷ history) marks
unfolding last_seen
same-Marked history marks o a n m i e h = elim (Bool-cases (text_eq o.job_id i)) [
  | inl t ↦ rw t (o, refl, ground (arith, text_eq_iff o.job_id i), a)
  | inr f ↦ rw f (m i e h)
]

pruned-Marked :
    (history : List Observation) (seen : List Text) (marks : Marks)
    → Marked history marks
    → Marked history (keep_seen seen marks)
pruned-Marked history seen marks m i e h = m i e (ground (arith, mark_of-keep_seen i seen marks))

requeue-id : (job : VideoJob) → (Job.requeue job).0.id ≡ job.id
unfolding Job.requeue
requeue-id job = ground arith

module _ (parse : Text → Result Text) (cycle : Cycle) where
  abbrev pub observation : VideoJob → Observation
  observation job = record {
    job_id = job.id;
    epoch = job.lease_epoch;
    answer = cycle.leased job.id job.lease_epoch;
  }

  -- What taking a job over may leave of the marks: it keeps them, or drops the job's own.
  abbrev Kept : VideoJob → Marks → Swept → Type 0
  Kept job marks x = (x.0 ≡ marks) ⊎ (x.0 ≡ unmark job.id marks)

  abandon_job-Kept :
      (job : VideoJob) (epoch : ℤ) (x : Swept) → Kept job x.0 (abandon_job parse cycle job epoch x)
  unfolding abandon_job
  abandon_job-Kept job epoch x = ground arith

  recover-Kept :
      (job : VideoJob) (epoch : ℤ) (x : Swept) → Kept job x.0 (recover parse cycle job epoch x)
  unfolding recover
  recover-Kept job epoch x = ground (arith, requeue-id job, abandon_job-Kept job epoch x)

  Kept-Marked :
      (history : List Observation) (job : VideoJob) (marks : Marks) (x : Swept)
      → Kept job marks x
      → (observation job).answer ≡ ok false
      → mark_of job.id marks ≡ some job.lease_epoch
      → Marked history marks
      → Marked (observation job ∷ history) x.0
  Kept-Marked history job marks x (inr k) a n m =
      rw k (unmarked-Marked history marks (observation job) m)
  Kept-Marked history job marks x (inl k) a n m =
      rw k (same-Marked history marks (observation job) a n m)

  unleased-Marked :
      (history : List Observation) (job : VideoJob) (x : Swept) (n : Option ℤ)
      → (observation job).answer ≡ ok false
      → mark_of job.id x.0 ≡ n
      → Marked history x.0
      → Marked (observation job ∷ history) (unleased parse cycle job x n).0
  unleased-Marked history job x none a h m = added-Marked history x.0 (observation job) a m
  unleased-Marked history job x (some e) a h m = elim (Bool-cases (eq_ℤ e job.lease_epoch)) [
    | inl t ↦ rw t (
        Kept-Marked history job x.0 (recover parse cycle job job.lease_epoch x)
          (recover-Kept job job.lease_epoch x) a (ground (arith, eq_ℤ_iff e job.lease_epoch)) m)
    | inr f ↦ rw f (added-Marked history x.0 (observation job) a m)
  ]

  observed-Marked :
      (history : List Observation) (job : VideoJob) (x : Swept) (r : Result Bool)
      → (observation job).answer ≡ r
      → Marked history x.0
      → Marked (observation job ∷ history) (observed parse cycle job x r).0
  observed-Marked history job x (err e) a m = unmarked-Marked history x.0 (observation job) m
  observed-Marked history job x (ok true) a m = unmarked-Marked history x.0 (observation job) m
  observed-Marked history job x (ok false) a m =
      unleased-Marked history job x (mark_of job.id x.0) a refl m

  examine-Marked :
      (history : List Observation) (job : VideoJob) (x : Swept)
      → Marked history x.0
      → Marked (observation job ∷ history) (examine parse cycle job x).0
  unfolding examine
  examine-Marked history job (marks, db, cleanups) m =
      observed-Marked history job (marks, cycle.before job.id db, cleanups)
        (cycle.leased job.id job.lease_epoch) refl m

  -- The observations of a whole batch, newest first.
  abbrev pub observations : List VideoJob → List Observation → List Observation
  observations [] history = history
  observations (job ∷ jobs) history = observations jobs (observation job ∷ history)

  pub examine_all-Marked :
      (history : List Observation) (jobs : List VideoJob) (x : Swept)
      → Marked history x.0
      → Marked (observations jobs history) (examine_all parse cycle jobs x).0
  unfolding examine_all
  examine_all-Marked history [] x m = m
  examine_all-Marked history (job ∷ jobs) x m =
      examine_all-Marked (observation job ∷ history) jobs (examine parse cycle job x)
        (examine-Marked history job x m)

  advance_cursor-Marked :
      (history : List Observation) (jobs : List VideoJob) (seen : List Text) (marks : Marks)
      → Marked history marks
      → Marked history (advance_cursor jobs seen marks).marks
  unfolding advance_cursor
  advance_cursor-Marked history jobs seen marks m =
      elim (Bool-cases (length jobs == sweep_batch_size)) [
        | inl t ↦ rw t m
        | inr f ↦ rw f (pruned-Marked history seen marks m)
      ]

  -- What a cycle observes.
  abbrev pub cycle_observations : Sweeper → Database → List Observation → List Observation
  cycle_observations s db history =
      elim (find_processing parse cycle.scanning s.cursor sweep_batch_size db) [
        | err e ↦ history
        | ok jobs ↦ observations jobs history
      ]

  swept_jobs-Marked :
      (history : List Observation) (s : Sweeper) (db : Database) (r : Result (List VideoJob))
      → Marked history s.marks
      → Marked
          (elim r [ err e ↦ history | ok jobs ↦ observations jobs history ])
          (swept_jobs parse cycle s db r).0.marks
  swept_jobs-Marked history s db (err e) m = m
  swept_jobs-Marked history s db (ok jobs) m =
      advance_cursor-Marked (observations jobs history) jobs (ids_of jobs ++ s.seen_this_rotation)
        (examine_all parse cycle jobs (s.marks, db, [])).0
        (examine_all-Marked history jobs (s.marks, db, []) m)

  pub sweep-Marked :
      (history : List Observation) (s : Sweeper) (db : Database)
      → Marked history s.marks
      → Marked (cycle_observations s db history) (sweep parse cycle s db).0.marks
  unfolding sweep
  sweep-Marked history s db m =
      swept_jobs-Marked history s db
        (find_processing parse cycle.scanning s.cursor sweep_batch_size db) m
