-- ===== src/Worker/Sweeper/Confirmation.antt =====
-- When the sweeper takes a job over, in terms of what it has observed.
use video_processor.Prelude.{
  ℤ, eq_ℤ_iff, Text, Bool, true, false, ◌≡◌, refl, ◌⊎◌, inl, inr, Option, none, some, List, [], ◌∷◌,
  arith,
}
use video_processor.Errors.{Result, ok, err}
use video_processor.Video.Job.{VideoJob}
use video_processor.Video.Store.{Database}
use video_processor.Worker.Dispatch.{Cleanup}
use video_processor.Worker.Sweeper.{
  mark_of, member, Sweeper, Cycle, Swept, effects, unleased, observed, examine, examine_all, sweep,
  new_sweeper, run, ids_of,
}
use video_processor.Worker.Sweeper.Marks.{
  Observation, last_seen, Unleased, Marked, observation, observations, cycle_observations,
  sweep-Marked, examine_all-Marked,
}

module _ (parse : Text → Result Text) (cycle : Cycle) where
  unleased-idle :
      (job : VideoJob) (x : Swept) (n : Option ℤ)
      → effects (unleased parse cycle job x n) ≡ effects x ⊎ (n ≡ some job.lease_epoch)
  unleased-idle job x none = inl refl
  unleased-idle job x (some e) = ground (arith, eq_ℤ_iff e job.lease_epoch)

  -- The tables change only by what others do, and no clean-up is asked for.
  abbrev pub LeftAlone : VideoJob → Swept → Type 0
  LeftAlone job x = effects (examine parse cycle job x) ≡ (cycle.before job.id x.1, x.2)

  -- Either the job is left alone, or its mark confirms that it is unleased.
  abbrev Confirmed : VideoJob → Swept → Type 0
  Confirmed job x =
      LeftAlone job x
      ⊎ ((cycle.leased job.id job.lease_epoch ≡ ok false)
          × (mark_of job.id x.0 ≡ some job.lease_epoch))

  observed-Confirmed :
      (job : VideoJob) (x : Swept) (r : Result Bool)
      → effects (observed parse cycle job x r) ≡ effects x
        ⊎ ((r ≡ ok false) × (mark_of job.id x.0 ≡ some job.lease_epoch))
  observed-Confirmed job x (err e) = inl refl
  observed-Confirmed job x (ok true) = inl refl
  observed-Confirmed job x (ok false) = elim (unleased-idle job x (mark_of job.id x.0)) [
    | inl h ↦ inl h
    | inr h ↦ inr (refl, h)
  ]

  examine-Confirmed : (job : VideoJob) (x : Swept) → Confirmed job x
  unfolding examine
  examine-Confirmed job (marks, db, cleanups) =
      observed-Confirmed job (marks, cycle.before job.id db, cleanups)
        (cycle.leased job.id job.lease_epoch)

  last_seen-observations :
      (i : Text) (jobs : List VideoJob) (history : List Observation)
      → member i (ids_of jobs) ≡ false
      → last_seen i (observations parse cycle jobs history) ≡ last_seen i history
  unfolding member last_seen
  last_seen-observations i [] history h = refl
  last_seen-observations i (job ∷ jobs) history h =
      ground (arith, last_seen-observations i jobs (observation parse cycle job ∷ history))

-- All that the cycles of a sweeper observe, newest first.
unfoldable pub observed_in :
    (Text → Result Text) → List Cycle → Sweeper → Database → List Observation → List Observation
observed_in parse [] s db history = history
observed_in parse (cycle ∷ cycles) s db history =
    let swept = sweep parse cycle s (cycle.waiting db) in
    observed_in parse cycles swept.0 swept.1
      (cycle_observations parse cycle s (cycle.waiting db) history)

nothing-Marked : Marked [] []
unfolding mark_of
nothing-Marked i e h = absurd (ground arith)

run-Marked :
    (parse : Text → Result Text) (cycles : List Cycle) (s : Sweeper) (db : Database)
    (history : List Observation)
    → Marked history s.marks
    → Marked (observed_in parse cycles s db history) (run parse cycles s db).0.marks
unfolding run observed_in
run-Marked parse [] s db history m = m
run-Marked parse (cycle ∷ cycles) s db history m =
    run-Marked parse cycles (sweep parse cycle s (cycle.waiting db)).0
      (sweep parse cycle s (cycle.waiting db)).1
      (cycle_observations parse cycle s (cycle.waiting db) history)
      (sweep-Marked parse cycle history s (cycle.waiting db) m)

-- After any cycles of a fresh sweeper, with any tables, in the next cycle: a job of the batch that
-- was not examined before in it is left alone, so that the tables change only by what others do and
-- no clean-up is asked for, unless the lease store finds it without the lease of its epoch now and
-- the newest observation of that job in the earlier cycles found the same at the same epoch.
pub takeover_confirmed :
    (parse : Text → Result Text) (cycles : List Cycle) (db now : Database) (cycle : Cycle)
    (earlier : List VideoJob) (job : VideoJob) (cleanups : List Cleanup)
    → member job.id (ids_of earlier) ≡ false
    → LeftAlone parse cycle job
        (examine_all parse cycle earlier ((run parse cycles new_sweeper db).0.marks, now, cleanups))
      ⊎ ((cycle.leased job.id job.lease_epoch ≡ ok false)
          × Unleased job.id job.lease_epoch (observed_in parse cycles new_sweeper db []))
takeover_confirmed parse cycles db now cycle earlier job cleanups fresh =
    let s = (run parse cycles new_sweeper db).0 in
    let history = observed_in parse cycles new_sweeper db [] in
    let x = examine_all parse cycle earlier (s.marks, now, cleanups) in
    let m =
      examine_all-Marked parse cycle history earlier (s.marks, now, cleanups)
        (run-Marked parse cycles new_sweeper db [] nothing-Marked) in
    elim (examine-Confirmed parse cycle job x) [
      | inl idle ↦ inl idle
      | inr (now_unleased, marked) ↦ inr (
        now_unleased,
        rw⁻¹ (last_seen-observations parse cycle job.id earlier history fresh)
            (m job.id job.lease_epoch marked),
      )
    ]
