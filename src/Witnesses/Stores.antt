-- ===== src/Witnesses/Stores.antt =====
-- The theorems on the Redis stores, at a lease with a superseded rival and at one upload.
use video_processor.Prelude.{ℕ, pos, codes, true, ◌≡◌, refl, ◌≢◌, none, List, [], ◌∷◌, arith}
use video_processor.Errors.{plain, ok}
use video_processor.Redis.{current, Fate, heard, unheard}
use video_processor.Video.Lease.{set_until, held}
use video_processor.Video.Lease.Holding.{
  Event, asks, ticks, acquires, releases, events, rests, rivals, renewed, kept_alive,
}
use video_processor.Video.Idempotency.{reserve, finalize, lookup}
use video_processor.Video.Idempotency.Reservations.{
  Request, reserves, clears, clears_by_job, Requests, done, next, requests, Later, no_more,
  then_one, reservation_honoured,
}

-- The run at epoch 1 has the lease; the run at epoch 0 comes back and then ends.
abbrev shared : List Event
shared =
    asks (pos 0) acquires heard 40
    ∷ ticks (pos 1) heard heard 60 60
    ∷ asks (pos 0) releases (unheard (plain (codes "timeout"))) 100
    ∷ []

kept_alive_example : held heard 140 (pos 1) (events (set_until 0 (pos 1)) shared) ≡ ok true
kept_alive_example =
    kept_alive (pos 1) 0 60 140 shared
      (rivals acquires heard 40 refl (omega arith) (
        renewed heard 60 60 (omega arith)
          (rivals releases (unheard (plain (codes "timeout"))) 100 refl (omega arith) rests)))
      (omega arith)

abbrev busy : List (Request × Fate × ℕ)
busy =
    (reserves (codes "t2"), heard, 5)
    ∷ (clears_by_job (codes "other"), heard, 6)
    ∷ (clears (codes "t2"), heard, 7)
    ∷ []

other_token : codes "t2" ≢ codes "t1"
other_token h = ground arith

busy_lem : Requests (codes "t1") 300 busy
busy_lem = next (reserves (codes "t2")) heard 5 other_token (omega arith) (
    next (clears_by_job (codes "other")) heard 6 tt (omega arith)
      (next (clears (codes "t2")) heard 7 other_token (omega arith) done))

granted : (reserve heard 0 (codes "t1") none).0 ≡ ok (codes "t1", true)
unfolding reserve current
granted = refl

-- A duplicate, a late request of another token, and the failure of another job.
abbrev afterwards : List (Request × Fate × ℕ)
afterwards =
    (reserves (codes "t3"), heard, 20)
    ∷ (clears (codes "t2"), heard, 30)
    ∷ (clears_by_job (codes "other"), heard, 40)
    ∷ []

other_job : codes "other" ≢ codes "job"
other_job h = ground arith

afterwards_lem : Later (codes "t1") (codes "job") 86409 afterwards
afterwards_lem = then_one (reserves (codes "t3")) heard 20 tt (omega arith) (
    then_one (clears (codes "t2")) heard 30 (other_token, refl) (omega arith)
      (then_one (clears_by_job (codes "other")) heard 40 (other_job, refl) (omega arith) no_more))

reservation_honoured_example :
    ((finalize heard 9
        (codes "t1")
        (codes "job")
        (requests (reserve heard 0 (codes "t1") none).1 busy)).0
      ≡ ok true)
    × (lookup heard 1000 (
          requests
            (finalize heard 9
              (codes "t1")
              (codes "job")
              (requests (reserve heard 0 (codes "t1") none).1 busy)).1
            afterwards)
        ≡ ok (codes "job", true))
reservation_honoured_example =
    reservation_honoured (codes "t1") (codes "job") 0 9 1000 none busy afterwards granted busy_lem
      (omega arith) refl refl (λ h. ground arith) afterwards_lem (omega arith)
