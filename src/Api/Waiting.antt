-- ===== src/Api/Waiting.antt =====
-- The bounded wait of an upload for another request's reservation.
use video_processor.Prelude.{
  ℕ, zero, suc, ◌+◌, ◌*◌, ◌≤◌, ◌<◌, ◌≡◌, ◌≢◌, none, some, Option-cases, Option, inl, inr, Text,
  arith,
}
use video_processor.Redis.{Key}
use video_processor.Api.Reservation.{
  Poll, lookup_retry_interval, lookup_retry_bound, wait_for_finalized, wait_rounds,
}

module _ (polls : ℕ → Poll) (paced : (i : ℕ) → i * lookup_retry_interval ≤ (polls i).elapsed) where
  rounds_end :
      (n i : ℕ) (s : Key Text)
      → lookup_retry_bound < (i + n) * lookup_retry_interval
      → wait_for_finalized (suc n) polls i s ≢ none
  unfolding wait_for_finalized
  rounds_end zero i s far = ground (arith, paced i)
  rounds_end (suc n) i s far = ground (arith, rounds_end n (suc i) ((polls i).meanwhile s))

  -- If a round of the wait takes the retry interval or longer, then the wait has ended after its
  -- rounds: no upload waits for another one's reservation for ever.
  pub wait_ends :
      (s : Key Text)
      → (r : Option Text × Key Text) × (wait_for_finalized wait_rounds polls 0 s ≡ some r)
  wait_ends s = elim (Option-cases (wait_for_finalized wait_rounds polls 0 s)) [
    | inl e ↦ absurd (rounds_end 21 0 s (omega arith) e)
    | inr (r, e) ↦ (r, e)
  ]
