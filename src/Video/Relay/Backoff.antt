-- ===== src/Video/Relay/Backoff.antt =====
-- The sleeps between the dials of the relay.
use video_processor.Prelude.{ℕ, ◌≤◌, true, false, List, [], ◌∷◌, arith}
use video_processor.Video.Relay.{
  second, dial_backoff_initial, dial_backoff_max, next_backoff, DialAttempt, cancelled, undialled,
  ended, run,
}

pub data AllWithin (low high : ℕ) : List ℕ → Type 0 where
  none_left : AllWithin low high []
  wait_within :
      {rest : List ℕ} (wait : ℕ)
      → low ≤ wait
      → wait ≤ high
      → AllWithin low high rest
      → AllWithin low high (wait ∷ rest)

next_backoff_bounds :
    (w : ℕ)
    → second ≤ w
    → w ≤ dial_backoff_max
    → (second ≤ next_backoff w) × (next_backoff w ≤ dial_backoff_max)
unfolding next_backoff
next_backoff_bounds w a b = (ground arith, ground arith)

run_bounds :
    (w : ℕ) (turns : List DialAttempt)
    → second ≤ w
    → w ≤ dial_backoff_max
    → AllWithin second dial_backoff_max (run w turns).0
unfolding run
run_bounds w [] a b = none_left
run_bounds w (cancelled ∷ rest) a b = none_left
run_bounds w (undialled true ∷ rest) a b = wait_within w a b none_left
run_bounds w (undialled false ∷ rest) a b =
    let (low, high) = next_backoff_bounds w a b in
    wait_within w a b (run_bounds (next_backoff w) rest low high)
run_bounds w (ended served true stops ∷ rest) a b = none_left
run_bounds w (ended true false stops ∷ rest) a b =
    run_bounds dial_backoff_initial rest (omega arith) (omega arith)
run_bounds w (ended false false true ∷ rest) a b = wait_within w a b none_left
run_bounds w (ended false false false ∷ rest) a b =
    let (low, high) = next_backoff_bounds w a b in
    wait_within w a b (run_bounds (next_backoff w) rest low high)

-- Whatever its dials and connections do, the relay sleeps between one and thirty seconds each time
-- that it sleeps.
pub run-AllWithin :
    (turns : List DialAttempt)
    → AllWithin second dial_backoff_max (run dial_backoff_initial turns).0
run-AllWithin turns = run_bounds dial_backoff_initial turns (omega arith) (omega arith)
