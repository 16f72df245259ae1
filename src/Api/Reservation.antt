-- ===== src/Api/Reservation.antt =====
-- `waitForFinalizedIdempotencyKey` of cmd/video-api/video.go.
use video_processor.Prelude.{
  ℕ, zero, suc, Text, Bool, true, false, if◌then◌else◌, ltb, Option, none, some,
}
use video_processor.Errors.{Result, ok, err}
use video_processor.Redis.{Key, Fate}
use video_processor.Video.Idempotency.{lookup}

-- One round of the wait: what others did to the key before it, the lookup's time and fate, the
-- milliseconds since the wait began, and whether the request's context is done.
pub record Poll : Type 0 where
  pub meanwhile : Key Text → Key Text
  pub fate : Fate
  pub now : ℕ
  pub elapsed : ℕ
  pub cancelled : Bool

abbrev pub lookup_retry_bound : ℕ
lookup_retry_bound = 2000

abbrev pub lookup_retry_interval : ℕ
lookup_retry_interval = 100

abbrev pub Waited : Type 0
Waited = Option (Option Text × Key Text)

abbrev unresolved : Poll → Key Text → Waited → Waited
unresolved p s rest =
    if ltb lookup_retry_bound p.elapsed
    then some (none, s)
    else if p.cancelled
    then some (none, s)
    else rest

abbrev pub polled : Poll → Key Text → Result (Text × Bool) → Waited → Waited
polled p s (err e) rest = unresolved p s rest
polled p s (ok (job_id, true)) rest = some (some job_id, s)
polled p s (ok (job_id, false)) rest = unresolved p s rest

-- `none` is a wait that has not ended after that many rounds.
unfoldable pub wait_for_finalized : ℕ → (ℕ → Poll) → ℕ → Key Text → Waited
wait_for_finalized zero polls i s = none
wait_for_finalized (suc n) polls i s =
    let p = polls i in
    let later = p.meanwhile s in
    let rest = wait_for_finalized n polls (suc i) later in
    polled p later (lookup p.fate p.now later) rest

abbrev pub wait_rounds : ℕ
wait_rounds = 22
