-- ===== src/Witnesses/Limits.antt =====
-- The theorems on the rate limiter, at two requests a minute.
use video_processor.Prelude.{ℕ, ◌+◌, ◌≤◌, pos, codes, refl, none, List, [], ◌∷◌, arith}
use video_processor.Errors.{plain}
use video_processor.Redis.{Fate, heard, unheard, unreached}
use video_processor.Platform.RateLimit.{Config}
use video_processor.Platform.RateLimit.Window.{
  passed, failures, Within, over, request, window_limit,
}

abbrev two_a_minute : Config
two_a_minute = record { max_requests = pos 2; window_seconds = 60 }

abbrev requests : List (Fate × ℕ)
requests =
    (unreached (plain []), 500)
    ∷ (heard, 600)
    ∷ (unheard (plain []), 700)
    ∷ (heard, 900)
    ∷ (heard, 60499)
    ∷ []

requests_within : Within 500 60500 requests
requests_within = request (unreached (plain [])) 500 (omega arith) (omega arith) (
    request heard 600 (omega arith) (omega arith) (
      request (unheard (plain [])) 700 (omega arith) (omega arith) (
        request heard 900 (omega arith) (omega arith)
          (request heard 60499 (omega arith) (omega arith) over))))

window_limit_example : passed (codes "user-1") two_a_minute requests none ≤ 2 + failures requests
window_limit_example =
    window_limit (codes "user-1") two_a_minute 2 refl 500 requests (omega arith) requests_within
