-- ===== src/Platform/RateLimit.antt =====
-- internal/platform/ratelimit/limiter.go: the fixed-window limiter, on the Redis key of one caller;
-- and the middleware of cmd/video-api/ratelimit.go, which lets a request through when it fails.
-- Times are in milliseconds, except where a name says seconds.
pub mod Window
use video_processor.Prelude.{
  ℕ, zero, suc, ◌+◌, ◌*◌, ◌-◌, ◌/◌, ltb, ◌==◌, ℤ, pos, negsuc, Text, Bool, true, false,
  if◌then◌else◌, Option, none, some,
}
use video_processor.Errors.{Error, Result, ok, err}
use video_processor.Redis.{Entry, Key, current, set_for, Fate, settled}

pub record Config : Type 0 where
  pub max_requests : ℤ
  pub window_seconds : ℕ

-- `INCR` and `PTTL`, on a key that was there; the expiry stays.
abbrev incremented : ℕ → Entry ℕ → (ℕ × ℤ) × Key ℕ
incremented now e = (
  (suc e.value, pos (e.expires - now)),
  some (record { value = suc e.value; expires = e.expires }),
)

-- On a key that was not there: `EXPIRE` for no time deletes it, and `PTTL` then answers -2.
abbrev opened : ℕ → ℕ → (ℕ × ℤ) × Key ℕ
opened now seconds =
    if seconds == 0
    then ((1, negsuc 1), none)
    else ((1, pos (seconds * 1000)), set_for now (seconds * 1000) 1)

-- `allowScript`
unfoldable pub allow_script : ℕ → ℕ → Key ℕ → (ℕ × ℤ) × Key ℕ
allow_script now seconds none = opened now seconds
allow_script now seconds (some e) =
    if ltb now e.expires then incremented now e else opened now seconds

abbrev not_negative : ℤ → ℕ
not_negative (pos n) = n
not_negative (negsuc n) = 0

abbrev at_least_one : ℕ → ℕ
at_least_one n = if ltb n 1 then 1 else n

-- In seconds.
unfoldable pub ms_to_retry_after : ℤ → ℕ
ms_to_retry_after ttl = at_least_one ((not_negative ttl + 999) / 1000)

-- `count <= int64(l.cfg.MaxRequests)`
abbrev within : ℕ → ℤ → Bool
within count (pos n) = if ltb n count then false else true
within count (negsuc n) = false

abbrev judged : Config → Result (ℕ × ℤ) × Key ℕ → Result (Bool × ℕ) × Key ℕ
judged c (err e, k) = (err e, k)
judged c (ok (count, ttl), k) =
    (ok (if within count c.max_requests then (true, 0) else (false, ms_to_retry_after ttl)), k)

-- Whether the request is allowed, and the seconds after which to try again.
unfoldable pub allow : Fate → ℕ → Config → Key ℕ → Result (Bool × ℕ) × Key ℕ
unfolding allow_script ms_to_retry_after
allow f now c k = judged c (settled f (allow_script now c.window_seconds k) k)

-- `rateLimitMiddleware` of ratelimit.go in cmd/video-api and in cmd/notification-api: the request
-- goes on, or is answered 429 with the seconds of Retry-After.
pub data Decision : Type 0 where
  passes : Decision
  refuses : ℕ → Decision

abbrev decided : Result (Bool × ℕ) × Key ℕ → Decision × Key ℕ
decided (err e, k) = (passes, k)
decided (ok (true, seconds), k) = (passes, k)
decided (ok (false, seconds), k) = (refuses seconds, k)

-- The key is that of the authenticated user; without one the limiter is not asked.
unfoldable pub rate_limit_middleware : Fate → ℕ → Config → Option Text → Key ℕ → Decision × Key ℕ
rate_limit_middleware f now c none k = (passes, k)
rate_limit_middleware f now c (some user) k = decided (allow f now c k)
