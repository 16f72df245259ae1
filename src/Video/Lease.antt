-- ===== src/Video/Lease.antt =====
-- internal/video/infrastructure/lease/redis_store.go: the lease of one job, which is the Redis key
-- of that job with its expiry, the four calls on it, and the loop of `holdLease` in
-- internal/video/application/process_video_job.go that keeps it. The scripts run one by one.
pub mod Holding
use video_processor.Prelude.{
  ℕ, ◌+◌, ltb, ℤ, eq_ℤ, leb_ℤ, Bool, true, false, if◌then◌else◌, Option, none, some,
}
use video_processor.Errors.{Error, Result, ok, err}
use video_processor.Redis.{Key, current, set_for, Fate, settled}

-- A stored text: `written e` is what `strconv.FormatInt` makes of `e`. Any other text is `foreign`,
-- with what Lua's `tonumber` reads in it.
pub data Value : Type 0 where
  written : ℤ → Value
  foreign : Option ℤ → Value

-- The key of the job.
abbrev pub Lease : Type 0
Lease = Key Value

-- `TTL`
abbrev pub ttl : ℕ
ttl = 90

abbrev pub set_until : ℕ → ℤ → Lease
set_until now epoch = set_for now ttl (written epoch)

-- `current == false or stored == nil or stored <= tonumber(ARGV[1])`. Lua's numbers are doubles, which
-- hold the epochs exactly below 2^53; the model is of those.
abbrev pub may_acquire : ℤ → Option Value → Bool
may_acquire epoch none = true
may_acquire epoch (some (written e)) = leb_ℤ e epoch
may_acquire epoch (some (foreign none)) = true
may_acquire epoch (some (foreign (some n))) = leb_ℤ n epoch

-- `current == ARGV[1]`
abbrev pub names : ℤ → Option Value → Bool
names epoch (some (written e)) = eq_ℤ e epoch
names epoch _ = false

unfoldable pub acquire : Fate → ℕ → ℤ → Lease → Result Bool × Lease
unfolding current
acquire f now epoch s =
    settled f
      (if may_acquire epoch (current now s) then (true, set_until now epoch) else (false, s)) s

unfoldable pub renew : Fate → ℕ → ℤ → Lease → Result Bool × Lease
unfolding current
renew f now epoch s =
    settled f (if names epoch (current now s) then (true, set_until now epoch) else (false, s)) s

-- The script's answer is not read.
unfoldable pub release : Fate → ℕ → ℤ → Lease → Result (Unit {0}) × Lease
unfolding current
release f now epoch s = settled f (if names epoch (current now s) then (tt, none) else (tt, s)) s

unfoldable pub held : Fate → ℕ → ℤ → Lease → Result Bool
unfolding current
held f now epoch s = (settled f (names epoch (current now s), s) s).0

abbrev after_reacquire : Result Bool × Lease → Bool × Lease
after_reacquire (err e, s) = (true, s)
after_reacquire (ok again, s) = (again, s)

abbrev after_renew : Fate → ℕ → ℤ → Result Bool × Lease → Bool × Lease
after_renew f now epoch (err e, s) = (true, s)
after_renew f now epoch (ok true, s) = (true, s)
after_renew f now epoch (ok false, s) = after_reacquire (acquire f now epoch s)

-- One tick of the loop: whether the loop goes on, and the lease after it.
unfoldable pub tick : Fate → Fate → ℕ → ℕ → ℤ → Lease → Bool × Lease
unfolding renew acquire
tick renewing acquiring now later epoch s =
    after_renew acquiring later epoch (renew renewing now epoch s)
