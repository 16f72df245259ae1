-- ===== src/Notification/Budget.antt =====
-- internal/notification/application/delivery_config.go: the delivery budget, with its saturating
-- arithmetic, and the validation of the reclaim bound. A duration is an int64 of nanoseconds.
pub mod Exact
use video_processor.Prelude.{
  ℕ, zero, suc, ◌+◌, ◌*◌, ◌-◌, ◌/◌, ltb, ◌==◌, ℤ, pos, negsuc, ltb_ℤ, leb_ℤ, is_negative, max_int64,
  Text, codes, Bool, true, false, ◌||◌, if◌then◌else◌, Option, none, some,
}
use video_processor.Errors.{Error, plain}

pub record DeliveryConfig : Type 0 where
  pub max_attempts : ℤ
  pub timeout : ℤ
  pub initial_backoff : ℤ
  pub resolve_max_attempts : ℤ
  pub resolve_timeout : ℤ
  pub resolve_initial_backoff : ℤ
  pub reclaim_bound : ℤ

abbrev pub default_delivery_config : DeliveryConfig
default_delivery_config = record {
  max_attempts = pos 3;
  timeout = pos 5000000000;
  initial_backoff = pos 2000000000;
  resolve_max_attempts = pos 3;
  resolve_timeout = pos 2000000000;
  resolve_initial_backoff = pos 1000000000;
  reclaim_bound = pos 120000000000;
}

-- `maxDuration`
abbrev pub max_duration : ℕ
max_duration = max_int64

unfoldable pub add_duration : ℤ → ℤ → ℤ
add_duration (negsuc a) b = pos 0
add_duration (pos a) (negsuc b) = pos 0
add_duration (pos a) (pos b) = if ltb (max_duration - a) b then pos max_duration else pos (a + b)

unfoldable pub mul_duration : ℤ → ℤ → ℤ
mul_duration (negsuc d) n = pos 0
mul_duration (pos d) (negsuc n) = pos 0
mul_duration (pos d) (pos zero) = pos 0
mul_duration (pos zero) (pos (suc n)) = pos 0
mul_duration (pos (suc d)) (pos (suc n)) =
    if ltb (max_duration / suc n) (suc d) then pos max_duration else pos (suc d * suc n)

-- The loop of `budget`, with the rounds that remain.
unfoldable pub add_waits : ℕ → ℤ → ℤ → ℤ
unfolding add_duration mul_duration
add_waits zero total wait = total
add_waits (suc rounds) total wait =
    let rest = add_waits rounds (add_duration total wait) (mul_duration wait (pos 2)) in
    if ltb_ℤ total (pos max_duration) then rest else total

-- `attempts - 1`, for the positive counts that reach the loop.
abbrev pub waits_between : ℤ → ℕ
waits_between (pos (suc n)) = n
waits_between _ = 0

unfoldable pub budget : ℤ → ℤ → ℤ → ℤ
unfolding mul_duration add_waits
budget attempts timeout initial_backoff =
    if leb_ℤ attempts (pos 0) || (is_negative timeout || is_negative initial_backoff)
    then pos 0
    else add_waits (waits_between attempts) (mul_duration timeout attempts) initial_backoff

abbrev pub attempt_budget : DeliveryConfig → ℤ
attempt_budget c = budget c.max_attempts c.timeout c.initial_backoff

abbrev pub resolve_budget : DeliveryConfig → ℤ
resolve_budget c = budget c.resolve_max_attempts c.resolve_timeout c.resolve_initial_backoff

unfoldable pub max_claim_hold : DeliveryConfig → ℤ
unfolding add_duration budget
max_claim_hold c = add_duration (attempt_budget c) (resolve_budget c)

-- `term.value <= 0`, and the same test of a count.
abbrev pub refused_term : ℤ → Bool
refused_term z = leb_ℤ z (pos 0)

abbrev pub refused_bound : ℤ → ℤ → ℤ → Option Error
refused_bound hold floor bound =
    if leb_ℤ (pos max_duration) hold || leb_ℤ (pos max_duration) floor
    then some (plain (codes "notification: the attempt budget is not representable"))
    else if ltb_ℤ bound floor
    then some (plain (codes "notification: reclaim bound is too short"))
    else none

-- The numbers in the messages are left out.
unfoldable pub validate : DeliveryConfig → Option Error
unfolding max_claim_hold mul_duration
validate c =
    if refused_term c.max_attempts
    then some (plain (codes "notification: delivery max attempts must be positive"))
    else if refused_term c.resolve_max_attempts
    then some (plain (codes "notification: resolve max attempts must be positive"))
    else if refused_term c.timeout
    then some (plain (codes "notification: delivery timeout must be positive"))
    else if refused_term c.initial_backoff
    then some (plain (codes "notification: delivery initial backoff must be positive"))
    else if refused_term c.resolve_timeout
    then some (plain (codes "notification: resolve timeout must be positive"))
    else if refused_term c.resolve_initial_backoff
    then some (plain (codes "notification: resolve initial backoff must be positive"))
    else if refused_term c.reclaim_bound
    then some (plain (codes "notification: reclaim bound must be positive"))
    else refused_bound (max_claim_hold c) (mul_duration (max_claim_hold c) (pos 2)) c.reclaim_bound
