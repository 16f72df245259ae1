-- ===== src/Notification/Budget/Exact.antt =====
-- The saturating arithmetic of the budget against unbounded numbers.
use video_processor.Prelude.{
  ℕ, zero, suc, ◌+◌, ◌*◌, ◌≤◌, ◌<◌, ltb, ℤ, pos, negsuc, Bool-cases, false, if◌then◌else◌, ◌≡◌,
  refl, sym, ◌∙◌, ◌↔◌, inl, inr, none, arith,
}
use native.Mathlib.Nat.{le-div_iff_mul-le}
use video_processor.Notification.Budget.{
  refused_term, refused_bound, DeliveryConfig, max_duration, add_duration, mul_duration, add_waits,
  budget, max_claim_hold, validate,
}

-- The longest that a number of attempts can take: each runs to its timeout, and a wait that doubles
-- stands between two of them.
unfoldable pub longest : ℕ → ℕ → ℕ → ℕ
longest zero timeout wait = 0
longest (suc zero) timeout wait = timeout
longest (suc (suc n)) timeout wait = timeout + (wait + longest (suc n) timeout (wait * 2))

-- What an int64 shows of a total.
abbrev pub capped : ℕ → ℤ
capped n = if ltb max_duration n then pos max_duration else pos n

-- The waits alone.
unfoldable pub waits : ℕ → ℕ → ℕ
waits zero wait = 0
waits (suc n) wait = wait + waits n (wait * 2)

add-capped : (a b : ℕ) → add_duration (capped a) (capped b) ≡ capped (a + b)
unfolding add_duration
add-capped a b = ground arith

mul-capped : (d n : ℕ) → mul_duration (pos d) (pos n) ≡ capped (d * n)
unfolding mul_duration
mul-capped zero zero = ground arith
mul-capped (suc d) zero = ground arith
mul-capped zero (suc n) = ground arith
mul-capped (suc d) (suc n) =
    ground (arith, le-div_iff_mul-le {k = suc n} {x = suc d} {y = max_duration} (omega arith))

double-capped : (a : ℕ) → mul_duration (capped a) (pos 2) ≡ capped (a * 2)
double-capped a = elim (Bool-cases (ltb max_duration a)) [
  | inl t ↦ rw t (mul-capped max_duration 2 ∙ ground arith)
  | inr f ↦ rw f (mul-capped a 2)
]

add_waits-capped :
    (n total wait : ℕ) → add_waits n (capped total) (capped wait) ≡ capped (total + waits n wait)
unfolding add_waits waits
add_waits-capped zero total wait = ground arith
add_waits-capped (suc n) total wait =
    rw (add-capped total wait)
      (rw (double-capped wait) (rw (add_waits-capped n (total + wait) (wait * 2)) (ground arith)))

longest-waits : (n t w : ℕ) → longest (suc n) t w ≡ t * suc n + waits n w
unfolding longest waits
longest-waits zero t w = ground arith
longest-waits (suc n) t w = ground (arith, longest-waits n t (w * 2))

-- A budget is the longest that its attempts can take, capped at the largest duration.
budget-longest :
    (n timeout wait : ℕ)
    → wait ≤ max_duration
    → budget (pos (suc n)) (pos timeout) (pos wait) ≡ capped (longest (suc n) timeout wait)
unfolding budget
budget-longest n timeout wait w = ground (
  arith,
  mul-capped timeout (suc n),
  add_waits-capped n (timeout * suc n) wait,
  longest-waits n timeout wait,
)

-- The size of a term that is not negative.
abbrev pub size : ℤ → ℕ
size (pos n) = n
size (negsuc n) = 0

-- The longest that a claim can be held, in unbounded numbers.
abbrev pub longest_hold : DeliveryConfig → ℕ
longest_hold c =
    longest (size c.max_attempts) (size c.timeout) (size c.initial_backoff)
    + longest (size c.resolve_max_attempts) (size c.resolve_timeout)
        (size c.resolve_initial_backoff)

pub record AllPositive (c : DeliveryConfig) : Type 0 where
  pub attempts_positive : refused_term c.max_attempts ≡ false
  pub resolves_positive : refused_term c.resolve_max_attempts ≡ false
  pub timeout_positive : refused_term c.timeout ≡ false
  pub backoff_positive : refused_term c.initial_backoff ≡ false
  pub resolve_timeout_positive : refused_term c.resolve_timeout ≡ false
  pub resolve_backoff_positive : refused_term c.resolve_initial_backoff ≡ false
  pub bound_positive : refused_term c.reclaim_bound ≡ false

positive : (z : ℤ) → refused_term z ≡ false → (n : ℕ) × (z ≡ pos (suc n))
positive (pos (suc n)) h = (n, refl)
positive (pos zero) h = absurd (ground arith)
positive (negsuc n) h = absurd (ground arith)

budget-size :
    (attempts timeout wait : ℤ)
    → refused_term attempts ≡ false
    → refused_term timeout ≡ false
    → refused_term wait ≡ false
    → size wait ≤ max_duration
    → budget attempts timeout wait ≡ capped (longest (size attempts) (size timeout) (size wait))
budget-size attempts timeout wait a t w b =
    let (n, e) = positive attempts a in
    let (k, f) = positive timeout t in
    let (m, g) = positive wait w in ground (arith, budget-longest n (suc k) (suc m) (ground arith))

max_claim_hold-longest :
    (c : DeliveryConfig)
    → AllPositive c
    → size c.initial_backoff ≤ max_duration
    → size c.resolve_initial_backoff ≤ max_duration
    → max_claim_hold c ≡ capped (longest_hold c)
unfolding max_claim_hold
max_claim_hold-longest c p b r =
    rw
      (budget-size c.max_attempts c.timeout c.initial_backoff p.attempts_positive p.timeout_positive
        p.backoff_positive b)
      (rw
        (budget-size c.resolve_max_attempts c.resolve_timeout c.resolve_initial_backoff
          p.resolves_positive p.resolve_timeout_positive p.resolve_backoff_positive r)
        (add-capped _ _))

validate-AllPositive : (c : DeliveryConfig) → validate c ≡ none → AllPositive c
unfolding validate
validate-AllPositive c h = ground arith

validate_positive :
    (c : DeliveryConfig)
    → AllPositive c
    → validate c
      ≡ refused_bound (max_claim_hold c) (mul_duration (max_claim_hold c) (pos 2)) c.reclaim_bound
unfolding validate
validate_positive c p = ground arith

refused_bound_iff :
    (hold : ℕ) (bound : ℤ)
    → refused_term bound ≡ false
    → (refused_bound (capped hold) (capped (hold * 2)) bound ≡ none)
      ↔ ((hold * 2 < max_duration) × (hold * 2 ≤ size bound))
refused_bound_iff hold bound b = ground arith

validate-size :
    (c : DeliveryConfig)
    → AllPositive c
    → size c.initial_backoff ≤ max_duration
    → size c.resolve_initial_backoff ≤ max_duration
    → validate c
      ≡ refused_bound (capped (longest_hold c)) (capped (longest_hold c * 2)) c.reclaim_bound
validate-size c p b r =
    validate_positive c p
    ∙ rw (max_claim_hold-longest c p b r) (rw (double-capped (longest_hold c)) refl)

-- With waits that are int64 durations, a configuration is accepted exactly when all its terms are
-- positive and the longest that a claim can be held, counted without overflow, is at most half the
-- reclaim bound and less than half the largest duration.
pub validate_iff :
    (c : DeliveryConfig)
    → size c.initial_backoff ≤ max_duration
    → size c.resolve_initial_backoff ≤ max_duration
    → (validate c ≡ none) ↔ (
        AllPositive c
        × (longest_hold c * 2 < max_duration)
        × (longest_hold c * 2 ≤ size c.reclaim_bound))
validate_iff c b r = (
  λ h.
      let p = validate-AllPositive c h in
      let q =
        (refused_bound_iff (longest_hold c) c.reclaim_bound p.bound_positive).0
          (sym (validate-size c p b r) ∙ h) in
      (p, q.0, q.1),
  λ (p, q, u).
      validate-size c p b r
      ∙ (refused_bound_iff (longest_hold c) c.reclaim_bound p.bound_positive).1 (q, u),
)
