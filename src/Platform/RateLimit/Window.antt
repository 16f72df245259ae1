-- ===== src/Platform/RateLimit/Window.antt =====
-- What the limiter promises of a window.
use video_processor.Prelude.{
  ℕ, suc, ◌+◌, ◌*◌, ◌-◌, ◌≤◌, ◌<◌, pos, Text, true, false, ◌≡◌, ◌⊎◌, inl, inr, none, some, List, [],
  ◌∷◌, arith,
}
use video_processor.Errors.{ok}
use video_processor.Redis.{Key, Fate, heard, unreached, unheard}
use video_processor.Platform.RateLimit.{
  Config, allow_script, ms_to_retry_after, allow, Decision, passes, refuses, rate_limit_middleware,
}

abbrev pub counted : Decision → ℕ
counted passes = 1
counted (refuses s) = 0

-- How many requests of one user pass the middleware, from a state of the user's key.
unfoldable pub passed : Text → Config → List (Fate × ℕ) → Key ℕ → ℕ
passed user c [] k = 0
passed user c ((f, now) ∷ rest) k =
    let (decision, left) = rate_limit_middleware f now c (some user) k in
    counted decision + passed user c rest left

abbrev failed_call : Fate → ℕ
failed_call heard = 0
failed_call (unreached e) = 1
failed_call (unheard e) = 1

-- How many of the calls of the limiter fail.
unfoldable pub failures : List (Fate × ℕ) → ℕ
failures [] = 0
failures ((f, now) ∷ rest) = failed_call f + failures rest

-- The requests come from one time on and before another.
pub data Within (begins ends : ℕ) : List (Fate × ℕ) → Type 0 where
  over : Within begins ends []
  request :
      {rest : List (Fate × ℕ)} (f : Fate) (now : ℕ)
      → begins ≤ now
      → now < ends
      → Within begins ends rest
      → Within begins ends ((f, now) ∷ rest)

module _ (user : Text) (c : Config) (m : ℕ) (h : c.max_requests ≡ pos m) where
  -- One request at a key whose window is open: what it leaves, and what it takes of the budget.
  inside :
      (f : Fate) (now value ends : ℕ)
      → now < ends
      → (next : ℕ) × ((rate_limit_middleware f now c
            (some user)
            (some (record { value = value; expires = ends }))).1
          ≡ some (record { value = next; expires = ends }))
        × (counted
                (rate_limit_middleware f now c
                  (some user)
                  (some (record { value = value; expires = ends }))).0
              + (m - next)
            ≤ (m - value) + failed_call f)
  unfolding rate_limit_middleware allow allow_script
  inside heard now value ends b = (suc value, ground arith, ground arith)
  inside (unheard e) now value ends b = (suc value, ground arith, ground arith)
  inside (unreached e) now value ends b = (value, ground arith, ground arith)

  inside_all :
      (begins ends expires value : ℕ) (xs : List (Fate × ℕ))
      → ends ≤ expires
      → Within begins ends xs
      → passed user c xs (some (record { value = value; expires = expires }))
        ≤ (m - value) + failures xs
  unfolding passed failures
  inside_all begins ends expires value [] l over = omega arith
  inside_all begins ends expires value _ l (request {rest} f now a b p) =
      let (next, e, le) = inside f now value expires (omega arith) in
      rw e (omega (arith, inside_all begins ends expires next rest l p))

  -- The first call that reaches the key opens its window; before it every request passes on a
  -- failure.
  opening :
      (f : Fate) (now : ℕ)
      → 0 < c.window_seconds
      → ((rate_limit_middleware f now c (some user) none).1 ≡ none)
          × (counted (rate_limit_middleware f now c (some user) none).0 ≤ failed_call f)
        ⊎ ((rate_limit_middleware f now c (some user) none).1
            ≡ some (record { value = 1; expires = now + c.window_seconds * 1000 }))
          × (counted (rate_limit_middleware f now c (some user) none).0 + (m - 1)
              ≤ m + failed_call f)
  unfolding rate_limit_middleware allow allow_script
  opening heard now w = inr (ground arith, ground arith)
  opening (unheard e) now w = inr (ground arith, ground arith)
  opening (unreached e) now w = inl (ground arith, ground arith)

  -- With a window that is not empty: in the window that a key's first request opens, the middleware
  -- lets through at most the configured number of requests and one more for each call of the
  -- limiter that fails, on which it fails open, the first request's included.
  pub window_limit :
      (begins : ℕ) (xs : List (Fate × ℕ))
      → 0 < c.window_seconds
      → Within begins (begins + c.window_seconds * 1000) xs
      → passed user c xs none ≤ m + failures xs
  unfolding passed failures
  window_limit begins [] w over = omega arith
  window_limit begins _ w (request {rest} f now a b p) = elim (opening f now w) [
    | inl (e, le) ↦ rw e (omega (arith, window_limit begins rest w p))
    | inr (e, le) ↦ rw e (
        omega (
          arith,
          inside_all begins (begins + c.window_seconds * 1000) (now + c.window_seconds * 1000) 1
              rest (omega arith) p,
        ))
  ]

-- A client that was refused and waits as long as it was told is allowed, if no other request
-- reaches its key in between and the configured number is positive.
retry_allowed :
    (c : Config) (k : Key ℕ) (now later s m : ℕ)
    → c.max_requests ≡ pos (suc m)
    → (allow heard now c k).0 ≡ ok (false, s)
    → now + s * 1000 ≤ later
    → (allow heard later c (allow heard now c k).1).0 ≡ ok (true, 0)
unfolding allow allow_script ms_to_retry_after
retry_allowed c k now later s m h denied w = ground arith
