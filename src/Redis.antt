-- ===== src/Redis.antt =====
-- What the stores of the program use of Redis: one key with its expiry, and calls
-- on it that may fail. A command, or a script, is one step.
use video_processor.Prelude.{ℕ, ◌+◌, ltb, if◌then◌else◌, Option, none, some}
use video_processor.Errors.{Error, Result, ok, err}

pub record Entry (A : Type 0) : Type 0 where
  pub value : A
  pub expires : ℕ  -- in seconds

-- `none` is a key that is not set.
abbrev pub Key : Type 0 → Type 0
Key A = Option (Entry A)

-- `GET`: a key is gone when its time has come.
unfoldable pub current : {A : Type 0} → ℕ → Key A → Option A
current now none = none
current now (some x) = if ltb now x.expires then some x.value else none

-- `SET .. EX seconds`
abbrev pub set_for : {A : Type 0} → ℕ → ℕ → A → Key A
set_for now seconds value = some (record { value = value; expires = now + seconds })

-- How a call of a store fares: its answer is heard; it is not run; it is run and its answer lost.
pub data Fate : Type 0 where
  heard : Fate
  unreached : Error → Fate
  unheard : Error → Fate

abbrev pub settled : {A S : Type 0} → Fate → A × S → S → Result A × S
settled heard (a, new) old = (ok a, new)
settled (unreached e) (a, new) old = (err e, old)
settled (unheard e) (a, new) old = (err e, new)
