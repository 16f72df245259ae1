-- ===== src/Video/Lease/Holding.antt =====
-- What the lease calls do to one another when several runs of a job share its key.
use video_processor.Prelude.{
  ℕ, ◌+◌, ◌<◌, ℤ, ltb_ℤ, true, false, ◌≡◌, refl, ◌⊎◌, inl, inr, Bool-cases, Option, none, some,
  List, [], ◌∷◌, arith,
}
use video_processor.Errors.{ok}
use video_processor.Redis.{current, Fate, heard}
use video_processor.Video.Lease.{
  Value, written, Lease, set_until, foreign, may_acquire, names, acquire, renew, release, held,
  tick,
}

-- What a run of the job may ask of the store: `asks e` below is one call for the epoch `e`.
pub data Request : Type 0 where
  acquires renews releases : Request

-- A call of some run, at a time, and the loop's tick of the run that holds the lease.
pub data Event : Type 0 where
  asks : ℤ → Request → Fate → ℕ → Event
  ticks : ℤ → Fate → Fate → ℕ → ℕ → Event

unfoldable pub event : Event → Lease → Lease
unfolding acquire renew release tick
event (asks e acquires f now) s = (acquire f now e s).1
event (asks e renews f now) s = (renew f now e s).1
event (asks e releases f now) s = (release f now e s).1
event (ticks e f g now later) s = (tick f g now later e s).1

unfoldable pub events : Lease → List Event → Lease
events s [] = s
events s (x ∷ xs) = events (event x s) xs

-- A schedule in which the holder of `epoch`, whose lease was set at `from`, renews it in time: its
-- ticks are heard and come before the lease ends, and every other call is for an older epoch and
-- comes before the lease ends. The last renewal is at `to`.
pub data Paced (epoch : ℤ) : ℕ → ℕ → List Event → Type 0 where
  rests : {from : ℕ} → Paced epoch from from []
  rivals :
      {from to : ℕ} {xs : List Event} {e : ℤ} (r : Request) (f : Fate) (now : ℕ)
      → ltb_ℤ e epoch ≡ true
      → now < from + 90
      → Paced epoch from to xs
      → Paced epoch from to (asks e r f now ∷ xs)
  renewed :
      {from to : ℕ} {xs : List Event} (g : Fate) (now later : ℕ)
      → now < from + 90
      → Paced epoch now to xs
      → Paced epoch from to (ticks epoch heard g now later ∷ xs)

rival_lem :
    (epoch e : ℤ) (from now : ℕ) (r : Request) (f : Fate)
    → ltb_ℤ e epoch ≡ true
    → now < from + 90
    → event (asks e r f now) (set_until from epoch) ≡ set_until from epoch
unfolding event acquire renew release current
rival_lem epoch e from now acquires f h k = ground arith
rival_lem epoch e from now renews f h k = ground arith
rival_lem epoch e from now releases f h k = ground arith

tick_lem :
    (epoch : ℤ) (from now later : ℕ) (g : Fate)
    → now < from + 90
    → event (ticks epoch heard g now later) (set_until from epoch) ≡ set_until now epoch
unfolding event tick renew acquire current
tick_lem epoch from now later g k = ground arith

events_lem :
    (epoch : ℤ) (from to : ℕ) (xs : List Event)
    → Paced epoch from to xs
    → events (set_until from epoch) xs ≡ set_until to epoch
unfolding events
events_lem epoch from to xs rests = refl
events_lem epoch from to xs (rivals {e = e} r f now h k p) =
    rw (rival_lem epoch e from now r f h k) (events_lem epoch from to _ p)
events_lem epoch from to xs (renewed g now later k p) =
    rw (tick_lem epoch from now later g k) (events_lem epoch now to _ p)

held_lem :
    (epoch : ℤ) (from now : ℕ)
    → now < from + 90
    → held heard now epoch (set_until from epoch) ≡ ok true
unfolding held current
held_lem epoch from now k = ground arith

-- A lease that its holder renews in time, its renewals being answered, is held at every moment up
-- to 90 seconds after the last renewal, whatever the superseded runs of the same job ask of the
-- store in between: their acquires, renewals and releases, each for an older epoch, take nothing
-- from it.
pub kept_alive :
    (epoch : ℤ) (from to now : ℕ) (xs : List Event)
    → Paced epoch from to xs
    → now < to + 90
    → held heard now epoch (events (set_until from epoch) xs) ≡ ok true
kept_alive epoch from to now xs p k = rw (events_lem epoch from to xs p) (held_lem epoch to now k)

-- The stored text reads as a number above the epoch.
abbrev pub Newer : ℤ → Option Value → Type 0
Newer epoch v =
    (n : ℤ) × (ltb_ℤ epoch n ≡ true) × ((v ≡ some (written n)) ⊎ (v ≡ some (foreign (some n))))

refused_lem : (epoch : ℤ) (v : Option Value) → may_acquire epoch v ≡ false → Newer epoch v
refused_lem epoch none h = absurd (ground arith)
refused_lem epoch (some (written n)) h = (n, ground arith, inl refl)
refused_lem epoch (some (foreign none)) h = absurd (ground arith)
refused_lem epoch (some (foreign (some n))) h = (n, ground arith, inr refl)

-- The loop of a run stops at a tick only when the store held a number above the run's epoch:
-- neither a failure of the store nor a lease that lapsed or was never set stops it. That tick
-- leaves the newer lease as it was.
tick_stopped :
    (f g : Fate) (now later : ℕ) (epoch : ℤ) (s : Lease)
    → (tick f g now later epoch s).0 ≡ false
    → Newer epoch (current later s) × ((tick f g now later epoch s).1 ≡ s)
unfolding tick renew acquire
tick_stopped f g now later epoch s h = elim (Bool-cases (names epoch (current now s))) [
  | inl a ↦ absurd (ground arith)
  | inr a ↦ elim (Bool-cases (may_acquire epoch (current later s))) [
    | inl b ↦ absurd (ground arith)
    | inr b ↦ (refused_lem epoch (current later s) b, ground arith)
  ]
]
