-- ===== src/Notification/Deliveries/Claims.antt =====
-- What a granted claim of a delivery is worth.
use video_processor.Prelude.{
  ℕ, ◌≤◌, ℤ, pos, is_negative, Text, is_empty, text_eq_iff, true, false, ◌≡◌, refl, ◌≢◌, none, some,
  List, [], ◌∷◌, arith,
}
use video_processor.Errors.{ok}
use video_processor.Redis.{Fate, heard}
use video_processor.Notification.Deliveries.{
  DeliveryStatus, pending, is_resolved, Delivery, Record, granted, Attempt, claim_delivery,
  resolve_delivery,
}

-- A call for the delivery, of this claimant or of another.
pub data Event : Type 0 where
  claims : Attempt → (now stale_before : ℕ) → Event
  resolves : Fate → (id token : Text) → DeliveryStatus → ℤ → (reason : Text) (now : ℕ) → Event

unfoldable pub event : Event → Record → Record
unfolding claim_delivery resolve_delivery
event (claims a now stale) r = (claim_delivery a now stale r).1
event (resolves f id token status attempts reason now) r =
    (resolve_delivery f id token status attempts reason now r).1

unfoldable pub events : Record → List Event → Record
events r [] = r
events r (x ∷ xs) = events (event x r) xs

-- Interference is an event of its own.
abbrev pub Alone : Attempt → Type 0
Alone a = (r : Record) → a.meanwhile r ≡ r

-- The events of others while a claim is fresh: their claims look back no further than it, and their
-- resolutions carry other tokens.
abbrev pub Foreign : (token : Text) (claimed_at : ℕ) → Event → Type 0
Foreign token claimed_at (claims a now stale) = Alone a × (stale ≤ claimed_at)
Foreign token claimed_at (resolves f id other status attempts reason now) = other ≢ token

pub data Events (P : Event → Type 0) : List Event → Type 0 where
  no_more : Events P []
  followed_by : {xs : List Event} (x : Event) → P x → Events P xs → Events P (x ∷ xs)

foreign_lem :
    (d : Delivery) (x : Event) → Foreign d.claim_token d.claimed_at x → event x (some d) ≡ some d
unfolding event claim_delivery resolve_delivery
foreign_lem d (claims a now stale) (alone, late) = ground (arith, alone (some d))
foreign_lem d (resolves f id other status attempts reason now) h =
    ground (arith, text_eq_iff d.claim_token other)

events-Foreign :
    (d : Delivery) (xs : List Event)
    → Events (Foreign d.claim_token d.claimed_at) xs
    → events (some d) xs ≡ some d
unfolding events
events-Foreign d [] no_more = refl
events-Foreign d _ (followed_by {xs} x h rest) = rw (foreign_lem d x h) (events-Foreign d xs rest)

-- A claim that is granted has written its row.
abbrev Holds : Delivery → Record → Type 0
Holds d r =
    (s : Delivery) × (r ≡ some s)
    × (s.id ≡ d.id)
    × (s.claim_token ≡ d.claim_token)
    × (s.claimed_at ≡ d.claimed_at)
    × (s.status ≡ pending)
    × (is_empty d.id ≡ false)
    × (is_empty d.claim_token ≡ false)

granted-Holds :
    (a : Attempt) (now stale : ℕ) (r : Record) (d : Delivery)
    → (claim_delivery a now stale r).0 ≡ ok (granted d)
    → Holds d (claim_delivery a now stale r).1
unfolding claim_delivery
granted-Holds a now stale none d h =
    (d, ground arith, refl, refl, refl, ground arith, ground arith, ground arith)
granted-Holds a now stale (some r) d h = (
  record r { claim_token = a.minted_token; claimed_at = now; attempts = pos 0 },
  ground arith,
  ground arith,
  ground arith,
  ground arith,
  ground arith,
  ground arith,
  ground arith,
)

-- The record carries an outcome of a delivery.
abbrev pub Recorded : Delivery → DeliveryStatus → ℤ → Text → Record → Type 0
Recorded d status attempts reason r =
    (s : Delivery) × (r ≡ some s)
    × (s.id ≡ d.id)
    × (s.status ≡ status)
    × (s.attempts ≡ attempts)
    × (s.reason ≡ reason)

resolved_lem :
    (d s : Delivery) (status : DeliveryStatus) (attempts : ℤ) (reason : Text) (now : ℕ)
    → s.id ≡ d.id
    → s.claim_token ≡ d.claim_token
    → s.status ≡ pending
    → is_empty d.id ≡ false
    → is_empty d.claim_token ≡ false
    → is_resolved status ≡ true
    → is_negative attempts ≡ false
    → now ≢ 0
    → resolve_delivery heard d.id d.claim_token status attempts reason now (some s) ≡ (
      ok true,
      some (record s { status = status; attempts = attempts; reason = reason; resolved_at = now }),
    )
unfolding resolve_delivery
resolved_lem d s status attempts reason now i t p e f k n z =
    ground (arith, text_eq_iff s.id d.id, text_eq_iff s.claim_token d.claim_token)

-- A granted claim is honoured: while others only claim with a boundary that is no later than it,
-- and resolve with other tokens, its own resolution, if it is answered, is applied and leaves the
-- record with its outcome, under the identifier that the grant answered. The outcome is one that
-- the call takes: a resolved status, a count that is not negative, and a time.
pub grant_honoured :
    (a : Attempt) (now stale later : ℕ) (r : Record) (d : Delivery) (xs : List Event)
    (status : DeliveryStatus) (attempts : ℤ) (reason : Text)
    → (claim_delivery a now stale r).0 ≡ ok (granted d)
    → Events (Foreign d.claim_token d.claimed_at) xs
    → is_resolved status ≡ true
    → is_negative attempts ≡ false
    → later ≢ 0
    → ((resolve_delivery heard d.id d.claim_token status attempts reason later
          (events (claim_delivery a now stale r).1 xs)).0
        ≡ ok true)
      × Recorded d status attempts reason
          (resolve_delivery heard d.id d.claim_token status attempts reason later
            (events (claim_delivery a now stale r).1 xs)).1
grant_honoured a now stale later r d xs status attempts reason h p k n z =
    let (s, e, i, t, c, w, f, g) = granted-Holds a now stale r d h in
    let kept = events-Foreign s xs (rw (t, c) p) in
    rw e (
      rw kept (
        rw (resolved_lem d s status attempts reason later i t w f g k n z) (
          refl,
          (
            record s { status = status; attempts = attempts; reason = reason; resolved_at = later },
            refl,
            i,
            refl,
            refl,
            refl,
          ),
        )))

-- Any resolution, and any claim.
abbrev pub Any : Event → Type 0
Any (claims a now stale) = Alone a
Any (resolves f id token status attempts reason now) = Unit {0}

final_lem :
    (d : Delivery) (x : Event) → is_resolved d.status ≡ true → Any x → event x (some d) ≡ some d
unfolding event claim_delivery resolve_delivery
final_lem d (claims a now stale) f alone = ground (arith, alone (some d))
final_lem d (resolves g id token status attempts reason now) f h = ground arith

-- A delivery that has ended is never claimed or written again, whatever claims and resolutions
-- come, with any token, at any time.
resolved_final :
    (d : Delivery) (xs : List Event)
    → is_resolved d.status ≡ true
    → Events Any xs
    → events (some d) xs ≡ some d
unfolding events
resolved_final d [] f no_more = refl
resolved_final d _ f (followed_by {xs} x h rest) =
    rw (final_lem d x f h) (resolved_final d xs f rest)

pub claim_final :
    (a : Attempt) (now stale : ℕ) (d : Delivery)
    → is_resolved d.status ≡ true
    → Alone a
    → (claim_delivery a now stale (some d)).1 ≡ some d
unfolding event
claim_final a now stale d f alone = final_lem d (claims a now stale) f alone
