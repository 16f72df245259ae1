-- ===== src/Notification/Delivering.antt =====
-- internal/notification/application/deliver_notification.go: one terminal event, handled for each
-- preference of its user. The records are those of the event's deliveries, by channel. The waits
-- themselves are in Notification/Budget; here a pause only completes or is cut off.
pub mod Requests
use video_processor.Prelude.{
  ℕ, zero, suc, ◌+◌, ◌-◌, ltb, ℤ, pos, negsuc, Text, codes, is_empty, text_eq, Bool, true, false,
  ◌&&◌, ◌||◌, not, if◌then◌else◌, Option, none, some, List, [], ◌∷◌,
}
use video_processor.Errors.{Error, Result, ok, err}
use video_processor.Redis.{Fate}
use video_processor.Notification.Budget.{DeliveryConfig}
use video_processor.Notification.Deliveries.{
  DeliveryStatus, delivered, failed, Delivery, Record, Claim, granted, already_resolved,
  held_by_another, Attempt, claim_delivery, resolve_delivery,
}

pub record TerminalEvent : Type 0 where
  pub user_id : Text
  pub event_type : Text
  pub job_id : Text
  pub occurred_at : ℕ
  pub frame_count : ℤ
  pub storage_key : Text
  pub reason : Text

pub record Preference : Type 0 where
  pub channel : Text
  pub created_at : ℕ

pub data DeliveryDisposition : Type 0 where
  handled : DeliveryDisposition
  deferred : Option Error → DeliveryDisposition

-- What one delivery meets. The `n`th request is answered with success or with the reason that
-- `reasonFor` makes of its error; a pause before the `n`th request, or before the `n`th resolution,
-- completes or is cut off; and others act before the `n`th resolution.
pub record Surroundings : Type 0 where
  pub clock : ℕ
  pub claiming : Attempt
  pub answer : ℕ → Option Text
  pub paused : ℕ → Bool
  pub before : ℕ → Record → Record
  pub resolving : ℕ → Fate
  pub resolve_paused : ℕ → Bool
  pub resolve_clock : ℕ → ℕ

-- The status, how many requests were made, and the reason.
abbrev pub AttemptOutcome : Type 0
AttemptOutcome = DeliveryStatus × ℕ × Text

abbrev pub cut_off : ℕ → Bool → Bool
cut_off zero completed = false
cut_off (suc n) completed = not completed

abbrev pub answered : ℕ → Option Text → (Text → AttemptOutcome) → AttemptOutcome
answered made none again = (delivered, suc made, [])
answered made (some reason) again = again reason

-- The loop of `attempt`; one request is made in each round, so the round counts them.
unfoldable pub attempt_from : Surroundings → (left made : ℕ) → (reason : Text) → AttemptOutcome
attempt_from s zero made reason = (failed, made, reason)
attempt_from s (suc left) made reason =
    if cut_off made (s.paused made)
    then (failed, made, reason)
    else answered made (s.answer made) (attempt_from s left (suc made))

-- `attempt < MaxAttempts`, for an int.
abbrev pub rounds : ℤ → ℕ
rounds (pos n) = n
rounds (negsuc n) = 0

abbrev pub attempt : Surroundings → DeliveryConfig → AttemptOutcome
attempt s c = attempt_from s (rounds c.max_attempts) 0 []

-- Applied or superseded, an answer ends the loop.
abbrev pub resolved_or : Result Bool × Record → (Record → Record) → Record
resolved_or (ok applied, r) again = r
resolved_or (err e, r) again = again r

-- The loop of `record`.
module _ (s : Surroundings) (d : Delivery) (status : DeliveryStatus) (attempts : ℕ)
    (reason : Text) where
  unfoldable pub record_from : (left round : ℕ) → Record → Record
  record_from zero round r = r
  record_from (suc left) round r =
      if cut_off round (s.resolve_paused round)
      then r
      else resolved_or
          (resolve_delivery (s.resolving round) d.id d.claim_token status (pos attempts) reason
            (s.resolve_clock round) (s.before round r))
          (record_from left (suc round))

-- The disposition, how many requests were made, and the record.
abbrev pub Delivering : Type 0
Delivering = DeliveryDisposition × ℕ × Record

abbrev pub recorded :
    Surroundings → DeliveryConfig → Delivery → AttemptOutcome → Record → Delivering
recorded s c d (status, attempts, reason) r =
    (handled, attempts, record_from s d status attempts reason (rounds c.resolve_max_attempts) 0 r)

abbrev pub claim_taken : Surroundings → DeliveryConfig → Result Claim × Record → Delivering
claim_taken s c (err e, r) = (deferred (some e), 0, r)
claim_taken s c (ok already_resolved, r) = (handled, 0, r)
claim_taken s c (ok held_by_another, r) = (deferred none, 0, r)
claim_taken s c (ok (granted d), r) = recorded s c d (attempt s c) r

-- What `NewDeliveryIdentity` refuses.
abbrev pub unnamed : TerminalEvent → Preference → Bool
unnamed event p =
    is_empty event.user_id
    || (is_empty event.event_type || (is_empty p.channel || is_empty event.job_id))

-- `now.Add(-ReclaimBound)`, on a clock that is past the bound.
abbrev pub boundary : ℕ → ℤ → ℕ
boundary now (pos n) = now - n
boundary now (negsuc n) = now + suc n

unfoldable pub deliver_one :
    Surroundings → DeliveryConfig → TerminalEvent → Preference → Record → Delivering
unfolding attempt_from record_from
deliver_one s c event p r =
    if unnamed event p
    then (handled, 0, r)
    else claim_taken s c (claim_delivery s.claiming s.clock (boundary s.clock c.reclaim_bound) r)

abbrev pub DeliveryRecords : Type 0
DeliveryRecords = Text → Record

abbrev pub set_record : Text → Record → DeliveryRecords → DeliveryRecords
set_record channel r records other = if text_eq other channel then r else records other

abbrev pub after_one :
    Text
    → Delivering
    → DeliveryRecords
    → ℕ
    → (DeliveryRecords → ℕ → DeliveryDisposition × ℕ × DeliveryRecords)
    → DeliveryDisposition × ℕ × DeliveryRecords
after_one channel (handled, made, r) records before rest =
    rest (set_record channel r records) (before + made)
after_one channel (deferred e, made, r) records before rest =
    (deferred e, before + made, set_record channel r records)

module _ (surroundings : Text → Surroundings) (c : DeliveryConfig) (event : TerminalEvent) where
  -- The loop of `Execute`; a preference may be nil, and one that is not older than the event is
  -- skipped.
  unfoldable pub deliver_each :
      List (Option Preference) → DeliveryRecords → ℕ → DeliveryDisposition × ℕ × DeliveryRecords
  unfolding text_eq
  deliver_each [] records made = (handled, made, records)
  deliver_each (none ∷ ps) records made = deliver_each ps records made
  deliver_each (some p ∷ ps) records made =
      if ltb p.created_at event.occurred_at
      then after_one p.channel (deliver_one (surroundings p.channel) c event p (records p.channel))
          records made (deliver_each ps)
      else deliver_each ps records made

  unfoldable pub execute :
      Result (List (Option Preference))
      → DeliveryRecords
      → DeliveryDisposition × ℕ × DeliveryRecords
  execute (err e) records = (deferred (some e), 0, records)
  execute (ok ps) records = deliver_each ps records 0
