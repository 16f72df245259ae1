-- ===== src/Notification/Deliveries.antt =====
-- internal/notification/infrastructure/postgres/delivery_repository.go: the claim of a delivery and
-- its resolution, on the record of one identity (user, event type, channel, job). A time is a
-- number, whose zero is Go's zero time. The identity is one that `NewDeliveryIdentity` made.
pub mod Claims
use video_processor.Prelude.{
  ℕ, zero, suc, ltb, ◌==◌, ℤ, pos, is_negative, Text, codes, is_empty, text_eq, Bool, true, false,
  ◌&&◌, not, if◌then◌else◌, Option, none, some, [],
}
use video_processor.Errors.{Error, plain, Result, ok, err}
use video_processor.Redis.{Fate, settled}

pub data DeliveryStatus : Type 0 where
  pending delivered failed : DeliveryStatus

abbrev pub is_resolved : DeliveryStatus → Bool
is_resolved pending = false
is_resolved delivered = true
is_resolved failed = true

pub record Delivery : Type 0 where
  pub id : Text
  pub claim_token : Text
  pub status : DeliveryStatus
  pub attempts : ℤ
  pub claimed_at : ℕ
  pub resolved_at : ℕ
  pub reason : Text

-- The row of the identity, if there is one.
abbrev pub Record : Type 0
Record = Option Delivery

pub data Claim : Type 0 where
  granted : Delivery → Claim
  already_resolved : Claim
  held_by_another : Claim

-- What `RestoreDelivery` checks, for a claim that is granted.
unfoldable pub restore_delivery : Delivery → Result Delivery
restore_delivery d =
    if is_empty d.id
    then err (plain (codes "notification: invalid delivery id"))
    else if is_empty d.claim_token
    then err (plain (codes "notification: invalid claim token"))
    else if is_negative d.attempts
    then err (plain (codes "notification: delivery attempts must not be negative"))
    else if d.claimed_at == 0
    then err (plain (codes "notification: delivery claimed at is required"))
    else if is_resolved d.status
    then if d.resolved_at == 0
      then err (plain (codes "notification: delivery resolved at does not match the status"))
      else ok d
    else if d.resolved_at == 0
    then ok d
    else err (plain (codes "notification: delivery resolved at does not match the status"))

abbrev pub new_claimed_delivery : Text → Text → ℕ → Delivery
new_claimed_delivery id token claimed_at = record {
  id = id;
  claim_token = token;
  status = pending;
  attempts = pos 0;
  claimed_at = claimed_at;
  resolved_at = 0;
  reason = [];
}

-- `claimDeliveryQuery`: the row that it returns, and the record after it.
abbrev pub claim_statement :
    (id token : Text) (now stale_before : ℕ) → Record → Option Delivery × Record
claim_statement id token now stale_before none =
    let d = new_claimed_delivery id token now in (some d, some d)
claim_statement id token now stale_before (some r) =
    if not (is_resolved r.status) && ltb r.claimed_at stale_before
    then (
      some (new_claimed_delivery r.id token now),
      some (record r { claim_token = token; claimed_at = now; attempts = pos 0 }),
    )
    else (none, some r)

abbrev pub classify_refusal : Record → Claim
classify_refusal none = held_by_another
classify_refusal (some r) = if is_resolved r.status then already_resolved else held_by_another

abbrev granted_as : Result Delivery → Result Claim
granted_as (ok d) = ok (granted d)
granted_as (err e) = err e

-- The second statement runs after a refusal, on what is there by then, and may fail by itself.
abbrev claim_answer :
    Option Error → (Record → Record) → Result (Option Delivery) × Record → Result Claim × Record
claim_answer classifying meanwhile (err e, r) = (err e, r)
claim_answer classifying meanwhile (ok (some d), r) = (granted_as (restore_delivery d), r)
claim_answer (some e) meanwhile (ok none, r) = (err e, meanwhile r)
claim_answer none meanwhile (ok none, r) = (ok (classify_refusal (meanwhile r)), meanwhile r)

-- What surrounds a claim: how its statement and the one after a refusal fare, what others do between
-- them, and the two identifiers that are minted for it.
pub record Attempt : Type 0 where
  pub claiming : Fate
  pub classifying : Option Error
  pub meanwhile : Record → Record
  pub minted_id : Text
  pub minted_token : Text

unfoldable pub claim_delivery : Attempt → (now stale_before : ℕ) → Record → Result Claim × Record
unfolding restore_delivery
claim_delivery a now stale_before r =
    if now == 0
    then (err (plain (codes "notification: delivery claimed at is required")), r)
    else if stale_before == 0
    then (err (plain (codes "notification: claim delivery: the reclaim boundary is required")), r)
    else claim_answer a.classifying a.meanwhile
        (settled a.claiming (claim_statement a.minted_id a.minted_token now stale_before r) r)

-- `resolveDeliveryQuery`: whether it met the row, and the record after it.
abbrev pub resolve_statement :
    (id token : Text) → DeliveryStatus → ℤ → (reason : Text) (now : ℕ) → Record → Bool × Record
resolve_statement id token status attempts reason now none = (false, none)
resolve_statement id token status attempts reason now (some r) =
    if text_eq r.id id && (text_eq r.claim_token token && not (is_resolved r.status))
    then (
      true,
      some (record r { status = status; attempts = attempts; reason = reason; resolved_at = now }),
    )
    else (false, some r)

unfoldable pub resolve_delivery :
    Fate
    → (id token : Text) → DeliveryStatus
    → ℤ
    → (reason : Text) (now : ℕ) → Record
    → Result Bool × Record
unfolding text_eq
resolve_delivery f id token status attempts reason now r =
    if is_empty id
    then (err (plain (codes "notification: invalid delivery id")), r)
    else if is_empty token
    then (err (plain (codes "notification: invalid claim token")), r)
    else if not (is_resolved status)
    then (err (plain (codes "notification: resolve delivery: not a resolved status")), r)
    else if is_negative attempts
    then (err (plain (codes "notification: delivery attempts must not be negative")), r)
    else if now == 0
    then (err (plain (codes "notification: delivery resolved at does not match the status")), r)
    else settled f (resolve_statement id token status attempts reason now r) r
