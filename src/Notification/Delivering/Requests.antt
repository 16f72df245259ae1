-- ===== src/Notification/Delivering/Requests.antt =====
-- When requests are made, and how many.
use mathlib.Core.Path.{fun_ext}
use video_processor.Prelude.{
  ℕ, zero, suc, ◌+◌, ◌≤◌, ltb, Text, text_eq, text_eq_iff, Bool-cases, true, ◌≡◌, refl, sym, ap,
  subst, ◌∙◌, ◌≢◌, ◌⊎◌, inl, inr, Option, none, some, List, [], ◌∷◌, arith,
}
use video_processor.Errors.{Result, ok, err}
use video_processor.Notification.Budget.{DeliveryConfig}
use video_processor.Notification.Deliveries.{
  is_resolved, Delivery, Record, Claim, granted, already_resolved, held_by_another, Attempt,
  claim_delivery,
}
use video_processor.Notification.Deliveries.Claims.{Alone, claim_final}
use video_processor.Notification.Delivering.{
  DeliveryRecords, set_record, after_one, deliver_each, execute, TerminalEvent, Preference,
  DeliveryDisposition, handled, deferred, Surroundings, AttemptOutcome, cut_off, answered,
  attempt_from, rounds, claim_taken, unnamed, boundary, deliver_one, Delivering,
}

answered-le :
    (made left : ℕ) (o : Option Text) (again : Text → AttemptOutcome)
    → ((reason : Text) → (again reason).1 ≤ suc made + left)
    → (answered made o again).1 ≤ made + suc left
answered-le made left none again h = omega arith
answered-le made left (some reason) again h = omega (arith, h reason)

attempt_from-le :
    (s : Surroundings) (left made : ℕ) (reason : Text)
    → (attempt_from s left made reason).1 ≤ made + left
unfolding attempt_from
attempt_from-le s zero made reason = omega arith
attempt_from-le s (suc left) made reason = elim (Bool-cases (cut_off made (s.paused made))) [
  | inl t ↦ rw t (omega arith)
  | inr f ↦ rw f (
      answered-le made left (s.answer made) (attempt_from s left (suc made))
        (attempt_from-le s left (suc made)))
]

-- No request was made, or the claim was granted, the event is handled, and the requests keep to the
-- budget.
abbrev pub Licensed : DeliveryConfig → Result Claim → Delivering → Type 0
Licensed c claim x =
    (x.1 ≡ 0)
    ⊎ (((d : Delivery) × (claim ≡ ok (granted d)))
        × (x.0 ≡ handled)
        × (x.1 ≤ rounds c.max_attempts))

claimed-Licensed :
    (s : Surroundings) (c : DeliveryConfig) (r : Result Claim × Record)
    → Licensed c r.0 (claim_taken s c r)
claimed-Licensed s c (err e, r) = inl refl
claimed-Licensed s c (ok already_resolved, r) = inl refl
claimed-Licensed s c (ok held_by_another, r) = inl refl
claimed-Licensed s c (ok (granted d), r) =
    inr ((d, refl), refl, omega (arith, attempt_from-le s (rounds c.max_attempts) 0 []))

-- A delivery makes no request unless its claim was granted; then it makes at most the configured
-- number of them, and the event is not put back on its account.
pub deliver_one-Licensed :
    (s : Surroundings) (c : DeliveryConfig) (event : TerminalEvent) (p : Preference) (r : Record)
    → Licensed c
        (claim_delivery s.claiming s.clock (boundary s.clock c.reclaim_bound) r).0
        (deliver_one s c event p r)
unfolding deliver_one
deliver_one-Licensed s c event p r = elim (Bool-cases (unnamed event p)) [
  | inl t ↦ rw t (inl refl)
  | inr f ↦ rw f (
      claimed-Licensed s c (claim_delivery s.claiming s.clock (boundary s.clock c.reclaim_bound) r))
]

-- A claim of an ended delivery is never granted.
never_granted :
    (a : Attempt) (now stale : ℕ) (d e : Delivery)
    → is_resolved d.status ≡ true
    → Alone a
    → (claim_delivery a now stale (some d)).0 ≢ ok (granted e)
unfolding claim_delivery
never_granted a now stale d e f alone = ground (arith, alone (some d))

claimed_quiet :
    (s : Surroundings) (c : DeliveryConfig) (d : Delivery) (r : Result Claim × Record)
    → ((e : Delivery) → r.0 ≢ ok (granted e))
    → r.1 ≡ some d
    → ((claim_taken s c r).1 ≡ 0) × ((claim_taken s c r).2 ≡ some d)
claimed_quiet s c d (err e, r) n h = (refl, h)
claimed_quiet s c d (ok already_resolved, r) n h = (refl, h)
claimed_quiet s c d (ok held_by_another, r) n h = (refl, h)
claimed_quiet s c d (ok (granted e), r) n h = absurd (n e refl)

deliver_one_quiet :
    (s : Surroundings) (c : DeliveryConfig) (event : TerminalEvent) (p : Preference) (d : Delivery)
    → is_resolved d.status ≡ true
    → Alone s.claiming
    → ((deliver_one s c event p (some d)).1 ≡ 0) × ((deliver_one s c event p (some d)).2 ≡ some d)
unfolding deliver_one
deliver_one_quiet s c event p d f alone = elim (Bool-cases (unnamed event p)) [
  | inl t ↦ rw t (refl, refl)
  | inr g ↦
      let stale = boundary s.clock c.reclaim_bound in
      rw g (
        claimed_quiet s c d (claim_delivery s.claiming s.clock stale (some d))
          (λ e. never_granted s.claiming s.clock stale d e f alone)
          (claim_final s.claiming s.clock stale d f alone))
]

-- The delivery of each preference has ended.
abbrev pub HasEnded : DeliveryRecords → Option Preference → Type 0
HasEnded records none = Unit {0}
HasEnded records (some p) =
    (d : Delivery) × (records p.channel ≡ some d) × (is_resolved d.status ≡ true)

pub data AllEnded (records : DeliveryRecords) : List (Option Preference) → Type 0 where
  none_left : AllEnded records []
  one_more :
      {ps : List (Option Preference)} (p : Option Preference)
      → HasEnded records p
      → AllEnded records ps
      → AllEnded records (p ∷ ps)

set_same_at :
    (channel other : Text) (records : DeliveryRecords)
    → set_record channel (records channel) records other ≡ records other
set_same_at channel other records = elim (Bool-cases (text_eq other channel)) [
  | inl t ↦ rw t (ap records (sym ((text_eq_iff other channel).0 t)))
  | inr f ↦ rw f refl
]

set_same :
    (channel : Text) (r : Record) (records : DeliveryRecords)
    → records channel ≡ r
    → set_record channel r records ≡ records
set_same channel r records h = rw⁻¹ h (fun_ext (λ other. set_same_at channel other records))

after_one_quiet :
    (channel : Text) (x : Delivering) (records : DeliveryRecords)
    (rest : DeliveryRecords → ℕ → DeliveryDisposition × ℕ × DeliveryRecords)
    → x.1 ≡ 0
    → set_record channel x.2 records ≡ records
    → ((rest records 0).1 ≡ 0) × ((rest records 0).2 ≡ records)
    → ((after_one channel x records 0 rest).1 ≡ 0)
      × ((after_one channel x records 0 rest).2 ≡ records)
after_one_quiet channel (handled, made, r) records rest m k h =
    rw m (subst (λ q. ((rest q 0).1 ≡ 0) × ((rest q 0).2 ≡ records)) (sym k) h)
after_one_quiet channel (deferred e, made, r) records rest m k h = (rw m refl, k)

module _ (surroundings : Text → Surroundings) (c : DeliveryConfig) (event : TerminalEvent)
    (alone : (channel : Text) → Alone (surroundings channel).claiming) where
  deliver_each_quiet :
      (ps : List (Option Preference)) (records : DeliveryRecords)
      → AllEnded records ps
      → ((deliver_each surroundings c event ps records 0).1 ≡ 0)
        × ((deliver_each surroundings c event ps records 0).2 ≡ records)
  unfolding deliver_each
  deliver_each_quiet [] records none_left = (refl, refl)
  deliver_each_quiet (none ∷ ps) records (one_more p e rest) = deliver_each_quiet ps records rest
  deliver_each_quiet (some p ∷ ps) records (one_more q (d, e, f) rest) =
      elim (Bool-cases (ltb p.created_at event.occurred_at)) [
        | inr g ↦ rw g (deliver_each_quiet ps records rest)
        | inl t ↦
            let (made, kept) =
              deliver_one_quiet (surroundings p.channel) c event p d f (alone p.channel) in
            rw t (
              after_one_quiet p.channel
                (deliver_one (surroundings p.channel) c event p (records p.channel)) records
                (deliver_each surroundings c event ps) (rw e made)
                (set_same p.channel
                  (deliver_one (surroundings p.channel) c event p (records p.channel)).2 records
                  (e ∙ sym (rw e kept)))
                (deliver_each_quiet ps records rest))
      ]

  -- Executing again a terminal event whose deliveries have all ended makes no request and changes
  -- no record, however late it comes and however its calls fare, if nobody else changes a record
  -- within its claims.
  pub execute_again :
      (ps : List (Option Preference)) (records : DeliveryRecords)
      → AllEnded records ps
      → ((execute surroundings c event (ok ps) records).1 ≡ 0)
        × ((execute surroundings c event (ok ps) records).2 ≡ records)
  unfolding execute
  execute_again ps records e = deliver_each_quiet ps records e
