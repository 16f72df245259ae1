-- ===== src/Witnesses/Notices.antt =====
-- The theorems on the Notification context, at the default budget and at one delivery.
use video_processor.Prelude.{
  ◌*◌, ◌≤◌, ◌<◌, pos, codes, true, if◌then◌else◌, ◌==◌, ◌≡◌, refl, ◌≢◌, ◌↔◌, none, some, List, [],
  ◌∷◌, arith,
}
use video_processor.Errors.{ok}
use video_processor.Notification.Delivering.{
  TerminalEvent, Preference, Surroundings, boundary, deliver_one, DeliveryRecords, execute,
}
use video_processor.Notification.Delivering.Requests.{
  Licensed, deliver_one-Licensed, one_more, none_left, execute_again,
}
use video_processor.Redis.{heard}
use video_processor.Notification.Budget.{default_delivery_config, max_duration, validate}
use video_processor.Notification.Budget.Exact.{AllPositive, longest_hold, size, validate_iff}
use video_processor.Notification.Deliveries.{
  delivered, failed, Delivery, granted, new_claimed_delivery, Attempt, claim_delivery,
  resolve_delivery, restore_delivery,
}
use video_processor.Notification.Deliveries.Claims.{
  Event, claims, resolves, events, Events, no_more, followed_by, Foreign, Recorded, grant_honoured,
}

validate_iff_example : (validate default_delivery_config ≡ none) ↔ (
    AllPositive default_delivery_config
    × (longest_hold default_delivery_config * 2 < max_duration)
    × (longest_hold default_delivery_config * 2 ≤ size default_delivery_config.reclaim_bound))
validate_iff_example = validate_iff default_delivery_config (omega arith) (omega arith)

abbrev our_claim : Attempt
our_claim = record {
  claiming = heard;
  classifying = none;
  meanwhile = λ r. r;
  minted_id = codes "d1";
  minted_token = codes "t1";
}

abbrev rival : Attempt
rival = record our_claim { minted_id = codes "d2"; minted_token = codes "t2" }

abbrev claimed : Delivery
claimed = new_claimed_delivery (codes "d1") (codes "t1") 1000

-- A rival claims inside the bound, and the claimant before this one resolves late.
abbrev interference : List Event
interference =
    claims rival 1060 940
    ∷ resolves heard (codes "d1") (codes "t0") failed (pos 3) (codes "timeout") 1070
    ∷ []

claim_done : (claim_delivery our_claim 1000 880 none).0 ≡ ok (granted claimed)
unfolding claim_delivery restore_delivery
claim_done = refl

stale_token : codes "t0" ≢ codes "t1"
stale_token h = ground arith

interference_lem : Events (Foreign (codes "t1") 1000) interference
interference_lem =
    followed_by (claims rival 1060 940) (λ r. refl, omega arith)
      (followed_by (resolves heard (codes "d1") (codes "t0") failed (pos 3) (codes "timeout") 1070)
        stale_token no_more)

grant_honoured_example :
    ((resolve_delivery heard
        (codes "d1")
        (codes "t1")
        delivered
        (pos 1)
        []
        1080
        (events (claim_delivery our_claim 1000 880 none).1 interference)).0
      ≡ ok true)
    × Recorded claimed delivered
        (pos 1)
        []
        (resolve_delivery heard
          (codes "d1")
          (codes "t1")
          delivered
          (pos 1)
          []
          1080
          (events (claim_delivery our_claim 1000 880 none).1 interference)).1
grant_honoured_example =
    grant_honoured our_claim 1000 880 1080 none claimed interference delivered (pos 1) [] claim_done
      interference_lem refl refl (λ h. ground arith)

abbrev ended : Delivery
ended = record claimed { status = delivered; attempts = pos 1; resolved_at = 1080 }

-- A redelivery long after the bound.
abbrev redelivery : List Event
redelivery = claims rival 9000 8880 ∷ []

abbrev event : TerminalEvent
event = record {
  user_id = codes "user-1";
  event_type = codes "failed";
  job_id = codes "0d3f";
  occurred_at = 900;
  frame_count = pos 0;
  storage_key = [];
  reason = codes "broken";
}

abbrev preference : Preference
preference = record { channel = codes "email"; created_at = 100 }

-- The first request fails and the second is delivered.
abbrev meets : Surroundings
meets = record {
  clock = 1000;
  claiming = our_claim;
  answer = λ n. if n == 0 then some (codes "timeout") else none;
  paused = λ n. true;
  before = λ n r. r;
  resolving = λ n. heard;
  resolve_paused = λ n. true;
  resolve_clock = λ n. 1010;
}

deliver_one-Licensed_example :
    Licensed default_delivery_config
      (claim_delivery our_claim 1000 (boundary 1000 (pos 120000000000)) none).0
      (deliver_one meets default_delivery_config event preference none)
deliver_one-Licensed_example =
    deliver_one-Licensed meets default_delivery_config event preference none

abbrev settled_records : DeliveryRecords
settled_records channel = some ended

execute_again_example :
    ((execute
        (λ channel. meets)
        default_delivery_config
        event
        (ok (some preference ∷ none ∷ []))
        settled_records).1
      ≡ 0)
    × ((execute
          (λ channel. meets)
          default_delivery_config
          event
          (ok (some preference ∷ none ∷ []))
          settled_records).2
        ≡ settled_records)
execute_again_example =
    execute_again (λ channel. meets) default_delivery_config event (λ channel r. refl)
      (some preference ∷ none ∷ []) settled_records
      (one_more (some preference) (ended, refl, refl) (one_more none tt none_left))
