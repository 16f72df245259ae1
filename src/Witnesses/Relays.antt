-- ===== src/Witnesses/Relays.antt =====
-- The theorems on the relay, at a table of two rows that it carries and one that it does not.
use video_processor.Prelude.{ℕ, codes, true, false, none, List, [], ◌∷◌}
use video_processor.Errors.{ok}
use video_processor.Redis.{heard}
use video_processor.Video.Store.{created_event, queued_event, queued_payload, created_payload}
use video_processor.Video.Outbox.{OutboxRow}
use video_processor.Video.Relay.{
  Poll, cycle, dispatch_types, undialled, ended, run, second, dial_backoff_initial,
  dial_backoff_max,
}
use video_processor.Video.Relay.Delivery.{Stamped, Accepted, batch_of, cycle-Stamped}
use video_processor.Video.Relay.Backoff.{AllWithin, run-AllWithin}

abbrev dispatch : ℕ → OutboxRow
dispatch at = record {
  event = record {
    event_id = at ∷ [];
    event_type = queued_event;
    payload = queued_payload (codes "0d3f") (codes "user-1") (codes "upload-1") (codes "c0ffee") at;
    occurred_at = at;
  };
  published_at = none;
  locked = false;
}

abbrev creation : OutboxRow
creation = record {
  event = record {
    event_id = 9 ∷ [];
    event_type = created_event;
    payload = created_payload (codes "0d3f") (codes "user-1") (codes "clip.mp4") 0;
    occurred_at = 0;
  };
  published_at = none;
  locked = false;
}

abbrev table : List OutboxRow
table = dispatch 2 ∷ creation ∷ dispatch 1 ∷ []

abbrev well : Poll
well = record {
  claiming = none;
  broker = record { sends = λ n. none; confirms = λ n. ok true; returns = [] };
  marking = none;
  now = 5;
  committing = heard;
}

-- The broker returns the older message.
abbrev returning : Poll
returning = record well {
  broker = record { sends = λ n. none; confirms = λ n. ok true; returns = (1 ∷ []) ∷ [] };
}

cycle-Stamped_example :
    Stamped
      (Accepted returning.broker (batch_of dispatch_types table))
      5
      table
      (cycle dispatch_types returning table).1
cycle-Stamped_example = cycle-Stamped dispatch_types returning table

run-AllWithin_example :
    AllWithin second dial_backoff_max
      (run dial_backoff_initial (
        undialled false ∷ ended false false false ∷ ended true false false ∷ undialled true ∷ [])).0
run-AllWithin_example =
    run-AllWithin
      (undialled false ∷ ended false false false ∷ ended true false false ∷ undialled true ∷ [])
