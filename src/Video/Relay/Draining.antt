-- ===== src/Video/Relay/Draining.antt =====
-- How cycles that go well bring the backlog down.
use video_processor.Prelude.{ℕ, suc, length, Text, true, if◌then◌else◌, none, List, [], ◌∷◌, ◌≡◌}
use video_processor.Errors.{ok}
use video_processor.Redis.{heard}
use video_processor.Video.Store.{EventType}
use video_processor.Video.Outbox.{OutboxRow, claimable, has_id}
use video_processor.Video.Relay.{Poll, cycle}

-- Every call answers, and the broker takes and routes every message.
pub record GoesWell (p : Poll) : Type 0 where
  pub claims : p.claiming ≡ none
  pub sends : (n : ℕ) → p.broker.sends n ≡ none
  pub confirms : (n : ℕ) → p.broker.confirms n ≡ ok true
  pub returns : p.broker.returns ≡ []
  pub marks : p.marking ≡ none
  pub commits : p.committing ≡ heard

-- How many rows of a list have one of the ids.
unfoldable listed : List Text → List OutboxRow → ℕ
listed ids [] = 0
listed ids (r ∷ rows) =
    let rest = listed ids rows in if has_id r.event.event_id ids then suc rest else rest

unfoldable row_ids : List OutboxRow → List Text
row_ids [] = []
row_ids (r ∷ rows) = r.event.event_id ∷ row_ids rows

-- What is left to publish of some types.
abbrev pub backlog : List EventType → List OutboxRow → ℕ
backlog types table = length (claimable types table)

-- One cycle after another.
unfoldable pub cycles : List EventType → List Poll → List OutboxRow → List OutboxRow
cycles types [] table = table
cycles types (p ∷ polls) table = cycles types polls (cycle types p table).1

pub data AllGoWell : List Poll → Type 0 where
  no_polls : AllGoWell []
  another : {polls : List Poll} (p : Poll) → GoesWell p → AllGoWell polls → AllGoWell (p ∷ polls)
