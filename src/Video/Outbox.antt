-- ===== src/Video/Outbox.antt =====
-- internal/video/infrastructure/postgres/outbox.go: the relay's view of the table
-- video_job_outbox. A batch is the list of the rows that it claimed; these are locked to its end, so
-- that no other transaction changes them.
use video_processor.Prelude.{
  ℕ, leb, Text, codes, text_eq, Bool, true, false, not, ◌&&◌, ◌||◌, if◌then◌else◌, Option, none,
  some, List, [], ◌∷◌, take,
}
use video_processor.Errors.{Error, plain, Result, ok, err}
use video_processor.Redis.{Fate, heard, unreached, unheard}
use video_processor.Video.Store.{
  EventType, created_event, queued_event, completed_event, failed_event, Payload, OutboxEvent,
}

-- `locked` is a row that another transaction holds.
pub record OutboxRow : Type 0 where
  pub event : OutboxEvent
  pub published_at : Option ℕ
  pub locked : Bool

-- What a claim reads of a row.
pub record OutboxMessage : Type 0 where
  pub id : Text
  pub event_type : EventType
  pub payload : Payload

abbrev pub type_eq : EventType → EventType → Bool
type_eq created_event created_event = true
type_eq queued_event queued_event = true
type_eq completed_event completed_event = true
type_eq failed_event failed_event = true
type_eq _ _ = false

-- `event_type = ANY($1)`
unfoldable pub any_type : EventType → List EventType → Bool
any_type t [] = false
any_type t (u ∷ us) = type_eq t u || any_type t us

abbrev unpublished : Option ℕ → Bool
unpublished none = true
unpublished (some t) = false

-- `WHERE .. AND published_at IS NULL`, with `SKIP LOCKED`.
abbrev pub is_claimable : List EventType → OutboxRow → Bool
is_claimable types r =
    any_type r.event.event_type types && (unpublished r.published_at && not r.locked)

unfoldable pub claimable : List EventType → List OutboxRow → List OutboxRow
claimable types [] = []
claimable types (r ∷ rows) =
    let rest = claimable types rows in if is_claimable types r then r ∷ rest else rest

-- `ORDER BY occurred_at`; the server may order rows of one time in any way.
unfoldable pub insert_by_time : OutboxRow → List OutboxRow → List OutboxRow
insert_by_time r [] = r ∷ []
insert_by_time r (s ∷ rows) =
    if leb r.event.occurred_at s.event.occurred_at then r ∷ s ∷ rows else s ∷ insert_by_time r rows

unfoldable pub order_by_time : List OutboxRow → List OutboxRow
order_by_time [] = []
order_by_time (r ∷ rows) = insert_by_time r (order_by_time rows)

-- The rows that the query of a claim answers.
unfoldable pub claimed_rows : List EventType → ℕ → List OutboxRow → List OutboxRow
claimed_rows types limit table = take limit (order_by_time (claimable types table))

abbrev pub scan_message : OutboxRow → OutboxMessage
scan_message r = record {
  id = r.event.event_id;
  event_type = r.event.event_type;
  payload = r.event.payload;
}

unfoldable pub scan_messages : List OutboxRow → List OutboxMessage
scan_messages [] = []
scan_messages (r ∷ rows) = scan_message r ∷ scan_messages rows

abbrev pub claim_query :
    List EventType → ℕ → Option Error → List OutboxRow → Result (List OutboxMessage)
claim_query types limit (some e) table = err e
claim_query types limit none table = ok (scan_messages (claimed_rows types limit table))

-- The error, if any, is that of a call of the driver.
unfoldable pub claim :
    List EventType → ℕ → Option Error → List OutboxRow → Result (List OutboxMessage)
claim [] limit failure table = err (plain (codes "no event type given"))
claim (t ∷ types) limit failure table = claim_query (t ∷ types) limit failure table

unfoldable pub has_id : Text → List Text → Bool
has_id i [] = false
has_id i (j ∷ ids) = text_eq i j || has_id i ids

-- `UPDATE .. SET published_at = now() WHERE id = ANY(ids)`
unfoldable pub stamp : ℕ → List Text → List OutboxRow → List OutboxRow
stamp now ids [] = []
stamp now ids (r ∷ table) =
    (if has_id r.event.event_id ids then record r { published_at = some now } else r)
    ∷ stamp now ids table

-- In the transaction: the rows as its later statements see them.
unfoldable pub mark_published :
    Option Error → ℕ → List Text → List OutboxRow → Result (List OutboxRow)
mark_published failure now [] table = ok table
mark_published (some e) now (i ∷ ids) table = err e
mark_published none now (i ∷ ids) table = ok (stamp now (i ∷ ids) table)

-- The commit of the rows as they are in the transaction, over the table as it was.
unfoldable pub commit : Fate → List OutboxRow → List OutboxRow → Option Error × List OutboxRow
commit heard marked table = (none, marked)
commit (unreached e) marked table = (some e, table)
commit (unheard e) marked table = (some e, marked)
