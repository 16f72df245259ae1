-- ===== src/Video/Publisher.antt =====
-- internal/video/infrastructure/messaging/publisher.go: a batch of messages on a channel in confirm
-- mode. What the broker does with each publish is given by the place of the message in the batch.
use video_processor.Prelude.{
  ℕ, suc, ltb, Text, codes, Bool, true, false, not, if◌then◌else◌, Option, none, some, List, [],
  ◌∷◌, length,
}
use video_processor.Errors.{Error, plain, Result, ok, err, ◌>>=◌}
use video_processor.Video.Store.{EventType, Payload}
use video_processor.Video.Outbox.{has_id}

-- The routing key is the event type of the row.
pub record Message : Type 0 where
  pub id : Text
  pub routing_key : EventType
  pub body : Payload

-- `maxPublishBatch`
abbrev pub max_publish_batch : ℕ
max_publish_batch = 100

-- What a call meets: whether the publish of a message fails, what the wait for its confirmation
-- answers, and the ids of the returns that are buffered when the last confirmation has come.
pub record Broker : Type 0 where
  pub sends : ℕ → Option Error
  pub confirms : ℕ → Result Bool
  pub returns : List Text

unfoldable pub publish_all : Broker → ℕ → List Message → Result (Unit {0})
publish_all b i [] = ok tt
publish_all b i (m ∷ messages) = elim (b.sends i) [
  | some e ↦ err e
  | none ↦ publish_all b (suc i) messages
]

abbrev pub with_acked : Text → Bool → List Text → List Text
with_acked i true acked = i ∷ acked
with_acked i false acked = acked

-- The ids of the messages that were acknowledged.
unfoldable pub await_all : Broker → ℕ → List Message → Result (List Text)
await_all b i [] = ok []
await_all b i (m ∷ messages) = do
  acked ← b.confirms i
  rest ← await_all b (suc i) messages
  ok (with_acked m.id acked rest)

unfoldable pub unreturned : List Text → List Text → List Text
unreturned returned [] = []
unreturned returned (i ∷ acked) =
    let rest = unreturned returned acked in if not (has_id i returned) then i ∷ rest else rest

abbrev pub publish_batch : Broker → List Message → Result (List Text)
publish_batch b messages = do
  sent ← publish_all b 0 messages
  acked ← await_all b 0 messages
  ok (unreturned b.returns acked)

unfoldable pub publish : Broker → List Message → Result (List Text)
publish b [] = ok []
publish b (m ∷ messages) =
    if ltb max_publish_batch (length (m ∷ messages))
    then err (plain (codes "batch exceeds the maximum"))
    else publish_batch b (m ∷ messages)
