-- ===== src/Video/Consumer.antt =====
-- internal/video/infrastructure/messaging/consumer.go: the deliveries of one connection, each handed
-- to the handler and settled by its verdict. `B` is what a delivery brings to the handler, its body
-- with what the handler's calls meet, and `S` is the state that the handler works on.
use video_processor.Prelude.{Text, codes, Bool, true, false, Option, none, some, List, [], ◌∷◌}
use video_processor.Errors.{Error, plain}
use video_processor.Worker.Dispatch.{Disposition, ack, reject, requeue}

-- `Ack(false)`, `Nack(false, true)` and `Reject(false)`. A failure of the call is logged.
pub data Settlement : Type 0 where
  acked requeued rejected : Settlement

-- One delivery after its settlement: whether the consumer pauses, and the state that it leaves.
pub record Settled (B S : Type 0) : Type 0 where
  pub delivery : B
  pub settlement : Settlement
  pub pauses : Bool
  pub left : S

abbrev pub settled_as : {B S : Type 0} → B → Disposition × S → Settled B S
settled_as d (ack, s) = record { delivery = d; settlement = acked; pauses = false; left = s }
settled_as d (requeue, s) = record { delivery = d; settlement = requeued; pauses = true; left = s }
settled_as d (reject, s) = record { delivery = d; settlement = rejected; pauses = false; left = s }

-- What the `select` receives. `over` is a context that is done when a delivery is received; a closed
-- notification channel carries no error.
pub data Incoming (B : Type 0) : Type 0 where
  stopped : Incoming B
  connection_closed : Option Error → Incoming B
  channel_closed : Option Error → Incoming B
  deliveries_closed : Incoming B
  delivered : (over : Bool) → B → Incoming B

abbrev closed_with : Text → Option Error → Option Error
closed_with m (some e) = some e
closed_with m none = some (plain m)

-- Why the connection was given up, if it was while it is observed, and the deliveries settled on it.
abbrev pub Trace : Type 0 → Type 0 → Type 0
Trace B S = Option Error × List (Settled B S)

abbrev pub then_settled : {B S : Type 0} → Settled B S → Trace B S → Trace B S
then_settled d (failure, rest) = (failure, d ∷ rest)

-- On shutdown a delivery goes back to the queue and the handler does not run.
abbrev pub handed_back : {B S : Type 0} → B → S → Settled B S
handed_back d s = record { delivery = d; settlement = requeued; pauses = false; left = s }

module _ {B S : Type 0} (handle : B → S → Disposition × S) where
  unfoldable pub dispatch : B → S → Settled B S
  dispatch d s = settled_as d (handle d s)

  unfoldable pub serve_deliveries : List (Incoming B) → S → Trace B S
  unfolding dispatch
  serve_deliveries [] s = (none, [])
  serve_deliveries (stopped ∷ rest) s = (none, [])
  serve_deliveries (connection_closed e ∷ rest) s =
      (closed_with (codes "broker connection closed") e, [])
  serve_deliveries (channel_closed e ∷ rest) s =
      (closed_with (codes "consuming channel closed") e, [])
  serve_deliveries (deliveries_closed ∷ rest) s =
      (some (plain (codes "deliveries channel closed")), [])
  serve_deliveries (delivered true d ∷ rest) s = (none, handed_back d s ∷ [])
  serve_deliveries (delivered false d ∷ rest) s =
      let one = dispatch d s in then_settled one (serve_deliveries rest one.left)

  -- `served`, and the trace: the topology, the channel, its prefetch and the consume may fail.
  unfoldable pub serve : Option Error → List (Incoming B) → S → Bool × Trace B S
  serve (some e) signals s = (false, (some e, []))
  serve none signals s = (true, serve_deliveries signals s)
