-- ===== src/Worker/Consuming.antt =====
-- The consumer of cmd/worker/main.go: the handler under the deliveries of one connection.
use video_processor.Prelude.{ℕ, ◌≡◌, ◌⊎◌, Text, Option, some, List, [], ◌∷◌}
use video_processor.Errors.{Result, ok}
use video_processor.Video.Store.{Database}
use video_processor.Video.Exec.{Visit}
use video_processor.Video.UseCases.Claims.{Dispatched}
use video_processor.Video.Process.{Run}
use video_processor.Video.Process.Endings.{Terminal}
use video_processor.Video.Consumer.{requeued, rejected, Settled}
use video_processor.Worker.Dispatch.{Disposition, Message, Verdict, handle}

-- A delivery: the decoded body, if it decodes, and what the handler's calls meet.
pub record QueuedDelivery : Type 0 where
  pub body : Option Message
  pub run : Run
  pub visits : ℕ → Visit

abbrev verdict_of : Verdict × Database → Disposition × Database
verdict_of (v, db) = (v.disposition, db)

unfoldable pub handler : (Text → Result Text) → QueuedDelivery → Database → Disposition × Database
handler parse d db = verdict_of (handle parse d.run d.visits d.body db)

-- The deliveries of a connection, in order: an acknowledged one has named a job, whose row was then
-- terminal or dispatched again by the newest event.
pub data Honoured (parse : Text → Result Text)
    : List (Settled QueuedDelivery Database) → Type 0 where
  none_left : Honoured parse []
  dead_lettered :
      {rest : List (Settled QueuedDelivery Database)} (d : Settled QueuedDelivery Database)
      → d.settlement ≡ rejected
      → Honoured parse rest
      → Honoured parse (d ∷ rest)
  handed_over :
      {rest : List (Settled QueuedDelivery Database)} (d : Settled QueuedDelivery Database)
      → d.settlement ≡ requeued
      → Honoured parse rest
      → Honoured parse (d ∷ rest)
  finished :
      {rest : List (Settled QueuedDelivery Database)} (d : Settled QueuedDelivery Database)
      (m : Message) (i : Text)
      → d.delivery.body ≡ some m
      → parse m.job_id ≡ ok i
      → Terminal i d.left ⊎ Dispatched i d.left
      → Honoured parse rest
      → Honoured parse (d ∷ rest)
