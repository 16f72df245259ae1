-- ===== src/Video/Relay.antt =====
-- internal/video/infrastructure/messaging/relay.go: the relay that carries outbox rows to the
-- broker. Durations are in nanoseconds.
pub mod Delivery
pub mod Draining
pub mod Backoff
use video_processor.Prelude.{
  ℕ, ltb, ◌*◌, Text, codes, Bool, true, false, not, if◌then◌else◌, Option, none, some, List, [],
  ◌∷◌,
}
use video_processor.Errors.{Error, plain, Result, ok, err}
use video_processor.Redis.{Fate}
use video_processor.Video.Store.{EventType, queued_event, completed_event, failed_event}
use video_processor.Video.Outbox.{OutboxRow, OutboxMessage, claim, has_id, mark_published, commit}
use video_processor.Video.Publisher.{Message, Broker, publish, max_publish_batch}

-- The event types of `NewRelay` and of `NewTerminalRelay`.
abbrev pub dispatch_types : List EventType
dispatch_types = queued_event ∷ []

abbrev pub terminal_types : List EventType
terminal_types = completed_event ∷ failed_event ∷ []

-- What the calls of one cycle meet.
pub record Poll : Type 0 where
  pub claiming : Option Error
  pub broker : Broker
  pub marking : Option Error
  pub now : ℕ
  pub committing : Fate

abbrev pub message_of : OutboxMessage → Message
message_of m = record { id = m.id; routing_key = m.event_type; body = m.payload }

unfoldable pub messages_of : List OutboxMessage → List Message
messages_of [] = []
messages_of (m ∷ ms) = message_of m ∷ messages_of ms

-- `refusedIDs`, which are logged.
unfoldable pub refused_ids : List Message → List Text → List Text
refused_ids [] published = []
refused_ids (m ∷ messages) published =
    let rest = refused_ids messages published in
    if not (has_id m.id published) then m.id ∷ rest else rest

abbrev pub after_mark :
    Poll → List OutboxRow → Result (List OutboxRow) → Option Error × List OutboxRow
after_mark p table (err e) = (none, table)
after_mark p table (ok marked) = (none, (commit p.committing marked table).1)

abbrev pub after_publish :
    Poll → List OutboxRow → Result (List Text) → Option Error × List OutboxRow
after_publish p table (err e) = (some e, table)
after_publish p table (ok published) =
    after_mark p table (mark_published p.marking p.now published table)

abbrev pub after_claim :
    Poll → List OutboxRow → Result (List OutboxMessage) → Option Error × List OutboxRow
after_claim p table (err e) = (none, table)
after_claim p table (ok []) = (none, table)
after_claim p table (ok (m ∷ ms)) = after_publish p table (publish p.broker (messages_of (m ∷ ms)))

-- The error is that of the broker; the deferred rollback leaves the table as it was.
unfoldable pub cycle : List EventType → Poll → List OutboxRow → Option Error × List OutboxRow
cycle types p table = after_claim p table (claim types max_publish_batch p.claiming table)

-- What the `select` after a cycle receives; a closed notification channel carries no error.
pub data Signal : Type 0 where
  stopped : Signal
  connection_closed : Option Error → Signal
  channel_closed : Option Error → Signal
  ticked : Signal

abbrev pub closing : Text → Option Error → Option Error
closing m (some e) = some e
closing m none = some (plain m)

-- The polls of one connection, for as long as they are observed: whether a cycle was completed, why
-- the connection was given up, and the table.
unfoldable pub serve_polls :
    List EventType
    → Bool
    → List (Poll × Signal)
    → List OutboxRow
    → (Bool × Option Error) × List OutboxRow
serve_polls types served [] table = ((served, none), table)
serve_polls types served ((p, s) ∷ polls) table =
    let (failure, after) = cycle types p table in
    elim failure [
      | some e ↦ ((served, some e), after)
      | none ↦ elim s [
        | stopped ↦ ((true, none), after)
        | connection_closed e ↦ ((true, closing (codes "broker connection closed") e), after)
        | channel_closed e ↦ ((true, closing (codes "publishing channel closed") e), after)
        | ticked ↦ serve_polls types true polls after
      ]
    ]

-- `serve`: the declaration of the topology and the opening of the publisher may fail.
unfoldable pub serve :
    List EventType
    → Option Error
    → Option Error
    → List (Poll × Signal)
    → List OutboxRow
    → (Bool × Option Error) × List OutboxRow
serve types (some e) opening polls table = ((false, some e), table)
serve types none (some e) polls table = ((false, some e), table)
serve types none none polls table = serve_polls types false polls table

abbrev pub second : ℕ
second = 1000000000

abbrev pub dial_backoff_initial : ℕ
dial_backoff_initial = second

abbrev pub dial_backoff_max : ℕ
dial_backoff_max = 30 * second

-- `next > dialBackoffMax`; twice at most the largest backoff is far from the end of an int64.
unfoldable pub next_backoff : ℕ → ℕ
next_backoff current = if ltb dial_backoff_max (current * 2) then dial_backoff_max else current * 2

-- One turn of the loop of `Run`: the context is done at its start; the dial fails, or `serve` ends.
-- `over` is a context that is done when `serve` ends, `stops` one that ends the sleep.
pub data DialAttempt : Type 0 where
  cancelled : DialAttempt
  undialled : (stops : Bool) → DialAttempt
  ended : (served over stops : Bool) → DialAttempt

-- A sleep, and what comes after it.
abbrev pub sleeping : ℕ → List ℕ × Bool → List ℕ × Bool
sleeping backoff (waits, returned) = (backoff ∷ waits, returned)

-- The loop from a backoff: what it sleeps, turn by turn, and whether it has returned.
unfoldable pub run : ℕ → List DialAttempt → List ℕ × Bool
run backoff [] = ([], false)
run backoff (cancelled ∷ rest) = ([], true)
run backoff (undialled true ∷ rest) = (backoff ∷ [], true)
run backoff (undialled false ∷ rest) = sleeping backoff (run (next_backoff backoff) rest)
run backoff (ended served true stops ∷ rest) = ([], true)
run backoff (ended true false stops ∷ rest) = run dial_backoff_initial rest
run backoff (ended false false true ∷ rest) = (backoff ∷ [], true)
run backoff (ended false false false ∷ rest) = sleeping backoff (run (next_backoff backoff) rest)
