-- ===== src/Video/Relay/Delivery.antt =====
-- Which rows a cycle of the relay stamps.
use video_processor.Prelude.{
  ℕ, suc, Text, text_eq, text_eq_iff, Bool, true, false, Bool-cases, Option, none, some, List, [],
  ◌∷◌, ◌≡◌, refl, inl, inr, arith,
}
use video_processor.Errors.{Error, Result, Result-cases, ok, err}
use video_processor.Redis.{Fate, heard, unreached, unheard}
use video_processor.Video.Store.{EventType}
use video_processor.Video.Outbox.{
  OutboxRow, OutboxMessage, claimed_rows, scan_messages, has_id, stamp, claim, mark_published,
  commit,
}
use video_processor.Video.Publisher.{
  Message, Broker, max_publish_batch, await_all, unreturned, publish_batch, publish, with_acked,
}
use video_processor.Video.Relay.{Poll, messages_of, cycle, after_mark, after_publish, after_claim}

-- The broker acknowledged a message of the id.
pub data Acknowledged (b : Broker) : ℕ → List Message → Text → Type 0 where
  here :
      (n : ℕ) (m : Message) (rest : List Message)
      → b.confirms n ≡ ok true
      → Acknowledged b n (m ∷ rest) m.id
  there :
      {n : ℕ} {rest : List Message} {i : Text} (m : Message)
      → Acknowledged b (suc n) rest i
      → Acknowledged b n (m ∷ rest) i

-- It was acknowledged, and no return has its id.
abbrev pub Accepted : Broker → List Message → Text → Type 0
Accepted b ms i = Acknowledged b 0 ms i × (has_id i b.returns ≡ false)

-- Row by row, the second table is the first one, with the time set on rows that have the property.
pub data Stamped (P : Text → Type 0) (now : ℕ) : List OutboxRow → List OutboxRow → Type 0 where
  no_rows : Stamped P now [] []
  untouched :
      {rows after : List OutboxRow} (r : OutboxRow)
      → Stamped P now rows after
      → Stamped P now (r ∷ rows) (r ∷ after)
  stamped :
      {rows after : List OutboxRow} (r : OutboxRow)
      → P r.event.event_id
      → Stamped P now rows after
      → Stamped P now (r ∷ rows) (record r { published_at = some now } ∷ after)

unreturned_ids :
    (i : Text) (returned acked : List Text)
    → has_id i (unreturned returned acked) ≡ true
    → (has_id i acked ≡ true) × (has_id i returned ≡ false)
unfolding unreturned has_id
unreturned_ids i returned [] h = absurd (ground arith)
unreturned_ids i returned (j ∷ acked) h =
    ground (arith, unreturned_ids i returned acked, text_eq_iff i j)

acked_is :
    (a : Bool) (i : Text) (rest acked : List Text)
    → ◌≡◌ {A = Result (List Text)} (ok (with_acked i a rest)) (ok acked)
    → with_acked i a rest ≡ acked
acked_is a i rest acked h = ground arith

joined_ids :
    (b : Broker) (n : ℕ) (i : Text) (m : Message) (ms : List Message) (a : Bool) (rest : List Text)
    → b.confirms n ≡ ok a
    → (has_id i rest ≡ true → Acknowledged b (suc n) ms i)
    → has_id i (with_acked m.id a rest) ≡ true
    → Acknowledged b n (m ∷ ms) i
unfolding has_id
joined_ids b n i m ms false rest f p h = there m (p h)
joined_ids b n i m ms true rest f p h = elim (Bool-cases (text_eq i m.id)) [
  | inl e ↦ rw ((text_eq_iff i m.id).0 e) (here n m ms f)
  | inr e ↦ there m (p (rw e at h))
]

Acknowledged-await :
    (b : Broker) (n : ℕ) (i : Text) (ms : List Message) (acked : List Text)
    → await_all b n ms ≡ ok acked
    → has_id i acked ≡ true
    → Acknowledged b n ms i
unfolding await_all has_id
Acknowledged-await b n i [] acked h k = absurd (ground arith)
Acknowledged-await b n i (m ∷ ms) acked h k = elim (Result-cases (b.confirms n)) [
  | inr (e, f) ↦ absurd (ground arith)
  | inl (a, f) ↦ elim (Result-cases (await_all b (suc n) ms)) [
    | inr (e, g) ↦ absurd (ground arith)
    | inl (rest, g) ↦
        joined_ids b n i m ms a rest f (Acknowledged-await b (suc n) i ms rest g)
          (rw (acked_is a m.id rest acked (rw g at (rw f at h))) k)
  ]
]

untouched_all : (P : Text → Type 0) (now : ℕ) (table : List OutboxRow) → Stamped P now table table
untouched_all P now [] = no_rows
untouched_all P now (r ∷ table) = untouched r (untouched_all P now table)

stamp-Stamped :
    (P : Text → Type 0) (now : ℕ) (ids : List Text) (table : List OutboxRow)
    → ((i : Text) → has_id i ids ≡ true → P i)
    → Stamped P now table (stamp now ids table)
unfolding stamp
stamp-Stamped P now ids [] p = no_rows
stamp-Stamped P now ids (r ∷ table) p = elim (Bool-cases (has_id r.event.event_id ids)) [
  | inl e ↦ rw e (stamped r (p r.event.event_id e) (stamp-Stamped P now ids table p))
  | inr f ↦ rw f (untouched r (stamp-Stamped P now ids table p))
]

batch_Accepted :
    (b : Broker) (ms : List Message) (published : List Text) (i : Text)
    → publish_batch b ms ≡ ok published
    → has_id i published ≡ true
    → Accepted b ms i
batch_Accepted b ms published i h k = elim (Result-cases (await_all b 0 ms)) [
  | inr (e, g) ↦ absurd (ground arith)
  | inl (acked, g) ↦
      let (a, r) = unreturned_ids i b.returns acked (ground arith) in
      (Acknowledged-await b 0 i ms acked g a, r)
]

published_Accepted :
    (b : Broker) (ms : List Message) (published : List Text) (i : Text)
    → publish b ms ≡ ok published
    → has_id i published ≡ true
    → Accepted b ms i
unfolding publish has_id
published_Accepted b [] published i h k = absurd (ground arith)
published_Accepted b (m ∷ ms) published i h k =
    batch_Accepted b (m ∷ ms) published i (ground arith) k

committed_Stamped :
    (P : Text → Type 0) (now : ℕ) (f : Fate) (marked table : List OutboxRow)
    → Stamped P now table marked
    → Stamped P now table (commit f marked table).1
unfolding commit
committed_Stamped P now heard marked table s = s
committed_Stamped P now (unreached e) marked table s = untouched_all P now table
committed_Stamped P now (unheard e) marked table s = s

marked_Stamped :
    (P : Text → Type 0) (p : Poll) (failure : Option Error) (ids : List Text)
    (table : List OutboxRow)
    → ((i : Text) → has_id i ids ≡ true → P i)
    → Stamped P p.now table (after_mark p table (mark_published failure p.now ids table)).1
unfolding mark_published
marked_Stamped P p failure [] table h =
    committed_Stamped P p.now p.committing table table (untouched_all P p.now table)
marked_Stamped P p (some e) (i ∷ ids) table h = untouched_all P p.now table
marked_Stamped P p none (i ∷ ids) table h =
    committed_Stamped P p.now p.committing (stamp p.now (i ∷ ids) table) table
      (stamp-Stamped P p.now (i ∷ ids) table h)

published_Stamped :
    (p : Poll) (table : List OutboxRow) (ms : List Message) (m : Result (List Text))
    → publish p.broker ms ≡ m
    → Stamped (Accepted p.broker ms) p.now table (after_publish p table m).1
published_Stamped p table ms (err e) h = untouched_all (Accepted p.broker ms) p.now table
published_Stamped p table ms (ok published) h =
    marked_Stamped (Accepted p.broker ms) p p.marking published table
      (λ i k. published_Accepted p.broker ms published i h k)

claimed_Stamped :
    (p : Poll) (table : List OutboxRow) (batch : List OutboxMessage)
    → Stamped (Accepted p.broker (messages_of batch)) p.now table (after_claim p table (ok batch)).1
claimed_Stamped p table [] = untouched_all (Accepted p.broker (messages_of [])) p.now table
claimed_Stamped p table (m ∷ ms) =
    published_Stamped p table (messages_of (m ∷ ms)) (publish p.broker (messages_of (m ∷ ms))) refl

-- The messages that a cycle would publish.
abbrev pub batch_of : List EventType → List OutboxRow → List Message
batch_of types table = messages_of (scan_messages (claimed_rows types max_publish_batch table))

claim-Stamped :
    (types : List EventType) (p : Poll) (failure : Option Error) (table : List OutboxRow)
    → Stamped
        (Accepted p.broker (batch_of types table))
        p.now
        table
        (after_claim p table (claim types max_publish_batch failure table)).1
unfolding claim
claim-Stamped [] p failure table = untouched_all (Accepted p.broker (batch_of [] table)) p.now table
claim-Stamped (t ∷ types) p (some e) table =
    untouched_all (Accepted p.broker (batch_of (t ∷ types) table)) p.now table
claim-Stamped (t ∷ types) p none table =
    claimed_Stamped p table (scan_messages (claimed_rows (t ∷ types) max_publish_batch table))

-- However the calls of a cycle fare, it changes nothing but the time of publication, and sets that
-- only where the row's id is that of a message of the claimed batch that the broker acknowledged
-- and did not return.
pub cycle-Stamped :
    (types : List EventType) (p : Poll) (table : List OutboxRow)
    → Stamped (Accepted p.broker (batch_of types table)) p.now table (cycle types p table).1
unfolding cycle
cycle-Stamped types p table = claim-Stamped types p p.claiming table
