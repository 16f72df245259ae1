-- ===== src/Witnesses/Messages.antt =====
-- The theorem on the messages between the two contexts, with a wire format that reads back.
use video_processor.Prelude.{
  ℕ, zero, suc, pos, negsuc, Text, ◌==◌, if◌then◌else◌, ◌≡◌, refl, ap, true, Option, some, none, [],
  ◌∷◌, ◌++◌, length, take, drop, take-append, drop-append, arith,
}
use video_processor.Errors.{ok}
use video_processor.Json.{
  JsonValue, string_value, number_value, null_value, other_value, Object, Json, IsJson, is_utf8,
  utf8_from,
}
use video_processor.Video.Job.Consistency.{IsConsistent}
use video_processor.Video.Status.{is_valid}
use video_processor.Video.Store.{completed_event, event_type_text}
use video_processor.Video.Repository.{terminal_event_type, terminal_payload}
use video_processor.Video.Payloads.{marshal_payload}
use video_processor.Notification.Notifier.{decode_event}
use video_processor.Notification.Notifier.Announcing.{
  IsWritable, announcement, decode_event-terminal_payload,
}
use video_processor.Witnesses.World.{finished}

-- A text is written after its length, and a value after its kind.
abbrev write_text : Text → Text → Text
write_text t rest = length t ∷ (t ++ rest)

abbrev read_text : Text → Text × Text
read_text [] = ([], [])
read_text (n ∷ s) = (take n s, drop n s)

read_written : (t rest : Text) → read_text (write_text t rest) ≡ (t, rest)
read_written t rest =
    ground (arith, take-append t rest (length t) refl, drop-append t rest (length t) refl)

abbrev write_value : JsonValue → Text → Text
write_value (string_value t) rest = 0 ∷ write_text t rest
write_value (number_value (pos n)) rest = 1 ∷ n ∷ rest
write_value (number_value (negsuc n)) rest = 2 ∷ n ∷ rest
write_value null_value rest = 3 ∷ 0 ∷ rest
write_value other_value rest = 4 ∷ 0 ∷ rest

abbrev string_of : Text × Text → JsonValue × Text
string_of (t, rest) = (string_value t, rest)

abbrev kind_of : ℕ → Text → JsonValue × Text
kind_of kind [] = (other_value, [])
kind_of kind (n ∷ rest) =
    if kind == 1
    then (number_value (pos n), rest)
    else if kind == 2
    then (number_value (negsuc n), rest)
    else if kind == 3
    then (null_value, rest)
    else (other_value, rest)

abbrev read_value : Text → JsonValue × Text
read_value [] = (other_value, [])
read_value (kind ∷ s) = if kind == 0 then string_of (read_text s) else kind_of kind s

value_written : (v : JsonValue) (rest : Text) → read_value (write_value v rest) ≡ (v, rest)
value_written (string_value t) rest = ground (arith, read_written t rest)
value_written (number_value (pos n)) rest = ground arith
value_written (number_value (negsuc n)) rest = ground arith
value_written null_value rest = ground arith
value_written other_value rest = ground arith

abbrev write_members : Object → Text
write_members [] = []
write_members ((name, v) ∷ o) = write_text name (write_value v (write_members o))

abbrev read_members : ℕ → Text → Object
read_members zero s = []
read_members (suc n) s =
    let (name, after_name) = read_text s in
    let (v, rest) = read_value after_name in (name, v) ∷ read_members n rest

members_written : (o : Object) → read_members (length o) (write_members o) ≡ o
members_written [] = refl
members_written ((name, v) ∷ o) = ground (
  arith,
  read_written name (write_value v (write_members o)),
  value_written v (write_members o),
  members_written o,
)

abbrev marshal : Object → Text
marshal o = length o ∷ write_members o

abbrev unmarshal : Text → Option Object
unmarshal [] = none
unmarshal (n ∷ s) = some (read_members n s)

-- A time is as many strokes.
abbrev strokes : ℕ → Text
strokes zero = []
strokes (suc n) = b'1' ∷ strokes n

length-strokes : (n : ℕ) → length (strokes n) ≡ n
length-strokes zero = refl
length-strokes (suc n) = ap suc (length-strokes n)

strokes_utf8 : (n : ℕ) → is_utf8 (strokes n) ≡ true
unfolding utf8_from
strokes_utf8 zero = refl
strokes_utf8 (suc n) = strokes_utf8 n

abbrev wire : Json
wire = record {
  marshal = marshal;
  unmarshal = unmarshal;
  format_time = strokes;
  parse_time = λ s. some (length s);
}

wire-IsJson : IsJson wire
wire-IsJson = record {
  reads_back = λ o k. ap some (members_written o);
  times_read = λ n b. ap some (length-strokes n);
  times_kept = strokes_utf8;
}

finished_rules : IsConsistent finished
unfolding is_valid
finished_rules = ground arith

finished-IsWritable : IsWritable finished
unfolding utf8_from
finished-IsWritable = record {
  id_utf8 = refl;
  user_utf8 = refl;
  key_utf8 = refl;
  reason_utf8 = refl;
  frames = (12, refl, omega arith);
}

finished_type : terminal_event_type finished.status ≡ ok completed_event
unfolding terminal_event_type
finished_type = refl

decode_event-terminal_payload_example :
    decode_event wire
      (event_type_text completed_event)
      (marshal_payload wire (terminal_payload completed_event finished 7))
    ≡ ok (announcement (event_type_text completed_event) finished 7)
decode_event-terminal_payload_example =
    decode_event-terminal_payload wire wire-IsJson 7 (omega arith) (omega arith) completed_event
      finished finished-IsWritable finished_rules finished_type
