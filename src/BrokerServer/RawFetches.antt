-- ===== src/BrokerServer/RawFetches.antt =====
-- A raw fetch through the broker's own server.
use stream_flow.Prelude.{
  ℕ, ◌≤◌, ◌≡◌, refl, Bool, true, false, none, some, List, [], Bytes, ascii, length, get_elem?,
  same_bytes,
}
use stream_flow.Prelude.Action.{ok}
use stream_flow.Segment.Record.{LogRecord, Json}
use stream_flow.Text.{parse_int64}
use stream_flow.Broker.State.{Broker}
use stream_flow.Broker.Consume.{fetch_raw}
use stream_flow.Broker.Log.{IsTopicLog}
use stream_flow.Broker.RawFetch.{
  linux, other_system, other_writer, Round, SendCall, Sending, invalid, send_file,
}
use stream_flow.Broker.RawFetch.Delivery.{fetch_raw-send_file}
use stream_flow.BrokerServer.{topic_of, answer, raw_answer, raw_failed, raw_place, answer_fetch_raw}
use stream_flow.Management.Api.{Request, is_present, get}

-- The request asks for a record of a topic.
pub record Asks (req : Request) (name : Bytes) (i : ℕ) : Type 0 where
  pub method : same_bytes req.method get ≡ true
  pub topic : topic_of req ≡ name
  pub named : is_present name ≡ true
  pub given : is_present (req.query (ascii "offset")) ≡ true
  pub offset : parse_int64 (req.query (ascii "offset")) ≡ some i

raw_place-fetch_raw :
    (req : Request) (b : Broker) (name : Bytes) (i : ℕ) (place : Bytes × ℕ × ℕ)
    → Asks req name i
    → fetch_raw name i b ≡ ok place
    → raw_place req b ≡ ok place
unfolding raw_place
raw_place-fetch_raw req b name i place asks found =
    rw (raw_place, asks.method, asks.topic, asks.named, asks.given, asks.offset, found) refl

-- A request for the raw bytes of a record of a topic is answered 500 without a byte of it on
-- Linux; elsewhere, when seeking succeeds, sending ends within one round for each byte of the log,
-- however its reads and writes go, and what was sent, if there was no error, is read as the
-- record.
pub answer_fetch_raw-fetch_raw :
    (json : Json) (b : Broker) (name : Bytes) (rs : List LogRecord) (i : ℕ) (r : LogRecord)
    (seek_fails : Bool) (rounds : List Round) (calls : List SendCall) (req : Request)
    (t : IsTopicLog json b name rs)
    → get_elem? rs i ≡ some r
    → Asks req name i
    → length t.seg.log ≤ length rounds
    → (answer_fetch_raw linux seek_fails rounds calls req b
        ≡ some (answer 500 (raw_failed [] invalid)))
      × ((s : Sending) × (answer_fetch_raw other_system false rounds calls req b
            ≡ some (raw_answer s))
          × (s.2 ≡ none → json.unmarshal s.0 ≡ some r))
unfolding answer_fetch_raw send_file
answer_fetch_raw-fetch_raw json b name rs i r seek_fails rounds calls req t there asks enough =
    let (file, pos, n, s, found, sends, right) =
      fetch_raw-send_file json b name rs i r other_writer rounds calls t there enough in
    let place = raw_place-fetch_raw req b name i (file, pos, n) asks found in
    (rw (answer_fetch_raw, place) refl, (s, rw (answer_fetch_raw, place, sends) refl, right))
