-- ===== src/BrokerServer.antt =====
-- apps/broker/main.go: the broker's own HTTP server, its handlers over the broker. Every handler
-- runs to its end before the next request; the JSON decoding of a body is a parameter. The writer
-- of a response is no file of package os.
pub mod RawFetches
pub mod Delivery
use stream_flow.Prelude.{
  ℕ, Bool, true, false, Option, none, some, List, [], ◌∷◌, Bytes, ascii, same_bytes, if◌then◌else◌,
}
use stream_flow.Prelude.Action.{Result, ok, err, Action, pure, guard, or_fail, ◌>>=◌, ◌>>◌}
use stream_flow.Segment.Record.{LogRecord, Json}
use stream_flow.Text.{parse_int64}
use stream_flow.Broker.State.{Broker, Error, Topic, new_broker}
use stream_flow.Broker.Topics.{create_topic}
use stream_flow.Broker.Produce.{produce}
use stream_flow.Broker.Consume.{consume, fetch_raw}
use stream_flow.Broker.RawFetch.{
  Platform, other_writer, Round, SendCall, SendError, Sending, send_file, seek_failed, read_error,
  write_error, short_write, invalid, call_failed,
}
use stream_flow.Broker.Transactions.{Surroundings}
use stream_flow.Management.Api.{Request, ProducePayload, is_present, get, post}
use stream_flow.Management.Records.{look, parse_or, positive}

pub data Body : Type 0 where
  text : Bytes → Body
  failure : Error → Body
  stored : LogRecord → Body
  fetched : List LogRecord → Body
  raw : Bytes → Body
  raw_failed : Bytes → SendError → Body

pub record Answer : Type 0 where
  pub status : ℕ
  pub body : Body

abbrev pub answer : ℕ → Body → Answer
answer status body = record { status = status; body = body }

abbrev pub bad : Bytes → Answer
bad message = answer 400 (text message)

abbrev pub Answering : Type 0
Answering = Action Broker Answer Answer

abbrev pub only_method : Bytes → Request → Action Broker Answer (Unit {0})
only_method method req =
    guard (same_bytes req.method method) (answer 405 (text (ascii "method not allowed")))

abbrev pub or_answer : {A : Type 0} → ℕ → Broker × Result Error A → Broker × Result Answer A
or_answer status (b, ok a) = (b, ok a)
or_answer status (b, err e) = (b, err (answer status (failure e)))

-- A ask_broker of the broker, with the status of its error.
abbrev pub ask_broker : {A : Type 0} → ℕ → Action Broker Error A → Action Broker Answer A
ask_broker status m b = or_answer status (m b)

abbrev pub topic_of : Request → Bytes
topic_of req = req.query (ascii "topic")

-- Whether an error shows that the writer was called, which sends the status 200.
abbrev pub is_written : SendError → Bool
is_written write_error = true
is_written short_write = true
is_written seek_failed = false
is_written read_error = false
is_written invalid = false
is_written call_failed = false

-- The response once the file was sent: an error after a write comes behind what was sent.
abbrev pub raw_answer : Sending → Answer
raw_answer (sent, n, none) = answer 200 (raw sent)
raw_answer ([], n, some e) = answer (if is_written e then 200 else 500) (raw_failed [] e)
raw_answer (c ∷ cs, n, some e) = answer 200 (raw_failed (c ∷ cs) e)

unfoldable pub answer_health : Answering
answer_health = pure (answer 200 (text (ascii "ok")))

-- What a raw fetch asks for: the file, the position and the length.
unfoldable pub raw_place : Request → Broker → Result Answer (Bytes × ℕ × ℕ)
raw_place req b =
    let place : Action Broker Answer (Bytes × ℕ × ℕ) = (do
      only_method get req
      guard (is_present (topic_of req)) (bad (ascii "topic is required"))
      guard (is_present (req.query (ascii "offset"))) (bad (ascii "offset is required"))
      offset ← or_fail (bad (ascii "invalid offset")) (parse_int64 (req.query (ascii "offset")))
      ask_broker 404 (look (fetch_raw (topic_of req) offset))) in
    (place b).1

-- `none` when the loop that sends the file wants more rounds.
unfoldable pub answer_fetch_raw :
    Platform → Bool → List Round → List SendCall → Request → Broker → Option Answer
unfolding raw_place
answer_fetch_raw platform seek_fails rounds calls req b = elim (raw_place req b) [
  | err a ↦ some a
  | ok (file, pos, n) ↦ elim (send_file platform other_writer seek_fails rounds calls file pos n) [
    | none ↦ none
    | some s ↦ some (raw_answer s)
  ]
]

module _ (json : Json) where
  unfoldable pub answer_produce :
      (Bytes → Option ProducePayload) → Surroundings → Request → Answering
  answer_produce decode env req = do
    only_method post req
    p ← or_fail (bad (ascii "invalid json")) (decode req.body)
    guard (is_present p.topic) (bad (ascii "topic is required"))
    _ ← ask_broker {A = Topic} 500 (create_topic env.dir_fails env.fails p.topic)
    r ← ask_broker 500 (produce json env.moment p.topic p.key p.value p.headers)
    pure (answer 200 (stored r))

  unfoldable pub answer_consume : Request → Answering
  answer_consume req = do
    only_method get req
    guard (is_present (topic_of req)) (bad (ascii "topic is required"))
    offset ← or_fail (bad (ascii "invalid offset")) (parse_or 0 (req.query (ascii "offset")))
    max ← or_fail (bad (ascii "invalid max")) (positive (parse_or 100 (req.query (ascii "max"))))
    recs ← ask_broker 404 (look (consume json (topic_of req) offset max))
    pure (answer 200 (fetched recs))
