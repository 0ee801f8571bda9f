-- ===== src/Tests/Brokers.antt =====
-- The theorems on the broker at concrete inputs.
use stream_flow.Prelude.{
  true, same_bytes, if◌then◌else◌, List, some, none, length, ◌≡◌, refl, [], ◌∷◌, arith, take, drop,
  ascii, Bytes, bytes_key, false,
}
use stream_flow.Prelude.Action.{ok}
use stream_flow.Prelude.Int.{pos}
use stream_flow.Dict.{lookup}
use stream_flow.Segment.{all_done, append, note_record}
use stream_flow.Segment.Log.{start_of, allowed}
use stream_flow.Broker.Consume.{consume}
use stream_flow.Broker.RawFetch.{Round, Sending, linux, other_system, invalid}
use stream_flow.BrokerServer.{answer, raw_answer, raw_failed, answer_fetch_raw}
use stream_flow.BrokerServer.RawFetches.{Asks, answer_fetch_raw-fetch_raw}
use stream_flow.Management.Api.{Request}
use stream_flow.Text.{parse_int64}
use stream_flow.File.{write_at, write_file, overwrite}
use stream_flow.Int64.{int64_to_bytes, put_uint32}
use stream_flow.Broker.Log.{IsTopicLog, consume-IsTopicLog}
use stream_flow.Broker.Log.Appends.{Produced, produce-IsTopicLog}
use stream_flow.Broker.Produce.{Moment}
use stream_flow.Broker.State.{Broker, new_broker}
use stream_flow.Broker.Topics.{is_draining}
use stream_flow.Tests.Segments.{rec, after_first, after_first-IsLog}
use stream_flow.Tests.Samples.{codec, plain_back, plain_room, empty_segment, empty_segment-IsLog}

abbrev pub orders : Bytes
orders = ascii "orders"

abbrev pub one_topic : Broker
one_topic = record (new_broker [] []) {
  topics = (orders, record { segments = empty_segment ∷ []; next_offset = 0 }) ∷ [];
}

abbrev pub moment : Moment
moment = record { now = pos 0; stamp = pos 0; writes = all_done }

unfoldable pub one_topic-IsTopicLog : IsTopicLog codec one_topic orders []
unfolding lookup
one_topic-IsTopicLog = record {
  topic = record { segments = empty_segment ∷ []; next_offset = 0 };
  seg = empty_segment;
  found = refl;
  single = refl;
  log = empty_segment-IsLog;
  next = refl;
}

pub not_draining : is_draining (pos 0) one_topic ≡ false
unfolding is_draining
not_draining = refl

produce-IsTopicLog_example : Produced codec moment orders [] (7 ∷ 8 ∷ []) [] one_topic []
unfolding one_topic-IsTopicLog
produce-IsTopicLog_example =
    produce-IsTopicLog codec moment orders [] (7 ∷ 8 ∷ []) [] one_topic [] one_topic-IsTopicLog
      not_draining plain_room (plain_back (7 ∷ 8 ∷ [])) (omega arith)

abbrev one_record : Broker
one_record = record (new_broker [] []) {
  topics = (orders, record { segments = after_first ∷ []; next_offset = 1 }) ∷ [];
}

unfoldable one_record-IsTopicLog : IsTopicLog codec one_record orders (rec ∷ [])
unfolding lookup
one_record-IsTopicLog = record {
  topic = record { segments = after_first ∷ []; next_offset = 1 };
  seg = after_first;
  found = refl;
  single = refl;
  log = after_first-IsLog;
  next = refl;
}

consume-IsTopicLog_example :
    consume codec orders 0 5 one_record ≡ ok (take (allowed 5) (drop (start_of 0) (rec ∷ [])))
consume-IsTopicLog_example =
    consume-IsTopicLog codec one_record orders (rec ∷ []) 0 5 one_record-IsTopicLog

-- A round that sends one byte.
abbrev one_byte : Round
one_byte = record { more_bytes = 0; read_fails = false; taken = 1; write_fails = false }

abbrev rounds : List Round
rounds =
    one_byte ∷ one_byte ∷ one_byte ∷ one_byte ∷ one_byte ∷ one_byte ∷ one_byte ∷ one_byte ∷ one_byte
    ∷ one_byte ∷ one_byte ∷ one_byte ∷ one_byte ∷ one_byte ∷ []

log_length : length after_first.log ≡ 14
unfolding append note_record int64_to_bytes write_at write_file overwrite put_uint32
log_length = refl

-- A raw fetch of record 0.
abbrev raw_request : Request
raw_request = record {
  method = ascii "GET";
  path = ascii "/fetchraw";
  query = λ name. if same_bytes name (ascii "topic") then orders else ascii "0";
  api_key = [];
  body = [];
}

raw_request-Asks : Asks raw_request orders 0
unfolding parse_int64
raw_request-Asks = record { method = refl; topic = refl; named = refl; given = refl; offset = refl }

answer_fetch_raw-fetch_raw_example :
    (answer_fetch_raw linux true rounds [] raw_request one_record
      ≡ some (answer 500 (raw_failed [] invalid)))
    × ((s : Sending) × (answer_fetch_raw other_system false rounds [] raw_request one_record
          ≡ some (raw_answer s))
        × (s.2 ≡ none → codec.unmarshal s.0 ≡ some rec))
unfolding one_record-IsTopicLog
answer_fetch_raw-fetch_raw_example =
    answer_fetch_raw-fetch_raw codec one_record orders (rec ∷ []) 0 rec true rounds [] raw_request
      one_record-IsTopicLog refl raw_request-Asks (omega (arith, log_length))
