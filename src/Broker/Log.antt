-- ===== src/Broker/Log.antt =====
-- A topic of the broker is a list of records: producing appends to it, consuming takes a slice.
pub mod Appends
use stream_flow.Prelude.{
  ℕ, suc, ◌+◌, ◌^◌, ◌≤◌, ◌<◌, ◌≡◌, ◌≢◌, ◌⊎◌, inl, inr, refl, sym, ap, ◌∙◌, Bool, true, false,
  Option, none, some, List, [], ◌∷◌, ◌++◌, Bytes, length, length-append, subst, take, drop, arith,
  bytes_key, if◌then◌else◌, leb, ◌-◌,
}
use stream_flow.Prelude.Action.{Result, ok, err, Result-cases}
use stream_flow.Dict.{Dict, lookup, insert}
use stream_flow.Dict.Laws.{lookup-insert, lookup-insert_self}
use stream_flow.Int64.{add}
use stream_flow.Segment
use stream_flow.Segment.{Segment, persist_failed, append}
use stream_flow.Segment.Append.{HasRoom}
use stream_flow.Segment.Log.{IsLog, append-IsLog, read_range-IsLog, start_of, allowed}
use stream_flow.Segment.Read.{default_limit, read_by_offset, read_range}
use stream_flow.Segment.Record.{LogRecord, Json, RoundTrips}
use stream_flow.Broker.State.{Broker, Topic, Error, draining, segment_error}
use stream_flow.Broker.Topics.{is_draining}
use stream_flow.Broker.Produce.{
  Moment, new_record, produce, append_last, set_next_offset, segment_result,
}
use stream_flow.Broker.Consume.{consume, consume_loop, ◌>>=◌}

-- The topic `name` is open and holds the records `rs`.
pub record IsTopicLog (json : Json) (b : Broker) (name : Bytes) (rs : List LogRecord) : Type 0 where
  pub topic : Topic
  pub seg : Segment
  pub found : lookup name b.topics ≡ some topic
  pub single : topic.segments ≡ seg ∷ []
  pub log : IsLog json seg rs
  pub next : topic.next_offset ≡ length rs

consume_result :
    (M : ℕ) (res : Result Error (List LogRecord))
    → (res >>= λ recs. if leb M (length recs) then ok recs else ok recs) ≡ res
consume_result M (ok recs) = ground arith
consume_result M (err e) = refl

-- With one segment the loop is one read.
consume-single :
    (json : Json) (b : Broker) (name : Bytes) (from max : ℕ) (t : Topic) (seg : Segment)
    → lookup name b.topics ≡ some t
    → t.segments ≡ seg ∷ []
    → consume json name from max b ≡ segment_result (read_range json seg from (default_limit max))
unfolding consume
consume-single json b name from max t seg found single =
    let n : default_limit max - 0 ≡ default_limit max = omega arith in
    rw (found, single, n)
      (consume_result (default_limit max)
        (segment_result (read_range json seg from (default_limit max))))

limit_once : (max : ℕ) → allowed (default_limit max) ≡ allowed max
limit_once max = ground arith

-- Consuming from a topic that holds a list of records returns the slice of the list from the given
-- offset on (from its start for a negative offset), as many records as the limit allows, 100 for a
-- limit that is not positive.
pub consume-IsTopicLog :
    (json : Json) (b : Broker) (name : Bytes) (rs : List LogRecord) (from max : ℕ)
    → IsTopicLog json b name rs
    → consume json name from max b ≡ ok (take (allowed max) (drop (start_of from) rs))
consume-IsTopicLog json b name rs from max t =
    consume-single json b name from max t.topic t.seg t.found t.single
    ∙ ap segment_result (read_range-IsLog json t.seg rs from (default_limit max) t.log)
    ∙ ap (λ n. ok (take n (drop (start_of from) rs))) (limit_once max)
