-- ===== src/Broker/Produce.antt =====
-- broker/broker.go: `Produce` appends a record to the last segment of a topic.
use stream_flow.Prelude.{ℕ, not, none, some, List, [], ◌∷◌, Bytes, bytes_key, get_last?}
use stream_flow.Prelude.Action.{
  Result, ok, err, Action, pure, gets, modify, guard, or_fail, ◌>>=◌, ◌>>◌,
}
use stream_flow.Dict.{Dict, lookup, insert}
use stream_flow.Int64.{add}
use stream_flow.Segment
use stream_flow.Segment.{Segment, Writes, append}
use stream_flow.Segment.Record.{LogRecord, Json}
use stream_flow.Time.{Time}
use stream_flow.Broker.State.{
  Broker, Topic, Error, draining, topic_not_found, no_segment, segment_error,
}
use stream_flow.Broker.Topics.{is_draining}

abbrev pub replace_last : List Segment → Segment → List Segment
replace_last [] s = []
replace_last (x ∷ []) s = s ∷ []
replace_last (x ∷ y ∷ xs) s = x ∷ replace_last (y ∷ xs) s

abbrev pub segment_result : {A : Type 0} → Result Segment.Error A → Result Error A
segment_result (ok a) = ok a
segment_result (err e) = err (segment_error e)

-- What time.Now gives for the draining test and for the record, and the ends of the writes.
pub record Moment : Type 0 where
  pub now : Time
  pub stamp : Time
  pub writes : Writes

abbrev pub new_record : Moment → Bytes → Bytes → Dict Bytes Bytes → ℕ → LogRecord
new_record m key value headers offset = record {
  key = key;
  value = value;
  headers = headers;
  timestamp = m.stamp;
  offset = offset;
}

-- `topic.NextOffset = next`
unfoldable pub set_next_offset : Bytes → ℕ → Broker → Broker
set_next_offset name next b = elim (lookup name b.topics) [
  | none ↦ b
  | some topic ↦ record b { topics = insert name (record topic { next_offset = next }) b.topics }
]

module _ (json : Json) where
  -- `seg.Append(record)` on the last segment, which the topic goes on holding.
  unfoldable pub append_last : Writes → Bytes → Topic → Segment → LogRecord → Action Broker Error ℕ
  append_last w name topic seg r b =
      let (seg', result) = append json w r seg in
      let topic' : Topic = record topic { segments = replace_last topic.segments seg' } in
      (record b { topics = insert name topic' b.topics }, segment_result result)

  unfoldable pub produce :
      Moment → Bytes → Bytes → Bytes → Dict Bytes Bytes → Action Broker Error LogRecord
  unfolding append_last set_next_offset
  produce m name key value headers = do
    free ← gets (λ b. not (is_draining m.now b))
    guard free draining
    found ← gets (λ b. lookup name b.topics)
    topic ← or_fail topic_not_found found
    seg ← or_fail no_segment (get_last? topic.segments)
    let r = new_record m key value headers topic.next_offset
    offset ← append_last m.writes name topic seg r
    modify (set_next_offset name (add offset 1))
    pure (record r { offset = offset })
