-- ===== src/Broker/Topics.antt =====
-- broker/broker.go: `CreateTopic`, `ListTopics`, `Drain` and `IsDraining`.
use stream_flow.Prelude.{
  Bool, true, false, Option, none, some, List, [], ◌∷◌, Bytes, bytes_key, if◌then◌else◌,
}
use stream_flow.Prelude.Action.{Result, ok, err, Action}
use stream_flow.Prelude.Int.{◌+ℤ◌}
use stream_flow.Dict.{lookup, insert, keys}
use stream_flow.Segment
use stream_flow.Segment.{Segment}
use stream_flow.Segment.Open.{Files, Call, new_segment}
use stream_flow.Sort.{sort, less_bytes}
use stream_flow.Time.{Time, Duration, is_zero, is_after}
use stream_flow.Broker.State.{Broker, Topic, Error, create_failed, segment_error}

-- A directory with no files yet.
abbrev pub no_files : Files
no_files = record { log = []; index = []; time_index = none }

abbrev pub files_or_none : Option Files → Files
files_or_none none = no_files
files_or_none (some f) = f

unfoldable pub open_topic :
    Bytes → Broker → Result Segment.Error Segment → Broker × Result Error Topic
open_topic name b (err e) = (b, err (segment_error e))
open_topic name b (ok seg) =
    let topic : Topic = record { segments = seg ∷ []; next_offset = 0 } in
    (record b { topics = insert name topic b.topics }, ok topic)

-- `dir_fails` is an error of making the topic's directory, `fails` those of opening its segment.
unfoldable pub create_topic : Bool → (Call → Bool) → Bytes → Action Broker Error Topic
unfolding open_topic
create_topic dir_fails fails name b = elim (lookup name b.topics) [
  | some topic ↦ (b, ok topic)
  | none ↦
      if dir_fails
      then (b, err create_failed)
      else open_topic name b (new_segment fails (files_or_none (lookup name b.disk)) 0)
]

unfoldable pub list_topics : Broker → List Bytes
list_topics b = sort less_bytes (keys b.topics)

unfoldable pub drain : Time → Duration → Broker → Broker
drain now d b = record b { draining_till = now +ℤ d }

unfoldable pub is_draining : Time → Broker → Bool
is_draining now b =
    if is_zero b.draining_till then false else if is_after now b.draining_till then false else true
