-- ===== src/Broker/Tenants.antt =====
-- broker/multitenant.go: topics in the directories of namespaces.
use stream_flow.Prelude.{
  ◌≡◌, refl, Bool, false, Option, none, some, Bytes, bytes_key, ◌||◌, if◌then◌else◌,
}
use stream_flow.Prelude.Action.{ok, err, Action}
use stream_flow.Dict.{lookup}
use stream_flow.Segment.Open.{Files, Call, new_segment}
use stream_flow.Broker.State.{Broker, Topic, Error, create_failed}
use stream_flow.Broker.Topics.{files_or_none, open_topic}

-- `disk` holds the segment files in the directories of namespaces, `ns_fails` and `dir_fails` are the
-- errors of making the two directories. The topic is kept under its name alone.
unfoldable pub create_topic_ns :
    (Bytes → Bytes → Option Files)
    → Bool
    → Bool
    → (Call → Bool)
    → Bytes
    → Bytes
    → Action Broker Error Topic
unfolding open_topic
create_topic_ns disk ns_fails dir_fails fails namespace name b =
    if ns_fails || dir_fails then (b, err create_failed) else elim (lookup name b.topics) [
      | some topic ↦ (b, ok topic)
      | none ↦ open_topic name b (new_segment fails (files_or_none (disk namespace name)) 0)
    ]

-- A name that is a topic already is that topic in every namespace.
create_topic_ns-shared :
    (disk : Bytes → Bytes → Option Files) (fails : Call → Bool) (namespace name : Bytes)
    (b : Broker) (topic : Topic)
    → lookup name b.topics ≡ some topic
    → create_topic_ns disk false false fails namespace name b ≡ (b, ok topic)
unfolding create_topic_ns
create_topic_ns-shared disk fails namespace name b topic h = rw h refl
