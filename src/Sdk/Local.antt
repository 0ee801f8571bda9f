-- ===== src/Sdk/Local.antt =====
-- sdk/sdk.go: a producer and a consumer, each over a broker that it opens itself.
use stream_flow.Prelude.{ℕ, ◌≡◌, refl, ◌∙◌, Bool, List, [], ◌∷◌, Bytes, bytes_key}
use stream_flow.Prelude.Action.{Result, ok, err, Action}
use stream_flow.Dict.{Dict, lookup}
use stream_flow.File.{Rewrite}
use stream_flow.Segment.Open.{Files, Call}
use stream_flow.Segment.Record.{LogRecord, Json}
use stream_flow.Broker.State.{Broker, Error, new_broker, topic_not_found}
use stream_flow.Broker.Topics.{create_topic}
use stream_flow.Broker.Produce.{Moment, produce}
use stream_flow.Broker.Consume.{consume}
use stream_flow.Broker.Offsets.{commit_offset, commit_offset-topics}

abbrev forget : {A : Type 0} → Broker × Result Error A → Broker × Result Error (Unit {0})
forget (b, ok a) = (b, ok tt)
forget (b, err e) = (b, err e)

unfoldable pub producer_create_topic : Bool → (Call → Bool) → Bytes → Action Broker Error (Unit {0})
producer_create_topic dir_fails fails name b = forget (create_topic dir_fails fails name b)

abbrev pub producer_send :
    Json → Moment → Bytes → Bytes → Bytes → Dict Bytes Bytes → Action Broker Error LogRecord
producer_send json m topic key value headers = produce json m topic key value headers

abbrev pub consumer_poll : Json → Bytes → ℕ → ℕ → Broker → Result Error (List LogRecord)
consumer_poll json topic offset max = consume json topic offset max

abbrev pub consumer_commit : Bool → Rewrite → Bytes → Bytes → ℕ → Action Broker Error (Unit {0})
consumer_commit dir_fails w topic group offset = commit_offset dir_fails w topic group offset

-- One call of `Consumer.Commit`.
pub record CommitCall : Type 0 where
  pub dir_fails : Bool
  pub ends : Rewrite
  pub topic : Bytes
  pub group : Bytes
  pub offset : ℕ

unfoldable pub commits : List CommitCall → Broker → Broker
commits [] b = b
commits (c ∷ cs) b = commits cs (consumer_commit c.dir_fails c.ends c.topic c.group c.offset b).0

commits-topics : (cs : List CommitCall) (b : Broker) → (commits cs b).topics ≡ b.topics
unfolding commits commit_offset
commits-topics [] b = refl
commits-topics (c ∷ cs) b =
    commits-topics cs (consumer_commit c.dir_fails c.ends c.topic c.group c.offset b).0
    ∙ commit_offset-topics c.dir_fails c.ends c.topic c.group c.offset b

-- A consumer over a directory, whatever files it holds and whatever offsets the consumer commits,
-- answers every poll with the error that the topic does not exist.
pub consumer_poll-commits :
    (json : Json) (disk : Dict Bytes Files) (group_files : Dict Bytes Bytes) (cs : List CommitCall)
    (topic : Bytes) (offset max : ℕ)
    → consumer_poll json topic offset max (commits cs (new_broker disk group_files))
      ≡ err topic_not_found
unfolding consume lookup
consumer_poll-commits json disk group_files cs topic offset max =
    rw (commits-topics cs (new_broker disk group_files)) refl
