-- ===== src/Broker/State.antt =====
-- broker/broker.go and broker/transactions.go: the broker's state and errors.
-- `disk` holds the segment files of the topics that are not open, by topic name, and `group_files`
-- the offset files of consumer groups, by path. A name is taken as one plain path element.
use stream_flow.Prelude.{ℕ, List, [], Bytes}
use stream_flow.Dict.{Dict}
use stream_flow.Segment
use stream_flow.Segment.{Segment}
use stream_flow.Segment.Open.{Files}
use stream_flow.Segment.Record.{LogRecord}
use stream_flow.Time.{Time}
use stream_flow.Prelude.Int.{pos}

pub record Topic : Type 0 where
  pub segments : List Segment
  pub next_offset : ℕ

pub record TxRecord : Type 0 where
  pub topic : Bytes
  pub key : Bytes
  pub value : Bytes
  pub headers : Dict Bytes Bytes

-- The values of `Status`.
pub data Status : Type 0 where
  opened committing committed aborted : Status

pub record Transaction : Type 0 where
  pub producer_id : Bytes
  pub epoch : ℕ
  pub status : Status
  pub created_at : Time
  pub records : List TxRecord

pub record Broker : Type 0 where
  pub topics : Dict Bytes Topic
  pub draining_till : Time
  pub producer_seq : Dict Bytes ℕ
  pub dedup_cache : Dict Bytes LogRecord
  pub tx_state : Dict Bytes Transaction
  pub disk : Dict Bytes Files
  pub group_files : Dict Bytes Bytes

-- `NewBroker` over the files of a directory.
abbrev pub new_broker : Dict Bytes Files → Dict Bytes Bytes → Broker
new_broker disk group_files = record {
  topics = [];
  draining_till = pos 0;
  producer_seq = [];
  dedup_cache = [];
  tx_state = [];
  disk = disk;
  group_files = group_files;
}

pub data Error : Type 0 where
  draining topic_not_found offset_not_found read_failed : Error
  create_failed write_failed bad_offset_file no_offset_file : Error
  producer_id_required out_of_order_sequence : Error
  topic_required tx_not_found tx_closed : Error
  segment_error : Segment.Error → Error
  -- An index out of range, which panics: a topic with no segment.
  no_segment : Error
