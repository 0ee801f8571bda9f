-- ===== src/Broker/Transactions.antt =====
-- broker/transactions.go: records that are kept in a transaction and produced when it is committed.
pub mod LifeCycle
use stream_flow.Prelude.{
  ℕ, suc, Bool, true, false, Option, none, some, List, [], ◌∷◌, ◌++◌, Bytes, bytes_key,
  if◌then◌else◌,
}
use stream_flow.Prelude.Action.{Result, ok, err}
use stream_flow.Decimal.{print_int64}
use stream_flow.Dict.{Dict, lookup, insert}
use stream_flow.Segment.Open.{Call}
use stream_flow.Segment.Record.{LogRecord, Json}
use stream_flow.Time.{Time, unix_nano}
use stream_flow.Broker.State.{
  Broker, Topic, Error, producer_id_required, topic_required, tx_not_found, tx_closed, TxRecord,
  Transaction, Status, opened, committing, committed, aborted,
}
use stream_flow.Broker.Topics.{create_topic}
use stream_flow.Broker.Produce.{Moment, produce}
use stream_flow.Broker.Consume.{consume}

-- `start` is what time.Now gives the first time.
abbrev pub new_id : Bytes → ℕ → Time → Bytes
new_id producer epoch start =
    producer ++ (b'-' ∷ (print_int64 epoch ++ (b'-' ∷ print_int64 (unix_nano start))))

unfoldable pub begin_transaction : Time → Time → Bytes → ℕ → Broker → Broker × Result Error Bytes
begin_transaction start now [] epoch b = (b, err producer_id_required)
begin_transaction start now (c ∷ cs) epoch b =
    let tx : Transaction = record {
      producer_id = c ∷ cs;
      epoch = epoch;
      status = opened;
      created_at = now;
      records = [];
    } in
    let id = new_id (c ∷ cs) epoch start in (record b { tx_state = insert id tx b.tx_state }, ok id)

abbrev pub is_open : Status → Bool
is_open opened = true
is_open committing = false
is_open committed = false
is_open aborted = false

-- The transaction, if it is there and open.
unfoldable pub open_transaction : Option Transaction → Result Error Transaction
open_transaction none = err tx_not_found
open_transaction (some tx) = if is_open tx.status then ok tx else err tx_closed

abbrev pub set_transaction : Bytes → Transaction → Broker → Broker
set_transaction id tx b = record b { tx_state = insert id tx b.tx_state }

unfoldable pub tx_produce :
    Bytes → Bytes → Bytes → Bytes → Dict Bytes Bytes → Broker → Broker × Result Error (Unit {0})
tx_produce id [] key value headers b = (b, err topic_required)
tx_produce id (c ∷ cs) key value headers b = elim (open_transaction (lookup id b.tx_state)) [
  | err e ↦ (b, err e)
  | ok tx ↦
      let r : TxRecord = record { topic = c ∷ cs; key = key; value = value; headers = headers } in
      (set_transaction id (record tx { records = tx.records ++ (r ∷ []) }) b, ok tt)
]

unfoldable pub abort_transaction : Bytes → Broker → Broker × Result Error (Unit {0})
abort_transaction id b = elim (open_transaction (lookup id b.tx_state)) [
  | err e ↦ (b, err e)
  | ok tx ↦ (set_transaction id (record tx { status = aborted; records = [] }) b, ok tt)
]

-- What creating a topic and producing to it meet outside the program.
pub record Surroundings : Type 0 where
  pub dir_fails : Bool
  pub fails : Call → Bool
  pub moment : Moment

-- `tx` is the object that the map held when the call began, and still holds.
finish_commit : Bytes → Transaction → Broker × ℕ × Option Error → Broker × ℕ × Option Error
finish_commit id tx (b, n, some e) = (b, n, some e)
finish_commit id tx (b, n, none) =
    (set_transaction id (record tx { status = committed }) b, n, none)

module _ (json : Json) where
  after_create : Moment → TxRecord → Broker × Result Error Topic → Broker × Result Error LogRecord
  after_create m r (b, err e) = (b, err e)
  after_create m r (b, ok t) = produce json m r.topic r.key r.value r.headers b

  -- A round of the loop of `CommitTransaction`.
  unfoldable pub commit_record : Surroundings → TxRecord → Broker → Broker × Result Error LogRecord
  unfolding after_create
  commit_record s r b = after_create s.moment r (create_topic s.dir_fails s.fails r.topic b)

  -- The rounds, each in its surroundings, with the number of records produced and the error.
  unfoldable pub commit_loop :
      (ℕ → Surroundings) → ℕ → List TxRecord → Broker → Broker × ℕ × Option Error
  commit_loop s n [] b = (b, n, none)
  commit_loop s n (r ∷ rs) b =
      let (b', result) = commit_record (s n) r b in
      let rest = commit_loop s (suc n) rs b' in
      elim result [ err e ↦ (b', n, some e) | ok done ↦ rest ]

  -- The whole call, when no other runs between the rounds.
  unfoldable pub commit_transaction :
      (ℕ → Surroundings) → Bytes → Broker → Broker × ℕ × Option Error
  unfolding commit_loop finish_commit
  commit_transaction s id b = elim (open_transaction (lookup id b.tx_state)) [
    | err e ↦ (b, 0, some e)
    | ok tx ↦
        finish_commit id tx
          (commit_loop s 0 tx.records (set_transaction id (record tx { status = committing }) b))
  ]

  unfoldable pub consume_read_committed : Bytes → ℕ → ℕ → Broker → Result Error (List LogRecord)
  unfolding consume
  consume_read_committed name from max b = consume json name from max b
