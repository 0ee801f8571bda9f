-- ===== src/Broker/Idempotent.antt =====
-- broker/idempotent.go: producing with a sequence number, in three steps under the lock: the check,
-- the produce, and the note of what was produced. Other calls may run between them.
pub mod Replay
use stream_flow.Prelude.{
  ℕ, Bool, true, false, Option, none, some, List, [], ◌∷◌, ◌++◌, Bytes, bytes_key, if◌then◌else◌,
}
use stream_flow.Prelude.Action.{Result, ok, err}
use stream_flow.Decimal.{print_int64}
use stream_flow.Dict.{Dict, lookup, insert}
use stream_flow.Int64.{less}
use stream_flow.Segment.Record.{LogRecord, Json}
use stream_flow.Broker.State.{Broker, Error, producer_id_required, out_of_order_sequence}
use stream_flow.Broker.Produce.{Moment, produce}

abbrev pub seq_key : Bytes → Bytes → Bytes
seq_key topic producer = topic ++ (b'|' ∷ producer)

abbrev pub dedup_key : Bytes → Bytes → ℕ → Bytes
dedup_key topic producer seq = seq_key topic producer ++ (b'|' ∷ print_int64 seq)

pub data Check : Type 0 where
  no_producer out_of_order fresh : Check
  duplicate : LogRecord → Check

check_last : Option ℕ → ℕ → Check
check_last none seq = fresh
check_last (some last) seq = if less seq last then out_of_order else fresh

unfoldable pub check_sequence : Bytes → Bytes → ℕ → Broker → Check
unfolding check_last
check_sequence topic [] seq b = no_producer
check_sequence topic (c ∷ cs) seq b = elim (lookup (dedup_key topic (c ∷ cs) seq) b.dedup_cache) [
  | some r ↦ duplicate r
  | none ↦ check_last (lookup (seq_key topic (c ∷ cs)) b.producer_seq) seq
]

-- A key that is missing reads as 0.
abbrev pub or_zero : Option ℕ → ℕ
or_zero none = 0
or_zero (some n) = n

unfoldable pub remember : Bytes → Bytes → ℕ → LogRecord → Broker → Broker
remember topic producer seq r b =
    let key = seq_key topic producer in
    record b {
      producer_seq =
          if less (or_zero (lookup key b.producer_seq)) seq
          then insert key seq b.producer_seq
          else b.producer_seq;
      dedup_cache = insert (dedup_key topic producer seq) r b.dedup_cache;
    }

abbrev after_produce :
    Bytes → Bytes → ℕ → Broker × Result Error LogRecord → Broker × Result Error (LogRecord × Bool)
after_produce topic producer seq (b, ok r) = (remember topic producer seq r b, ok (r, false))
after_produce topic producer seq (b, err e) = (b, err e)

-- The whole call, when no other runs between its steps. The Boolean says that it is a duplicate.
unfoldable pub produce_idempotent :
    Json
    → Moment
    → Bytes
    → Bytes
    → Bytes
    → Dict Bytes Bytes
    → Bytes
    → ℕ
    → Broker
    → Broker × Result Error (LogRecord × Bool)
unfolding remember
produce_idempotent json m topic key value headers producer seq b =
    elim (check_sequence topic producer seq b) [
      | no_producer ↦ (b, err producer_id_required)
      | duplicate r ↦ (b, ok (r, true))
      | out_of_order ↦ (b, err out_of_order_sequence)
      | fresh ↦ after_produce topic producer seq (produce json m topic key value headers b)
    ]
