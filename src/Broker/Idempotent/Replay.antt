-- ===== src/Broker/Idempotent/Replay.antt =====
-- Repeating a call that produced a record.
use stream_flow.Prelude.{
  ℕ, ◌≡◌, ◌≢◌, refl, ap, ◌∙◌, Bool, true, false, some, [], ◌∷◌, Bytes, bytes_key, arith,
}
use stream_flow.Prelude.Action.{Result, ok}
use stream_flow.Dict.{Dict, lookup}
use stream_flow.Dict.Laws.{lookup-insert_self}
use stream_flow.Segment.Record.{LogRecord, Json}
use stream_flow.Broker.State.{Broker, Error}
use stream_flow.Broker.Produce.{Moment, produce}
use stream_flow.Broker.Idempotent.{duplicate, dedup_key, check_sequence, produce_idempotent}

-- A record in the cache is found by the check, whoever put it there.
check_cached :
    (topic producer : Bytes) (seq : ℕ) (r : LogRecord) (b : Broker)
    → producer ≢ []
    → lookup (dedup_key topic producer seq) b.dedup_cache ≡ some r
    → check_sequence topic producer seq b ≡ duplicate r
unfolding check_sequence
check_cached topic [] seq r b h e = absurd (h refl)
check_cached topic (c ∷ cs) seq r b h e = rw (e, check_sequence)

module _ (json : Json) (m : Moment) (topic key value : Bytes) (headers : Dict Bytes Bytes)
    (producer : Bytes) (seq : ℕ) (b : Broker) (r : LogRecord) where
  abbrev call : Broker × Result Error (LogRecord × Bool)
  call = produce_idempotent json m topic key value headers producer seq b

  cached_after :
      call.1 ≡ ok (r, false) → lookup (dedup_key topic producer seq) call.0.dedup_cache ≡ some r
  unfolding produce_idempotent
  cached_after e = ground (
    arith,
    lookup-insert_self (dedup_key topic producer seq) r
        (produce json m topic key value headers b).0.dedup_cache,
  )

  -- After an idempotent produce that made a record, a call whose deduplication key is the same and
  -- whose producer id is not empty returns that record as a duplicate and leaves the broker as it
  -- is, whatever else the call gives.
  pub produce_idempotent-again :
      (m' : Moment) (topic' key' value' : Bytes) (headers' : Dict Bytes Bytes) (producer' : Bytes)
      (seq' : ℕ)
      → producer' ≢ []
      → dedup_key topic' producer' seq' ≡ dedup_key topic producer seq
      → call.1 ≡ ok (r, false)
      → produce_idempotent json m' topic' key' value' headers' producer' seq' call.0
        ≡ (call.0, ok (r, true))
  unfolding produce_idempotent
  produce_idempotent-again m' topic' key' value' headers' producer' seq' some_id same e =
      rw (found, produce_idempotent)
    where
      found : check_sequence topic' producer' seq' call.0 ≡ duplicate r
      found =
          check_cached topic' producer' seq' r call.0 some_id
            (ap (λ k. lookup k call.0.dedup_cache) same ∙ cached_after e)
