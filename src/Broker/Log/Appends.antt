-- ===== src/Broker/Log/Appends.antt =====
-- Producing appends to the log of a topic.
use stream_flow.Prelude.{
  ℕ, ◌+◌, ◌^◌, ◌<◌, ◌≡◌, ◌≢◌, inl, inr, refl, sym, ap, ◌∙◌, false, some, List, [], ◌∷◌, ◌++◌, Bytes,
  length, length-append, subst, arith, bytes_key,
}
use stream_flow.Prelude.Action.{Result, ok, err}
use stream_flow.Dict.{Dict, lookup, insert}
use stream_flow.Dict.Laws.{lookup-insert_self}
use stream_flow.Int64.{add}
use stream_flow.Segment
use stream_flow.Segment.{Segment, persist_failed, append}
use stream_flow.Segment.Append.{HasRoom}
use stream_flow.Segment.Log.{IsLog, append-IsLog}
use stream_flow.Segment.Record.{LogRecord, Json, RoundTrips}
use stream_flow.Broker.State.{Broker, Topic, Error, segment_error}
use stream_flow.Broker.Topics.{is_draining}
use stream_flow.Broker.Produce.{Moment, new_record, produce, append_last, set_next_offset}
use stream_flow.Broker.Log.{IsTopicLog}

set_next_offset-found :
    (name : Bytes) (n : ℕ) (b : Broker) (topic : Topic)
    → lookup name b.topics ≡ some topic
    → lookup name (set_next_offset name n b).topics ≡ some (record topic { next_offset = n })
unfolding set_next_offset
set_next_offset-found name n b topic found =
    rw (found, set_next_offset)
      (lookup-insert_self name (record topic { next_offset = n }) b.topics)

module _ (json : Json) (m : Moment) (name key value : Bytes) (headers : Dict Bytes Bytes)
    (b : Broker) (topic : Topic) (seg : Segment) (free : is_draining m.now b ≡ false)
    (found : lookup name b.topics ≡ some topic) (single : topic.segments ≡ seg ∷ []) where
  abbrev record_made : LogRecord
  record_made = new_record m key value headers topic.next_offset

  abbrev appended : Segment
  appended = (append json m.writes record_made seg).0

  -- The broker once the segment has been written to.
  abbrev written : Broker
  written = record b { topics = insert name (record topic { segments = appended ∷ [] }) b.topics }

  pub produce_ok :
      (off : ℕ)
      → (append json m.writes record_made seg).1 ≡ ok off
      → produce json m name key value headers b
        ≡ (set_next_offset name (add off 1) written, ok (record record_made { offset = off }))
  unfolding produce append_last
  produce_ok off e = ground (arith, single)

  pub produce_err :
      (e : Segment.Error)
      → (append json m.writes record_made seg).1 ≡ err e
      → produce json m name key value headers b ≡ (written, err (segment_error e))
  unfolding produce append_last
  produce_err e f = ground (arith, single)

  pub written-found : lookup name written.topics ≡ some (record topic { segments = appended ∷ [] })
  written-found = lookup-insert_self name (record topic { segments = appended ∷ [] }) b.topics

  pub numbered-found :
      (n : ℕ)
      → lookup name (set_next_offset name n written).topics
        ≡ some (record { segments = appended ∷ []; next_offset = n })
  numbered-found n =
      set_next_offset-found name n written (record topic { segments = appended ∷ [] }) written-found

module _ (json : Json) (m : Moment) (name key value : Bytes) (headers : Dict Bytes Bytes)
    (b : Broker) (rs : List LogRecord) where
  -- The record that `Produce` makes for the end of the log.
  abbrev pub next_record : LogRecord
  next_record = new_record m key value headers (length rs)

  abbrev pub produced : Broker × Result Error LogRecord
  produced = produce json m name key value headers b

  -- The three ways in which producing to an open topic can end.
  pub data Produced : Type 0 where
    added :
        produced.1 ≡ ok next_record
        → IsTopicLog json produced.0 name (rs ++ next_record ∷ [])
        → Produced
    refused :
        (e : Segment.Error)
        → produced.1 ≡ err (segment_error e)
        → e ≢ persist_failed
        → IsTopicLog json produced.0 name rs
        → Produced
    unindexed :
        produced.1 ≡ err (segment_error persist_failed)
        → (seg : Segment)
        → lookup name produced.0.topics
          ≡ some (record { segments = seg ∷ []; next_offset = length rs })
        → IsLog json seg (rs ++ next_record ∷ [])
        → Produced

  module _ (t : IsTopicLog json b name rs) (free : is_draining m.now b ≡ false)
      (room : HasRoom json next_record t.seg) (back : RoundTrips json next_record)
      (more : length rs + 1 < 2 ^ 63) where
    abbrev made : LogRecord
    made = new_record m key value headers t.topic.next_offset

    made-next : made ≡ next_record
    made-next = ap (new_record m key value headers) t.next

    -- The segment once the record has been appended to it.
    abbrev segment_after : Segment
    segment_after = (append json m.writes made t.seg).0

    abbrev FailedWith : Segment.Error → Type 0
    FailedWith e = (append json m.writes made t.seg).1 ≡ err e

    after_ok :
        (append json m.writes made t.seg).1 ≡ ok (length rs)
        → IsLog json segment_after (rs ++ next_record ∷ [])
        → Produced
    after_ok e log =
        let run =
          produce_ok json m name key value headers b t.topic t.seg free t.found t.single (length rs)
            e in
        added (ap (λ q. q.1) run) (record {
          topic = record { segments = segment_after ∷ []; next_offset = add (length rs) 1 };
          seg = segment_after;
          found =
              ap (λ q. lookup name q.0.topics) run
              ∙ numbered-found json m name key value headers b t.topic t.seg free t.found t.single
                  (add (length rs) 1);
          single = refl;
          log = log;
          next =
              omega (arith, length-append rs (next_record ∷ []), log.valid.next_offset, log.next);
        })

    found_after_err :
        (e : Segment.Error)
        → FailedWith e
        → (produced.1 ≡ err (segment_error e))
          × (lookup name produced.0.topics
              ≡ some (record { segments = segment_after ∷ []; next_offset = t.topic.next_offset }))
    found_after_err e f =
        let run =
          produce_err json m name key value headers b t.topic t.seg free t.found t.single e f in
        (
          ap (λ q. q.1) run,
          ap (λ q. lookup name q.0.topics) run
              ∙ written-found json m name key value headers b t.topic t.seg free t.found t.single,
        )

    after_err :
        (e : Segment.Error)
        → FailedWith e
        → e ≢ persist_failed
        → IsLog json segment_after rs
        → Produced
    after_err e f other log =
        let (result, found) = found_after_err e f in
        refused e result other (record {
          topic = record { segments = segment_after ∷ []; next_offset = t.topic.next_offset };
          seg = segment_after;
          found = found;
          single = refl;
          log = log;
          next = t.next;
        })

    after_unindexed :
        FailedWith persist_failed → IsLog json segment_after (rs ++ next_record ∷ []) → Produced
    after_unindexed f log =
        let (result, found) = found_after_err persist_failed f in
        unindexed result segment_after
          (found
            ∙ ap (λ n. some (record { segments = segment_after ∷ []; next_offset = n })) t.next)
          log

    -- Producing to an open topic of a broker that is not draining, for a record that fits and
    -- round-trips through the codec, ends in one of three ways: the record is returned with the
    -- next offset and stands at the end of the topic's log; or an error other than a failure to
    -- persist the indexes is returned and the log is as before; or that failure is returned, the
    -- log has the record, and the topic's own next offset is as before.
    pub produce-IsTopicLog : Produced
    produce-IsTopicLog =
        elim (append-IsLog json m.writes made t.seg rs t.log
          (subst (λ x. HasRoom json x t.seg) (sym made-next) room)
          (subst (RoundTrips json) (sym made-next) back) more) [
            | inl (log, inl e) ↦
                after_ok e (subst (λ x. IsLog json segment_after (rs ++ x ∷ [])) made-next log)
            | inl (log, inr e) ↦
                after_unindexed e
                  (subst (λ x. IsLog json segment_after (rs ++ x ∷ [])) made-next log)
            | inr (log, (e, failed, other)) ↦ after_err e failed other log
          ]
