-- ===== src/Management/Server/Delivery.antt =====
-- What a produce request stores is what a consume request at its offset returns.
use stream_flow.Prelude.{
  ◌+◌, ◌^◌, ◌<◌, ◌≡◌, refl, ap, ◌∙◌, true, false, some, List, [], ◌∷◌, ◌++◌, ascii, arith,
  bytes_key, length, take, drop, drop-append_length,
}
use stream_flow.Prelude.Action.{Result, ok, err}
use stream_flow.Segment
use stream_flow.Segment.Append.{HasRoom}
use stream_flow.Segment.Log.{start_of, allowed}
use stream_flow.Segment.Record.{LogRecord, Json, RoundTrips}
use stream_flow.Broker.State.{Broker, Error, segment_error}
use stream_flow.Broker.Topics.{create_topic, is_draining}
use stream_flow.Broker.Produce.{produce}
use stream_flow.Broker.Consume.{consume}
use stream_flow.Broker.Log.{IsTopicLog, consume-IsTopicLog}
use stream_flow.Broker.Log.Appends.{added, refused, unindexed, next_record, produce-IsTopicLog}
use stream_flow.Management.Api.{
  Request, Response, App, Decoders, Environment, ProducePayload, respond, is_present, get, post,
  produced, consumed,
}
use stream_flow.Management.Records.{handle_produce, handle_consume, parse_or, positive}
use stream_flow.Management.Server.{collapse}

pub last_slice :
    (rs : List LogRecord) (r : LogRecord)
    → length rs < 2 ^ 63
    → take (allowed 1) (drop (start_of (length rs)) (rs ++ (r ∷ []))) ≡ r ∷ []
last_slice rs r h =
    let start : start_of (length rs) ≡ length rs = ground arith in
    ap (λ n. take 1 (drop n (rs ++ (r ∷ [])))) start
    ∙ ap (take 1) (drop-append_length (length rs) rs (r ∷ []) refl)

module _ (json : Json) (dec : Decoders) (env : Environment) (req : Request) (s : App)
    (p : ProducePayload) (rs : List LogRecord) where
  abbrev pub answered : App × Response
  answered = collapse (handle_produce json dec env req s)

  abbrev pub stored : LogRecord
  stored = next_record json env.create.moment p.topic p.key p.value p.headers s.broker rs

  abbrev pub outcome : Broker × Result Error LogRecord
  outcome = produce json env.create.moment p.topic p.key p.value p.headers s.broker

  module _ (posted : req.method ≡ post) (decoded : dec.produce req.body ≡ some p)
      (here : is_present p.topic ≡ true) (t : IsTopicLog json s.broker p.topic rs) where
    answered_ok :
        (r : LogRecord)
        → outcome.1 ≡ ok r
        → (answered.0.broker ≡ outcome.0) × (answered.1 ≡ respond 200 (produced r))
    unfolding handle_produce create_topic
    answered_ok r e = ground (arith, t.found)

    answered_err : (e : Segment.Error) → outcome.1 ≡ err (segment_error e) → answered.1.status ≡ 500
    unfolding handle_produce create_topic
    answered_err e f = ground (arith, t.found)

    module _ (free : is_draining env.create.moment.now s.broker ≡ false)
        (room : HasRoom json stored t.seg) (back : RoundTrips json stored)
        (more : length rs + 1 < 2 ^ 63) (fine : answered.1.status < 300) where
      -- The request was answered 200, so that the record was added.
      pub added_here :
          (answered.0.broker ≡ outcome.0)
          × (answered.1 ≡ respond 200 (produced stored))
          × IsTopicLog json outcome.0 p.topic (rs ++ (stored ∷ []))
      added_here =
          elim (produce-IsTopicLog json env.create.moment p.topic p.key p.value p.headers s.broker
            rs t free room back more) [
              | added e log ↦ let (same, r) = answered_ok stored e in (same, r, log)
              | refused e f other log ↦ absurd (omega (arith, answered_err e f, fine))
              | unindexed f seg found log ↦ absurd (omega (arith, answered_err _ f, fine))
            ]

      -- When a produce request for an open topic that holds a list of records, for a record that
      -- fits and round-trips, is answered 200, it is answered with the next record of the list,
      -- and a consume request at its offset with a limit of 1 is then answered 200 with just that
      -- record and changes nothing.
      pub handle_produce-handle_consume :
          (req' : Request)
          → req'.method ≡ get
          → req'.query (ascii "topic") ≡ p.topic
          → parse_or 0 (req'.query (ascii "offset")) ≡ some (length rs)
          → positive (parse_or 100 (req'.query (ascii "max"))) ≡ some 1
          → (answered.1 ≡ respond 200 (produced stored))
            × (collapse (handle_consume json req' answered.0)
                ≡ (answered.0, respond 200 (consumed (stored ∷ []))))
      unfolding handle_consume
      handle_produce-handle_consume req' got asked from one =
          let (same, r, log) = added_here in
          let read : consume json p.topic (length rs) 1 answered.0.broker ≡ ok (stored ∷ []) =
            ap (consume json p.topic (length rs) 1) same
            ∙ consume-IsTopicLog json outcome.0 p.topic (rs ++ (stored ∷ [])) (length rs) 1 log
            ∙ ap (λ l. ok l) (last_slice rs stored (omega arith)) in
          (r, ground (arith, read))
