-- ===== src/BrokerServer/Delivery.antt =====
-- What the broker's own server stores is what it then returns.
use stream_flow.Prelude.{
  ◌+◌, ◌^◌, ◌<◌, ◌≡◌, ap, ◌∙◌, true, false, Option, some, List, [], ◌∷◌, ◌++◌, Bytes, ascii, arith,
  bytes_key, length,
}
use stream_flow.Prelude.Action.{Result, ok, err}
use stream_flow.Segment.Append.{HasRoom}
use stream_flow.Segment.Record.{LogRecord, Json, RoundTrips}
use stream_flow.Broker.State.{Broker, Error}
use stream_flow.Broker.Topics.{create_topic, is_draining}
use stream_flow.Broker.Produce.{produce}
use stream_flow.Broker.Consume.{consume}
use stream_flow.Broker.Log.{IsTopicLog, consume-IsTopicLog}
use stream_flow.Broker.Log.Appends.{added, refused, unindexed, next_record, produce-IsTopicLog}
use stream_flow.Broker.Transactions.{Surroundings}
use stream_flow.BrokerServer.{
  Answer, answer, answer_produce, answer_consume, fetched, stored, topic_of, failure,
}
use stream_flow.Management.Api.{Request, ProducePayload, is_present, get, post}
use stream_flow.Management.Records.{parse_or, positive}
use stream_flow.Management.Server.Delivery.{last_slice}

module _ (json : Json) (decode : Bytes → Option ProducePayload) (env : Surroundings) (req : Request)
    (b : Broker) (p : ProducePayload) (rs : List LogRecord) where
  abbrev pub answered : Broker × Result Answer Answer
  answered = answer_produce json decode env req b

  abbrev outcome : Broker × Result Error LogRecord
  outcome = produce json env.moment p.topic p.key p.value p.headers b

  module _ (posted : req.method ≡ post) (decoded : decode req.body ≡ some p)
      (here : is_present p.topic ≡ true) (t : IsTopicLog json b p.topic rs) where
    answered_ok :
        (r : LogRecord) → outcome.1 ≡ ok r → answered ≡ (outcome.0, ok (answer 200 (stored r)))
    unfolding answer_produce create_topic
    answered_ok r e = ground (arith, t.found)

    answered_err :
        (e : Error) → outcome.1 ≡ err e → answered ≡ (outcome.0, err (answer 500 (failure e)))
    unfolding answer_produce create_topic
    answered_err e f = ground (arith, t.found)

    module _ (r : LogRecord) (free : is_draining env.moment.now b ≡ false)
        (room : HasRoom json
          (next_record json env.moment p.topic p.key p.value p.headers b rs)
          t.seg)
        (back : RoundTrips json (next_record json env.moment p.topic p.key p.value p.headers b rs))
        (more : length rs + 1 < 2 ^ 63) (fine : answered.1 ≡ ok (answer 200 (stored r))) where
      abbrev next : LogRecord
      next = next_record json env.moment p.topic p.key p.value p.headers b rs

      added_next :
          (answered ≡ (outcome.0, ok (answer 200 (stored next))))
          × IsTopicLog json outcome.0 p.topic (rs ++ (next ∷ []))
      added_next =
          elim (produce-IsTopicLog json env.moment p.topic p.key p.value p.headers b rs t free room
            back more) [
              | added e log ↦ (answered_ok next e, log)
              | refused e f other log ↦ absurd (cc (answered_err _ f, fine))
              | unindexed f seg found log ↦ absurd (cc (answered_err _ f, fine))
            ]

      -- When a produce request to the server of the broker, for an open topic that holds a list of
      -- records and for a record that fits and round-trips, is answered 200 with a record, that is
      -- the next record of the list, and a consume request at its offset with a limit of 1 is then
      -- answered 200 with just this record and leaves the broker as it is.
      pub answer_produce-answer_consume :
          (req' : Request)
          → req'.method ≡ get
          → topic_of req' ≡ p.topic
          → parse_or 0 (req'.query (ascii "offset")) ≡ some (length rs)
          → positive (parse_or 100 (req'.query (ascii "max"))) ≡ some 1
          → (r ≡ next)
            × (answer_consume json req' answered.0
                ≡ (answered.0, ok (answer 200 (fetched (r ∷ [])))))
      unfolding answer_consume
      answer_produce-answer_consume req' got asked from one =
          let (same, log) = added_next in
          let it : r ≡ next = cc (same, fine) in
          let read : consume json p.topic (length rs) 1 answered.0 ≡ ok (next ∷ []) =
            ap (λ q. consume json p.topic (length rs) 1 q.0) same
            ∙ consume-IsTopicLog json outcome.0 p.topic (rs ++ (next ∷ [])) (length rs) 1 log
            ∙ ap (λ l. ok l) (last_slice rs next (omega arith)) in
          (it, ground (arith, read, it))
