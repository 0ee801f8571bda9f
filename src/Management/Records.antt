-- ===== src/Management/Records.antt =====
-- management/api/server.go: `handleTopics`, `handleProduce`, `handleProduceIdempotent` and
-- `handleConsume`.
use stream_flow.Prelude.{
  ℕ, ◌&&◌, Option, none, some, [], ◌∷◌, Bytes, ascii, same_bytes, if◌then◌else◌,
}
use stream_flow.Prelude.Action.{Result, Action, pure, fail, gets, guard, or_fail, ◌>>=◌, ◌>>◌}
use stream_flow.Int64.{is_not_positive}
use stream_flow.Segment.Record.{Json}
use stream_flow.Text.{parse_int64}
use stream_flow.Broker.State.{Broker, Topic, Error}
use stream_flow.Broker.Topics.{create_topic, list_topics}
use stream_flow.Broker.Produce.{produce}
use stream_flow.Broker.Idempotent.{produce_idempotent}
use stream_flow.Broker.Consume.{consume}
use stream_flow.Management.Api.{
  Request, Response, App, Decoders, Environment, Handler, respond, bad_request, is_present,
  require_method, get, post, call, report, server_error, conflict, not_found, conflict_if_draining,
  names, created, produced, produced_once, consumed, message, record_produced,
}

abbrev pub create : Environment → Bytes → Action App Response Topic
create env name = call server_error (create_topic env.create.dir_fails env.create.fails name)

-- A broker method that changes nothing.
abbrev pub look : {A : Type 0} → (Broker → Result Error A) → Action Broker Error A
look f b = (b, f b)

abbrev pub bad_topic : Response
bad_topic = bad_request (ascii "invalid topic payload")

list_topics_handler : Handler
list_topics_handler = gets (λ s. respond 200 (names (list_topics s.broker)))

create_topic_handler : Decoders → Environment → Request → Handler
create_topic_handler dec env req = do
  name ← or_fail bad_topic (dec.name req.body)
  guard (is_present name) bad_topic
  _ ← create env name
  pure (respond 201 (created name))

unfoldable pub handle_topics : Decoders → Environment → Request → Handler
unfolding list_topics_handler create_topic_handler
handle_topics dec env req =
    if same_bytes req.method get
    then list_topics_handler
    else if same_bytes req.method post
    then create_topic_handler dec env req
    else fail (respond 405 (message (ascii "method not allowed")))

abbrev pub bad_produce : Response
bad_produce = bad_request (ascii "invalid produce payload")

abbrev pub bad_idempotent : Response
bad_idempotent = bad_request (ascii "invalid idempotent produce payload")

-- `v == "" ` keeps the default.
abbrev pub parse_or : ℕ → Bytes → Option ℕ
parse_or default [] = some default
parse_or default (c ∷ cs) = parse_int64 (c ∷ cs)

abbrev pub positive : Option ℕ → Option ℕ
positive none = none
positive (some n) = if is_not_positive n then none else some n

module _ (json : Json) where
  unfoldable pub handle_produce : Decoders → Environment → Request → Handler
  handle_produce dec env req = do
    require_method post req
    p ← or_fail bad_produce (dec.produce req.body)
    guard (is_present p.topic) bad_produce
    _ ← create env p.topic
    r ← call conflict_if_draining (produce json env.create.moment p.topic p.key p.value p.headers)
    report (record_produced p.topic)
    pure (respond 200 (produced r))

  unfoldable pub handle_produce_idempotent : Decoders → Environment → Request → Handler
  handle_produce_idempotent dec env req = do
    require_method post req
    q ← or_fail bad_idempotent (dec.idempotent req.body)
    let p = q.entry
    guard (is_present p.topic && is_present q.producer_id) bad_idempotent
    _ ← create env p.topic
    out ← call conflict (
        produce_idempotent json env.create.moment p.topic p.key p.value p.headers q.producer_id
          q.sequence)
    report (record_produced p.topic)
    pure (respond 200 (produced_once out.1 out.0))

  unfoldable pub handle_consume : Request → Handler
  handle_consume req = do
    require_method get req
    let topic = req.query (ascii "topic")
    guard (is_present topic) (bad_request (ascii "topic is required"))
    offset ←
        or_fail (bad_request (ascii "invalid offset")) (parse_or 0 (req.query (ascii "offset")))
    max ←
        or_fail (bad_request (ascii "invalid max"))
          (positive (parse_or 100 (req.query (ascii "max"))))
    recs ← call not_found (look (consume json topic offset max))
    pure (respond 200 (consumed recs))
