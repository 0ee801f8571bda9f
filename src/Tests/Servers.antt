-- ===== src/Tests/Servers.antt =====
-- The broker's own server at a concrete input.
use stream_flow.Prelude.{◌≡◌, refl, [], ◌∷◌, ascii, arith}
use stream_flow.Prelude.Action.{ok}
use stream_flow.Dict.{lookup}
use stream_flow.File.{write_at, write_file}
use stream_flow.Int64.{int64_to_bytes}
use stream_flow.Segment.{append}
use stream_flow.Broker.Topics.{create_topic, is_draining}
use stream_flow.Broker.Produce.{produce}
use stream_flow.BrokerServer.{answer, stored, fetched, answer_produce, answer_consume}
use stream_flow.BrokerServer.Delivery.{answer_produce-answer_consume}
use stream_flow.Management.Api.{get, post}
use stream_flow.Text.{parse_int64}
use stream_flow.Tests.Brokers.{one_topic, one_topic-IsTopicLog, not_draining}
use stream_flow.Tests.Http.{decoders, payload, request}
use stream_flow.Tests.Producers.{calm}
use stream_flow.Tests.Samples.{codec, plain_back, plain_room}
use stream_flow.Tests.Segments.{rec}

answer_produce_ok :
    (answer_produce codec decoders.produce calm
      (request post (ascii "/produce") (7 ∷ 8 ∷ []))
      one_topic).1
    ≡ ok (answer 200 (stored rec))
unfolding answer_produce create_topic lookup produce is_draining append int64_to_bytes write_at
    write_file
answer_produce_ok = refl

answer_produce-answer_consume_example :
    let after =
      (answer_produce codec decoders.produce calm
        (request post (ascii "/produce") (7 ∷ 8 ∷ []))
        one_topic).0 in
    (rec ≡ rec)
    × (answer_consume codec (request get (ascii "/consume") []) after
        ≡ (after, ok (answer 200 (fetched (rec ∷ [])))))
unfolding one_topic-IsTopicLog parse_int64
answer_produce-answer_consume_example =
    answer_produce-answer_consume codec decoders.produce calm
      (request post (ascii "/produce") (7 ∷ 8 ∷ [])) one_topic (payload (7 ∷ 8 ∷ [])) [] refl refl
      refl one_topic-IsTopicLog rec not_draining plain_room (plain_back (7 ∷ 8 ∷ [])) (omega arith)
      answer_produce_ok (request get (ascii "/consume") []) refl refl refl refl
