-- ===== src/Tests/Http.antt =====
-- The theorems on the HTTP server at concrete requests.
use stream_flow.Prelude.{
  ◌≡◌, refl, false, some, none, [], ◌∷◌, Bytes, ascii, arith, bytes_key, same_bytes, if◌then◌else◌,
}
use stream_flow.Prelude.Int.{pos, ◌+ℤ◌}
use stream_flow.Dict.{lookup}
use stream_flow.File.{written, write_at, write_file}
use stream_flow.Int64.{int64_to_bytes}
use stream_flow.Segment.{append}
use stream_flow.Text.{trim_space}
use stream_flow.Broker.State.{draining}
use stream_flow.Broker.Topics.{create_topic, is_draining}
use stream_flow.Broker.Produce.{produce}
use stream_flow.Management.Api.{
  App, Decoders, Environment, Request, ProducePayload, get, post, respond, message, failure,
  request_handled,
}
use stream_flow.Management.Records.{handle_produce}
use stream_flow.Management.Offsets.{handle_drain}
use stream_flow.Management.Server.{collapse, serve, serve_mux, with_auth, with_metrics}
use stream_flow.Management.Server.Access.{serve-key, handle_drain-handle_produce}
use stream_flow.Management.Server.Reads.{serve-get}
use stream_flow.Management.Server.Refusals.{serve-refused}
use stream_flow.Tests.Brokers.{orders, one_topic}
use stream_flow.Tests.Producers.{calm}
use stream_flow.Tests.Samples.{codec, empty_segment}

abbrev pub payload : Bytes → ProducePayload
payload value = record { topic = orders; key = []; value = value; headers = [] }

-- A body is the value, and any drain is of two seconds.
abbrev pub decoders : Decoders
decoders = record {
  name = λ body. some body;
  produce = λ body. some (payload body);
  idempotent = λ body. none;
  offset = λ body. none;
  duration_seconds = λ body. some 2;
  begin = λ body. none;
  tx_produce = λ body. none;
  tx_id = λ body. some body;
  query = λ body. some body;
  latency_negative = λ body. none;
}

abbrev pub environment : Environment
environment = record {
  create = calm;
  commit = λ n. calm;
  start = pos 5;
  now = pos 5;
  group_dir_fails = false;
  offset_write = written;
}

abbrev pub request : Bytes → Bytes → Bytes → Request
request method path body = record {
  method = method;
  path = path;
  query = λ name.
      if same_bytes name (ascii "topic")
      then orders
      else if same_bytes name (ascii "max")
      then ascii "1"
      else [];
  api_key = ascii "k";
  body = body;
}

abbrev pub app : App
app = record { broker = one_topic; metrics = [] }

serve-refused_example :
    (serve codec decoders environment [] (request get (ascii "/produce") []) app).0.broker
    ≡ one_topic
unfolding serve with_metrics with_auth serve_mux trim_space handle_produce
serve-refused_example =
    serve-refused codec decoders environment [] (request get (ascii "/produce") []) app
      (omega arith)

serve-get_example :
    (serve codec decoders environment [] (request get (ascii "/topics") []) app).0.broker
    ≡ one_topic
serve-get_example =
    serve-get codec decoders environment [] (request get (ascii "/topics") []) app refl

serve-key_example :
    serve codec decoders environment (ascii "key") (request post (ascii "/produce") (7 ∷ [])) app
    ≡ (
      record app { metrics = request_handled post (ascii "/produce") 401 ∷ [] },
      respond 401 (message (ascii "unauthorized")),
    )
serve-key_example =
    serve-key codec decoders environment (ascii "key") (request post (ascii "/produce") (7 ∷ []))
      app

topic_found :
    lookup orders one_topic.topics
    ≡ some (record { segments = empty_segment ∷ []; next_offset = 0 })
unfolding lookup
topic_found = refl

handle_drain-handle_produce_example :
    let drained =
      (collapse
        (handle_drain decoders environment (request post (ascii "/admin/drain") []) app)).0 in
    collapse
      (handle_produce codec decoders environment (request post (ascii "/produce") (7 ∷ [])) drained)
    ≡ (drained, respond 409 (failure draining))
unfolding ◌+ℤ◌
handle_drain-handle_produce_example =
    handle_drain-handle_produce codec decoders environment environment
      (request post (ascii "/admin/drain") []) (request post (ascii "/produce") (7 ∷ [])) app 2
      (payload (7 ∷ [])) (record { segments = empty_segment ∷ []; next_offset = 0 }) refl refl refl
      refl refl refl topic_found refl (omega arith)

abbrev two_bytes : Request
two_bytes = request post (ascii "/produce") (7 ∷ 8 ∷ [])

answered_200 : (collapse (handle_produce codec decoders environment two_bytes app)).1.status ≡ 200
unfolding handle_produce create_topic lookup produce is_draining append int64_to_bytes write_at
    write_file
answered_200 = refl
