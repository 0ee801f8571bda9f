-- ===== src/Tests/Clients.antt =====
-- The client library at concrete brokers.
use stream_flow.Prelude.{
  ℕ, ◌+◌, ◌-◌, ◌*◌, ◌/◌, ◌%◌, ltb, ◌==◌, if◌then◌else◌, ◌≡◌, refl, Bool, some, [], ◌∷◌, Bytes,
  ascii, bytes_key, arith,
}
use stream_flow.Prelude.Action.{ok, err}
use stream_flow.Dict.{lookup}
use stream_flow.File.{written, write_at, write_file}
use stream_flow.Int64.{int64_to_bytes}
use stream_flow.Segment.{append}
use stream_flow.Text.{trim_space, has_prefix}
use stream_flow.Broker.State.{topic_not_found, new_broker}
use stream_flow.Broker.Topics.{create_topic, is_draining}
use stream_flow.Broker.Produce.{produce}
use stream_flow.Management.Api.{Content, consumed}
use stream_flow.Management.Records.{handle_produce}
use stream_flow.Management.Server.{serve, serve_mux, with_auth, with_metrics}
use stream_flow.Sdk.Client.{
  Client, Coding, Payload, at_end, produce_payload, new_client, trim_slashes, with_api_key,
  client_produce, client_consume, post_json,
}
use stream_flow.Sdk.Delivery.{over_http, client_produce-client_consume}
use stream_flow.Sdk.Local.{consumer_poll, commits, consumer_poll-commits}
use stream_flow.Tests.Brokers.{orders, one_topic-IsTopicLog, not_draining}
use stream_flow.Tests.Http.{decoders, environment, app, payload}
use stream_flow.Tests.Samples.{codec, plain_back, plain_room}

-- The sign of base64 for a number below 64.
abbrev sign : ℕ → ℕ
sign n =
    if ltb n 26
    then b'A' + n
    else if ltb n 52
    then b'a' + (n - 26)
    else if ltb n 62
    then b'0' + (n - 52)
    else if n == 62
    then b'+'
    else b'/'

abbrev pad : ℕ
pad = b'='

abbrev base64 : Bytes → Bytes
base64 [] = []
base64 (a ∷ []) = sign (a / 4) ∷ sign (a % 4 * 16) ∷ pad ∷ pad ∷ []
base64 (a ∷ b ∷ []) = sign (a / 4) ∷ sign (a % 4 * 16 + b / 16) ∷ sign (b % 16 * 4) ∷ pad ∷ []
base64 (a ∷ b ∷ c ∷ s) =
    sign (a / 4)
    ∷ sign (a % 4 * 16 + b / 16)
    ∷ sign (b % 16 * 4 + c / 64)
    ∷ sign (c % 64)
    ∷ base64 s

base64_of_man : base64 (ascii "Man!") ≡ ascii "TWFuIQ=="
base64_of_man = refl

-- A list of records is printed as the coding of its first value.
abbrev print_content : Content → Bytes
print_content (consumed (r ∷ rs)) = base64 r.value
print_content c = []

abbrev value_of : Payload → Bytes
value_of (produce_payload topic key value) = value
value_of p = []

abbrev coding : Coding
coding = record {
  marshal = value_of;
  decode = λ body. at_end;
  decode_values = λ body. some (body ∷ []);
  url_fails = λ url. Bool.false;
}

abbrev client : Client
client = record { base_url = ascii "http://h:8080"; api_key = ascii "k" }

made_client : with_api_key (ascii "k") (new_client (ascii "h:8080//")) ≡ client
unfolding new_client trim_slashes has_prefix
made_client = refl

client_produced :
    (client_produce
      (over_http codec decoders environment (ascii "k") print_content client)
      coding
      client
      orders
      []
      (7 ∷ 8 ∷ [])
      app).1
    ≡ ok tt
unfolding client_produce post_json over_http serve with_metrics with_auth serve_mux handle_produce
    create_topic lookup produce is_draining append int64_to_bytes write_at write_file trim_space
client_produced = refl

client_produce-client_consume_example :
    let http = over_http codec decoders environment (ascii "k") print_content client in
    (client_consume http coding client orders
      (client_produce http coding client orders [] (7 ∷ 8 ∷ []) app).0).1
    ≡ ascii "Bwg=" ∷ []
unfolding one_topic-IsTopicLog
client_produce-client_consume_example =
    client_produce-client_consume codec decoders environment (ascii "k") print_content client base64
      coding app (payload (7 ∷ 8 ∷ [])) [] refl one_topic-IsTopicLog refl refl refl refl
      not_draining plain_room (plain_back (7 ∷ 8 ∷ [])) (omega arith) client_produced

-- A consumer never sees a topic, whatever is stored.
consumer_poll-commits_example :
    consumer_poll codec orders 0 10 (
      commits
        (record {
          dir_fails = Bool.false;
          ends = written;
          topic = orders;
          group = ascii "g";
          offset = 1;
        }
          ∷ [])
        (new_broker [] []))
    ≡ err topic_not_found
consumer_poll-commits_example =
    consumer_poll-commits codec [] []
      (record {
        dir_fails = Bool.false;
        ends = written;
        topic = orders;
        group = ascii "g";
        offset = 1;
      }
        ∷ [])
      orders 0 10
