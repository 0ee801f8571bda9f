-- ===== src/Sdk/Delivery.antt =====
-- The client and the server together: a value that a client produces is what it then consumes, as the
-- text that JSON has for it. Package encoding/json writes a slice of bytes as a text in base64, which
-- the client keeps as it is; that coding is the parameter `base64`.
use stream_flow.Prelude.{
  ℕ, ◌≤◌, ◌<◌, ◌≡◌, refl, sym, ap, ◌∙◌, true, false, Option, none, some, List, [], ◌∷◌, ◌++◌, Bytes,
  ascii, bytes_key, same_bytes_iff, length, length-append, subst, take_all, map, arith,
}
use mathlib.Core.List.{map-append}
use stream_flow.Prelude.Action.{Result, ok}
use stream_flow.Dict.{lookup}
use stream_flow.Segment.Append.{HasRoom}
use stream_flow.Segment.Record.{LogRecord, Json, RoundTrips}
use stream_flow.Text.{parse_int64}
use stream_flow.Broker.Consume.{consume}
use stream_flow.Broker.Log.{IsTopicLog, consume-IsTopicLog}
use stream_flow.Broker.Topics.{is_draining}
use stream_flow.Management.Api.{
  Request, Response, App, Content, Decoders, Environment, ProducePayload, respond, is_present,
  consumed,
}
use stream_flow.Management.Records.{handle_produce, handle_consume}
use stream_flow.Management.Server.{
  collapse, count_request, serve, serve_mux, with_auth, with_metrics,
}
use stream_flow.Management.Server.Delivery.{stored, added_here}
use stream_flow.Sdk.Client.{
  Client, Call, Reply, Coding, SdkError, produce_payload, is_failure, consume_call, post_call,
  post_only-ok, client_produce, get_records, client_consume,
}

abbrev pub or_blank : Option Bytes → Bytes
or_blank none = []
or_blank (some s) = s

-- The path of a URL below the base URL of the client.
abbrev pub drop_base : Bytes → Bytes → Bytes
drop_base [] url = url
drop_base (c ∷ cs) [] = []
drop_base (c ∷ cs) (d ∷ ds) = drop_base cs ds

drop_base-append : (base path : Bytes) → drop_base base (base ++ path) ≡ path
drop_base-append [] path = refl
drop_base-append (c ∷ cs) path = drop_base-append cs path

abbrev status_of : Option Reply → ℕ
status_of none = 0
status_of (some r) = r.status

below_300 : (n : ℕ) → is_failure n ≡ false → n < 300
below_300 n h = ground arith

-- A network that carries every request of `client` to the server and every response back.
module _ (json : Json) (dec : Decoders) (env : Environment) (key : Bytes) (print : Content → Bytes)
    (client : Client) where
  abbrev pub at_path : Bytes → Call → Request
  at_path path call = record {
    method = call.method;
    path = path;
    query = λ name. or_blank (lookup name call.query);
    api_key = call.api_key;
    body = call.body;
  }

  abbrev pub reply_of : App × Response → App × Option Reply
  reply_of (s, r) = (s, some (record { status = r.status; body = print r.content }))

  unfoldable pub over_http : Call → App → App × Option Reply
  over_http call s =
      reply_of (serve json dec env key (at_path (drop_base client.base_url call.url) call) s)

  -- With the key of the server, a request gets past the authentication.
  admitted :
      (req : Request) (s : App)
      → req.api_key ≡ key
      → with_auth key (serve_mux json dec env) req s ≡ serve_mux json dec env req s
  unfolding with_auth
  admitted req s same = ground (arith, same_bytes_iff req.api_key key)

  -- A request of the client to the handler at `path`.
  carried :
      (path : Bytes) (call : Call) (s : App) (handled : App × Response)
      → call.url ≡ client.base_url ++ path
      → call.api_key ≡ key
      → serve_mux json dec env (at_path path call) s ≡ handled
      → over_http call s ≡ reply_of (count_request (at_path path call) handled)
  unfolding over_http serve with_metrics
  carried path call s handled below same_key served =
      rw
        (
          below,
          drop_base-append client.base_url path,
          admitted (at_path path call) s same_key,
          served,
        )
        refl

  module _ (coding : Coding) (s : App) (p : ProducePayload) (same_key : client.api_key ≡ key) where
    abbrev call : Call
    call =
        post_call over_http coding client (ascii "/produce") (produce_payload p.topic p.key p.value)

    abbrev pub request : Request
    request = at_path (ascii "/produce") call

    abbrev pub posted : App × Result SdkError (Unit {0})
    posted = client_produce over_http coding client p.topic p.key p.value s

    abbrev handled : App × Response
    handled = collapse (handle_produce json dec env request s)

    served_produce : serve_mux json dec env request s ≡ handled
    unfolding serve_mux
    served_produce = refl

    produced_ok : posted.1 ≡ ok tt → (posted.0.broker ≡ handled.0.broker) × (handled.1.status < 300)
    unfolding client_produce
    produced_ok h =
        let (r, replied, fine, after) =
          post_only-ok over_http coding client (ascii "/produce")
            (produce_payload p.topic p.key p.value) s h in
        let same : over_http call s ≡ reply_of (count_request request handled) =
          carried (ascii "/produce") call s handled refl same_key served_produce in
        (
          ap (λ a. a.broker) after ∙ ap (λ q. q.0.broker) same,
          below_300 _ (
              subst (λ n. is_failure n ≡ false) (ap status_of (sym replied ∙ ap (λ q. q.1) same))
                fine),
        )

  -- A consume request of the client at a topic with no more records than it asks for.
  module _ (base64 : Bytes → Bytes) (coding : Coding) (s : App) (topic : Bytes)
      (rs : List LogRecord) (same_key : client.api_key ≡ key) where
    abbrev asked : Request
    asked = at_path (ascii "/consume") (consume_call over_http coding client topic)

    handled_consume :
        is_present topic ≡ true
        → IsTopicLog json s.broker topic rs
        → length rs ≤ 100
        → collapse (handle_consume json asked s) ≡ (s, respond 200 (consumed rs))
    unfolding handle_consume lookup parse_int64
    handled_consume here t few =
        let all : consume json topic 0 100 s.broker ≡ ok rs =
          consume-IsTopicLog json s.broker topic rs 0 100 t
          ∙ ap (λ l. ok l) (take_all 100 rs few) in
        ground (arith, here, all)

    consumed_all :
        is_present topic ≡ true
        → IsTopicLog json s.broker topic rs
        → length rs ≤ 100
        → coding.url_fails (client.base_url ++ ascii "/consume") ≡ false
        → coding.decode_values (print (consumed rs)) ≡ some (map (λ r. base64 r.value) rs)
        → (client_consume over_http coding client topic s).1 ≡ map (λ r. base64 r.value) rs
    unfolding client_consume get_records serve_mux
    consumed_all here t few fine back =
        let replied =
          carried (ascii "/consume") (consume_call over_http coding client topic) s
            (s, respond 200 (consumed rs)) refl same_key (handled_consume here t few) in
        rw (fine, replied, back) refl

  module _ (base64 : Bytes → Bytes) (coding : Coding) (s : App) (p : ProducePayload)
      (rs : List LogRecord) (same_key : client.api_key ≡ key) where
    abbrev pub new : LogRecord
    new = stored json dec env (request coding s p same_key) s p rs

    -- When the network carries every request of a client that has the key of the server, the topic
    -- is open and holds fewer than 100 records, the broker does not drain, the new record fits and
    -- round-trips, the JSON of the request is read back, and that of the answer is read as the
    -- base64 texts of the values in it, then after a produce by the client that returns no error,
    -- a consume by the client delivers the base64 texts of the values of the records of the topic
    -- and, behind them, that of the value produced.
    pub client_produce-client_consume :
        (t : IsTopicLog json s.broker p.topic rs)
        → is_present p.topic ≡ true
        → dec.produce (coding.marshal (produce_payload p.topic p.key p.value)) ≡ some p
        → coding.url_fails (client.base_url ++ ascii "/consume") ≡ false
        → coding.decode_values (print (consumed (rs ++ (new ∷ []))))
          ≡ some (map (λ r. base64 r.value) (rs ++ (new ∷ [])))
        → is_draining env.create.moment.now s.broker ≡ false
        → HasRoom json new t.seg
        → RoundTrips json new
        → length rs < 100
        → (posted coding s p same_key).1 ≡ ok tt
        → (client_consume over_http coding client p.topic (posted coding s p same_key).0).1
          ≡ map (λ r. base64 r.value) rs ++ (base64 p.value ∷ [])
    client_produce-client_consume t here decoded' url values free room back few h =
        let (same, below) = produced_ok coding s p same_key h in
        let (stays, r, log) =
          added_here json dec env (request coding s p same_key) s p rs refl decoded' here t free
            room back (omega arith) below in
        let broker = sym (same ∙ stays) in
        let log' : IsTopicLog json (posted coding s p same_key).0.broker p.topic
            (rs ++ (new ∷ [])) =
          subst (λ b. IsTopicLog json b p.topic (rs ++ (new ∷ []))) broker log in
        consumed_all base64 coding (posted coding s p same_key).0 p.topic (rs ++ (new ∷ []))
          same_key here log' (omega (arith, length-append rs (new ∷ []))) url values
        ∙ map-append (λ r. base64 r.value) rs (new ∷ [])
