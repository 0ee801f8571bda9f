-- ===== src/Management/Server.antt =====
-- management/api/server.go: the remaining handlers, the routes, and the layers round them. The
-- audit log and the traces are left out, and a path is taken as the server's mux cleans it.
pub mod Refusals
pub mod Reads
pub mod Access
pub mod Delivery
use stream_flow.Prelude.{
  ℕ, Bool, true, false, ◌||◌, not, Option, none, some, List, [], ◌∷◌, ◌++◌, Bytes, ascii,
  same_bytes, if◌then◌else◌,
}
use stream_flow.Prelude.Action.{
  Result, ok, err, Action, pure, fail, gets, guard, or_fail, ◌>>=◌, ◌>>◌,
}
use stream_flow.Segment.Record.{Json}
use stream_flow.Text.{to_lower, contains_text, trim_space}
use stream_flow.Broker.State.{Broker}
use stream_flow.Broker.Topics.{list_topics}
use stream_flow.Management.Api.{
  Request, Response, App, Decoders, Environment, Handler, respond, bad_request, is_present,
  require_method, post, report, message, names, health, metrics_page, status_text, window_closed,
  request_handled,
}
use stream_flow.Management.Records.{
  handle_topics, handle_produce, handle_produce_idempotent, handle_consume,
}
use stream_flow.Management.Offsets.{handle_commit_offset, handle_offset, handle_drain}
use stream_flow.Management.Transactions.{
  handle_tx_begin, handle_tx_produce, handle_tx_commit, handle_tx_abort,
}

unfoldable pub handle_health : Handler
handle_health = pure (respond 200 (message (ascii "ok")))

answer_query : Bytes → Handler
answer_query q =
    if contains_text q (ascii "topics")
    then gets (λ s. respond 200 (names (list_topics s.broker)))
    else if contains_text q (ascii "health")
    then pure (respond 200 health)
    else pure (bad_request (ascii "unsupported graphql query"))

unfoldable pub handle_graphql : Decoders → Request → Handler
unfolding answer_query
handle_graphql dec req = do
  require_method post req
  q ← or_fail (bad_request (ascii "invalid graphql payload")) (dec.query req.body)
  answer_query (to_lower q)

abbrev pub bad_payload : Response
bad_payload = bad_request (ascii "invalid payload")

unfoldable pub handle_window_close : Decoders → Request → Handler
handle_window_close dec req = do
  require_method post req
  negative ← or_fail bad_payload (dec.latency_negative req.body)
  guard (not negative) bad_payload
  report window_closed
  pure (respond 200 (status_text (ascii "observed")))

abbrev pub collapse : App × Result Response Response → App × Response
collapse (s, ok r) = (s, r)
collapse (s, err r) = (s, r)

abbrev pub Serve : Type 0
Serve = Request → App → App × Response

abbrev pub Route : Type 0
Route = Bytes × (Request → Handler)

abbrev pub select : List Route → Request → Handler
select [] req = fail (respond 404 (message (ascii "404 page not found")))
select ((path, handle) ∷ routes) req =
    if same_bytes req.path path then handle req else select routes req

module _ (json : Json) (dec : Decoders) (env : Environment) where
  -- Serving the metrics changes nothing.
  abbrev pub routes : List Route
  routes =
      (ascii "/metrics", λ req. pure (respond 200 metrics_page))
      ∷ (ascii "/health", λ req. handle_health)
      ∷ (ascii "/topics", handle_topics dec env)
      ∷ (ascii "/produce", handle_produce json dec env)
      ∷ (ascii "/produce/idempotent", handle_produce_idempotent json dec env)
      ∷ (ascii "/consume", handle_consume json)
      ∷ (ascii "/offset/commit", handle_commit_offset json dec env)
      ∷ (ascii "/offset", handle_offset)
      ∷ (ascii "/admin/drain", handle_drain dec env)
      ∷ (ascii "/tx/begin", handle_tx_begin dec env)
      ∷ (ascii "/tx/produce", handle_tx_produce dec env)
      ∷ (ascii "/tx/commit", handle_tx_commit json dec env)
      ∷ (ascii "/tx/abort", handle_tx_abort dec env)
      ∷ (ascii "/graphql", handle_graphql dec)
      ∷ (ascii "/admin/window-close", handle_window_close dec)
      ∷ []

  unfoldable pub serve_mux : Serve
  serve_mux req s = collapse (select routes req s)

abbrev pub is_free : Bytes → Bool
is_free path = same_bytes path (ascii "/health") || same_bytes path (ascii "/metrics")

unfoldable pub with_auth : Bytes → Serve → Serve
with_auth api_key next req s =
    if not (is_present (trim_space api_key))
    then next req s
    else if is_free req.path
    then next req s
    else if same_bytes req.api_key api_key
    then next req s
    else (s, respond 401 (message (ascii "unauthorized")))

abbrev pub count_request : Request → App × Response → App × Response
count_request req (s, r) =
    (record s { metrics = s.metrics ++ (request_handled req.method req.path r.status ∷ []) }, r)

unfoldable pub with_metrics : Serve → Serve
with_metrics next req s = count_request req (next req s)

-- `Server.Handler` with the key that the server was made with.
unfoldable pub serve : Json → Decoders → Environment → Bytes → Serve
serve json dec env api_key = with_metrics (with_auth api_key (serve_mux json dec env))
