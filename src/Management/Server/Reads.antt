-- ===== src/Management/Server/Reads.antt =====
-- A GET request leaves the broker as it is.
use stream_flow.Prelude.{◌≡◌, refl, Bytes, arith}
use stream_flow.Segment.Record.{Json}
use stream_flow.Management.Api.{Request, App, Decoders, Environment, Handler, get}
use stream_flow.Management.Records.{
  handle_topics, handle_produce, handle_produce_idempotent, handle_consume,
}
use stream_flow.Management.Offsets.{handle_commit_offset, handle_offset, handle_drain}
use stream_flow.Management.Transactions.{
  handle_tx_begin, handle_tx_produce, handle_tx_commit, handle_tx_abort,
}
use stream_flow.Management.Server.{
  collapse, routes, serve_mux, with_auth, with_metrics, serve, handle_health, handle_graphql,
  handle_window_close,
}
use stream_flow.Management.Server.Refusals.{select_all, ◌▸◌}

module _ (json : Json) (dec : Decoders) (env : Environment) (req : Request) (s : App) where
  abbrev IsStill : Handler → Type 0
  IsStill h = (collapse (h s)).0.broker ≡ s.broker

  health-IsStill : req.method ≡ get → IsStill (handle_health)
  unfolding handle_health
  health-IsStill e = refl

  topics-IsStill : req.method ≡ get → IsStill (handle_topics dec env req)
  unfolding handle_topics
  topics-IsStill e = ground (arith, e)

  produce-IsStill : req.method ≡ get → IsStill (handle_produce json dec env req)
  unfolding handle_produce
  produce-IsStill e = ground (arith, e)

  idempotent-IsStill : req.method ≡ get → IsStill (handle_produce_idempotent json dec env req)
  unfolding handle_produce_idempotent
  idempotent-IsStill e = ground (arith, e)

  consume-IsStill : req.method ≡ get → IsStill (handle_consume json req)
  unfolding handle_consume
  consume-IsStill e = ground (arith, e)

  commit_offset-IsStill : req.method ≡ get → IsStill (handle_commit_offset json dec env req)
  unfolding handle_commit_offset
  commit_offset-IsStill e = ground (arith, e)

  offset-IsStill : req.method ≡ get → IsStill (handle_offset req)
  unfolding handle_offset
  offset-IsStill e = ground (arith, e)

  drain-IsStill : req.method ≡ get → IsStill (handle_drain dec env req)
  unfolding handle_drain
  drain-IsStill e = ground (arith, e)

  tx_begin-IsStill : req.method ≡ get → IsStill (handle_tx_begin dec env req)
  unfolding handle_tx_begin
  tx_begin-IsStill e = ground (arith, e)

  tx_produce-IsStill : req.method ≡ get → IsStill (handle_tx_produce dec env req)
  unfolding handle_tx_produce
  tx_produce-IsStill e = ground (arith, e)

  tx_commit-IsStill : req.method ≡ get → IsStill (handle_tx_commit json dec env req)
  unfolding handle_tx_commit
  tx_commit-IsStill e = ground (arith, e)

  tx_abort-IsStill : req.method ≡ get → IsStill (handle_tx_abort dec env req)
  unfolding handle_tx_abort
  tx_abort-IsStill e = ground (arith, e)

  graphql-IsStill : req.method ≡ get → IsStill (handle_graphql dec req)
  unfolding handle_graphql
  graphql-IsStill e = ground (arith, e)

  window_close-IsStill : req.method ≡ get → IsStill (handle_window_close dec req)
  unfolding handle_window_close
  window_close-IsStill e = ground (arith, e)

  mux_still : req.method ≡ get → (serve_mux json dec env req s).0.broker ≡ s.broker
  unfolding serve_mux
  mux_still e = select_all IsStill req (routes json dec env) refl (
      refl
      ▸ health-IsStill e
      ▸ topics-IsStill e
      ▸ produce-IsStill e
      ▸ idempotent-IsStill e
      ▸ consume-IsStill e
      ▸ commit_offset-IsStill e
      ▸ offset-IsStill e
      ▸ drain-IsStill e
      ▸ tx_begin-IsStill e
      ▸ tx_produce-IsStill e
      ▸ tx_commit-IsStill e
      ▸ tx_abort-IsStill e
      ▸ graphql-IsStill e
      ▸ window_close-IsStill e
      ▸ tt)

module _ (json : Json) (dec : Decoders) (env : Environment) (api_key : Bytes) (req : Request)
    (s : App) where
  -- A GET request on any path leaves the broker as it was.
  pub serve-get : req.method ≡ get → (serve json dec env api_key req s).0.broker ≡ s.broker
  unfolding serve with_metrics with_auth
  serve-get e = ground (arith, mux_still json dec env req s e)
