-- ===== src/Management/Server/Refusals.antt =====
-- Requests that are refused, and requests that read, leave the broker as it is.
use stream_flow.Prelude.{
  ℕ, ◌≡◌, ◌≤◌, ◌<◌, inl, inr, refl, List, [], ◌∷◌, Bytes, ascii, arith, same_bytes, Bool-cases, All,
}
use stream_flow.Prelude.Action.{fail}
use stream_flow.Segment.Record.{Json}
use stream_flow.Management.Api.{Request, App, Decoders, Environment, Handler, respond, message}
use stream_flow.Management.Records.{
  handle_topics, handle_produce, handle_produce_idempotent, handle_consume,
}
use stream_flow.Management.Offsets.{handle_commit_offset, handle_offset, handle_drain}
use stream_flow.Management.Transactions.{
  handle_tx_begin, handle_tx_produce, handle_tx_commit, handle_tx_abort,
}
use stream_flow.Management.Server.{
  collapse, Route, select, routes, serve_mux, with_auth, with_metrics, serve, handle_health,
  handle_graphql, handle_window_close,
}

-- Statuses from 400 to 408.
abbrev pub IsRefusal : ℕ → Type 0
IsRefusal status = (400 ≤ status) × (status < 409)

module _ (json : Json) (dec : Decoders) (env : Environment) (req : Request) (s : App) where
  abbrev KeepsOnRefusal : Handler → Type 0
  KeepsOnRefusal h = IsRefusal (collapse (h s)).1.status → (collapse (h s)).0.broker ≡ s.broker

  produce_keeps : KeepsOnRefusal (handle_produce json dec env req)
  unfolding handle_produce
  produce_keeps h = ground arith

  idempotent_keeps : KeepsOnRefusal (handle_produce_idempotent json dec env req)
  unfolding handle_produce_idempotent
  idempotent_keeps h = ground arith

  consume_keeps : KeepsOnRefusal (handle_consume json req)
  unfolding handle_consume
  consume_keeps h = ground arith

  topics_keeps : KeepsOnRefusal (handle_topics dec env req)
  unfolding handle_topics
  topics_keeps h = ground arith

  commit_offset_keeps : KeepsOnRefusal (handle_commit_offset json dec env req)
  unfolding handle_commit_offset
  commit_offset_keeps h = ground arith

  offset_keeps : KeepsOnRefusal (handle_offset req)
  unfolding handle_offset
  offset_keeps h = ground arith

  drain_keeps : KeepsOnRefusal (handle_drain dec env req)
  unfolding handle_drain
  drain_keeps h = ground arith

  tx_begin_keeps : KeepsOnRefusal (handle_tx_begin dec env req)
  unfolding handle_tx_begin
  tx_begin_keeps h = ground arith

  tx_produce_keeps : KeepsOnRefusal (handle_tx_produce dec env req)
  unfolding handle_tx_produce
  tx_produce_keeps h = ground arith

  tx_commit_keeps : KeepsOnRefusal (handle_tx_commit json dec env req)
  unfolding handle_tx_commit
  tx_commit_keeps h = ground arith

  tx_abort_keeps : KeepsOnRefusal (handle_tx_abort dec env req)
  unfolding handle_tx_abort
  tx_abort_keeps h = ground arith

  graphql_keeps : KeepsOnRefusal (handle_graphql dec req)
  unfolding handle_graphql
  graphql_keeps h = ground arith

  window_close_keeps : KeepsOnRefusal (handle_window_close dec req)
  unfolding handle_window_close
  window_close_keeps h = ground arith

  health_keeps : KeepsOnRefusal handle_health
  unfolding handle_health
  health_keeps h = ground arith

infixr 20 ◌▸◌
abbrev pub ◌▸◌ : {A B : Type 0} → A → B → A × B
a ▸ b = (a, b)

-- A property of every route's handler holds of what is selected.
pub select_all {κ} :
    (P : Handler → Type κ) (req : Request) (rs : List Route)
    → P (fail (respond 404 (message (ascii "404 page not found"))))
    → All (λ r. P (r.1 req)) rs
    → P (select rs req)
select_all P req [] missing h = missing
select_all P req ((path, handle) ∷ rs) missing h = elim (Bool-cases (same_bytes req.path path)) [
  | inl here ↦ rw here h.0
  | inr other ↦ rw other (select_all P req rs missing h.1)
]

module _ (json : Json) (dec : Decoders) (env : Environment) (req : Request) (s : App) where
  mux_keeps :
      IsRefusal (serve_mux json dec env req s).1.status
      → (serve_mux json dec env req s).0.broker ≡ s.broker
  unfolding serve_mux
  mux_keeps =
      select_all (KeepsOnRefusal json dec env req s) req (routes json dec env) (λ h. refl)
        ((λ h. refl)
          ▸ health_keeps json dec env req s
          ▸ topics_keeps json dec env req s
          ▸ produce_keeps json dec env req s
          ▸ idempotent_keeps json dec env req s
          ▸ consume_keeps json dec env req s
          ▸ commit_offset_keeps json dec env req s
          ▸ offset_keeps json dec env req s
          ▸ drain_keeps json dec env req s
          ▸ tx_begin_keeps json dec env req s
          ▸ tx_produce_keeps json dec env req s
          ▸ tx_commit_keeps json dec env req s
          ▸ tx_abort_keeps json dec env req s
          ▸ graphql_keeps json dec env req s
          ▸ window_close_keeps json dec env req s
          ▸ tt)

module _ (json : Json) (dec : Decoders) (env : Environment) (api_key : Bytes) (req : Request)
    (s : App) where
  auth_keeps :
      IsRefusal (with_auth api_key (serve_mux json dec env) req s).1.status
      → (with_auth api_key (serve_mux json dec env) req s).0.broker ≡ s.broker
  unfolding with_auth
  auth_keeps h = ground (arith, mux_keeps json dec env req s)

  -- A request, of whatever method and path, that is answered with a status from 400 to 408 leaves
  -- the broker as it was.
  pub serve-refused :
      IsRefusal (serve json dec env api_key req s).1.status
      → (serve json dec env api_key req s).0.broker ≡ s.broker
  unfolding serve with_metrics
  serve-refused h = auth_keeps h
