-- ===== src/Management/Server/Access.antt =====
-- What the key of a server lets through, and what it answers while the broker drains.
use stream_flow.Prelude.{
  ℕ, Bool, ◌||◌, ◌&&◌, not, leb, ◌==◌, if◌then◌else◌, ap, ◌∙◌, inl, inr, Bool-cases, ◌*◌, ◌≡◌, refl,
  true, false, some, [], ◌∷◌, ◌++◌, Bytes, ascii, arith, bytes_key, same_bytes,
}
use stream_flow.Prelude.Int.{pos, ◌+ℤ◌, ◌≤ℤ◌}
use stream_flow.Dict.{lookup}
use stream_flow.Segment.Record.{Json}
use stream_flow.Text.{trim_space, trim_left, trim_right, drop_if_blank, is_space}
use stream_flow.Time.{is_zero}
use stream_flow.Broker.State.{Topic, draining}
use stream_flow.Broker.Topics.{create_topic, drain, is_draining}
use stream_flow.Broker.Produce.{produce}
use stream_flow.Management.Api.{
  Request, Response, App, Decoders, Environment, ProducePayload, respond, is_present, post, message,
  failure, request_handled,
}
use stream_flow.Management.Records.{handle_produce}
use stream_flow.Management.Offsets.{handle_drain, is_out_of_range}
use stream_flow.Management.Server.{
  collapse, count_request, serve_mux, is_free, with_auth, with_metrics, serve,
}

-- A key of nothing but white space.
abbrev pub is_blank_key : Bytes → Bool
is_blank_key [] = true
is_blank_key (c ∷ cs) = (c == 32 || (leb 9 c && leb c 13)) && is_blank_key cs

is_present-drop_if_blank :
    (c : ℕ) (s : Bytes) → is_present (drop_if_blank c s) ≡ (not (is_space c) || is_present s)
is_present-drop_if_blank c [] = ground arith
is_present-drop_if_blank c (d ∷ ds) = ground arith

is_present-trim_right : (s : Bytes) → is_present (trim_right s) ≡ not (is_blank_key s)
unfolding trim_right
is_present-trim_right [] = refl
is_present-trim_right (c ∷ cs) =
    is_present-drop_if_blank c (trim_right cs) ∙ ground (arith, is_present-trim_right cs)

is_present-trim_space : (s : Bytes) → is_present (trim_space s) ≡ not (is_blank_key s)
unfolding trim_space trim_left
is_present-trim_space [] = is_present-trim_right []
is_present-trim_space (c ∷ cs) = elim (Bool-cases (is_space c)) [
  | inl yes' ↦ rw yes' (is_present-trim_space cs ∙ ground (arith, yes'))
  | inr no' ↦ rw no' (is_present-drop_if_blank c (trim_right cs) ∙ ground (arith, no'))
]

auth_cases :
    (req : Request) (blank health metrics same : Bool) (x y : App × Response)
    → count_request req
        (if not (not blank) then x else if health || metrics then x else if same then x else y)
      ≡ (if blank || (health || (metrics || same))
          then count_request req x
          else count_request req y)
auth_cases req true health metrics same x y = refl
auth_cases req false true metrics same x y = refl
auth_cases req false false true same x y = refl
auth_cases req false false false true x y = refl
auth_cases req false false false false x y = refl

-- A server with a key serves a request as it would without one if the key is nothing but white
-- space, the path is that of the health check or of the metrics, or the request gives the same
-- key; it answers any other request 401, and nothing but the count of that answer in the metrics
-- changes.
pub serve-key :
    (json : Json) (dec : Decoders) (env : Environment) (api_key : Bytes) (req : Request) (s : App)
    → serve json dec env api_key req s ≡ (
        if is_blank_key api_key
          || (same_bytes req.path (ascii "/health")
              || (same_bytes req.path (ascii "/metrics") || same_bytes req.api_key api_key))
        then serve json dec env [] req s
        else (
          record s { metrics = s.metrics ++ (request_handled req.method req.path 401 ∷ []) },
          respond 401 (message (ascii "unauthorized")),
        ))
unfolding serve with_metrics with_auth trim_space trim_left trim_right
serve-key json dec env api_key req s =
    ap (λ p. count_request req (with_tests p)) (is_present-trim_space api_key)
    ∙ auth_cases req (is_blank_key api_key) (same_bytes req.path (ascii "/health"))
        (same_bytes req.path (ascii "/metrics")) (same_bytes req.api_key api_key)
        (serve_mux json dec env req s) (s, respond 401 (message (ascii "unauthorized")))
  where
    with_tests : Bool → App × Response
    with_tests p =
        if not p
        then serve_mux json dec env req s
        else if is_free req.path
        then serve_mux json dec env req s
        else if same_bytes req.api_key api_key
        then serve_mux json dec env req s
        else (s, respond 401 (message (ascii "unauthorized")))

module _ (json : Json) (dec : Decoders) (env env' : Environment) (req req' : Request) (s : App)
    (n : ℕ) (p : ProducePayload) (t : Topic) where
  abbrev after_drain : App
  after_drain = (collapse (handle_drain dec env req s)).0

  -- After an accepted drain request, a produce request for a topic that is open, which comes no
  -- later than the end of the drain, is answered 409 and changes nothing, when that end is not the
  -- zero time.
  pub handle_drain-handle_produce :
      req.method ≡ post
      → dec.duration_seconds req.body ≡ some n
      → is_out_of_range n ≡ false
      → req'.method ≡ post
      → dec.produce req'.body ≡ some p
      → is_present p.topic ≡ true
      → lookup p.topic s.broker.topics ≡ some t
      → is_zero (env.now +ℤ pos (n * 1_000_000_000)) ≡ false
      → env'.create.moment.now ≤ℤ (env.now +ℤ pos (n * 1_000_000_000))
      → collapse (handle_produce json dec env' req' after_drain)
        ≡ (after_drain, respond 409 (failure draining))
  unfolding handle_drain handle_produce create_topic produce drain is_draining
  handle_drain-handle_produce a c d a' c' here open' nonzero before = ground arith
