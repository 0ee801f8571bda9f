-- ===== src/Management/Offsets.antt =====
-- management/api/server.go: `handleCommitOffset`, `handleOffset` and `handleDrain`.
use stream_flow.Prelude.{
  ℕ, ◌-◌, ◌*◌, ◌^◌, Bool, ◌&&◌, ◌||◌, not, List, [], ◌∷◌, ascii, if◌then◌else◌,
}
use stream_flow.Prelude.Action.{
  Result, ok, err, Action, pure, gets, guard, or_fail, modify, ◌>>=◌, ◌>>◌,
}
use stream_flow.Prelude.Int.{pos}
use stream_flow.Int64.{add, less, is_neg, is_not_positive}
use stream_flow.Segment.Record.{LogRecord, Json}
use stream_flow.Broker.State.{Error}
use stream_flow.Broker.Topics.{drain}
use stream_flow.Broker.Consume.{consume}
use stream_flow.Broker.Offsets.{commit_offset, load_offset}
use stream_flow.Management.Api.{
  Request, Response, App, Decoders, Environment, Handler, OffsetPayload, respond, bad_request,
  is_present, require_method, get, post, call, report, server_error, not_found, committed_offset,
  status_text, drained, consumer_lag,
}
use stream_flow.Management.Records.{look}

abbrev pub bad_commit : Response
bad_commit = bad_request (ascii "invalid offset commit payload")

-- `latest[0].Offset - req.Offset`, and 0 for a negative difference.
abbrev pub lag_of : LogRecord → ℕ → ℕ
lag_of latest offset =
    let lag = add latest.offset (2 ^ 64 - offset) in if is_neg lag then 0 else lag

-- The lag is reported when a record can be read at or behind the offset.
report_lag : OffsetPayload → Result Error (List LogRecord) → Action App Response (Unit {0})
report_lag p (ok (latest ∷ rest)) = report (consumer_lag p.topic p.group (lag_of latest p.offset))
report_lag p (ok []) = pure tt
report_lag p (err e) = pure tt

module _ (json : Json) where
  unfoldable pub handle_commit_offset : Decoders → Environment → Request → Handler
  unfolding report_lag
  handle_commit_offset dec env req = do
    require_method post req
    p ← or_fail bad_commit (dec.offset req.body)
    guard (is_present p.topic && is_present p.group) bad_commit
    call server_error (commit_offset env.group_dir_fails env.offset_write p.topic p.group p.offset)
    latest ← gets (λ s. consume json p.topic p.offset 1 s.broker)
    report_lag p latest
    pure (respond 200 (status_text (ascii "committed")))

unfoldable pub handle_offset : Request → Handler
handle_offset req = do
  require_method get req
  let topic = req.query (ascii "topic")
  let group = req.query (ascii "group")
  guard (is_present topic && is_present group) (bad_request (ascii "topic and group are required"))
  off ← call not_found (look (load_offset topic group))
  pure (respond 200 (committed_offset topic group off))

-- An int that is at most 0 or more than 3600.
abbrev pub is_out_of_range : ℕ → Bool
is_out_of_range n = is_not_positive n || less 3600 n

unfoldable pub handle_drain : Decoders → Environment → Request → Handler
handle_drain dec env req = do
  require_method post req
  n ← or_fail (bad_request (ascii "invalid drain payload")) (dec.duration_seconds req.body)
  guard (not (is_out_of_range n)) (bad_request (ascii "duration_seconds must be in range 1..3600"))
  modify (λ s. record s { broker = drain env.now (pos (n * 1_000_000_000)) s.broker })
  pure (respond 200 (drained n))
