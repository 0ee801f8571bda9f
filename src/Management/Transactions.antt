-- ===== src/Management/Transactions.antt =====
-- management/api/server.go: `handleTxBegin`, `handleTxProduce`, `handleTxCommit`, `handleTxAbort`.
use stream_flow.Prelude.{ℕ, ◌&&◌, Option, none, some, ascii}
use stream_flow.Prelude.Action.{Result, ok, err, pure, guard, or_fail, ◌>>=◌, ◌>>◌}
use stream_flow.Segment.Record.{Json}
use stream_flow.Broker.State.{Broker, Error}
use stream_flow.Broker.Transactions.{
  begin_transaction, tx_produce, commit_transaction, abort_transaction,
}
use stream_flow.Management.Api.{
  Request, Response, Decoders, Environment, Handler, respond, bad_request, is_present,
  require_method, post, call, server_error, conflict, tx_begun, tx_done, status_text,
}
use stream_flow.Management.Records.{create}

abbrev pub bad_begin : Response
bad_begin = bad_request (ascii "invalid tx begin payload")

unfoldable pub handle_tx_begin : Decoders → Environment → Request → Handler
handle_tx_begin dec env req = do
  require_method post req
  p ← or_fail bad_begin (dec.begin req.body)
  guard (is_present p.producer_id) bad_begin
  id ← call server_error (begin_transaction env.start env.now p.producer_id p.epoch)
  pure (respond 200 (tx_begun id))

abbrev pub bad_tx_produce : Response
bad_tx_produce = bad_request (ascii "invalid tx produce payload")

unfoldable pub handle_tx_produce : Decoders → Environment → Request → Handler
handle_tx_produce dec env req = do
  require_method post req
  q ← or_fail bad_tx_produce (dec.tx_produce req.body)
  let p = q.entry
  guard (is_present q.tx_id && is_present p.topic) bad_tx_produce
  _ ← create env p.topic
  call conflict (tx_produce q.tx_id p.topic p.key p.value p.headers)
  pure (respond 200 (status_text (ascii "buffered")))

-- The number of records, or the error and no number.
abbrev pub commit_result : Broker × ℕ × Option Error → Broker × Result Error ℕ
commit_result (b, n, none) = (b, ok n)
commit_result (b, n, some e) = (b, err e)

abbrev pub bad_commit : Response
bad_commit = bad_request (ascii "invalid tx commit payload")

unfoldable pub handle_tx_commit : Json → Decoders → Environment → Request → Handler
handle_tx_commit json dec env req = do
  require_method post req
  id ← or_fail bad_commit (dec.tx_id req.body)
  guard (is_present id) bad_commit
  n ← call conflict (λ b. commit_result (commit_transaction json env.commit id b))
  pure (respond 200 (tx_done (ascii "committed") n))

abbrev pub bad_abort : Response
bad_abort = bad_request (ascii "invalid tx abort payload")

unfoldable pub handle_tx_abort : Decoders → Environment → Request → Handler
handle_tx_abort dec env req = do
  require_method post req
  id ← or_fail bad_abort (dec.tx_id req.body)
  guard (is_present id) bad_abort
  call conflict (abort_transaction id)
  pure (respond 200 (status_text (ascii "aborted")))
