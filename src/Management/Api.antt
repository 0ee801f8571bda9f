-- ===== src/Management/Api.antt =====
-- management/api/server.go: requests, responses, and what the handlers share. Every handler runs to
-- its end before the next request. The JSON decoding of a body is a parameter.
use stream_flow.Prelude.{
  ℕ, Bool, true, false, Option, List, [], ◌∷◌, ◌++◌, Bytes, ascii, same_bytes,
}
use stream_flow.Prelude.Action.{Result, ok, err, Action, guard}
use stream_flow.Dict.{Dict}
use stream_flow.File.{Rewrite}
use stream_flow.Segment.Record.{LogRecord}
use stream_flow.Time.{Time}
use stream_flow.Broker.State.{Broker, Error, draining}
use stream_flow.Broker.Transactions.{Surroundings}

pub record Request : Type 0 where
  pub method : Bytes
  pub path : Bytes
  -- `r.URL.Query().Get` and `r.Header.Get("X-API-Key")`, "" for what is missing.
  pub query : Bytes → Bytes
  pub api_key : Bytes
  pub body : Bytes

-- What is given to `http.Error` or `writeJSON`.
pub data Content : Type 0 where
  message : Bytes → Content
  failure : Error → Content
  names : List Bytes → Content
  created : Bytes → Content
  produced : LogRecord → Content
  produced_once : Bool → LogRecord → Content
  consumed : List LogRecord → Content
  committed_offset : Bytes → Bytes → ℕ → Content
  drained : ℕ → Content
  tx_begun : Bytes → Content
  tx_done : Bytes → ℕ → Content
  status_text : Bytes → Content
  health : Content
  metrics_page : Content

pub record Response : Type 0 where
  pub status : ℕ
  pub content : Content

-- What is reported to the metrics library.
pub data Metric : Type 0 where
  request_handled : Bytes → Bytes → ℕ → Metric
  record_produced : Bytes → Metric
  consumer_lag : Bytes → Bytes → ℕ → Metric
  window_closed : Metric

pub record App : Type 0 where
  pub broker : Broker
  pub metrics : List Metric

pub record ProducePayload : Type 0 where
  pub topic : Bytes
  pub key : Bytes
  pub value : Bytes
  pub headers : Dict Bytes Bytes

pub record IdempotentPayload : Type 0 where
  pub entry : ProducePayload
  pub producer_id : Bytes
  pub sequence : ℕ

pub record OffsetPayload : Type 0 where
  pub topic : Bytes
  pub group : Bytes
  pub offset : ℕ

pub record BeginPayload : Type 0 where
  pub producer_id : Bytes
  pub epoch : ℕ

pub record TxPayload : Type 0 where
  pub tx_id : Bytes
  pub entry : ProducePayload

-- `json.NewDecoder(r.Body).Decode(&req)` for the structs of the handlers; a field that is missing
-- is empty. Of the latency it tells whether it is negative.
pub record Decoders : Type 0 where
  pub name : Bytes → Option Bytes
  pub produce : Bytes → Option ProducePayload
  pub idempotent : Bytes → Option IdempotentPayload
  pub offset : Bytes → Option OffsetPayload
  pub duration_seconds : Bytes → Option ℕ
  pub begin : Bytes → Option BeginPayload
  pub tx_produce : Bytes → Option TxPayload
  pub tx_id : Bytes → Option Bytes
  pub query : Bytes → Option Bytes
  pub latency_negative : Bytes → Option Bool

-- What one request meets outside the program.
pub record Environment : Type 0 where
  pub create : Surroundings
  pub commit : ℕ → Surroundings
  pub start : Time
  pub now : Time
  pub group_dir_fails : Bool
  pub offset_write : Rewrite

-- A handler may return early with the response that it has written.
abbrev pub Handler : Type 0
Handler = Action App Response Response

abbrev pub respond : ℕ → Content → Response
respond status content = record { status = status; content = content }

abbrev pub bad_request : Bytes → Response
bad_request text = respond 400 (message text)

abbrev pub is_present : Bytes → Bool
is_present [] = false
is_present (c ∷ cs) = true

abbrev pub require_method : Bytes → Request → Action App Response (Unit {0})
require_method method req =
    guard (same_bytes req.method method) (respond 405 (message (ascii "method not allowed")))

abbrev pub get : Bytes
get = ascii "GET"

abbrev pub post : Bytes
post = ascii "POST"

abbrev pub lift_result :
    {A : Type 0} → (Error → Response) → App → Broker × Result Error A → App × Result Response A
lift_result on_error s (b, ok a) = (record s { broker = b }, ok a)
lift_result on_error s (b, err e) = (record s { broker = b }, err (on_error e))

-- A call of the broker, with the response to its error.
abbrev pub call : {A : Type 0} → (Error → Response) → Action Broker Error A → Action App Response A
call on_error m s = lift_result on_error s (m s.broker)

abbrev pub report : Metric → Action App Response (Unit {0})
report x s = (record s { metrics = s.metrics ++ (x ∷ []) }, ok tt)

abbrev pub server_error : Error → Response
server_error e = respond 500 (failure e)

abbrev pub conflict : Error → Response
conflict e = respond 409 (failure e)

abbrev pub not_found : Error → Response
not_found e = respond 404 (failure e)

abbrev pub conflict_if_draining : Error → Response
conflict_if_draining draining = conflict draining
conflict_if_draining e = server_error e
