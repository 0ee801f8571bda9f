-- ===== src/Segment/Record.antt =====
-- The record of broker/types.go, and the JSON coding of it by encoding/json, a parameter: records
-- are stored as `json.Marshal` writes them and read by `json.Unmarshal`.
use stream_flow.Prelude.{ℕ, ◌≡◌, Option, some, Bytes}
use stream_flow.Dict.{Dict}
use stream_flow.Time.{Time}

pub record LogRecord : Type 0 where
  pub key : Bytes
  pub value : Bytes
  pub headers : Dict Bytes Bytes
  pub timestamp : Time
  pub offset : ℕ

pub record Json : Type 0 where
  pub marshal : LogRecord → Option Bytes
  pub unmarshal : Bytes → Option LogRecord

-- What Marshal writes for `r` is read back as `r`. It holds of a record with a year up to 9999 and
-- with headers in UTF-8.
abbrev pub RoundTrips : Json → LogRecord → Type 0
RoundTrips json r =
    (payload : Bytes) → json.marshal r ≡ some payload → json.unmarshal payload ≡ some r
