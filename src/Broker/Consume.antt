-- ===== src/Broker/Consume.antt =====
-- broker/broker.go: `Consume`, `Fetch` and `FetchRaw`.
use stream_flow.Prelude.{
  ℕ, zero, suc, ◌-◌, Option, none, some, List, [], ◌∷◌, ◌++◌, Bytes, length, leb, number_key,
  bytes_key, if◌then◌else◌,
}
use stream_flow.Prelude.Action.{Result, ok, err}
use stream_flow.Dict.{lookup}
use stream_flow.File.{read_at}
use stream_flow.Int64.{add, get_uint32, is_not_positive}
use stream_flow.Segment.{Segment}
use stream_flow.Segment.Read.{read_range, default_limit}
use stream_flow.Segment.Record.{LogRecord, Json}
use stream_flow.Broker.State.{Broker, Error, topic_not_found, offset_not_found, read_failed}
use stream_flow.Broker.Produce.{segment_result}

infixl 10 ◌>>=◌
abbrev pub ◌>>=◌ : {A B : Type 0} → Result Error A → (A → Result Error B) → Result Error B
ok a >>= f = f a
err e >>= f = err e

abbrev pub required : {A : Type 0} → Error → Option A → Result Error A
required e none = err e
required e (some a) = ok a

module _ (json : Json) where
  -- The rounds of the loop over the segments. `max` is positive, and more than `result` holds.
  unfoldable pub consume_loop :
      ℕ → ℕ → List LogRecord → List Segment → Result Error (List LogRecord)
  consume_loop from max result [] = ok result
  consume_loop from max result (seg ∷ segs) = do
    recs ← segment_result (read_range json seg from (max - length result))
    let more = consume_loop from max (result ++ recs) segs
    if leb max (length (result ++ recs)) then ok (result ++ recs) else more

  unfoldable pub consume : Bytes → ℕ → ℕ → Broker → Result Error (List LogRecord)
  unfolding consume_loop
  consume name from max b = do
    topic ← required topic_not_found (lookup name b.topics)
    consume_loop from (default_limit max) [] topic.segments

  -- What a round of `Fetch` does with what it consumed; the last record read is the first.
  abbrev fetch_round :
      (Result Error (List LogRecord))
      → List LogRecord
      → (List LogRecord → List LogRecord × Option Error)
      → List LogRecord × Option Error
  fetch_round (err e) acc next = (acc, some e)
  fetch_round (ok []) acc next = (acc, none)
  fetch_round (ok (r ∷ rs)) acc next = next (acc ++ (r ∷ []))

  -- Each round adds a record, and the loop ends when there are as many as the limit: the number left
  -- bounds the rounds. The records read are returned beside an error too.
  unfoldable pub fetch_loop :
      Bytes → ℕ → ℕ → List LogRecord → Broker → List LogRecord × Option Error
  unfolding consume
  fetch_loop name zero offset acc b = (acc, none)
  fetch_loop name (suc left) offset acc b =
      fetch_round (consume name offset 1 b) acc (λ acc'. fetch_loop name left (add offset 1) acc' b)

  unfoldable pub fetch : Bytes → ℕ → ℕ → Broker → List LogRecord × Option Error
  unfolding fetch_loop
  fetch name from max_bytes b =
      fetch_loop name (if is_not_positive max_bytes then 1_048_576 else max_bytes) from [] b

-- The file, the position of the payload and its length.
unfoldable pub fetch_raw_loop : ℕ → List Segment → Result Error (Bytes × ℕ × ℕ)
fetch_raw_loop offset [] = err offset_not_found
fetch_raw_loop offset (seg ∷ segs) =
    let rest = fetch_raw_loop offset segs in
    elim (lookup offset seg.offsets) [
      | none ↦ rest
      | some pos ↦ required read_failed (read_at 4 pos seg.log) >>= λ size.
          ok (seg.log, add pos 4, get_uint32 size)
    ]

unfoldable pub fetch_raw : Bytes → ℕ → Broker → Result Error (Bytes × ℕ × ℕ)
unfolding fetch_raw_loop
fetch_raw name offset b = do
  topic ← required topic_not_found (lookup name b.topics)
  fetch_raw_loop offset topic.segments
