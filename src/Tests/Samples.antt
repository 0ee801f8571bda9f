-- ===== src/Tests/Samples.antt =====
-- A codec for records with no key, no headers and the zero time, and a segment with no records.
use stream_flow.Prelude.{
  ℕ, ◌≡◌, refl, subst, some, none, [], ◌∷◌, ◌++◌, Bytes, arith, take, drop, length, number_key, ◌+◌,
  ◌^◌, ◌<◌,
}
use stream_flow.Prelude.Int.{pos}
use stream_flow.Dict.{lookup, keys}
use stream_flow.Int64.{int64_to_bytes, bytes_to_int64}
use stream_flow.Segment.{Segment}
use stream_flow.Segment.Append.{HasRoom}
use stream_flow.Segment.Invariant.{IsValid}
use stream_flow.Segment.Log.{IsLog}
use stream_flow.Segment.Record.{LogRecord, Json, RoundTrips}

abbrev pub plain : Bytes → ℕ → LogRecord
plain value offset = record {
  key = [];
  value = value;
  headers = [];
  timestamp = pos 0;
  offset = offset;
}

abbrev pub codec : Json
codec = record {
  marshal = λ r. some (int64_to_bytes r.offset ++ r.value);
  unmarshal = λ bs. some (plain (drop 8 bs) (bytes_to_int64 (take 8 bs)));
}

payload_of :
    (r : LogRecord) (p : Bytes) → codec.marshal r ≡ some p → int64_to_bytes r.offset ++ r.value ≡ p
payload_of r p e = cc

pub plain_back : (v : Bytes) → RoundTrips codec (plain v 0)
unfolding int64_to_bytes bytes_to_int64
plain_back v p e =
    subst (λ q. codec.unmarshal q ≡ some (plain v 0)) (payload_of (plain v 0) p e) refl

abbrev pub empty_segment : Segment
empty_segment = record {
  log = [];
  index = [];
  time_index = none;
  position = 0;
  next_offset = 0;
  offsets = [];
  time_offsets = [];
}

pub plain_room : HasRoom codec (plain (7 ∷ 8 ∷ []) 0) empty_segment
unfolding int64_to_bytes
plain_room p e =
    subst (λ q. 0 + 4 + length q < 2 ^ 63) (payload_of (plain (7 ∷ 8 ∷ []) 0) p e) (omega arith)

pub empty_segment-IsValid : IsValid empty_segment
unfolding lookup
empty_segment-IsValid = record {
  inside = omega arith;
  position = omega arith;
  next_offset = omega arith;
  frames = λ off p h. cc;
  older = λ off p h. cc;
  patterns = λ off p h. cc;
  distinct = tt;
  distinct_times = tt;
}

pub empty_segment-IsLog : IsLog codec empty_segment []
unfolding keys
empty_segment-IsLog = record {
  valid = empty_segment-IsValid;
  next = refl;
  listed = refl;
  stored = λ i r h. cc;
}
