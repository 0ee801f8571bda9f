-- ===== src/Segment.antt =====
-- broker/types.go: records, and a segment of a topic's log with its offset index and time index.
-- A segment's paths are fixed by its directory and are not modelled; its lock makes each method one
-- step. Reads of an open file fail only past its end or at a negative position.
pub mod Record
pub mod Index
pub mod Read
pub mod Open
pub mod Append
pub mod Frames
pub mod Invariant
pub mod ReadBack
pub mod Restart
pub mod Range
pub mod Log
use stream_flow.Prelude.{
  ℕ, suc, zero, ◌+◌, ◌≤◌, ◌≡◌, Bool, true, false, not, Option, none, some, List, [], ◌∷◌, ◌++◌,
  Bytes, length, ltb, leb, number_key, if◌then◌else◌,
}
use stream_flow.Prelude.Action.{
  Result, ok, err, Action, pure, fail, gets, modify, guard, or_fail, ◌>>=◌, ◌>>◌, continue,
}
use stream_flow.Dict.{Dict, lookup, insert, keys}
use stream_flow.Sort.{sort}
use stream_flow.Int64.{less, add, is_not_positive, put_uint32, get_uint32}
use stream_flow.File.{Outcome, Rewrite, write_at, read_at, write_file}
use stream_flow.Time.{unix_nano}
use Record.{LogRecord, Json}
use Index.{index_bytes, load_offsets, load_times}

pub data Error : Type 0 where
  create_failed marshal_failed payload_too_large write_prefix_failed write_payload_failed : Error
  persist_failed offset_not_found read_failed unmarshal_failed load_failed : Error

pub record Segment : Type 0 where
  pub log : Bytes
  pub index : Bytes
  pub time_index : Option Bytes
  pub position : ℕ
  pub next_offset : ℕ
  pub offsets : Dict ℕ ℕ
  pub time_offsets : Dict ℕ ℕ

-- How the writes of one `Append` end.
pub record Writes : Type 0 where
  pub prefix : Outcome
  pub payload : Outcome
  pub index : Rewrite
  pub time_index : Rewrite

abbrev pub all_done : Writes
all_done = record {
  prefix = Outcome.done;
  payload = Outcome.done;
  index = Rewrite.written;
  time_index = Rewrite.written;
}

unfoldable pub write_log : Outcome → ℕ → Bytes → Error → Action Segment Error Unit
write_log o pos bs e s =
    let (log, fine) = write_at o pos bs s.log in
    (record s { log = log }, if fine then ok tt else err e)

-- What `Append` notes once the payload is written.
unfoldable pub note_record : LogRecord → ℕ → Segment → Segment
note_record r size s = record s {
  offsets = insert s.next_offset s.position s.offsets;
  time_offsets = insert (unix_nano r.timestamp) s.next_offset s.time_offsets;
  position = add s.position (4 + size);
  next_offset = add s.next_offset 1;
}

unfoldable pub write_index : Rewrite → Action Segment Error Unit
write_index w s =
    let (file, fine) = write_file w (index_bytes s.offsets) s.index in
    (record s { index = file }, if fine then ok tt else err persist_failed)

-- A missing file is created empty before it is written.
unfoldable pub existing : Option Bytes → Bytes
existing none = []
existing (some file) = file

unfoldable pub write_time_index : Rewrite → Action Segment Error Unit
unfolding existing
write_time_index Rewrite.unopened s = (s, err persist_failed)
write_time_index w s =
    let (file, fine) = write_file w (index_bytes s.time_offsets) (existing s.time_index) in
    (record s { time_index = some file }, if fine then ok tt else err persist_failed)

unfoldable pub persist_indexes : Writes → Action Segment Error Unit
unfolding write_index write_time_index
persist_indexes w = do write_index w.index; write_time_index w.time_index

module _ (json : Json) where
  -- The two writes and the bookkeeping, after the payload is found to fit.
  unfoldable pub append_payload : Writes → LogRecord → Bytes → Action Segment Error ℕ
  unfolding write_log note_record persist_indexes
  append_payload w r payload = do
    offset ← gets (λ s. s.next_offset)
    pos ← gets (λ s. s.position)
    write_log w.prefix pos (put_uint32 (length payload)) write_prefix_failed
    write_log w.payload (add pos 4) payload write_payload_failed
    modify (note_record r (length payload))
    persist_indexes w
    pure offset

  unfoldable pub append : Writes → LogRecord → Action Segment Error ℕ
  unfolding append_payload
  append w r = do
    payload ← or_fail marshal_failed (json.marshal r)
    guard (not (ltb 0xFFFFFFFF (length payload))) payload_too_large
    append_payload w r payload
