-- ===== src/Broker/RawFetch/Delivery.antt =====
-- A raw fetch of a record of a topic, and what is sent of it.
use stream_flow.Prelude.{
  ℕ, ◌+◌, ◌≤◌, ◌≡◌, refl, ap, sym, ◌∙◌, false, none, some, List, Bytes, length, length-drop,
  number_key, bytes_key, take, drop, get_elem?, arith, Option-cases, inl, inr,
}
use stream_flow.Prelude.Action.{ok}
use stream_flow.Dict.{lookup}
use stream_flow.File.{read_at}
use stream_flow.Int64.{add, get_uint32}
use stream_flow.Segment.{Segment}
use stream_flow.Segment.Read.{read_by_offset}
use stream_flow.Segment.Record.{LogRecord, Json}
use stream_flow.Broker.State.{Broker}
use stream_flow.Broker.Consume.{fetch_raw, fetch_raw_loop}
use stream_flow.Broker.Log.{IsTopicLog}
use stream_flow.Broker.RawFetch.{Round, SendCall, Writer, other_system, Sending, send_file}
use stream_flow.Broker.RawFetch.Sent.{send_file_fallback-IsSent}

-- Where the record of an offset is stored.
record Stored (json : Json) (s : Segment) (i : ℕ) (r : LogRecord) : Type 0 where
  pos : ℕ
  size : Bytes
  payload : Bytes
  at_pos : lookup i s.offsets ≡ some pos
  sized : read_at 4 pos s.log ≡ some size
  whole : read_at (get_uint32 size) (add pos 4) s.log ≡ some payload
  decoded : json.unmarshal payload ≡ some r

read_by_offset-Stored :
    (json : Json) (s : Segment) (i : ℕ) (r : LogRecord)
    → read_by_offset json s i ≡ ok r
    → Stored json s i r
unfolding read_by_offset
read_by_offset-Stored json s i r h = elim (Option-cases (lookup i s.offsets)) [
  | inl e ↦ absurd (ground (arith, e, h))
  | inr (pos, e) ↦ elim (Option-cases (read_at 4 pos s.log)) [
    | inl f ↦ absurd (ground (arith, e, f, h))
    | inr (size, f) ↦ elim (Option-cases (read_at (get_uint32 size) (add pos 4) s.log)) [
      | inl g ↦ absurd (ground (arith, e, f, g, h))
      | inr (payload, g) ↦ record {
        pos = pos;
        size = size;
        payload = payload;
        at_pos = e;
        sized = f;
        whole = g;
        decoded = ground (arith, e, f, g, h, Option-cases (json.unmarshal payload));
      }
    ]
  ]
]

-- A read that succeeds lies within the file.
read_at-take :
    (n pos : ℕ) (file bs : Bytes)
    → read_at n pos file ≡ some bs
    → (pos + n ≤ length file) × (bs ≡ take n (drop pos file))
unfolding read_at
read_at-take n pos file bs h = ground (arith, h)

-- Off Linux and when seeking succeeds, the raw fetch of a record of a topic finds its bytes, and
-- sending them ends within one round for each byte of the log, however the reads and the writes of
-- the rounds go; if it ends without an error, what was sent is read as the record.
pub fetch_raw-send_file :
    (json : Json) (b : Broker) (name : Bytes) (rs : List LogRecord) (i : ℕ) (r : LogRecord)
    (writer : Writer) (rounds : List Round) (calls : List SendCall) (t : IsTopicLog json b name rs)
    → get_elem? rs i ≡ some r
    → length t.seg.log ≤ length rounds
    → (file : Bytes) × (pos : ℕ) × (n : ℕ) × (s : Sending) × (fetch_raw name i b
        ≡ ok (file, pos, n))
      × (send_file other_system writer false rounds calls file pos n ≡ some s)
      × (s.2 ≡ none → json.unmarshal s.0 ≡ some r)
unfolding fetch_raw fetch_raw_loop send_file
fetch_raw-send_file json b name rs i r writer rounds calls t there enough =
    let st = read_by_offset-Stored json t.seg i r (t.log.stored i r there) in
    let n = get_uint32 st.size in
    let (within, same) = read_at-take n (add st.pos 4) t.seg.log st.payload st.whole in
    let (s, sends, sent) =
      send_file_fallback-IsSent rounds t.seg.log (add st.pos 4) n (omega (arith, within)) in
    (
      t.seg.log,
      add st.pos 4,
      n,
      s,
      rw (t.found, t.single, fetch_raw_loop, st.at_pos, st.sized) refl,
      sends,
      λ fine.
          let all : sent.sent ≡ n =
            omega (arith, sent.complete fine, length-drop (add st.pos 4) t.seg.log, within) in
          let same_bytes : s.0 ≡ st.payload =
            sent.written ∙ ap (λ k. take k (drop (add st.pos 4) t.seg.log)) all ∙ sym same in
          ap json.unmarshal same_bytes ∙ st.decoded,
    )
