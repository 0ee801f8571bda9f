-- ===== src/Segment/Invariant.antt =====
-- The invariant of a segment: every indexed offset is below the next one and points at a frame
-- below the write position, which lies inside the log file.
use stream_flow.Prelude.{
  ℕ, ◌+◌, ◌^◌, ◌≤◌, ◌<◌, ◌≡◌, inl, inr, true, some, Bytes, length, take, arith, number_key,
  if◌then◌else◌, ◌==◌, Bool-cases, sym,
}
use stream_flow.Dict.{lookup, IsDistinct}
use stream_flow.Dict.Laws.{lookup-insert, insert-IsDistinct}
use stream_flow.Int64.{less, IsInt64}
use stream_flow.Segment.{Segment, Writes, append}
use stream_flow.Segment.Append.{IndexKept, Stored, HasRoom, append_effect}
use stream_flow.Segment.Frames.{
  IsFrame, IsFrame-kept, IsFrame-stored, length-stored_frame, take-stored_frame, stored_frame,
}
use stream_flow.Time.{unix_nano}
use stream_flow.Segment.Record.{LogRecord, Json}

pub record IsValid (s : Segment) : Type 0 where
  pub inside : s.position ≤ length s.log
  pub position : s.position < 2 ^ 63
  pub next_offset : s.next_offset < 2 ^ 63
  pub frames : (off pos : ℕ) → lookup off s.offsets ≡ some pos → IsFrame s.log s.position pos
  pub older : (off pos : ℕ) → lookup off s.offsets ≡ some pos → less off s.next_offset ≡ true
  pub patterns : (off pos : ℕ) → lookup off s.offsets ≡ some pos → IsInt64 off
  pub distinct : IsDistinct s.offsets
  pub distinct_times : IsDistinct s.time_offsets

IndexKept-IsValid : {s t : Segment} → IndexKept s t → IsValid s → IsValid t
IndexKept-IsValid {s} {t} k v = record {
  inside = omega (arith, k.position, k.longer, v.inside);
  position = omega (arith, k.position, v.position);
  next_offset = omega (arith, k.next_offset, v.next_offset);
  frames = λ off pos h.
      let f = v.frames off pos (rw (← k.offsets) h) in
      rw k.position (IsFrame-kept s.log t.log s.position pos (sym k.below) f);
  older = λ off pos h. rw k.next_offset (v.older off pos (rw (← k.offsets) h));
  patterns = λ off pos h. v.patterns off pos (rw (← k.offsets) h);
  distinct = rw k.offsets v.distinct;
  distinct_times = rw k.time_offsets v.distinct_times;
}

module _ {r : LogRecord} {p : Bytes} {s t : Segment} (st : Stored r p s t) (v : IsValid s)
    (room : s.position + 4 + length p < 2 ^ 63) where
  pub Stored-log : t.log ≡ stored_frame s.log p s.position v.inside
  Stored-log = ground (arith, st.log)

  pub Stored-position : t.position ≡ s.position + 4 + length p
  Stored-position = omega (arith, st.position)

  pub Stored-below : take s.position t.log ≡ take s.position s.log
  Stored-below = rw Stored-log (take-stored_frame s.log p s.position v.inside)

  pub Stored-lookup :
      (off : ℕ)
      → lookup off t.offsets
        ≡ (if s.next_offset == off then some s.position else lookup off s.offsets)
  Stored-lookup off = rw st.offsets (lookup-insert s.next_offset off s.position s.offsets)

  Stored-frames :
      length p ≤ 0xFFFFFFFF
      → (off pos : ℕ) → lookup off t.offsets ≡ some pos
      → IsFrame t.log t.position pos
  Stored-frames fits off pos h = elim (Bool-cases (s.next_offset == off)) [
    | inl new ↦
        let e : pos ≡ s.position = ground (arith, Stored-lookup off) in
        rw (e, Stored-position, Stored-log) (IsFrame-stored s.log p s.position v.inside fits)
    | inr old ↦
        let f = v.frames off pos (ground (arith, Stored-lookup off)) in
        let g = IsFrame-kept s.log t.log s.position pos (sym Stored-below) f in
        omega (arith, g, Stored-position)
  ]

  Stored-older :
      s.next_offset + 1 < 2 ^ 63
      → (off pos : ℕ) → lookup off t.offsets ≡ some pos
      → less off t.next_offset ≡ true
  Stored-older more off pos h = ground (arith, Stored-lookup off, v.older off pos, st.next_offset)

  Stored-IsValid : length p ≤ 0xFFFFFFFF → s.next_offset + 1 < 2 ^ 63 → IsValid t
  Stored-IsValid fits more = record {
    inside = rw (Stored-position, Stored-log) (length-stored_frame s.log p s.position v.inside).1;
    position = omega (arith, Stored-position);
    next_offset = omega (arith, st.next_offset);
    frames = Stored-frames fits;
    older = Stored-older more;
    patterns = λ off pos h. ground (arith, Stored-lookup off, v.patterns off pos, v.next_offset);
    distinct = rw st.offsets (insert-IsDistinct s.next_offset s.position s.offsets v.distinct);
    distinct_times =
        rw st.time_offsets
          (insert-IsDistinct (unix_nano r.timestamp) s.next_offset s.time_offsets v.distinct_times);
  }

-- An append keeps a segment valid whatever writes fail: the write position lies in the log file,
-- and every indexed offset is older than the next one and points at a whole frame below the write
-- position.
pub append-IsValid :
    (json : Json) (w : Writes) (r : LogRecord) (s : Segment)
    → IsValid s
    → HasRoom json r s
    → s.next_offset + 1 < 2 ^ 63
    → IsValid (append json w r s).0
append-IsValid json w r s v room more = elim (append_effect json w r s v.inside room) [
  | inl (p, made, fits, st, _) ↦ Stored-IsValid st v (room p made) fits more
  | inr (k, _) ↦ IndexKept-IsValid k v
]
