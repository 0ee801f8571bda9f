-- ===== src/Segment/ReadBack.antt =====
-- Appending and reading by offset.
use stream_flow.Prelude.{
  ℕ, ◌+◌, ◌^◌, ◌≤◌, ◌<◌, ◌≡◌, ◌≢◌, ◌⊎◌, inl, inr, none, some, Bytes, length, take, arith,
  number_key, ap, sym, ◌∙◌, Option-cases,
}
use stream_flow.Prelude.Action.{ok, err}
use stream_flow.Dict.{lookup}
use stream_flow.Segment.{Segment, Error, persist_failed, offset_not_found, Writes, append}
use stream_flow.Segment.Append.{Stored, HasRoom, append_effect}
use stream_flow.Segment.Frames.{read_frame_kept, read_frame_stored, length-stored_frame}
use stream_flow.Segment.Invariant.{IsValid, Stored-log, Stored-lookup, Stored-below}
use stream_flow.Segment.Read.{read_by_offset, read_frame, required}
use stream_flow.Segment.Record.{LogRecord, Json, RoundTrips}

module _ (json : Json) (s : Segment) (off : ℕ) where
  pub read_known :
      (pos : ℕ)
      → lookup off s.offsets ≡ some pos
      → read_by_offset json s off ≡ read_frame json s.log pos
  unfolding read_by_offset
  read_known pos h = rw h

  pub read_unknown : lookup off s.offsets ≡ none → read_by_offset json s off ≡ err offset_not_found
  unfolding read_by_offset
  read_unknown h = rw h

-- The next offset is new.
pub next_offset-fresh : (s : Segment) → IsValid s → lookup s.next_offset s.offsets ≡ none
next_offset-fresh s v = elim (Option-cases (lookup s.next_offset s.offsets)) [
  | inl missing ↦ missing
  | inr (pos, found) ↦ absurd (ground (arith, v.older s.next_offset pos found))
]

-- An offset that both segments index at one place, below which their files agree, reads the same.
reads_agree :
    (json : Json) (s t : Segment) (off : ℕ)
    → IsValid s
    → lookup off t.offsets ≡ lookup off s.offsets
    → take s.position t.log ≡ take s.position s.log
    → length s.log ≤ length t.log
    → read_by_offset json t off ≡ read_by_offset json s off
reads_agree json s t off v same below longer = elim (Option-cases (lookup off s.offsets)) [
  | inl missing ↦ read_unknown json t off (same ∙ missing) ∙ sym (read_unknown json s off missing)
  | inr (pos, found) ↦
      read_known json t off pos (same ∙ found)
      ∙ sym (
          read_frame_kept s.log t.log s.position pos (sym below) json v.position v.inside
            (omega (arith, v.inside)) (v.frames off pos found))
      ∙ sym (read_known json s off pos found)
]

module _ {r : LogRecord} {p : Bytes} {s t : Segment} (st : Stored r p s t) (v : IsValid s)
    (room : s.position + 4 + length p < 2 ^ 63) where
  Stored-longer : length s.log ≤ length t.log
  Stored-longer = rw (Stored-log st v room) (length-stored_frame s.log p s.position v.inside).0

  Stored-reads_kept :
      (json : Json) (off : ℕ)
      → off ≢ s.next_offset
      → read_by_offset json t off ≡ read_by_offset json s off
  Stored-reads_kept json off other =
      reads_agree json s t off v (ground (arith, Stored-lookup st v room off))
        (Stored-below st v room) Stored-longer

  pub Stored-read :
      (json : Json)
      → json.unmarshal p ≡ some r
      → length p ≤ 0xFFFFFFFF
      → read_by_offset json t s.next_offset ≡ ok r
  Stored-read json back fits =
      read_known json t s.next_offset s.position
        (ground (arith, Stored-lookup st v room s.next_offset))
      ∙ ap (λ log. read_frame json log s.position) (Stored-log st v room)
      ∙ read_frame_stored s.log p s.position v.inside json room fits
      ∙ ap (required Error.unmarshal_failed) back

module _ (json : Json) (w : Writes) (r : LogRecord) (s : Segment) where
  -- A record that an append accepted has the offset that was next, and is read back there.
  pub read-append :
      (off : ℕ)
      → IsValid s
      → HasRoom json r s
      → RoundTrips json r
      → (append json w r s).1 ≡ ok off
      → (off ≡ s.next_offset) × (read_by_offset json (append json w r s).0 off ≡ ok r)
  read-append off v room back e = elim (append_effect json w r s v.inside room) [
    | inl (p, made, fits, st, o) ↦
        let same : off ≡ s.next_offset = ground (arith, o) in
        (same, rw same (Stored-read st v (room p made) json (back p made) fits))
    | inr (k, (e', failed, _)) ↦ cc
  ]

  -- An append, whatever becomes of it, does not change what is read at any offset but the next
  -- one.
  pub read-append_other :
      (off : ℕ)
      → IsValid s
      → HasRoom json r s
      → off ≢ s.next_offset
      → read_by_offset json (append json w r s).0 off ≡ read_by_offset json s off
  read-append_other off v room other = elim (append_effect json w r s v.inside room) [
    | inl (p, made, fits, st, _) ↦ Stored-reads_kept st v (room p made) json off other
    | inr (k, _) ↦
        reads_agree json s (append json w r s).0 off v (ap (lookup off) k.offsets) k.below k.longer
  ]

  -- When an append returns an error, the record can be read at the next offset if the error was
  -- that of persisting the indexes, and that offset is unknown after any other error.
  pub append_error :
      (e : Error)
      → IsValid s
      → HasRoom json r s
      → RoundTrips json r
      → (append json w r s).1 ≡ err e
      → ((e ≡ persist_failed) × (read_by_offset json (append json w r s).0 s.next_offset ≡ ok r))
        ⊎ ((e ≢ persist_failed)
            × (read_by_offset json (append json w r s).0 s.next_offset ≡ err offset_not_found))
  append_error e v room back failed = elim (append_effect json w r s v.inside room) [
    | inl (p, made, fits, st, o) ↦
        inl (ground (arith, o), Stored-read st v (room p made) json (back p made) fits)
    | inr (k, (e', failed', other)) ↦
        let new : lookup s.next_offset (append json w r s).0.offsets ≡ none =
          ap (lookup s.next_offset) k.offsets ∙ next_offset-fresh s v in
        inr ((λ q. other (ground arith)), read_unknown json (append json w r s).0 s.next_offset new)
  ]
