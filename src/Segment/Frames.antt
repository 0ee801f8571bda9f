-- ===== src/Segment/Frames.antt =====
-- Frames of the log file: what a read of a frame depends on, and that a stored frame is read back.
use mathlib.Core.Path.{ap₂}
use stream_flow.Prelude.{
  ℕ, ◌+◌, ◌^◌, ◌≤◌, ◌<◌, ◌≡◌, sym, ap, ◌∙◌, Bytes, length, take, drop, arith, take-drop-take,
}
use stream_flow.Int64.{put_uint32, get_uint32}
use stream_flow.Int64.Encoding.{length-put_uint32, get_uint32_put}
use stream_flow.File.{read_at, overwrite}
use stream_flow.File.Laws.{take-overwrite, length-overwrite, drop-overwrite}
use stream_flow.Segment.{unmarshal_failed}
use stream_flow.Segment.Record.{Json}
use stream_flow.Segment.Read.{read_frame, required}

abbrev pub size_at : ℕ → Bytes → ℕ
size_at pos log = get_uint32 (take 4 (drop pos log))

-- A length and a payload of that length stand at `pos`, below `bound`.
abbrev pub IsFrame : Bytes → ℕ → ℕ → Type 0
IsFrame log bound pos = pos + 4 + size_at pos log ≤ bound

pub payload_at : ℕ → Bytes → Bytes
payload_at pos log = take (size_at pos log) (drop (pos + 4) log)

-- A frame inside the file is read by decoding its payload.
read_frame_inside :
    (json : Json) (log : Bytes) (pos bound : ℕ)
    → IsFrame log bound pos
    → bound ≤ length log
    → bound < 2 ^ 63
    → read_frame json log pos ≡ required unmarshal_failed (json.unmarshal (payload_at pos log))
unfolding read_frame read_at payload_at
read_frame_inside json log pos bound f l small = ground arith

module _ (log log' : Bytes) (bound pos : ℕ) (same : take bound log ≡ take bound log') where
  pub size_at_kept : pos + 4 ≤ bound → size_at pos log ≡ size_at pos log'
  size_at_kept h = ap get_uint32 (
      sym (take-drop-take pos 4 bound log h)
      ∙ ap (λ t. take 4 (drop pos t)) same
      ∙ take-drop-take pos 4 bound log' h)

  pub IsFrame-kept : IsFrame log bound pos → IsFrame log' bound pos
  IsFrame-kept f = omega (arith, size_at_kept (omega arith))

  -- A frame below `bound` reads the same from any file with the same bytes there.
  pub read_frame_kept :
      (json : Json)
      → bound < 2 ^ 63
      → bound ≤ length log
      → bound ≤ length log'
      → IsFrame log bound pos
      → read_frame json log pos ≡ read_frame json log' pos
  unfolding payload_at
  read_frame_kept json small l l' f =
      read_frame_inside json log pos bound f l small
      ∙ ap (λ q. required unmarshal_failed (json.unmarshal q)) payload_kept
      ∙ sym (read_frame_inside json log' pos bound (IsFrame-kept f) l' small)
    where
      payload_kept : payload_at pos log ≡ payload_at pos log'
      payload_kept =
          sym (take-drop-take (pos + 4) (size_at pos log) bound log f)
          ∙ ap₂ (λ n t. take n (drop (pos + 4) t)) (size_at_kept (omega arith)) same
          ∙ take-drop-take (pos + 4) (size_at pos log') bound log' (IsFrame-kept f)

module _ (log p : Bytes) (pos : ℕ) (inside : pos ≤ length log) where
  abbrev pub stored_frame : Bytes
  stored_frame = overwrite (pos + 4) p (overwrite pos (put_uint32 (length p)) log)

  abbrev with_size : Bytes
  with_size = overwrite pos (put_uint32 (length p)) log

  with_size_longer : pos + 4 ≤ length with_size
  with_size_longer = omega (
    arith,
    (length-overwrite pos (put_uint32 (length p)) log inside).1,
    length-put_uint32 (length p),
  )

  pub size_at_stored : length p ≤ 0xFFFFFFFF → size_at pos stored_frame ≡ length p
  unfolding get_uint32 put_uint32
  size_at_stored fits =
      sym (
        size_at_kept with_size stored_frame (pos + 4) pos
          (sym (take-overwrite (pos + 4) (pos + 4) p with_size (omega arith) with_size_longer))
          (omega arith))
      ∙ ap get_uint32 (drop-overwrite pos (put_uint32 (length p)) log inside)
      ∙ get_uint32_put (length p) (omega arith)

  pub IsFrame-stored : length p ≤ 0xFFFFFFFF → IsFrame stored_frame (pos + 4 + length p) pos
  IsFrame-stored fits = omega (arith, size_at_stored fits)

  pub length-stored_frame :
      (length log ≤ length stored_frame) × (pos + 4 + length p ≤ length stored_frame)
  length-stored_frame = omega (
    arith,
    length-overwrite pos (put_uint32 (length p)) log inside,
    length-overwrite (pos + 4) p with_size with_size_longer,
  )

  pub take-stored_frame : take pos stored_frame ≡ take pos log
  take-stored_frame =
      take-overwrite pos (pos + 4) p with_size (omega arith) with_size_longer
      ∙ take-overwrite pos pos (put_uint32 (length p)) log (omega arith) inside

  -- What was stored at `pos` is what a read there decodes.
  pub read_frame_stored :
      (json : Json)
      → pos + 4 + length p < 2 ^ 63
      → length p ≤ 0xFFFFFFFF
      → read_frame json stored_frame pos ≡ required unmarshal_failed (json.unmarshal p)
  unfolding payload_at
  read_frame_stored json room fits =
      read_frame_inside json stored_frame pos (pos + 4 + length p) (IsFrame-stored fits)
        length-stored_frame.1 room
      ∙ ap (λ q. required unmarshal_failed (json.unmarshal q))
          (ap (λ n. take n (drop (pos + 4) stored_frame)) (size_at_stored fits)
            ∙ drop-overwrite (pos + 4) p with_size with_size_longer)
