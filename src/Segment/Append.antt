-- ===== src/Segment/Append.antt =====
-- What `Append` does to a segment, whatever writes fail: either it leaves the index alone, or it
-- stores the payload behind its length at the old position and notes it there.
use stream_flow.Prelude.{
  ℕ, ◌+◌, ◌^◌, ◌≤◌, ◌<◌, ◌≡◌, ◌≢◌, ◌⊎◌, inl, inr, refl, true, false, none, some, Bytes, length,
  take, ltb, number_key, arith, Option-cases, Bool-cases, not-ltb→le,
}
use stream_flow.Prelude.Action.{Result, ok, err}
use stream_flow.Dict.{insert}
use stream_flow.Int64.{add, put_uint32}
use stream_flow.Int64.Encoding.{length-put_uint32}
use stream_flow.File.{Outcome, done, failed, write_at, overwrite, write_file}
use stream_flow.File.Laws.{take-overwrite, length-overwrite}
use stream_flow.Time.{unix_nano}
use stream_flow.Segment.{
  Segment, Writes, Error, persist_failed, append, append_payload, persist_indexes, note_record,
}
use stream_flow.Segment.Record.{LogRecord, Json}

-- The index, the position and all that the log holds below it are as before.
pub record IndexKept (s t : Segment) : Type 0 where
  pub offsets : t.offsets ≡ s.offsets
  pub time_offsets : t.time_offsets ≡ s.time_offsets
  pub position : t.position ≡ s.position
  pub next_offset : t.next_offset ≡ s.next_offset
  pub below : take s.position t.log ≡ take s.position s.log
  pub longer : length s.log ≤ length t.log

-- The payload `p` of `r` is stored under the next offset.
pub record Stored (r : LogRecord) (p : Bytes) (s t : Segment) : Type 0 where
  pub offsets : t.offsets ≡ insert s.next_offset s.position s.offsets
  pub time_offsets : t.time_offsets ≡ insert (unix_nano r.timestamp) s.next_offset s.time_offsets
  pub position : t.position ≡ add s.position (4 + length p)
  pub next_offset : t.next_offset ≡ add s.next_offset 1
  pub log :
      t.log ≡ overwrite (add s.position 4) p (overwrite s.position (put_uint32 (length p)) s.log)

-- `persistIndexes` touches the two index files and nothing else.
module _ (w : Writes) (s : Segment) where
  persist_kept :
      ((persist_indexes w s).0.offsets ≡ s.offsets)
      × ((persist_indexes w s).0.time_offsets ≡ s.time_offsets)
      × ((persist_indexes w s).0.position ≡ s.position)
      × ((persist_indexes w s).0.next_offset ≡ s.next_offset)
      × ((persist_indexes w s).0.log ≡ s.log)
  unfolding persist_indexes write_file
  persist_kept = (ground arith, ground arith, ground arith, ground arith, ground arith)

  pub persist_result :
      ((persist_indexes w s).1 ≡ ok tt) ⊎ ((persist_indexes w s).1 ≡ err persist_failed)
  unfolding persist_indexes write_file
  persist_result = ground arith

Outcome-cases : (o : Outcome) → (o ≡ done) ⊎ ((n : ℕ) × (o ≡ failed n))
Outcome-cases done = inl refl
Outcome-cases (failed n) = inr (n, refl)

module _ (json : Json) (w : Writes) (r : LogRecord) (p : Bytes) (s : Segment)
    (inside : s.position ≤ length s.log) (room : s.position + 4 + length p < 2 ^ 63) where
  abbrev after : Segment
  after = (append_payload json w r p s).0

  abbrev outcome : Result Error ℕ
  outcome = (append_payload json w r p s).1

  -- The file after the length is written.
  abbrev with_prefix : Bytes
  with_prefix = overwrite s.position (put_uint32 (length p)) s.log

  with_prefix_below :
      (take s.position with_prefix ≡ take s.position s.log)
      × (length s.log ≤ length with_prefix)
      × (s.position + 4 ≤ length with_prefix)
  with_prefix_below =
      let l = length-overwrite s.position (put_uint32 (length p)) s.log inside in
      (
        take-overwrite s.position s.position _ s.log (omega arith) inside,
        l.0,
        omega (arith, l.1, length-put_uint32 (length p)),
      )

  cut_prefix :
      (n : ℕ) → w.prefix ≡ failed n → IndexKept s after × (outcome ≡ err Error.write_prefix_failed)
  unfolding append_payload write_at
  cut_prefix n e = (
    record {
      offsets = ground arith;
      time_offsets = ground arith;
      position = ground arith;
      next_offset = ground arith;
      below =
          ground
            (arith, take-overwrite s.position s.position (take n (put_uint32 (length p))) s.log);
      longer = ground (arith, length-overwrite s.position (take n (put_uint32 (length p))) s.log);
    },
    ground arith,
  )

  cut_payload :
      (n : ℕ)
      → w.prefix ≡ done
      → w.payload ≡ failed n
      → IndexKept s after × (outcome ≡ err Error.write_payload_failed)
  unfolding append_payload write_at
  cut_payload n d e = (
    record {
      offsets = ground arith;
      time_offsets = ground arith;
      position = ground arith;
      next_offset = ground arith;
      below = ground (
        arith,
        with_prefix_below,
        take-overwrite s.position (s.position + 4) (take n p) with_prefix,
      );
      longer =
          ground
            (arith, with_prefix_below, length-overwrite (s.position + 4) (take n p) with_prefix);
    },
    ground arith,
  )

  abbrev noted : Segment
  noted = note_record r (length p) (record s { log = overwrite (add s.position 4) p with_prefix })

  payload_written :
      w.prefix ≡ done
      → w.payload ≡ done
      → Stored r p s after × ((outcome ≡ ok s.next_offset) ⊎ (outcome ≡ err persist_failed))
  unfolding append_payload write_at
  payload_written d e = (
    record {
      offsets = ground (arith, persist_kept w noted);
      time_offsets = ground (arith, persist_kept w noted);
      position = ground (arith, persist_kept w noted);
      next_offset = ground (arith, persist_kept w noted);
      log = ground (arith, persist_kept w noted);
    },
    ground (arith, persist_result w noted),
  )

  payload_effect :
      (Stored r p s after × ((outcome ≡ ok s.next_offset) ⊎ (outcome ≡ err persist_failed)))
      ⊎ (IndexKept s after × ((e : Error) × (outcome ≡ err e) × (e ≢ persist_failed)))
  payload_effect = elim (Outcome-cases w.prefix) [
    | inr (n, d) ↦ let (k, o) = cut_prefix n d in inr (k, (Error.write_prefix_failed, o, (λ q. cc)))
    | inl d ↦ elim (Outcome-cases w.payload) [
      | inr (n, e) ↦
          let (k, o) = cut_payload n d e in inr (k, (Error.write_payload_failed, o, (λ q. cc)))
      | inl e ↦ inl (payload_written d e)
    ]
  ]

-- There is room for the record behind the position.
abbrev pub HasRoom : Json → LogRecord → Segment → Type 0
HasRoom json r s = (p : Bytes) → json.marshal r ≡ some p → s.position + 4 + length p < 2 ^ 63

module _ (json : Json) (w : Writes) (r : LogRecord) (s : Segment) where
  -- `Append` stored the record: it returns its offset, or fails to persist the indexes.
  abbrev pub WasStored : Type 0
  WasStored =
      (p : Bytes) × (json.marshal r ≡ some p)
      × (length p ≤ 0xFFFFFFFF)
      × Stored r p s (append json w r s).0
      × (((append json w r s).1 ≡ ok s.next_offset) ⊎ ((append json w r s).1 ≡ err persist_failed))

  abbrev pub WasRefused : Type 0
  WasRefused =
      IndexKept s (append json w r s).0
      × ((e : Error) × ((append json w r s).1 ≡ err e) × (e ≢ persist_failed))

  IndexKept-refl : IndexKept s s
  IndexKept-refl = record {
    offsets = refl;
    time_offsets = refl;
    position = refl;
    next_offset = refl;
    below = refl;
    longer = omega arith;
  }

  append_unmade : json.marshal r ≡ none → append json w r s ≡ (s, err Error.marshal_failed)
  unfolding append
  append_unmade e = rw e

  append_too_large :
      (p : Bytes)
      → json.marshal r ≡ some p
      → ltb 0xFFFFFFFF (length p) ≡ true
      → append json w r s ≡ (s, err Error.payload_too_large)
  unfolding append
  append_too_large p e big = rw (e, big)

  append_fits :
      (p : Bytes)
      → json.marshal r ≡ some p
      → ltb 0xFFFFFFFF (length p) ≡ false
      → append json w r s ≡ append_payload json w r p s
  unfolding append
  append_fits p e fits = rw (e, fits)

  pub append_effect : s.position ≤ length s.log → HasRoom json r s → WasStored ⊎ WasRefused
  append_effect inside room = elim (Option-cases (json.marshal r)) [
    | inl unmade ↦
        rw (append_unmade unmade) (inr (IndexKept-refl, (Error.marshal_failed, refl, (λ q. cc))))
    | inr (p, made) ↦ elim (Bool-cases (ltb 0xFFFFFFFF (length p))) [
      | inl big ↦
          rw (append_too_large p made big)
            (inr (IndexKept-refl, (Error.payload_too_large, refl, (λ q. cc))))
      | inr fits ↦
          rw (append_fits p made fits) (elim (payload_effect json w r p s inside (room p made)) [
            | inl (st, o) ↦ inl (p, made, not-ltb→le _ _ fits, st, o)
            | inr (k, o) ↦ inr (k, o)
          ])
    ]
  ]
