-- ===== src/Segment/Restart.antt =====
-- A segment opened again from the files that an `Append` left.
use stream_flow.Prelude.{
  ℕ, zero, suc, ◌^◌, ◌<◌, ◌≡◌, sym, ◌∙◌, Bool, true, false, some, [], Bytes, length, drop, leb, All,
  arith, number_key, Bool-cases, Option-cases, inl, inr,
}
use stream_flow.Prelude.Action.{ok}
use stream_flow.Dict.{Dict, lookup, insert, IsDistinct}
use stream_flow.Dict.Laws.{insert-IsDistinct}
use stream_flow.File.{write_file}
use stream_flow.Int64.{less}
use stream_flow.Segment.{Segment, Writes, append, persist_indexes}
use stream_flow.Segment.Index.{
  index_bytes, load_offsets, load_times, load_times_loop, first_field, second_field,
}
use stream_flow.Segment.Index.Laws.{IsEntry, All-of-lookup}
use stream_flow.Segment.Index.Reload.{
  HasNext, lookup-load_offsets, load_offsets-IsDistinct, next-load_offsets,
}
use stream_flow.Segment.Invariant.{IsValid}
use stream_flow.Segment.Open.{Files, Call, new_segment}
use stream_flow.Segment.Read.{read_by_offset}
use stream_flow.Segment.ReadBack.{read_known, read_unknown}
use stream_flow.Segment.Record.{LogRecord, Json}

abbrev pub files_of : Segment → Files
files_of s = record { log = s.log; index = s.index; time_index = s.time_index }

abbrev pub no_fault : Call → Bool
no_fault c = false

-- The index files on disk hold the two maps.
abbrev pub HasIndexes : Segment → Type 0
HasIndexes s =
    (s.index ≡ index_bytes s.offsets) × (s.time_index ≡ some (index_bytes s.time_offsets))

persist-HasIndexes :
    (w : Writes) (s : Segment)
    → (persist_indexes w s).1 ≡ ok tt
    → HasIndexes (persist_indexes w s).0
unfolding persist_indexes write_file
persist-HasIndexes w s e = (ground arith, ground arith)

-- After an append that succeeded both index files hold the coding of the maps in memory.
pub append-HasIndexes :
    (json : Json) (w : Writes) (r : LogRecord) (s : Segment) (off : ℕ)
    → (append json w r s).1 ≡ ok off
    → HasIndexes (append json w r s).0
unfolding append write_file
append-HasIndexes json w r s off e = (ground arith, ground arith)

load_times_loop-IsDistinct :
    (fuel : ℕ) (bs : Bytes) (m : Dict ℕ ℕ) → IsDistinct m → IsDistinct (load_times_loop fuel bs m)
unfolding load_times_loop
load_times_loop-IsDistinct zero bs m d = d
load_times_loop-IsDistinct (suc fuel) bs m d = elim (Bool-cases (leb 16 (length bs))) [
  | inl more ↦ rw more (
      load_times_loop-IsDistinct fuel (drop 16 bs) (insert (first_field bs) (second_field bs) m)
        (insert-IsDistinct (first_field bs) (second_field bs) m d))
  | inr end ↦ rw end d
]

load_times-IsDistinct : (bs : Bytes) → IsDistinct (load_times bs [])
unfolding load_times
load_times-IsDistinct bs = load_times_loop-IsDistinct (length bs) bs [] tt

module _ (s : Segment) (v : IsValid s) (indexed : HasIndexes s) where
  -- What `newSegment` makes of the files.
  abbrev pub reopened : Segment
  reopened = record {
    log = s.log;
    index = s.index;
    time_index = s.time_index;
    position = length s.log;
    next_offset = (load_offsets s.index [] 0).1;
    offsets = (load_offsets s.index [] 0).0;
    time_offsets = load_times (index_bytes s.time_offsets) [];
  }

  has_next : All HasNext s.offsets
  has_next =
      All-of-lookup HasNext s.offsets v.distinct (λ k p found.
        (v.patterns k p found, (λ e. ground (arith, v.older k p found, v.next_offset))))

  entries : All IsEntry s.offsets
  entries =
      All-of-lookup IsEntry s.offsets v.distinct
        (λ k p found. (v.patterns k p found, omega (arith, v.frames k p found, v.position)))

  next_past_all :
      ((load_offsets s.index [] 0).1 < 2 ^ 63)
      × ((k p : ℕ) → lookup k s.offsets ≡ some p → less k (load_offsets s.index [] 0).1 ≡ true)
  next_past_all = rw (indexed.0) (next-load_offsets s.offsets v.distinct entries has_next)

  pub lookup-reopened : (off : ℕ) → lookup off reopened.offsets ≡ lookup off s.offsets
  lookup-reopened off = rw (indexed.0) (lookup-load_offsets s.offsets v.distinct entries 0 off)

  pub new_segment-reopened : new_segment no_fault (files_of s) 0 ≡ ok reopened
  unfolding new_segment
  new_segment-reopened = ground (arith, next_past_all.0, indexed.1)

  reopened-IsValid : length s.log < 2 ^ 63 → IsValid reopened
  reopened-IsValid small = record {
    inside = omega arith;
    position = small;
    next_offset = next_past_all.0;
    frames = λ off pos h. omega (arith, v.frames off pos (sym (lookup-reopened off) ∙ h), v.inside);
    older = λ off pos h. next_past_all.1 off pos (sym (lookup-reopened off) ∙ h);
    patterns = λ off pos h. v.patterns off pos (sym (lookup-reopened off) ∙ h);
    distinct = rw (indexed.0) (load_offsets-IsDistinct s.offsets v.distinct entries 0);
    distinct_times = load_times-IsDistinct (index_bytes s.time_offsets);
  }

  reads-reopened :
      (json : Json) (off : ℕ) → read_by_offset json reopened off ≡ read_by_offset json s off
  reads-reopened json off = elim (Option-cases (lookup off s.offsets)) [
    | inl missing ↦
        read_unknown json reopened off (lookup-reopened off ∙ missing)
        ∙ sym (read_unknown json s off missing)
    | inr (pos, found) ↦
        read_known json reopened off pos (lookup-reopened off ∙ found)
        ∙ sym (read_known json s off pos found)
  ]

-- Opening the files of a valid segment whose index files are up to date succeeds, gives a valid
-- segment, and every offset reads from it as it did before.
pub reopen-reads :
    (s : Segment)
    → IsValid s
    → HasIndexes s
    → length s.log < 2 ^ 63
    → (t : Segment) × (new_segment no_fault (files_of s) 0 ≡ ok t)
      × IsValid t
      × ((json : Json) (off : ℕ) → read_by_offset json t off ≡ read_by_offset json s off)
reopen-reads s v indexed small = (
  reopened s v indexed,
  new_segment-reopened s v indexed,
  reopened-IsValid s v indexed small,
  reads-reopened s v indexed,
)
