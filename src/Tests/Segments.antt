-- ===== src/Tests/Segments.antt =====
-- The theorems on segments at concrete inputs.
use stream_flow.Prelude.{
  ℕ, zero, suc, ◌^◌, ◌<◌, ◌≡◌, ◌⊎◌, ◌≢◌, refl, some, [], ◌∷◌, arith, length, take, ap, ◌∙◌,
  get_elem?, drop, number_key,
}
use stream_flow.Prelude.Action.{ok, err}
use stream_flow.Dict.{keys, insert}
use stream_flow.File.{Outcome, Rewrite, write_at, write_file, overwrite}
use stream_flow.Int64.{int64_to_bytes, put_uint32}
use stream_flow.Segment.{Segment, Error, persist_failed, Writes, all_done, append, note_record}
use stream_flow.Segment.Invariant.{IsValid, append-IsValid}
use stream_flow.Segment.Log.{IsLog, append-IsLog, read_range-IsLog, start_of, allowed}
use stream_flow.Segment.Open.{new_segment}
use stream_flow.Segment.Read.{read_by_offset, read_range}
use stream_flow.Segment.ReadBack.{read-append}
use stream_flow.Segment.Record.{Json, LogRecord}
use stream_flow.Segment.Restart.{reopen-reads, files_of, no_fault, append-HasIndexes}
use stream_flow.Tests.Samples.{
  plain, codec, plain_back, empty_segment, plain_room, empty_segment-IsValid, empty_segment-IsLog,
}

abbrev pub rec : LogRecord
rec = plain (7 ∷ 8 ∷ []) 0

abbrev pub after_first : Segment
after_first = (append codec all_done rec empty_segment).0

-- The writes of the payload fail after one byte.
abbrev torn : Writes
torn = record all_done { payload = Outcome.failed 1 }

-- The log and the offset index are written, the time index is not.
abbrev unindexed : Writes
unindexed = record all_done { time_index = Rewrite.cut 3 }

first_stored : (append codec all_done rec empty_segment).1 ≡ ok 0
unfolding append note_record int64_to_bytes write_at write_file
first_stored = refl

torn_fails : (append codec torn rec empty_segment).1 ≡ err Error.write_payload_failed
unfolding append note_record int64_to_bytes write_at write_file
torn_fails = refl

unindexed_fails : (append codec unindexed rec empty_segment).1 ≡ err persist_failed
unfolding append note_record int64_to_bytes write_at write_file
unindexed_fails = refl

append-IsValid_example : IsValid (append codec torn rec empty_segment).0
append-IsValid_example =
    append-IsValid codec torn rec empty_segment empty_segment-IsValid plain_room (omega arith)

after_first-IsValid : IsValid after_first
after_first-IsValid =
    append-IsValid codec all_done rec empty_segment empty_segment-IsValid plain_room (omega arith)

after_first_small : length after_first.log < 2 ^ 63
unfolding append note_record int64_to_bytes put_uint32 write_at write_file overwrite
after_first_small = omega arith

reopen-reads_example :
    (t : Segment) × (new_segment no_fault (files_of after_first) 0 ≡ ok t)
    × IsValid t
    × ((json : Json) (off : ℕ) → read_by_offset json t off ≡ read_by_offset json after_first off)
reopen-reads_example =
    reopen-reads after_first after_first-IsValid
      (append-HasIndexes codec all_done rec empty_segment 0 first_stored) after_first_small

append-IsLog_example :
    (IsLog codec after_first (rec ∷ [])
      × (((append codec all_done rec empty_segment).1 ≡ ok 0)
          ⊎ ((append codec all_done rec empty_segment).1 ≡ err persist_failed)))
    ⊎ (IsLog codec after_first []
        × ((e : Error) × ((append codec all_done rec empty_segment).1 ≡ err e)
            × (e ≢ persist_failed)))
append-IsLog_example =
    append-IsLog codec all_done rec empty_segment [] empty_segment-IsLog plain_room
      (plain_back (7 ∷ 8 ∷ [])) (omega arith)

after_first_stored :
    (i : ℕ) (r : LogRecord)
    → get_elem? (rec ∷ []) i ≡ some r
    → read_by_offset codec after_first i ≡ ok r
after_first_stored zero r h =
    let same : rec ≡ r = cc in
    (read-append codec all_done rec empty_segment 0 empty_segment-IsValid plain_room
      (plain_back (7 ∷ 8 ∷ [])) first_stored).1
    ∙ ap ok same
after_first_stored (suc i) r h = cc

pub after_first-IsLog : IsLog codec after_first (rec ∷ [])
unfolding append note_record int64_to_bytes write_at write_file keys insert
after_first-IsLog = record {
  valid = after_first-IsValid;
  next = refl;
  listed = refl;
  stored = after_first_stored;
}

read_range-IsLog_example :
    read_range codec after_first 0 10 ≡ ok (take (allowed 10) (drop (start_of 0) (rec ∷ [])))
read_range-IsLog_example = read_range-IsLog codec after_first (rec ∷ []) 0 10 after_first-IsLog
