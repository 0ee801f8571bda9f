-- ===== src/Segment/Open.antt =====
-- broker/types.go: opening a segment and loading its indexes.
use stream_flow.Prelude.{ℕ, Bool, Option, none, some, [], Bytes, length, if◌then◌else◌}
use stream_flow.Prelude.Action.{Result, ok, err}
use stream_flow.Int64.{less}
use stream_flow.Segment.{Segment, Error, create_failed, load_failed}
use stream_flow.Segment.Index.{load_offsets, load_times}
use stream_flow.Segment.Read.{◌>>=◌, ◌>>◌}

-- What a segment's directory holds. A log and an index that are not there yet are empty, as opening
-- creates them so.
pub record Files : Type 0 where
  pub log : Bytes
  pub index : Bytes
  pub time_index : Option Bytes

pub data Call : Type 0 where
  make_dir open_log stat_log open_index read_index read_time_index : Call

guard : Bool → Error → Result Error (Unit {0})
guard Bool.true e = err e
guard Bool.false e = ok tt

unfoldable pub load_time_index : Bool → Option Bytes → Segment → Result Error Segment
load_time_index fails none s = if fails then err load_failed else ok s
load_time_index fails (some file) s =
    if fails
    then err load_failed
    else ok (record s { time_offsets = load_times file s.time_offsets })

-- `loadIndexes`; `fails` says which calls return an error.
unfoldable pub load_indexes : (Call → Bool) → Segment → Result Error Segment
unfolding load_time_index guard
load_indexes fails s = do
  guard (fails Call.read_index) load_failed
  let (offsets, next) = load_offsets s.index s.offsets s.next_offset
  load_time_index (fails Call.read_time_index) s.time_index
      (record s { offsets = offsets; next_offset = next })

unfoldable pub new_segment : (Call → Bool) → Files → ℕ → Result Error Segment
unfolding load_indexes
new_segment fails files start = do
  guard (fails Call.make_dir) create_failed
  guard (fails Call.open_log) create_failed
  guard (fails Call.stat_log) create_failed
  guard (fails Call.open_index) create_failed
  s ← load_indexes fails (record {
    log = files.log;
    index = files.index;
    time_index = files.time_index;
    position = length files.log;
    next_offset = start;
    offsets = [];
    time_offsets = [];
  })
  ok (if less s.next_offset start then record s { next_offset = start } else s)
