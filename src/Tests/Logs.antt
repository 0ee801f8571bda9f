-- ===== src/Tests/Logs.antt =====
-- The write-ahead log at concrete inputs.
use stream_flow.Prelude.{◌≡◌, refl, false, [], ◌∷◌, ◌++◌, ascii, arith, bytes_key}
use stream_flow.Prelude.Action.{ok}
use stream_flow.Dict.{lookup, keys, contains}
use stream_flow.File.{done, failed}
use stream_flow.Int64.{put_uint32, get_uint32}
use stream_flow.Sort.{sort}
use stream_flow.Raft.Entries.{unmarshal_entries}
use stream_flow.Raft.Entries.RoundTrip.{unmarshal-marshal}
use stream_flow.Raft.Wal.{Dir}
use stream_flow.Raft.Wal.Reads.{in_header, frames}
use stream_flow.Raft.Wal.Appends.{HoldsLog, Appended, append_wal-HoldsLog}
use stream_flow.Raft.Node.Writes.{started, start-HoldsLog}
use stream_flow.Tests.Rafts.{numbers, numbers-RoundTrips, five_bytes, marshal_five}

abbrev pub one_file : Dir
one_file = (ascii "wal.log", frames (five_bytes ∷ [])) ∷ []

pub one_file-HoldsLog : HoldsLog one_file five_bytes []
unfolding lookup keys contains sort put_uint32 get_uint32
one_file-HoldsLog = record {
  old = [];
  payloads = five_bytes ∷ [];
  names = refl;
  other = refl;
  found = refl;
  small = (omega arith, tt);
  tail = in_header [] (omega arith);
  holds = refl;
}

append_wal-HoldsLog_example :
    Appended one_file five_bytes one_file-HoldsLog false done (failed 1) (7 ∷ 8 ∷ [])
append_wal-HoldsLog_example =
    append_wal-HoldsLog one_file five_bytes one_file-HoldsLog false done (failed 1) (7 ∷ 8 ∷ [])
      (omega arith) tt (omega arith)

five_read : unmarshal_entries numbers five_bytes ≡ ok (5 ∷ [])
five_read =
    unmarshal-marshal numbers (5 ∷ []) five_bytes (numbers-RoundTrips 5 (omega arith), tt)
      marshal_five

start-HoldsLog_example :
    ((started numbers one_file five_bytes 5 [] one_file-HoldsLog
        (numbers-RoundTrips 5 (omega arith), tt)
        marshal_five
        (omega arith)).1
      ≡ 5 ∷ [])
    × HoldsLog
        (started numbers one_file five_bytes 5 [] one_file-HoldsLog
          (numbers-RoundTrips 5 (omega arith), tt)
          marshal_five
          (omega arith)).0
        (five_bytes ++ five_bytes)
        []
    × (unmarshal_entries numbers (five_bytes ++ five_bytes) ≡ ok (5 ∷ 5 ∷ []))
start-HoldsLog_example =
    start-HoldsLog numbers one_file five_bytes 5 [] one_file-HoldsLog
      (numbers-RoundTrips 5 (omega arith), tt) marshal_five (omega arith)
