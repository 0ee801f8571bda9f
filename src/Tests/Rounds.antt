-- ===== src/Tests/Rounds.antt =====
-- The theorems on the rounds of a raft node at concrete inputs.
use stream_flow.Prelude.{
  ℕ, zero, suc, ◌<◌, ◌≡◌, ◌^◌, refl, true, false, none, some, List, [], ◌∷◌, ◌++◌, Bytes, All,
  replicate, concat, arith, bytes_key,
}
use stream_flow.Prelude.Action.{ok}
use stream_flow.Prelude.Int.{pos}
use stream_flow.Dict.{lookup, IsDistinct}
use stream_flow.Int64.{int64_to_bytes, bytes_to_int64, put_uint32}
use stream_flow.Int64.Encoding.{bytes_to_int64_to}
use stream_flow.Raft.Entries.{marshal_entries, unmarshal_entries}
use stream_flow.Raft.Entries.RoundTrip.{RoundTrips}
use stream_flow.Raft.Node.Loop.{Coding, print_uint64, stepped, handle_ready}
use stream_flow.Raft.Node.Loop.Messages.{Fits, carried, handle_ready-stepped}
use stream_flow.Raft.Node.Loop.Rounds.{ready_well, handle_ready-read_wal}
use stream_flow.Raft.Wal.{read_wal}
use stream_flow.Tests.Logs.{one_file, one_file-HoldsLog}
use stream_flow.Tests.Rafts.{numbers, numbers-RoundTrips, five_bytes}
use stream_flow.Tests.Restores.{shelf}

-- Messages that are no more than the node they go to.
abbrev notes : Coding
notes = record {
  Message = ℕ;
  to = λ m. m;
  marshal = λ m. some (int64_to_bytes m);
  unmarshal = λ b. some (bytes_to_int64 b);
}

note-Fits : (m : ℕ) → m < 2 ^ 64 → Fits notes m
note-Fits m h = record {
  bytes = int64_to_bytes m;
  made = refl;
  back = cc (bytes_to_int64_to m h);
  id = h;
}

all_fit : (ms : List ℕ) → All (λ m. m < 2 ^ 64) ms → All (Fits notes) ms
all_fit [] h = tt
all_fit (m ∷ ms) h = (note-Fits m h.0, all_fit ms h.1)

handle_ready-stepped_example :
    stepped notes (
      carried
        (print_uint64 2)
        (handle_ready numbers shelf true notes false true none
          (ready_well [] (pos 5) (pos 6))
          (5 ∷ [])
          (1 ∷ 2 ∷ 3 ∷ 2 ∷ [])
          one_file
          []).1)
    ≡ 2 ∷ 2 ∷ []
handle_ready-stepped_example =
    handle_ready-stepped notes 2 (omega arith) numbers shelf true false
      (ready_well [] (pos 5) (pos 6)) (5 ∷ []) (1 ∷ 2 ∷ 3 ∷ 2 ∷ []) one_file []
      (all_fit (1 ∷ 2 ∷ 3 ∷ 2 ∷ []) (omega arith, (omega arith, (omega arith, (omega arith, tt)))))

-- Fifty entries, so that a snapshot is due.
abbrev later : List ℕ
later = replicate 49 5

abbrev batch : Bytes
batch = concat (replicate 50 five_bytes)

All-replicate : (P : ℕ → Type 0) (n x : ℕ) → P x → All P (replicate n x)
All-replicate P zero x h = tt
All-replicate P (suc n) x h = (h, All-replicate P n x h)

marshal_batch : marshal_entries numbers (5 ∷ later) ≡ ok batch
unfolding marshal_entries int64_to_bytes put_uint32
marshal_batch = refl

marshal_all : marshal_entries numbers (5 ∷ 5 ∷ later) ≡ ok (five_bytes ++ batch)
unfolding marshal_entries int64_to_bytes put_uint32
marshal_all = refl

one_file-IsDistinct : IsDistinct one_file
unfolding lookup
one_file-IsDistinct = (refl, tt)

handle_ready-read_wal_example :
    (read_wal false
        (λ name. false)
        0
        (handle_ready numbers shelf true notes false true none
          (ready_well (7 ∷ []) (pos 5) (pos 6))
          (5 ∷ later)
          []
          one_file
          []).0.0
      ≡ ok (five_bytes ++ batch))
    × (unmarshal_entries numbers (five_bytes ++ batch) ≡ ok ((5 ∷ []) ++ (5 ∷ later)))
handle_ready-read_wal_example =
    handle_ready-read_wal numbers shelf true (7 ∷ []) (pos 5) (pos 6) notes true none [] one_file []
      five_bytes batch (5 ∷ []) 5 later one_file-IsDistinct one_file-HoldsLog marshal_batch
      marshal_all (omega arith)
      (All-replicate (RoundTrips numbers) 51 5 (numbers-RoundTrips 5 (omega arith)))
      (All-replicate (λ e. 0 < e) 51 5 (omega arith))
