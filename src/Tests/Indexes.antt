-- ===== src/Tests/Indexes.antt =====
-- The sparse index at concrete entries.
use stream_flow.Prelude.{◌≡◌, refl, some, false, [], ◌∷◌, ◌++◌, arith, number_key}
use stream_flow.Prelude.Action.{ok}
use stream_flow.Dict.{lookup}
use stream_flow.Int64.{int64_to_bytes}
use stream_flow.Segment.Index.{encode_entries}
use stream_flow.Broker.SparseIndex.{SparseMmapIndex, open_sparse_index, find}
use stream_flow.Broker.SparseIndex.Memory.{Holds, Appended, append_entry-Holds}
use stream_flow.Broker.SparseIndex.Reopening.{zeros, until_zero, open_sparse_index-until_zero}

abbrev one_entry : SparseMmapIndex
one_entry = record { memory = encode_entries ((3, 9) ∷ []) ++ zeros 16; entries = 1 }

one_entry-Holds : Holds one_entry ((3, 9) ∷ []) (zeros 16)
one_entry-Holds = record { memory = refl; entries = refl; valid = (omega arith, tt) }

append_entry-Holds_example : Appended one_entry ((3, 9) ∷ []) (zeros 16) (4, 20)
append_entry-Holds_example =
    append_entry-Holds one_entry ((3, 9) ∷ []) (zeros 16) (4, 20) one_entry-Holds (omega arith)

open_sparse_index-until_zero_example :
    (open_sparse_index (λ step. false) one_entry.memory 2 ≡ (one_entry.memory, ok one_entry))
    × (find 3 one_entry ≡ some 9)
unfolding lookup encode_entries int64_to_bytes
open_sparse_index-until_zero_example =
    open_sparse_index-until_zero one_entry ((3, 9) ∷ []) 16 2 one_entry-Holds refl (omega arith)
      (omega arith) 3

-- An index of the first record of a log, at offset 0 and position 0, is lost on reopening.
first_record_lost : until_zero ((0, 0) ∷ (4, 20) ∷ []) ≡ []
first_record_lost = refl
