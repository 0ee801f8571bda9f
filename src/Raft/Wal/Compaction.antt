-- ===== src/Raft/Wal/Compaction.antt =====
-- The entries that compacting keeps.
use stream_flow.Prelude.{
  ℕ, suc, ◌+◌, ◌≡◌, Bool, false, List, [], ◌∷◌, Bytes, All, ltb, arith, Bool-cases, inl, inr,
  if◌then◌else◌,
}
use stream_flow.Prelude.Action.{ok}
use stream_flow.Raft.Entries.{Proto, marshal_entries, unmarshal_entries}
use stream_flow.Raft.Entries.RoundTrip.{RoundTrips, unmarshal-marshal}
use stream_flow.Raft.Wal.{Dir, read_wal, kept, has_indexed, compacted}
use stream_flow.Raft.Wal.Appends.{HoldsLog, read_wal-HoldsLog}

module _ (proto : Proto) where
  open proto use {Entry, index}

  kept-All :
      (indexed : Bool) (at i : ℕ) (es : List Entry)
      → All (RoundTrips proto) es
      → All (RoundTrips proto) (kept proto indexed at i es)
  unfolding kept
  kept-All indexed at i [] h = tt
  kept-All indexed at i (e ∷ es) h =
      elim (Bool-cases (if indexed then ltb at (index e) else ltb at (i + 1))) [
        | inl yes' ↦ rw (yes', kept) (h.0, kept-All indexed at (suc i) es h.1)
        | inr no' ↦ rw (no', kept) (kept-All indexed at (suc i) es h.1)
      ]

  module _ (d : Dir) (log t : Bytes) (es : List Entry) (at : ℕ) (h : HoldsLog d log t)
      (read : unmarshal_entries proto log ≡ ok es) where
    abbrev pub entries_kept : List Entry
    entries_kept = kept proto (has_indexed proto es) at 0 es

    compacted-marshal :
        (b : Bytes)
        → compacted proto false (λ name. false) at d ≡ ok b
        → marshal_entries proto entries_kept ≡ ok b
    unfolding compacted
    compacted-marshal b made =
        let all : read_wal false (λ name. false) 0 d ≡ ok log = read_wal-HoldsLog d log t 0 h in
        ground (arith, all, read)

    -- When the entries in a write-ahead log round-trip through their coding, what compaction makes
    -- for the new file is read back as the entries that are kept.
    pub unmarshal-compacted :
        (b : Bytes)
        → All (RoundTrips proto) es
        → compacted proto false (λ name. false) at d ≡ ok b
        → unmarshal_entries proto b ≡ ok entries_kept
    unmarshal-compacted b fit made =
        unmarshal-marshal proto entries_kept b (kept-All (has_indexed proto es) at 0 es fit)
          (compacted-marshal b made)
