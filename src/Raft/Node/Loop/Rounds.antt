-- ===== src/Raft/Node/Loop/Rounds.antt =====
-- What the log holds after a round of the loop, with its snapshot and its compaction.
use stream_flow.Prelude.{
  ℕ, ◌<◌, ◌≡◌, inl, inr, refl, sym, ◌∙◌, subst, Bool, true, false, Option, some, List, [], ◌∷◌,
  ◌++◌, Bytes, All, Bool-cases, length, length-append, leb, arith, if◌then◌else◌, bytes_key,
}
use stream_flow.Prelude.Action.{ok}
use stream_flow.Dict.{Dict, insert, IsDistinct}
use stream_flow.Dict.Laws.{insert-IsDistinct}
use stream_flow.Offload.{Offloader}
use stream_flow.Raft.Entries.{Proto, marshal_entries, unmarshal_entries}
use stream_flow.Raft.Entries.RoundTrip.{RoundTrips, unmarshal-marshal}
use stream_flow.Raft.Node.{append_batch, ready_entries, compact_node}
use stream_flow.Raft.Node.Loop.{Coding, ReadyEnds, snapshot_threshold, take_snapshot, handle_ready}
use stream_flow.Raft.Node.Loop.Compacts.{all_well, compact_node-read_wal}
use stream_flow.Raft.Node.Writes.{no_failure, ready_entries-HoldsLog, append_batch_ok}
use stream_flow.Raft.Snapshots.{snapshot_name, save_offloaded}
use stream_flow.Raft.Snapshots.Restore.{saves, snapshot_name-is_snapshot}
use stream_flow.Raft.Wal.{Dir, is_wal, read_wal, append_wal, save_snapshot}
use stream_flow.Raft.Wal.Appends.{HoldsLog, read_wal-HoldsLog}
use stream_flow.Raft.Wal.Files.{is_wal-is_snapshot, read_wal-insert}
use stream_flow.Raft.Wal.Reads.{IsSmall}
use stream_flow.Time.{Time}

abbrev Reads : Dir → Bytes → Type 0
Reads d log = read_wal false (λ name. false) 0 d ≡ ok log

-- Nothing fails: the snapshot is `bs`, saved at `now`; the compaction is at `later`.
abbrev pub ready_well : Bytes → Time → Time → ReadyEnds
ready_well bs now later = record {
  first = no_failure;
  second = no_failure;
  encoded = some bs;
  save = saves;
  now = now;
  compaction = all_well later;
}

snapshot_name-is_wal : (now : Time) → is_wal (snapshot_name now) ≡ false
snapshot_name-is_wal now = elim (Bool-cases (is_wal (snapshot_name now))) [
  | inl yes' ↦
      absurd
        (ground (arith, is_wal-is_snapshot (snapshot_name now) yes', snapshot_name-is_snapshot now))
  | inr no' ↦ no'
]

append_batch-IsDistinct :
    (proto : Proto) (d : Dir) (log : Bytes) (x : proto.Entry) (xs : List proto.Entry) (b : Bytes)
    → HoldsLog d log []
    → marshal_entries proto (x ∷ xs) ≡ ok b
    → IsSmall b
    → IsDistinct d
    → IsDistinct (append_batch proto no_failure (x ∷ xs) d)
unfolding append_wal
append_batch-IsDistinct proto d log x xs b h made small distinct =
    subst (λ q. IsDistinct q) (sym (append_batch_ok proto d log x xs b h made small))
      (insert-IsDistinct _ _ d distinct)

take_snapshot_dir :
    (proto : Proto) (o : Offloader) (has_offload : Bool) (bs : Bytes) (now later : Time) (d : Dir)
    (st : o.Store)
    → (take_snapshot proto o has_offload (ready_well bs now later) d st).0
      ≡ (compact_node proto (all_well later) 0 (insert (snapshot_name now) bs d)).0
unfolding take_snapshot save_offloaded save_snapshot
take_snapshot_dir proto o true bs now later d st = refl
take_snapshot_dir proto o false bs now later d st = refl

in_both : {A : Type 0} {x y : A} (P : A → Type 0) (b : Bool) → P x → P y → P (if b then x else y)
in_both P true p q = p
in_both P false p q = q

module _ (proto : Proto) (o : Offloader) (has_offload : Bool) (bs : Bytes) (now later : Time) where
  module _ (d : Dir) (st : o.Store) (log : Bytes) (es : List proto.Entry) (distinct : IsDistinct d)
      (read : Reads d log) (fit : All (RoundTrips proto) es)
      (positive : All (λ e. 0 < proto.index e) es) (made : marshal_entries proto es ≡ ok log)
      (small : IsSmall log) where
    take_snapshot-read_wal :
        Reads (take_snapshot proto o has_offload (ready_well bs now later) d st).0 log
    take_snapshot-read_wal =
        subst (λ q. Reads q log) (sym (take_snapshot_dir proto o has_offload bs now later d st))
          (compact_node-read_wal proto (insert (snapshot_name now) bs d) log later
            (insert-IsDistinct (snapshot_name now) bs d distinct) es positive
            (read_wal-insert (snapshot_name now) bs d (snapshot_name-is_wal now) ∙ read)
            (unmarshal-marshal proto es log fit made) made small)

  -- A round of the loop of a node whose storage is not persistent, with a batch of entries and
  -- without a failure, on a log that codes entries, leaves a log that is read as the old entries
  -- and then the new ones, also when the batch is large enough for a snapshot and the compaction
  -- after it; the entries round-trip and have positive indices, the files have distinct names, and
  -- the log ends with a whole frame and stays below 2 ^ 32 bytes.
  pub handle_ready-read_wal :
      (c : Coding) (has_transport : Bool) (addrs : Option (Dict ℕ Bytes)) (ms : List c.Message)
      (d : Dir) (st : o.Store) (log b : Bytes) (old : List proto.Entry) (x : proto.Entry)
      (xs : List proto.Entry)
      → IsDistinct d
      → HoldsLog d log []
      → marshal_entries proto (x ∷ xs) ≡ ok b
      → marshal_entries proto (old ++ (x ∷ xs)) ≡ ok (log ++ b)
      → IsSmall (log ++ b)
      → All (RoundTrips proto) (old ++ (x ∷ xs))
      → All (λ e. 0 < proto.index e) (old ++ (x ∷ xs))
      → (read_wal false
            (λ name. false)
            0
            (handle_ready proto o has_offload c false has_transport addrs
              (ready_well bs now later)
              (x ∷ xs)
              ms
              d
              st).0.0
          ≡ ok (log ++ b))
        × (unmarshal_entries proto (log ++ b) ≡ ok (old ++ (x ∷ xs)))
  unfolding handle_ready ready_entries
  handle_ready-read_wal c has_transport addrs ms d st log b old x xs distinct h made all small fit
        positive =
      let fits : IsSmall b = omega (arith, small, length-append log b) in
      let d' = append_batch proto no_failure (x ∷ xs) d in
      let read : Reads d' (log ++ b) =
        read_wal-HoldsLog d' (log ++ b) [] 0
          (ready_entries-HoldsLog proto d log x xs b h made fits false) in
      (
        in_both {A = Dir × o.Store} (λ q. Reads q.0 (log ++ b))
            (leb snapshot_threshold (length (x ∷ xs)))
            (take_snapshot-read_wal d' st (log ++ b) (old ++ (x ∷ xs))
              (append_batch-IsDistinct proto d log x xs b h made fits distinct) read fit positive
              all small)
            read,
        unmarshal-marshal proto (old ++ (x ∷ xs)) (log ++ b) fit all,
      )
