-- ===== src/Raft/Node.antt =====
-- broker/internal/raft/node.go and persistent_mem.go: what a node writes to the write-ahead log, when
-- it starts and with each batch of entries that the raft library hands out. The library's memory
-- storage is left out: what it is given is returned.
pub mod Writes
pub mod Loop
use stream_flow.Prelude.{ℕ, Bool, true, false, List, [], ◌∷◌, Bytes, if◌then◌else◌}
use stream_flow.Prelude.Action.{Result, ok, err, Action, ◌>>◌}
use stream_flow.File.{Outcome}
use stream_flow.Raft.Entries.{Proto, marshal_entries, unmarshal_entries}
use stream_flow.Raft.Wal.{
  Dir, Error, entries_error, read_wal, append_wal, compact, rotate_wal, purge_old_snapshots,
}
use stream_flow.Time.{Time}

-- How the calls of one append end.
pub record Ends : Type 0 where
  pub open_fails : Bool
  pub head : Outcome
  pub body : Outcome

abbrev pub append_with : Ends → Bytes → Dir → Dir × Result Error (Unit {0})
append_with e b d = append_wal e.open_fails e.head e.body b d

-- How the calls of `Node.Compact` end.
pub record CompactEnds : Type 0 where
  pub dir_fails : Bool
  pub read_fails : Bytes → Bool
  pub writes : Ends
  pub list_fails : Bool
  pub remove_fails : Bytes → Bool
  pub rename_fails : Bool
  pub create_fails : Bool
  pub now : Time
  pub purge_dir_fails : Bool
  pub purge_fails : Bytes → Bool

module _ (proto : Proto) where
  open proto use {Entry}

  -- `persistentMemory.Append` but for the memory behind it.
  unfoldable pub persistent_append : Ends → List Entry → Dir → Dir × Result Error (Unit {0})
  persistent_append e [] d = (d, ok tt)
  persistent_append e (x ∷ xs) d = elim (marshal_entries proto (x ∷ xs)) [
    | err f ↦ (d, err (entries_error f))
    | ok b ↦ append_with e b d
  ]

  -- What the start of a node does with the log that it read: the directory after it, the entries
  -- put in memory, and whether the storage is persistent from then on.
  unfoldable pub recover : Ends → Result Error Bytes → Dir → Dir × List Entry × Bool
  unfolding persistent_append
  recover e (err f) d = (d, [], false)
  recover e (ok []) d = (d, [], false)
  recover e (ok (c ∷ cs)) d = elim (unmarshal_entries proto (c ∷ cs)) [
    | err f ↦ (d, [], false)
    | ok [] ↦ (d, [], false)
    | ok (x ∷ xs) ↦
        let (d', result) = persistent_append e (x ∷ xs) d in
        elim result [ ok done ↦ (d', x ∷ xs, true) | err f ↦ (d', [], true) ]
  ]

  unfoldable pub start : Bool → (Bytes → Bool) → Ends → Dir → Dir × List Entry × Bool
  unfolding recover
  start dir_fails fails e d = recover e (read_wal dir_fails fails 0 d) d

  -- The append of the node's loop itself, its errors dropped.
  unfoldable pub append_batch : Ends → List Entry → Dir → Dir
  append_batch e es d = elim (marshal_entries proto es) [ err f ↦ d | ok b ↦ (append_with e b d).0 ]

  -- What the loop does with the entries of a batch.
  unfoldable pub ready_entries : Bool → Ends → Ends → List Entry → Dir → Dir
  unfolding append_batch persistent_append
  ready_entries persistent e e' [] d = d
  ready_entries persistent e e' (x ∷ xs) d =
      let d' = append_batch e (x ∷ xs) d in
      if persistent then (persistent_append e' (x ∷ xs) d').0 else d'

  -- On a node whose store is the write-ahead log.
  unfoldable pub compact_node : CompactEnds → ℕ → Action Dir Error (Unit {0})
  compact_node c at =
      compact proto c.dir_fails c.read_fails c.writes.open_fails c.writes.head c.writes.body
        c.list_fails c.remove_fails at
      >> (rotate_wal c.rename_fails c.create_fails c.now
          >> purge_old_snapshots c.purge_dir_fails c.purge_fails 2)
