-- ===== src/Raft/Node/Loop.antt =====
-- broker/internal/raft/node.go: the whole start of a node and the whole handling of what the raft
-- library hands out: the entries, the messages to other nodes, and the snapshot after many entries.
-- Messages, their protobuf coding and the JSON of a snapshot are parameters, and what is sent is
-- returned. Setting up tickers and channels and the calls into the library are left out.
pub mod Messages
pub mod Compacts
pub mod Rounds
use stream_flow.Prelude.{
  ℕ, Bool, true, false, ◌&&◌, Option, none, some, List, [], ◌∷◌, Bytes, length, leb, number_key,
  if◌then◌else◌,
}
use stream_flow.Prelude.Action.{Result, ok, err}
use stream_flow.Decimal.{digits}
use stream_flow.Dict.{Dict, lookup}
use stream_flow.Offload.{Offloader}
use stream_flow.Raft.Entries.{Proto}
use stream_flow.Raft.Node.{Ends, CompactEnds, start, ready_entries, compact_node}
use stream_flow.Raft.Snapshots.{SaveEnds, LoadEnds, save_offloaded, load_snapshot}
use stream_flow.Raft.Wal.{Dir, Error}
use stream_flow.Time.{Time}

-- The library's messages and their coding.
pub record Coding : Type 1 where
  pub Message : Type 0
  pub to : Message → ℕ
  pub marshal : Message → Option Bytes
  pub unmarshal : Bytes → Option Message

-- `fmt.Sprintf("%d", n)` of a uint64.
abbrev pub print_uint64 : ℕ → Bytes
print_uint64 n = digits 20 n

-- The address of a node; `addrs` is none where the map is nil.
unfoldable pub address_of : Option (Dict ℕ Bytes) → ℕ → Bytes
address_of none to = print_uint64 to
address_of (some addrs) to = elim (lookup to addrs) [ none ↦ print_uint64 to | some addr ↦ addr ]

module _ (c : Coding) where
  open c use {Message}

  -- What is sent, with its addresses.
  unfoldable pub outbox : Option (Dict ℕ Bytes) → List Message → List (Bytes × Bytes)
  unfolding address_of
  outbox addrs [] = []
  outbox addrs (m ∷ ms) = elim (c.marshal m) [
    | none ↦ outbox addrs ms
    | some b ↦ (address_of addrs (c.to m), b) ∷ outbox addrs ms
  ]

  -- The messages that the loop over the channel of a node steps its raft with.
  unfoldable pub stepped : List Bytes → List Message
  stepped [] = []
  stepped (b ∷ bs) = elim (c.unmarshal b) [ none ↦ stepped bs | some m ↦ m ∷ stepped bs ]

-- How the calls of one round of the loop end: the two appends, the encoding of the snapshot with
-- its result, saving it at a time, and compacting.
pub record ReadyEnds : Type 0 where
  pub first : Ends
  pub second : Ends
  pub encoded : Option Bytes
  pub save : SaveEnds
  pub now : Time
  pub compaction : CompactEnds

abbrev pub snapshot_threshold : ℕ
snapshot_threshold = 50

-- The snapshot that the memory is given at the start.
abbrev pub restored : Result Error Bytes → Option Bytes
restored (err e) = none
restored (ok []) = none
restored (ok (c ∷ cs)) = some (c ∷ cs)

module _ (proto : Proto) (o : Offloader) (has_offload : Bool) where
  open proto use {Entry}
  open o use {Store}

  -- The directory after the start of a node, the snapshot and the entries that its memory is given,
  -- and whether its storage is persistent.
  unfoldable pub start_node :
      LoadEnds → Bool → (Bytes → Bool) → Ends → Dir → Store → Dir × Option Bytes × List Entry × Bool
  start_node l dir_fails fails e d st =
      let (d', snapshot) = load_snapshot o has_offload l d st in
      let (d'', entries, persistent) = start proto dir_fails fails e d' in
      (d'', restored snapshot, entries, persistent)

  unfoldable pub take_snapshot : ReadyEnds → Dir → Store → Dir × Store
  take_snapshot e d st = elim e.encoded [
    | none ↦ (d, st)
    | some bs ↦
        let (after, result) = save_offloaded o has_offload e.save e.now bs d st in
        elim result [
          | err f ↦ after
          | ok id ↦ ((compact_node proto e.compaction 0 after.0).0, after.1)
        ]
  ]

  -- One round of the loop, on a node whose store is the write-ahead log: the files after it, and
  -- what was sent.
  unfoldable pub handle_ready :
      (c : Coding)
      → Bool
      → Bool
      → Option (Dict ℕ Bytes)
      → ReadyEnds
      → List Entry
      → List c.Message
      → Dir
      → Store
      → (Dir × Store) × List (Bytes × Bytes)
  unfolding take_snapshot outbox
  handle_ready c persistent has_transport addrs e entries messages d st =
      let d' = ready_entries proto persistent e.first e.second entries d in
      let after =
        if leb snapshot_threshold (length entries) then take_snapshot e d' st else (d', st) in
      (after, if has_transport then outbox c addrs messages else [])
