-- ===== src/Tests/Restores.antt =====
-- The theorem on restoring snapshots at a concrete input.
use stream_flow.Prelude.{◌≡◌, refl, true, false, [], ◌∷◌, ◌++◌, Bytes, ascii, bytes_key}
use stream_flow.Prelude.Action.{ok}
use stream_flow.Prelude.Int.{pos}
use stream_flow.Dict.{lookup, insert, keys, contains}
use stream_flow.File.{done}
use stream_flow.Offload.{Faults, Offloader, Buckets, local_upload, local_list, local_offloader}
use stream_flow.Offload.Laws.{IsListed, local_offloader-Keeps}
use stream_flow.Raft.Snapshots.{snapshots, snapshot_name, load_snapshot}
use stream_flow.Raft.Snapshots.Restore.{load_snapshot-save_offloaded, loads, saved, IsNewest}
use stream_flow.Raft.Wal.{snapshot_names}
use stream_flow.Sort.{less_bytes, sort}

abbrev no_fault : Faults
no_fault = record {
  mkdir_fails = false;
  create_fails = false;
  copy = done;
  open_fails = false;
  read_dir_fails = false;
}

abbrev pub shelf : Offloader
shelf = local_offloader (ascii "/off") no_fault

abbrev state : Bytes
state = 1 ∷ 2 ∷ 3 ∷ []

abbrev snapshot : Bytes
snapshot = snapshot_name (pos 5)

abbrev kept : Buckets
kept = insert snapshots (insert snapshot state []) []

shelved :
    local_upload (ascii "/off") no_fault snapshots snapshot state []
    ≡ (kept, ok (ascii "/off/snapshots/" ++ snapshot))
unfolding local_upload lookup
shelved = refl

nothing_listed :
    (k : Bytes) → IsListed shelf snapshots (ascii "snapshot.") k [] → less_bytes snapshot k ≡ false
unfolding local_list lookup
nothing_listed k i = absurd (cc)

nothing_newer : IsNewest snapshot (snapshot_names [])
unfolding keys sort contains
nothing_newer k h = absurd (cc)

none_there : snapshot_names [] ≡ []
unfolding keys sort
none_there = refl

load_snapshot-save_offloaded_example :
    (load_snapshot shelf true loads
        (saved shelf (pos 5) state [] []).0.0
        (saved shelf (pos 5) state [] []).0.1
      ≡ ((saved shelf (pos 5) state [] []).0.0, ok state))
    × (load_snapshot shelf true loads [] (saved shelf (pos 5) state [] []).0.1
        ≡ (insert snapshot state [], ok state))
load_snapshot-save_offloaded_example =
    load_snapshot-save_offloaded shelf (pos 5) state [] []
      (local_offloader-Keeps (ascii "/off") no_fault refl refl)
      (ascii "/off/snapshots/" ++ snapshot) kept shelved nothing_listed [] nothing_newer none_there
