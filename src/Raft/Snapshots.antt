-- ===== src/Raft/Snapshots.antt =====
-- broker/internal/raft/wal.go and checkpoint_scheduler.go: saving a snapshot with its upload to the
-- offload store, and loading the latest one, from the directory or else from that store.
pub mod Restore
use stream_flow.Prelude.{
  ℕ, Bool, true, false, ◌&&◌, ◌||◌, not, Option, none, some, List, [], ◌∷◌, ◌++◌, Bytes, take,
  ascii, bytes_key, same_bytes, if◌then◌else◌,
}
use stream_flow.Prelude.Action.{Result, ok, err}
use stream_flow.Decimal.{print_int64}
use stream_flow.Dict.{lookup, insert}
use stream_flow.File.{Outcome, done, failed}
use stream_flow.Offload.{Offloader}
use stream_flow.Raft.Wal.{
  Dir, Error, read_dir_failed, open_failed, not_exist, content, save_snapshot, snapshot_names,
}
use stream_flow.Sort.{less_bytes}
use stream_flow.Time.{Time, unix_nano}

abbrev pub snapshot_name : Time → Bytes
snapshot_name now = ascii "snapshot." ++ (print_int64 (unix_nano now) ++ ascii ".snap")

abbrev pub snapshots : Bytes
snapshots = ascii "snapshots"

-- How the calls of SaveSnapshot end.
pub record SaveEnds : Type 0 where
  pub open_fails : Bool
  pub copy : Outcome
  pub reopen_fails : Bool

-- How the calls of LoadSnapshot end; `create_fails` and `copy` are of the file for a download.
pub record LoadEnds : Type 0 where
  pub dir_fails : Bool
  pub open_fails : Bool
  pub create_fails : Bool
  pub copy : Outcome
  pub reopen_fails : Bool

-- The loop over the names of the directory, from a blank name on.
unfoldable pub latest_of : Bytes → List Bytes → Bytes
latest_of latest [] = latest
latest_of latest (name ∷ names) =
    latest_of (if same_bytes latest [] || less_bytes latest name then name else latest) names

-- The loop over the keys of the offload store.
unfoldable pub newest_of : Bytes → List Bytes → Bytes
newest_of latest [] = latest
newest_of latest (k ∷ ks) = newest_of (if less_bytes latest k then k else latest) ks

abbrev pub open_file : Bool → Bytes → Dir → Result Error Bytes
open_file fails name d = elim (lookup name d) [
  | none ↦ err not_exist
  | some bs ↦ if fails then err open_failed else ok bs
]

-- What a copy leaves in the file.
abbrev pub copied : Outcome → Bytes → Bytes
copied done bs = bs
copied (failed n) bs = take n bs

-- `has_offload` says whether the storage has the offload store `o`.
module _ (o : Offloader) (has_offload : Bool) where
  open o use {Store}

  -- An upload that fails is passed over.
  unfoldable pub save_offloaded :
      SaveEnds → Time → Bytes → Dir → Store → (Dir × Store) × Result Error Bytes
  save_offloaded e now bs d st =
      let (d', result) = save_snapshot e.open_fails e.copy now bs d in
      let name = snapshot_name now in
      let uploaded = (o.upload snapshots name (content (lookup name d')) st).0 in
      elim result [
        | err f ↦ ((d', st), err f)
        | ok id ↦
            if has_offload && not e.reopen_fails then ((d', uploaded), ok id) else ((d', st), ok id)
      ]

  unfoldable pub download_key : LoadEnds → Bytes → Dir → Store → Dir × Result Error Bytes
  download_key e key d st = elim (o.download snapshots key st) [
    | err f ↦ (d, err not_exist)
    | ok bs ↦
        let d' = insert key (copied e.copy bs) d in
        if e.create_fails then (d, err not_exist) else (d', open_file e.reopen_fails key d')
  ]

  unfoldable pub download_latest : LoadEnds → Dir → Store → Dir × Result Error Bytes
  unfolding download_key newest_of
  download_latest e d st =
      let tried : Dir × Result Error Bytes = elim (o.list snapshots (ascii "snapshot.") st) [
        | err f ↦ (d, err not_exist)
        | ok [] ↦ (d, err not_exist)
        | ok (k ∷ ks) ↦ download_key e (newest_of k (k ∷ ks)) d st
      ] in
      if has_offload then tried else (d, err not_exist)

  unfoldable pub load_snapshot : LoadEnds → Dir → Store → Dir × Result Error Bytes
  unfolding download_latest latest_of
  load_snapshot e d st =
      let found : Dir × Result Error Bytes = elim (latest_of [] (snapshot_names d)) [
        | [] ↦ download_latest e d st
        | c ∷ cs ↦ (d, open_file e.open_fails (c ∷ cs) d)
      ] in
      if e.dir_fails then (d, err read_dir_failed) else found

  -- The ticks of `CheckpointScheduler.Run`, each with the end of its save and what is saved.
  unfoldable pub checkpoints : List (SaveEnds × Time × Bytes) → Dir → Store → Dir × Store
  unfolding save_offloaded
  checkpoints [] d st = (d, st)
  checkpoints ((e, now, bs) ∷ ticks) d st =
      let (d', st') = (save_offloaded e now bs d st).0 in checkpoints ticks d' st'
