-- ===== src/Raft/Wal.antt =====
-- broker/internal/raft/wal.go: the write-ahead log and the snapshots, files of one directory. The
-- directory is taken to hold no directories.
pub mod Reads
pub mod Appends
pub mod Compaction
pub mod Files
use stream_flow.Prelude.{
  ℕ, zero, suc, ◌+◌, ◌-◌, ◌%◌, ◌^◌, ◌≡◌, Bool, true, false, ◌&&◌, ◌||◌, not, Option, none, some,
  List, [], ◌∷◌, ◌++◌, Bytes, length, take, drop, filter, any, ltb, leb, ascii, bytes_key,
  same_bytes, if◌then◌else◌,
}
use stream_flow.Prelude.Action.{Result, ok, err}
use stream_flow.Decimal.{print_int64}
use stream_flow.Dict.{Dict, lookup, insert, delete, keys}
use stream_flow.File.{Outcome, done, failed}
use stream_flow.Int64.{put_uint32, get_uint32}
use stream_flow.Sort.{sort, less_bytes}
use stream_flow.Time.{Time, unix_nano}
use stream_flow.Raft.Entries.{Proto, marshal_entries, unmarshal_entries}
use stream_flow.Raft.Entries

abbrev pub Dir : Type 0
Dir = Dict Bytes Bytes

pub data Error : Type 0 where
  open_failed write_failed rename_failed read_dir_failed read_file_failed not_exist : Error
  entries_error : Entries.Error → Error

abbrev pub wal_log : Bytes
wal_log = ascii "wal.log"

abbrev pub is_wal : Bytes → Bool
is_wal name =
    same_bytes name wal_log || (ltb 4 (length name) && same_bytes (take 4 name) (ascii "wal."))

abbrev pub is_snapshot : Bytes → Bool
is_snapshot name = ltb 9 (length name) && same_bytes (take 9 name) (ascii "snapshot.")

-- A file that is not there yet is empty once it is opened.
abbrev pub content : Option Bytes → Bytes
content none = []
content (some file) = file

abbrev pub header : Bytes → Bytes
header entries = put_uint32 (length entries % 2 ^ 32)

-- The two writes at the end of an open file: what it holds then, and whether both succeeded.
unfoldable pub write_frame : Outcome → Outcome → Bytes → Bytes → Bytes × Bool
write_frame (failed n) w entries file = (file ++ take n (header entries), false)
write_frame done (failed n) entries file = (file ++ (header entries ++ take n entries), false)
write_frame done done entries file = (file ++ (header entries ++ entries), true)

abbrev pub written_or : Bool → Result Error (Unit {0})
written_or true = ok tt
written_or false = err write_failed

unfoldable pub append_wal : Bool → Outcome → Outcome → Bytes → Dir → Dir × Result Error (Unit {0})
append_wal open_fails w1 w2 entries d =
    let (file, success) = write_frame w1 w2 entries (content (lookup wal_log d)) in
    if open_fails then (d, err open_failed) else (insert wal_log file d, written_or success)

-- The payloads of the frames of a file, up to one that is cut. Each round takes four bytes.
unfoldable pub scan_frames : ℕ → Bytes → Bytes
scan_frames zero b = []
scan_frames (suc fuel) b =
    let l = get_uint32 (take 4 b) in
    let body = drop 4 b in
    let rest = scan_frames fuel (drop l body) in
    if ltb (length b) 4 then [] else if ltb (length body) l then [] else take l body ++ rest

abbrev pub scan_file : Bytes → Bytes
scan_file b = scan_frames (length b) b

-- The files of the log, in the order in which they are read.
abbrev pub wal_names : Dir → List Bytes
wal_names d = sort less_bytes (filter is_wal (keys d))

-- `fails` says which files cannot be read.
unfoldable pub read_files : (Bytes → Bool) → Dir → Bytes → List Bytes → Result Error Bytes
read_files fails d out [] = ok out
read_files fails d out (name ∷ names) =
    let rest = read_files fails d (out ++ scan_file (content (lookup name d))) names in
    if fails name then err read_file_failed else rest

abbrev pub slice : ℕ → Result Error Bytes → Result Error Bytes
slice from (err e) = err e
slice from (ok out) = if leb (length out) from then ok [] else ok (drop from out)

-- `fromIndex` counts bytes.
unfoldable pub read_wal : Bool → (Bytes → Bool) → ℕ → Dir → Result Error Bytes
unfolding read_files
read_wal dir_fails fails from d =
    if dir_fails then err read_dir_failed else slice from (read_files fails d [] (wal_names d))

abbrev pub rotated_name : Time → Bytes
rotated_name now = ascii "wal." ++ (print_int64 (unix_nano now) ++ ascii ".log")

unfoldable pub rotate_wal : Bool → Bool → Time → Dir → Dir × Result Error (Unit {0})
rotate_wal rename_fails create_fails now d = elim (lookup wal_log d) [
  | none ↦ (d, ok tt)
  | some file ↦
      let moved = insert (rotated_name now) file (delete wal_log d) in
      if rename_fails
      then (d, err rename_failed)
      else if create_fails
      then (moved, err open_failed)
      else (insert wal_log [] moved, ok tt)
]

-- `os.Remove` of some files, its errors dropped.
unfoldable pub remove_all : (Bytes → Bool) → List Bytes → Dir → Dir
remove_all fails [] d = d
remove_all fails (name ∷ names) d = remove_all fails names (if fails name then d else delete name d)

abbrev pub snapshot_names : Dir → List Bytes
snapshot_names d = filter is_snapshot (sort less_bytes (keys d))

-- `keep` is not negative.
unfoldable pub purge_old_snapshots : Bool → (Bytes → Bool) → ℕ → Dir → Dir × Result Error (Unit {0})
unfolding remove_all
purge_old_snapshots dir_fails remove_fails keep d =
    let names = snapshot_names d in
    if dir_fails
    then (d, err read_dir_failed)
    else if leb (length names) keep
    then (d, ok tt)
    else (remove_all remove_fails (take (length names - keep) names) d, ok tt)

unfoldable pub save_snapshot : Bool → Outcome → Time → Bytes → Dir → Dir × Result Error Bytes
save_snapshot open_fails w now bs d =
    let id = print_int64 (unix_nano now) in
    let path = ascii "snapshot." ++ (id ++ ascii ".snap") in
    let saved : Dir × Result Error Bytes = elim w [
      | done ↦ (insert path bs d, ok id)
      | failed n ↦ (insert path (take n bs) d, err write_failed)
    ] in
    if open_fails then (d, err open_failed) else saved

module _ (proto : Proto) where
  open proto use {Entry, index}

  -- What `Compact` keeps of the entries, `i` the place of the first.
  unfoldable pub kept : Bool → ℕ → ℕ → List Entry → List Entry
  kept indexed at i [] = []
  kept indexed at i (e ∷ es) =
      let rest = kept indexed at (suc i) es in
      if (if indexed then ltb at (index e) else ltb at (i + 1)) then e ∷ rest else rest

  abbrev pub has_indexed : List Entry → Bool
  has_indexed es = any (λ e. ltb 0 (index e)) es

  abbrev pub is_rotated : Bytes → Bool
  is_rotated name = not (same_bytes name wal_log) && same_bytes (take 4 name) (ascii "wal.")

  -- The file is made empty before the writes; `list_fails` is an error of the last ReadDir, which
  -- is dropped.
  unfoldable pub rewrite_wal :
      Bool → Outcome → Outcome → Bool → (Bytes → Bool) → Bytes → Dir → Dir × Result Error (Unit {0})
  unfolding remove_all
  rewrite_wal open_fails w1 w2 list_fails remove_fails b d =
      let (file, success) = write_frame w1 w2 b [] in
      let d' = insert wal_log file d in
      let rotated = filter is_rotated (sort less_bytes (keys d')) in
      if open_fails
      then (d, err open_failed)
      else if not success
      then (d', err write_failed)
      else if list_fails
      then (d', ok tt)
      else (remove_all remove_fails rotated d', ok tt)

  -- The entries that are kept, coded.
  unfoldable pub compacted : Bool → (Bytes → Bool) → ℕ → Dir → Result Error Bytes
  unfolding kept
  compacted dir_fails fails at d = elim (read_wal dir_fails fails 0 d) [
    | err e ↦ err e
    | ok bs ↦ elim (unmarshal_entries proto bs) [
      | err e ↦ err (entries_error e)
      | ok es ↦ elim (marshal_entries proto (kept (has_indexed es) at 0 es)) [
        | err e ↦ err (entries_error e)
        | ok b ↦ ok b
      ]
    ]
  ]

  unfoldable pub compact :
      Bool
      → (Bytes → Bool)
      → Bool
      → Outcome
      → Outcome
      → Bool
      → (Bytes → Bool)
      → ℕ
      → Dir
      → Dir × Result Error (Unit {0})
  unfolding compacted rewrite_wal
  compact dir_fails fails open_fails w1 w2 list_fails remove_fails at d =
      elim (compacted dir_fails fails at d) [
        | err e ↦ (d, err e)
        | ok b ↦ rewrite_wal open_fails w1 w2 list_fails remove_fails b d
      ]
