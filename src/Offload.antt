-- ===== src/Offload.antt =====
-- broker/storage/offload.go: the store that snapshots are offloaded to, as an interface, and its
-- implementations by a directory of buckets and by an object store. The names of buckets and keys
-- are plain path elements; the client of the object store is a parameter.
pub mod Laws
use stream_flow.Prelude.{
  ℕ, Bool, true, false, ◌||◌, ◌&&◌, Option, none, some, List, [], ◌∷◌, ◌++◌, Bytes, length, take,
  filter, leb, ascii, bytes_key, same_bytes, if◌then◌else◌,
}
use stream_flow.Prelude.Action.{Result, ok, err}
use stream_flow.Dict.{Dict, lookup, insert, keys}
use stream_flow.File.{Outcome, done, failed}
use stream_flow.Sort.{sort, less_bytes}

pub data OffloadError : Type 0 where
  mkdir_failed create_failed copy_failed open_failed read_dir_failed service_failed : OffloadError

-- `Offloader`; an upload reads its reader to the end.
pub record Offloader : Type 1 where
  pub Store : Type 0
  pub upload : Bytes → Bytes → Bytes → Store → Store × Result OffloadError Bytes
  pub download : Bytes → Bytes → Store → Result OffloadError Bytes
  pub list : Bytes → Bytes → Store → Result OffloadError (List Bytes)

-- The files of each bucket.
abbrev pub Buckets : Type 0
Buckets = Dict Bytes (Dict Bytes Bytes)

-- Which calls of the file system fail.
pub record Faults : Type 0 where
  pub mkdir_fails : Bool
  pub create_fails : Bool
  pub copy : Outcome
  pub open_fails : Bool
  pub read_dir_fails : Bool

abbrev pub files_of : Bytes → Buckets → Dict Bytes Bytes
files_of bucket s = elim (lookup bucket s) [ none ↦ [] | some files ↦ files ]

abbrev pub join : Bytes → Bytes → Bytes
join dir name = dir ++ (ascii "/" ++ name)

abbrev pub has_prefix : Bytes → Bytes → Bool
has_prefix prefix name =
    same_bytes prefix []
    || (leb (length prefix) (length name) && same_bytes (take (length prefix) name) prefix)

module _ (dir : Bytes) (f : Faults) where
  unfoldable pub local_upload :
      Bytes → Bytes → Bytes → Buckets → Buckets × Result OffloadError Bytes
  local_upload bucket key bs s =
      let files = files_of bucket s in
      let copied : Buckets × Result OffloadError Bytes = elim f.copy [
        | done ↦ (insert bucket (insert key bs files) s, ok (join (join dir bucket) key))
        | failed n ↦ (insert bucket (insert key (take n bs) files) s, err copy_failed)
      ] in
      if f.mkdir_fails
      then (s, err mkdir_failed)
      else if f.create_fails
      then (insert bucket files s, err create_failed)
      else copied

  unfoldable pub local_download : Bytes → Bytes → Buckets → Result OffloadError Bytes
  local_download bucket key s = elim (lookup key (files_of bucket s)) [
    | none ↦ err open_failed
    | some bs ↦ if f.open_fails then err open_failed else ok bs
  ]

  unfoldable pub local_list : Bytes → Bytes → Buckets → Result OffloadError (List Bytes)
  local_list bucket prefix s = elim (lookup bucket s) [
    | none ↦ err read_dir_failed
    | some files ↦
        if f.read_dir_fails
        then err read_dir_failed
        else ok (filter (has_prefix prefix) (sort less_bytes (keys files)))
  ]

  abbrev pub local_offloader : Offloader
  local_offloader = record {
    Store = Buckets;
    upload = local_upload;
    download = local_download;
    list = local_list;
  }

-- What is used of the client of the object store: each call with its error, and for an object that
-- was put its key and tag.
pub record ObjectStore : Type 1 where
  pub State : Type 0
  pub bucket_exists : Bytes → State → Option Bool
  pub make_bucket : Bytes → State → State × Bool
  pub put_object : Bytes → Bytes → Bytes → State → State × Option (Bytes × Bytes)
  pub get_object : Bytes → Bytes → State → Option Bytes
  pub list_objects : Bytes → Bytes → State → List (Option Bytes)

-- The keys, or an error when an object comes with one.
unfoldable pub keys_or_error : List Bytes → List (Option Bytes) → Result OffloadError (List Bytes)
keys_or_error out [] = ok out
keys_or_error out (none ∷ os) = err service_failed
keys_or_error out (some key ∷ os) = keys_or_error (out ++ (key ∷ [])) os

module _ (minio : ObjectStore) where
  open minio use {State}

  abbrev pub object_place : Bytes → Bytes × Bytes → Bytes
  object_place bucket (key, tag) =
      ascii "s3://" ++ (bucket ++ (ascii "/" ++ (key ++ (ascii " (etag=" ++ (tag ++ ascii ")")))))

  unfoldable pub put : Bytes → Bytes → Bytes → State → State × Result OffloadError Bytes
  put bucket key bs s =
      let (s', info) = minio.put_object bucket key bs s in
      elim info [ none ↦ (s', err service_failed) | some i ↦ (s', ok (object_place bucket i)) ]

  unfoldable pub s3_upload : Bytes → Bytes → Bytes → State → State × Result OffloadError Bytes
  unfolding put
  s3_upload bucket key bs s = elim (minio.bucket_exists bucket s) [
    | none ↦ (s, err service_failed)
    | some true ↦ put bucket key bs s
    | some false ↦
        let (s', made) = minio.make_bucket bucket s in
        if made then put bucket key bs s' else (s', err service_failed)
  ]

  unfoldable pub s3_download : Bytes → Bytes → State → Result OffloadError Bytes
  s3_download bucket key s = elim (minio.get_object bucket key s) [
    | none ↦ err service_failed
    | some bs ↦ ok bs
  ]

  unfoldable pub s3_list : Bytes → Bytes → State → Result OffloadError (List Bytes)
  unfolding keys_or_error
  s3_list bucket prefix s = keys_or_error [] (minio.list_objects bucket prefix s)

  abbrev pub s3_offloader : Offloader
  s3_offloader = record {
    Store = State;
    upload = s3_upload;
    download = s3_download;
    list = s3_list;
  }
