-- ===== src/Raft/Snapshots/Restore.antt =====
-- The snapshot that was saved last is the one that is loaded, also when the directory was lost.
use stream_flow.Prelude.{
  ℕ, length-append, ◌≡◌, inl, inr, refl, sym, ap, ◌∙◌, subst, Bool, true, false, ◌&&◌, some, List,
  [], ◌∷◌, Bytes, Bool-cases, ascii, bytes_key, same_bytes, same_bytes_iff, arith, if◌then◌else◌,
}
use stream_flow.Prelude.Action.{Result, ok}
use stream_flow.Decimal.{print_int64}
use stream_flow.Dict.{lookup, insert, keys, contains}
use stream_flow.Dict.Laws.{is_present, contains-keys, lookup-insert, lookup-insert_self, same_refl}
use stream_flow.File.{done}
use stream_flow.Offload.{Offloader, has_prefix}
use stream_flow.Offload.Laws.{Keeps, IsListed, contains-filter}
use stream_flow.Raft.Snapshots.{
  SaveEnds, LoadEnds, snapshots, snapshot_name, latest_of, newest_of, open_file, save_offloaded,
  download_key, download_latest, load_snapshot,
}
use stream_flow.Raft.Wal.{Dir, Error, content, is_snapshot, snapshot_names, save_snapshot}
use stream_flow.Sort.{less_bytes, sort}
use stream_flow.Sort.Laws.{less_bytes-Order, contains-sort}
use stream_flow.Time.{Time, unix_nano}

-- No name of the list is greater.
abbrev pub IsNewest : Bytes → List Bytes → Type 0
IsNewest name names = (k : Bytes) → contains k names ≡ true → less_bytes name k ≡ false

latest_of-newest_of :
    (latest : Bytes) (names : List Bytes) → latest_of latest names ≡ newest_of latest names
unfolding latest_of newest_of less_bytes
latest_of-newest_of latest [] = refl
latest_of-newest_of [] ([] ∷ names) = latest_of-newest_of [] names
latest_of-newest_of [] ((c ∷ cs) ∷ names) = latest_of-newest_of (c ∷ cs) names
latest_of-newest_of (l ∷ ls) (name ∷ names) =
    latest_of-newest_of (if less_bytes (l ∷ ls) name then name else l ∷ ls) names

first : (k : Bytes) (ks : List Bytes) → contains k (k ∷ ks) ≡ true
unfolding contains
first k ks = ground (arith, same_refl k)

second : (k j : Bytes) (ks : List Bytes) → contains j (k ∷ j ∷ ks) ≡ true
unfolding contains
second k j ks = ground (arith, same_refl j)

-- The greatest name is found.
newest_of-newest :
    (name latest : Bytes) (names : List Bytes)
    → contains name (latest ∷ names) ≡ true
    → IsNewest name (latest ∷ names)
    → newest_of latest names ≡ name
unfolding newest_of contains
newest_of-newest name latest [] here newest = ground (arith, here, same_bytes_iff latest name)
newest_of-newest name latest (n ∷ ns) here newest = elim (Bool-cases (less_bytes latest n)) [
  | inl yes' ↦
      rw (yes', newest_of)
        (newest_of-newest name n ns
          (ground (arith, here, yes', same_bytes_iff latest name, newest n (second latest n ns)))
          (λ k h. newest k (ground (arith, h))))
  | inr no' ↦
      rw (no', newest_of)
        (newest_of-newest name latest ns
          (ground (
            arith,
            here,
            no',
            same_bytes_iff n name,
            same_bytes_iff latest name,
            newest latest (first latest (n ∷ ns)),
            less_bytes-Order.connected latest name,
          ))
          (λ k h. newest k (ground (arith, h))))
]

latest_of-newest :
    (name : Bytes) (names : List Bytes)
    → contains name names ≡ true
    → IsNewest name names
    → latest_of [] names ≡ name
unfolding latest_of contains
latest_of-newest name [] here newest = absurd (cc)
latest_of-newest name (n ∷ ns) here newest =
    latest_of-newest_of n ns ∙ newest_of-newest name n ns here newest

-- Any of the first names of a list may be counted again.
again_newest :
    (name k : Bytes) (ks : List Bytes)
    → contains name (k ∷ ks) ≡ true
    → IsNewest name (k ∷ ks)
    → newest_of k (k ∷ ks) ≡ name
unfolding contains
again_newest name k ks here newest =
    newest_of-newest name k (k ∷ ks) (ground (arith, here)) (λ j h. newest j (ground (arith, h)))

contains-snapshot_names :
    (k : Bytes) (d : Dir)
    → contains k (snapshot_names d) ≡ (is_snapshot k && is_present (lookup k d))
contains-snapshot_names k d =
    contains-filter is_snapshot k (sort less_bytes (keys d))
    ∙ ap (λ b. is_snapshot k && b) (contains-sort less_bytes k (keys d) ∙ contains-keys k d)

pub snapshot_name-is_snapshot : (now : Time) → is_snapshot (snapshot_name now) ≡ true
snapshot_name-is_snapshot now =
    ground (arith, length-append (print_int64 (unix_nano now)) (ascii ".snap"))

snapshot_name-has_prefix : (now : Time) → has_prefix (ascii "snapshot.") (snapshot_name now) ≡ true
snapshot_name-has_prefix now =
    ground (arith, length-append (print_int64 (unix_nano now)) (ascii ".snap"))

abbrev pub saves : SaveEnds
saves = record { open_fails = false; copy = done; reopen_fails = false }

abbrev pub loads : LoadEnds
loads = record {
  dir_fails = false;
  open_fails = false;
  create_fails = false;
  copy = done;
  reopen_fails = false;
}

open_file-insert : (name bs : Bytes) (d : Dir) → open_file false name (insert name bs d) ≡ ok bs
open_file-insert name bs d = rw (open_file, lookup-insert_self name bs d) refl

irreflexive : (name : Bytes) → less_bytes name name ≡ false
irreflexive name = ground (arith, less_bytes-Order.asymmetric name name)

latest_of-insert :
    (name bs : Bytes) (d : Dir)
    → is_snapshot name ≡ true
    → IsNewest name (snapshot_names d)
    → latest_of [] (snapshot_names (insert name bs d)) ≡ name
latest_of-insert name bs d fits newest =
    latest_of-newest name (snapshot_names (insert name bs d))
      (ground (arith, listed name, fits, same_refl name))
      (λ k h. ground (
        arith,
        listed k,
        h,
        contains-snapshot_names k d,
        newest k,
        irreflexive name,
        same_bytes_iff name k,
      ))
  where
    listed :
        (k : Bytes)
        → contains k (snapshot_names (insert name bs d))
          ≡ (is_snapshot k && is_present (if same_bytes name k then some bs else lookup k d))
    listed k =
        contains-snapshot_names k (insert name bs d)
        ∙ ap (λ v. is_snapshot k && is_present v) (lookup-insert name k bs d)

load_snapshot-found :
    (o : Offloader) (on : Bool) (d : Dir) (st : o.Store) (c : ℕ) (cs : Bytes)
    → latest_of [] (snapshot_names d) ≡ c ∷ cs
    → load_snapshot o on loads d st ≡ (d, open_file false (c ∷ cs) d)
unfolding load_snapshot
load_snapshot-found o on d st c cs h = rw (load_snapshot, h) refl

load_snapshot-none :
    (o : Offloader) (on : Bool) (d : Dir) (st : o.Store)
    → snapshot_names d ≡ []
    → load_snapshot o on loads d st ≡ download_latest o on loads d st
unfolding load_snapshot latest_of
load_snapshot-none o on d st h =
    let blank : latest_of [] (snapshot_names d) ≡ [] = ap (latest_of []) h in
    rw (load_snapshot, blank) refl

download_latest-listed :
    (o : Offloader) (d : Dir) (st : o.Store) (name : Bytes) (names : List Bytes)
    → o.list snapshots (ascii "snapshot.") st ≡ ok names
    → contains name names ≡ true
    → IsNewest name names
    → download_latest o true loads d st ≡ download_key o true loads name d st
unfolding download_latest contains
download_latest-listed o d st name [] h here newest = absurd (cc)
download_latest-listed o d st name (k ∷ ks) h here newest =
    rw (download_latest, h)
      (ap (λ key. download_key o true loads key d st) (again_newest name k ks here newest))

download_key-kept :
    (o : Offloader) (on : Bool) (name bs : Bytes) (d : Dir) (st : o.Store)
    → o.download snapshots name st ≡ ok bs
    → download_key o on loads name d st ≡ (insert name bs d, ok bs)
unfolding download_key
download_key-kept o on name bs d st h =
    rw (download_key, h) (ap (λ r. (insert name bs d, r)) (open_file-insert name bs d))

module _ (o : Offloader) (now : Time) (bs : Bytes) (d : Dir) (st : o.Store) where
  abbrev pub name : Bytes
  name = snapshot_name now

  abbrev pub saved : (Dir × o.Store) × Result Error Bytes
  saved = save_offloaded o true saves now bs d st

  saved-save_offloaded :
      saved
      ≡ ((insert name bs d, (o.upload snapshots name bs st).0), ok (print_int64 (unix_nano now)))
  unfolding save_offloaded save_snapshot
  saved-save_offloaded =
      ap
        (λ f.
          ((insert name bs d, (o.upload snapshots name f st).0), ok (print_int64 (unix_nano now))))
        (ap content (lookup-insert_self name bs d))

  here_lem :
      IsNewest name (snapshot_names d)
      → load_snapshot o true loads (insert name bs d) saved.0.1 ≡ (insert name bs d, ok bs)
  here_lem newest =
      load_snapshot-found o true (insert name bs d) saved.0.1 _ _
        (latest_of-insert name bs d (snapshot_name-is_snapshot now) newest)
      ∙ ap (λ r. (insert name bs d, r)) (open_file-insert name bs d)

  module _ (keeps : Keeps o) (place : Bytes) (st' : o.Store)
      (uploads : o.upload snapshots name bs st ≡ (st', ok place))
      (last : (k : Bytes)
        → IsListed o snapshots (ascii "snapshot.") k st
        → less_bytes name k ≡ false) where
    -- The keys after the upload.
    listed : IsListed o snapshots (ascii "snapshot.") name st'
    listed =
        keeps.listed snapshots (ascii "snapshot.") name bs place st st' uploads
          (snapshot_name-has_prefix now)

    last_still : IsNewest name listed.names
    last_still k h =
        let i : IsListed o snapshots (ascii "snapshot.") k st' = record {
          names = listed.names;
          listed = listed.listed;
          there = h;
        } in
        elim (keeps.only snapshots (ascii "snapshot.") name bs place k st st' uploads i) [
          | inl e ↦ subst (λ j. less_bytes name j ≡ false) (sym e) (irreflexive name)
          | inr i ↦ last k i
        ]

    lost_lem :
        (lost : Dir)
        → snapshot_names lost ≡ []
        → load_snapshot o true loads lost st' ≡ (insert name bs lost, ok bs)
    lost_lem lost none_there =
        load_snapshot-none o true lost st' none_there
        ∙ download_latest-listed o lost st' name listed.names listed.listed listed.there last_still
        ∙ download_key-kept o true name bs lost st'
            (keeps.kept snapshots name bs place st st' uploads)

    -- After a snapshot was saved without a failure and uploaded, loading gives it back, when no
    -- snapshot in the directory has a greater name; and so it does in a directory without
    -- snapshots, which then holds it, when no snapshot in the offload store had a greater name and
    -- the store keeps what is uploaded.
    pub load_snapshot-save_offloaded :
        (lost : Dir)
        → IsNewest name (snapshot_names d)
        → snapshot_names lost ≡ []
        → (load_snapshot o true loads saved.0.0 saved.0.1 ≡ (saved.0.0, ok bs))
          × (load_snapshot o true loads lost saved.0.1 ≡ (insert name bs lost, ok bs))
    load_snapshot-save_offloaded lost newest none_there =
        let dir : saved.0.0 ≡ insert name bs d = ap (λ r. r.0.0) saved-save_offloaded in
        let store : saved.0.1 ≡ st' =
          ap (λ r. r.0.1) saved-save_offloaded ∙ ap (λ r. r.0) uploads in
        (
          subst (λ q. load_snapshot o true loads q saved.0.1 ≡ (q, ok bs)) (sym dir)
              (here_lem newest),
          ap (load_snapshot o true loads lost) store ∙ lost_lem lost none_there,
        )
